-- ===== src/Lexer/Progress/Templates.antt =====
-- The scanner of templates gives no byte back, whatever the inner lexer makes of an expression.
use ez_language.Prelude.{
  ℕ, zero, suc, ◌≤◌, Bool, true, false, List, [], ◌∷◌, ◌++◌, arith, length, ◌⊎◌, inl, inr,
  Bool-cases, Option, none, some,
}
use ez_language.Bytes.{Byte}
use ez_language.Lexer.State.{Lexer, advance, error_at, peek, ◌>>=◌}
use ez_language.Lexer.Templates.{
  Part, plain, expr, Scanned, inner_step, inner_loop, expr_step, expr_loop, brace_depth, end_expr,
  template_escaped, template_step, template_loop, push, has_expr, emit_inner, emit_part, emit_parts,
  emit_template, end_template, scan_interpolated_string,
}
use ez_language.Lexer.Progress.{left, advance-left}
use ez_language.Lexer.Progress.Words.{AtMost, AtMost-mono}
use ez_language.Lexer.Progress.Strings.{Within, Within-mono, unless_returned-Within}

inner_step-left : (c : Byte) (v : List Byte) (s : Lexer) → left (inner_step c v s).1 ≤ left s
unfolding inner_step
inner_step-left c v s = ground (arith, advance-left s)

inner_loop-left :
    (fuel : ℕ) (q : Byte) (v : List Byte) (s : Lexer) → left (inner_loop fuel q v s).1 ≤ left s
unfolding inner_loop
inner_loop-left zero q v s = omega arith
inner_loop-left (suc fuel) q v s = ground (
  arith,
  inner_loop-left fuel q (inner_step (peek s) v (advance s)).0
      (inner_step (peek s) v (advance s)).1,
  inner_step-left (peek s) v (advance s),
  advance-left s,
)

expr_step-left : (v : List Byte) (s : Lexer) → left (expr_step v s).1 ≤ left s
unfolding expr_step
expr_step-left v s =
    ground (
      arith,
      inner_loop-left (length s.rest) (peek s) (v ++ peek s ∷ []) (advance s),
      advance-left s,
    )

expr_loop-left :
    (fuel depth : ℕ) (v : List Byte) (s : Lexer) → left (expr_loop fuel depth v s).1 ≤ left s
unfolding expr_loop
expr_loop-left zero depth v s = omega arith
expr_loop-left (suc fuel) depth v s = ground (
  arith,
  expr_loop-left fuel (brace_depth (peek s) depth) (expr_step v s).0 (expr_step v s).1,
  expr_step-left v s,
)

abbrev state : Scanned → Lexer
state t = t.lexer

end_expr-left :
    (line column : ℕ) (ps : List Part) (v : List Byte) (s : Lexer)
    → Within state (left s) (end_expr line column ps (v, s))
unfolding end_expr error_at
end_expr-left line column ps v s = ground (arith, advance-left s)

template_escaped-left :
    (line column : ℕ) (t : Scanned) → Within state (left t.lexer) (template_escaped line column t)
unfolding template_escaped error_at
template_escaped-left line column t = ground (arith, advance-left t.lexer)

end_expr_mono :
    (line column : ℕ) (ps : List Part) (t : List Byte × Lexer) (n : ℕ)
    → left t.1 ≤ n
    → Within state n (end_expr line column ps t)
end_expr_mono line column ps t n h =
    Within-mono state (left t.1) n _ h (end_expr-left line column ps t.0 t.1)

template_step-left :
    (line column : ℕ) (t : Scanned) → Within state (left t.lexer) (template_step line column t)
unfolding template_step
template_step-left line column t = ground (
  arith,
  Within-mono state (left (advance t.lexer)) (left t.lexer) _ (omega (arith, advance-left t.lexer))
      (template_escaped-left line column (record t { lexer = advance t.lexer })),
  end_expr_mono line column (t.parts ++ plain t.current ∷ [])
      (expr_loop (length t.lexer.rest) 1 [] (advance t.lexer)) (left t.lexer)
      (omega
        (arith, expr_loop-left (length t.lexer.rest) 1 [] (advance t.lexer), advance-left t.lexer)),
  advance-left t.lexer,
)

template_loop-left :
    (fuel line column : ℕ) (t : Scanned)
    → Within state (left t.lexer) (template_loop fuel line column t)
unfolding template_loop
template_loop-left zero line column t = omega arith
template_loop-left (suc fuel) line column t = ground (
  arith,
  unless_returned-Within state (left t.lexer) (template_step line column t)
      (template_loop fuel line column) (template_step-left line column t)
      (template_loop-left fuel line column),
)

pub bind-AtMost :
    (n : ℕ) (o : Option Lexer) (f : Lexer → Option Lexer)
    → AtMost n o
    → ((s : Lexer) → AtMost (left s) (f s))
    → AtMost n (o >>= f)
unfolding ◌>>=◌
bind-AtMost n none f h k = tt
bind-AtMost n (some s) f h k = AtMost-mono (left s) n (f s) h (k s)

emit_inner-left :
    (line column : ℕ) (s : Lexer) (o : Option Lexer) → AtMost (left s) (emit_inner line column s o)
unfolding emit_inner push
emit_inner-left line column s none = tt
emit_inner-left line column s (some inner) = omega arith

module _ (sub : List Byte → Option Lexer) where
  emit_part-left :
      (line column : ℕ) (p : Part) (s : Lexer) → AtMost (left s) (emit_part sub line column p s)
  unfolding emit_part push
  emit_part-left line column (plain v) s = omega arith
  emit_part-left line column (expr v) s = emit_inner-left line column s (sub v)

  emit_parts-left :
      (first : Bool) (line column : ℕ) (ps : List Part) (s : Lexer)
      → AtMost (left s) (emit_parts sub first line column ps s)
  unfolding emit_parts push
  emit_parts-left first line column [] s = omega arith
  emit_parts-left true line column (p ∷ ps) s =
      bind-AtMost (left s) _ _ (emit_part-left line column p s)
        (emit_parts-left false line column ps)
  emit_parts-left false line column (p ∷ ps) s =
      bind-AtMost (left s) _ _ (emit_part-left line column p _)
        (emit_parts-left false line column ps)

  emit_template-left :
      (line column : ℕ) (ps : List Part) (s : Lexer)
      → AtMost (left s) (emit_template sub line column ps s)
  unfolding emit_template push
  emit_template-left line column ps s = elim (Bool-cases (has_expr ps)) [
    | inl h ↦
        rw (h) (bind-AtMost (left s) _ _ (emit_parts-left true line column ps _) (λ t. omega arith))
    | inr h ↦ rw (h) (omega arith)
  ]

  end_template-left :
      (line column n : ℕ) (o : Lexer ⊎ Scanned)
      → Within state n o
      → AtMost n (end_template sub line column o)
  unfolding end_template error_at
  end_template-left line column n (inl s) h = h
  end_template-left line column n (inr t) h = ground (
    arith,
    AtMost-mono (left (advance t.lexer)) n _ (omega (arith, advance-left t.lexer))
        (emit_template-left line column (t.parts ++ plain t.current ∷ []) (advance t.lexer)),
  )

  pub scan_interpolated_string-left : (s : Lexer) → AtMost (left s) (scan_interpolated_string sub s)
  unfolding scan_interpolated_string
  scan_interpolated_string-left s =
      end_template-left s.line s.column (left s) _
        (template_loop-left (length s.rest) s.line s.column _)
