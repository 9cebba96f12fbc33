-- ===== src/Lexer/Progress/Short.antt =====
-- The expression in a template is no longer than the rest of the source at the template
-- (src/lexer/Lexer.cpp).
use ez_language.Prelude.{
  ℕ, zero, suc, ◌+◌, ◌≤◌, ◌≡◌, false, ◌||◌, ◌==◌, List, [], ◌∷◌, ◌++◌, arith, length, length-append,
  All, All-append, ◌⊎◌, inl, inr, Bool-cases,
}
use ez_language.Bytes.{Byte}
use ez_language.Lexer.State.{Lexer, advance, is_at_end, peek, unless_returned}
use ez_language.Lexer.Templates.{
  Part, plain, expr, Scanned, inner_step, inner_loop, expr_step, expr_loop, brace_depth, add_expr,
  end_expr, template_escaped, template_step, template_loop,
}
use ez_language.Lexer.Progress.{left, advance-left, is_at_end-left}

-- A text that is gathered together with what is left.
abbrev whole : List Byte × Lexer → ℕ
whole t = length t.0 + left t.1

inner_step-whole :
    (c : Byte) (v : List Byte) (s : Lexer) → whole (inner_step c v s) ≤ suc (length v + left s)
unfolding inner_step
inner_step-whole c v s = ground (
  arith,
  length-append v (c ∷ peek s ∷ []),
  length-append v (c ∷ []),
  advance-left s,
  is_at_end-left s,
)

inner_loop-whole :
    (fuel : ℕ) (q : Byte) (v : List Byte) (s : Lexer)
    → whole (inner_loop fuel q v s) ≤ length v + left s
unfolding inner_loop
inner_loop-whole zero q v s = omega arith
inner_loop-whole (suc fuel) q v s = ground (
  arith,
  inner_loop-whole fuel q (inner_step (peek s) v (advance s)).0
      (inner_step (peek s) v (advance s)).1,
  inner_step-whole (peek s) v (advance s),
  advance-left s,
  is_at_end-left s,
)

expr_step-whole :
    (v : List Byte) (s : Lexer) → is_at_end s ≡ false → whole (expr_step v s) ≤ length v + left s
unfolding expr_step
expr_step-whole v s h = ground (
  arith,
  inner_loop-whole (length s.rest) (peek s) (v ++ peek s ∷ []) (advance s),
  length-append v (peek s ∷ []),
  advance-left s,
  is_at_end-left s h,
)

expr_loop-whole :
    (fuel depth : ℕ) (v : List Byte) (s : Lexer)
    → whole (expr_loop fuel depth v s) ≤ length v + left s
unfolding expr_loop
expr_loop-whole zero depth v s = omega arith
expr_loop-whole (suc fuel) depth v s = ground (
  arith,
  expr_loop-whole fuel (brace_depth (peek s) depth) (expr_step v s).0 (expr_step v s).1,
  expr_step-whole v s,
)

-- No expression is longer than n.
unfoldable pub IsShort : ℕ → Part → Type 0
IsShort n (plain v) = Unit
IsShort n (expr v) = length v ≤ n

-- All expressions found so far are short, and so is the rest.
unfoldable pub IsShortAt : ℕ → Lexer ⊎ Scanned → Type 0
IsShortAt n (inl s) = Unit
IsShortAt n (inr t) = All (IsShort n) t.parts × (left t.lexer ≤ n)

add_expr-IsShort :
    (n : ℕ) (v : List Byte) (ps : List Part)
    → length v ≤ n
    → All (IsShort n) ps
    → All (IsShort n) (add_expr v ps)
unfolding add_expr IsShort
add_expr-IsShort n [] ps h a = a
add_expr-IsShort n (c ∷ v) ps h a = All-append (IsShort n) ps (expr (c ∷ v) ∷ []) a (h, tt)

end_expr-IsShort :
    (n line column : ℕ) (ps : List Part) (t : List Byte × Lexer)
    → whole t ≤ n
    → All (IsShort n) ps
    → IsShortAt n (end_expr line column ps t)
unfolding end_expr IsShortAt
end_expr-IsShort n line column ps t h a = elim (Bool-cases (is_at_end t.1)) [
  | inl e ↦ rw (e) tt
  | inr e ↦ rw (e) (add_expr-IsShort n t.0 ps (omega arith) a, omega (arith, advance-left t.1))
]

template_escaped-IsShort :
    (n line column : ℕ) (t : Scanned)
    → IsShortAt n (inr t)
    → IsShortAt n (template_escaped line column t)
unfolding template_escaped IsShortAt
template_escaped-IsShort n line column t h = elim (Bool-cases (is_at_end t.lexer)) [
  | inl e ↦ rw (e) tt
  | inr e ↦ rw (e) (h.0, omega (arith, advance-left t.lexer, h.1))
]

template_step-IsShort :
    (n line column : ℕ) (t : Scanned)
    → IsShortAt n (inr t)
    → IsShortAt n (template_step line column t)
unfolding template_step IsShortAt IsShort
template_step-IsShort n line column t h = elim (Bool-cases (peek t.lexer == b'\\')) [
  | inl e ↦ rw (e) (
      template_escaped-IsShort n line column (record t { lexer = advance t.lexer })
        (h.0, omega (arith, advance-left t.lexer, h.1)))
  | inr e ↦ elim (Bool-cases (peek t.lexer == b'{')) [
    | inl k ↦
        rw (e, k)
          (end_expr-IsShort n line column (t.parts ++ plain t.current ∷ [])
            (expr_loop (length t.lexer.rest) 1 [] (advance t.lexer))
            (omega (
              arith,
              expr_loop-whole (length t.lexer.rest) 1 [] (advance t.lexer),
              advance-left t.lexer,
              h.1,
            ))
            (All-append (IsShort n) t.parts (plain t.current ∷ []) h.0 (tt, tt)))
    | inr k ↦ rw (e, k) (h.0, omega (arith, advance-left t.lexer, h.1))
  ]
]

unless_returned-IsShort :
    (n : ℕ) (o : Lexer ⊎ Scanned) (k : Scanned → Lexer ⊎ Scanned)
    → IsShortAt n o
    → ((t : Scanned) → IsShortAt n (inr t) → IsShortAt n (k t))
    → IsShortAt n (unless_returned o k)
unfolding unless_returned
unless_returned-IsShort n (inl s) k h f = h
unless_returned-IsShort n (inr t) k h f = f t h

pub template_loop-IsShort :
    (fuel n line column : ℕ) (t : Scanned)
    → IsShortAt n (inr t)
    → IsShortAt n (template_loop fuel line column t)
unfolding template_loop
template_loop-IsShort zero n line column t h = h
template_loop-IsShort (suc fuel) n line column t h =
    elim (Bool-cases (is_at_end t.lexer || peek t.lexer == b'`')) [
      | inl e ↦ rw (e) h
      | inr e ↦ rw (e) (
          unless_returned-IsShort n (template_step line column t) (template_loop fuel line column)
            (template_step-IsShort n line column t h) (template_loop-IsShort fuel n line column))
    ]
