-- ===== src/Lexer/Progress/Depth.antt =====
-- How deep `tokenize` follows templates inside templates (src/lexer/Lexer.cpp): the length of the
-- source is deep enough.
use ez_language.Lexer.Progress.Short.{IsShort, IsShortAt, template_loop-IsShort}
use ez_language.Prelude.{
  ℕ, zero, suc, ◌+◌, ◌-◌, ◌≤◌, ◌≡◌, refl, sym, ap, ◌∙◌, Bool, true, false, List, [], ◌∷◌, ◌++◌,
  arith, length, All, All-append, ◌⊎◌, inl, inr, Bool-cases, Option, none, some,
}
use ez_language.Bytes.{Byte}
use ez_language.Lexer.Kinds.{TokenKind}
use ez_language.Lexer.State.{Lexer, new_lexer, advance, is_at_end, peek, ◌>>=◌}
use ez_language.Lexer.Templates.{
  Part, plain, expr, Scanned, emit_inner, emit_part, emit_parts, emit_template, end_template,
  scan_interpolated_string,
}
use ez_language.Lexer.Scan.{
  scan_text, scan_other, single, scan_case, scan_token, scan_loop, end_tokens, tokenize_at,
  tokenize,
}
use ez_language.Lexer.Progress.Words.{AtMost}
use ez_language.Lexer.Progress.Tokens.{scan_token-left}
use ez_language.Lexer.Progress.{left, advance-left}

bind-same :
    (o : Option Lexer) (f g : Lexer → Option Lexer)
    → ((s : Lexer) → f s ≡ g s)
    → (o >>= f) ≡ (o >>= g)
unfolding ◌>>=◌
bind-same none f g h = refl
bind-same (some s) f g h = h s

-- Two inner lexers that agree on short texts.
module _ (n : ℕ) (sub more : List Byte → Option Lexer)
    (agree : (t : List Byte) → length t ≤ n → sub t ≡ more t) where
  emit_part-same :
      (line column : ℕ) (p : Part) (s : Lexer)
      → IsShort n p
      → emit_part sub line column p s ≡ emit_part more line column p s
  unfolding emit_part IsShort
  emit_part-same line column (plain v) s h = refl
  emit_part-same line column (expr v) s h = ap (emit_inner line column s) (agree v h)

  emit_parts-same :
      (first : Bool) (line column : ℕ) (ps : List Part) (s : Lexer)
      → All (IsShort n) ps
      → emit_parts sub first line column ps s ≡ emit_parts more first line column ps s
  unfolding emit_parts
  emit_parts-same first line column [] s h = refl
  emit_parts-same first line column (p ∷ ps) s h =
      rw (emit_part-same line column p _ h.0)
        (bind-same _ _ _ (λ t. emit_parts-same false line column ps t h.1))

  emit_template-same :
      (line column : ℕ) (ps : List Part) (s : Lexer)
      → All (IsShort n) ps
      → emit_template sub line column ps s ≡ emit_template more line column ps s
  unfolding emit_template
  emit_template-same line column ps s h = rw (emit_parts-same true line column ps _ h)

  end_template-same :
      (line column : ℕ) (o : Lexer ⊎ Scanned)
      → IsShortAt n o
      → end_template sub line column o ≡ end_template more line column o
  unfolding end_template IsShortAt IsShort
  end_template-same line column (inl s) h = refl
  end_template-same line column (inr t) h = rw (
      emit_template-same line column (t.parts ++ plain t.current ∷ []) (advance t.lexer)
        (All-append (IsShort n) t.parts (plain t.current ∷ []) h.0 (tt, tt)))

  scan_interpolated_string-same :
      (s : Lexer) → left s ≤ n → scan_interpolated_string sub s ≡ scan_interpolated_string more s
  unfolding scan_interpolated_string IsShortAt
  scan_interpolated_string-same s h = end_template-same s.line s.column _ (
      template_loop-IsShort (length s.rest) n s.line s.column
        (record { parts = []; current = []; lexer = s }) (tt, h))

  module _ (stod : List Byte → Option ℕ) where
    scan_text-same :
        (c : Byte) (s : Lexer) → left s ≤ n → scan_text stod sub c s ≡ scan_text stod more c s
    unfolding scan_text
    scan_text-same c s h = rw (scan_interpolated_string-same s h)

    scan_other-same :
        (c : Byte) (s : Lexer) → left s ≤ n → scan_other stod sub c s ≡ scan_other stod more c s
    unfolding scan_other
    scan_other-same c s h = rw (scan_text-same c s h)

    scan_case-same :
        (c : Byte) (o : Option TokenKind) (s : Lexer)
        → left s ≤ n
        → scan_case stod sub c o s ≡ scan_case stod more c o s
    unfolding scan_case
    scan_case-same c none s h = scan_other-same c s h
    scan_case-same c (some kind) s h = refl

    scan_token-same : (s : Lexer) → left s ≤ suc n → scan_token stod sub s ≡ scan_token stod more s
    unfolding scan_token
    scan_token-same s h =
        scan_case-same (peek s) (single (peek s)) (advance (record s { lexeme = [] }))
          (omega (arith, advance-left (record s { lexeme = [] })))

    bind-same_within :
        (m : ℕ) (o : Option Lexer) (f g : Lexer → Option Lexer)
        → AtMost m o
        → ((s : Lexer) → left s ≤ m → f s ≡ g s)
        → (o >>= f) ≡ (o >>= g)
    unfolding ◌>>=◌
    bind-same_within m none f g b h = refl
    bind-same_within m (some s) f g b h = h s b

    scan_loop-same :
        (fuel : ℕ) (s : Lexer)
        → left s ≤ suc n
        → scan_loop stod sub fuel s ≡ scan_loop stod more fuel s
    unfolding scan_loop
    scan_loop-same zero s h = refl
    scan_loop-same (suc fuel) s h = elim (Bool-cases (is_at_end s)) [
      | inl e ↦ rw (e)
      | inr e ↦
          rw (e, scan_token-same s h)
            (bind-same_within (left s - 1) (scan_token stod more s) (scan_loop stod sub fuel)
              (scan_loop stod more fuel) (scan_token-left stod more s)
              (λ t l. scan_loop-same fuel t (omega arith)))
    ]

module _ (stod : List Byte → Option ℕ) where
  tokenize_at-suc :
      (depth : ℕ) (source : List Byte)
      → length source ≤ depth
      → tokenize_at stod depth source ≡ tokenize_at stod (suc depth) source
  unfolding tokenize_at new_lexer scan_loop ◌>>=◌
  tokenize_at-suc zero [] h = refl
  tokenize_at-suc zero (c ∷ source) h = absurd (omega arith)
  tokenize_at-suc (suc depth) source h =
      ap (λ o. o >>= λ s. some (end_tokens s))
        (scan_loop-same depth (tokenize_at stod depth) (tokenize_at stod (suc depth))
          (tokenize_at-suc depth) stod (length source) (new_lexer source) h)

  deeper :
      (extra depth : ℕ) (source : List Byte)
      → depth ≡ extra + length source
      → tokenize_at stod depth source ≡ tokenize stod source
  unfolding tokenize
  deeper zero depth source e = ap (λ d. tokenize_at stod d source) (omega arith)
  deeper (suc extra) depth source e =
      ap (λ d. tokenize_at stod d source) (e ∙ suc_sum)
      ∙ sym (tokenize_at-suc (extra + length source) source (omega arith))
      ∙ deeper extra (extra + length source) source refl
    where
      suc_sum : suc extra + length source ≡ suc (extra + length source)
      suc_sum = omega arith

  -- A lexer that follows templates inside templates to any depth from the length of the source on
  -- gives the result of tokenize.
  pub tokenize_at-tokenize :
      (depth : ℕ) (source : List Byte)
      → length source ≤ depth
      → tokenize_at stod depth source ≡ tokenize stod source
  tokenize_at-tokenize depth source h = deeper (depth - length source) depth source (omega arith)
