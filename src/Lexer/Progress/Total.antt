-- ===== src/Lexer/Progress/Total.antt =====
-- Only a number that `stod` refuses stops the lexer.
use ez_language.Prelude.{
  ℕ, zero, suc, ◌≤◌, ◌≡◌, ◌≢◌, refl, sym, subst, Bool, true, false, List, [], ◌∷◌, ◌++◌, arith,
  length, ◌⊎◌, inl, inr, Bool-cases, Option, none, some,
}
use mathlib.Core.Option.{none-ne-some}
use ez_language.Bytes.{Byte}
use ez_language.Lexer.Kinds.{TokenKind}
use ez_language.Lexer.State.{Lexer, new_lexer, Token, advance, is_at_end, peek, ◌>>=◌}
use ez_language.Lexer.Numbers.{
  add_double, add_number, scan_number, scan_exponent, scan_fraction, skip_digits,
}
use ez_language.Lexer.Templates.{
  Part, plain, expr, Scanned, has_expr, template_loop, emit_inner, emit_part, emit_parts,
  emit_template, end_template, scan_interpolated_string,
}
use ez_language.Lexer.Progress.Tokens.{AtEnd, scan_loop-AtEnd}
use ez_language.Lexer.Scan.{
  scan_default, scan_text, scan_other, single, scan_case, scan_token, scan_loop, end_tokens,
  tokenize_at, tokenize,
}

-- No exception was thrown.
abbrev pub Returned : Option Lexer → Type 0
Returned none = ⊥
Returned (some s) = Unit

bind-Returned :
    (o : Option Lexer) (f : Lexer → Option Lexer)
    → Returned o
    → ((s : Lexer) → Returned (f s))
    → Returned (o >>= f)
unfolding ◌>>=◌
bind-Returned none f h k = absurd h
bind-Returned (some s) f h k = k s

emit_inner-Returned :
    (line column : ℕ) (s : Lexer) (o : Option Lexer)
    → Returned o
    → Returned (emit_inner line column s o)
unfolding emit_inner
emit_inner-Returned line column s none h = absurd h
emit_inner-Returned line column s (some inner) h = tt

module _ (sub : List Byte → Option Lexer) (sub_returns : (t : List Byte) → Returned (sub t)) where
  emit_part-Returned :
      (line column : ℕ) (p : Part) (s : Lexer) → Returned (emit_part sub line column p s)
  unfolding emit_part
  emit_part-Returned line column (plain v) s = tt
  emit_part-Returned line column (expr v) s =
      emit_inner-Returned line column s (sub v) (sub_returns v)

  emit_parts-Returned :
      (first : Bool) (line column : ℕ) (ps : List Part) (s : Lexer)
      → Returned (emit_parts sub first line column ps s)
  unfolding emit_parts
  emit_parts-Returned first line column [] s = tt
  emit_parts-Returned first line column (p ∷ ps) s =
      bind-Returned _ _ (emit_part-Returned line column p _)
        (emit_parts-Returned false line column ps)

  emit_template-Returned :
      (line column : ℕ) (ps : List Part) (s : Lexer) → Returned (emit_template sub line column ps s)
  unfolding emit_template
  emit_template-Returned line column ps s = elim (Bool-cases (has_expr ps)) [
    | inl h ↦ rw (h) (bind-Returned _ _ (emit_parts-Returned true line column ps _) (λ t. tt))
    | inr h ↦ rw (h) tt
  ]

  end_template-Returned :
      (line column : ℕ) (o : Lexer ⊎ Scanned) → Returned (end_template sub line column o)
  unfolding end_template
  end_template-Returned line column (inl s) = tt
  end_template-Returned line column (inr t) = elim (Bool-cases (is_at_end t.lexer)) [
    | inl h ↦ rw (h) tt
    | inr h ↦
        rw (h)
          (emit_template-Returned line column (t.parts ++ plain t.current ∷ []) (advance t.lexer))
  ]

  scan_interpolated_string-Returned : (s : Lexer) → Returned (scan_interpolated_string sub s)
  unfolding scan_interpolated_string
  scan_interpolated_string-Returned s = end_template-Returned s.line s.column (
      template_loop (length s.rest) s.line s.column
        (record { parts = []; current = []; lexer = s }))

module _ (stod : List Byte → Option ℕ) (reads : (t : List Byte) → stod t ≢ none) where
  add_double-Returned : (o : Option ℕ) (s : Lexer) → o ≢ none → Returned (add_double stod o s)
  unfolding add_double
  add_double-Returned none s h = h refl
  add_double-Returned (some d) s h = tt

  scan_number-Returned : (s : Lexer) → Returned (scan_number stod s)
  unfolding scan_number add_number
  scan_number-Returned s = ground (
    arith,
    add_double-Returned (stod (scan_exponent (scan_fraction (skip_digits s))).1.lexeme)
        (scan_exponent (scan_fraction (skip_digits s))).1
        (reads (scan_exponent (scan_fraction (skip_digits s))).1.lexeme),
  )

  scan_default-Returned : (c : Byte) (s : Lexer) → Returned (scan_default stod c s)
  unfolding scan_default
  scan_default-Returned c s = ground (arith, scan_number-Returned s)

  module _ (sub : List Byte → Option Lexer) (sub_returns : (t : List Byte) → Returned (sub t)) where
    scan_text-Returned : (c : Byte) (s : Lexer) → Returned (scan_text stod sub c s)
    unfolding scan_text
    scan_text-Returned c s =
        ground
          (arith, scan_interpolated_string-Returned sub sub_returns s, scan_default-Returned c s)

    scan_other-Returned : (c : Byte) (s : Lexer) → Returned (scan_other stod sub c s)
    unfolding scan_other
    scan_other-Returned c s = ground (arith, scan_text-Returned c s)

    scan_case-Returned :
        (c : Byte) (o : Option TokenKind) (s : Lexer) → Returned (scan_case stod sub c o s)
    unfolding scan_case
    scan_case-Returned c none s = scan_other-Returned c s
    scan_case-Returned c (some k) s = tt

    pub scan_loop-Returned : (fuel : ℕ) (s : Lexer) → Returned (scan_loop stod sub fuel s)
    unfolding scan_loop scan_token
    scan_loop-Returned zero s = tt
    scan_loop-Returned (suc fuel) s = elim (Bool-cases (is_at_end s)) [
      | inl h ↦ rw (h) tt
      | inr h ↦ rw (h) (
          bind-Returned _ _
            (scan_case-Returned (peek s) (single (peek s)) (advance (record s { lexeme = [] })))
            (scan_loop-Returned fuel))
    ]

  pub tokenize_at-Returned : (depth : ℕ) (t : List Byte) → Returned (tokenize_at stod depth t)
  unfolding tokenize_at
  tokenize_at-Returned zero t = tt
  tokenize_at-Returned (suc depth) t =
      bind-Returned _ _
        (scan_loop-Returned (tokenize_at stod depth) (tokenize_at-Returned depth) (length t)
          (new_lexer t))
        (λ s. tt)

-- Where a lexer stands when its loop ends.
ends : (o : Option Lexer) → AtEnd o → Returned o → (s : Lexer) × ((o ≡ some s) × (s.rest ≡ []))
unfolding AtEnd
ends none h r = absurd r
ends (some s) h r = (s, (refl, h))

-- The lexer has read its whole source, and the last token is the end of the file.
abbrev pub Complete : Option Lexer → Type 0
Complete o =
    (s : Lexer) × ((ts : List Token) × ((t : Token) × ((o ≡ some s)
          × ((s.rest ≡ [])
              × ((s.tokens ≡ ts ++ t ∷ [])
                  × ((t.kind ≡ TokenKind.end_of_file) × (t.lexeme ≡ [])))))))

Complete-end : (s : Lexer) → s.rest ≡ [] → Complete (some (end_tokens s))
unfolding end_tokens
Complete-end s h = (end_tokens s, (s.tokens, (_, (refl, (h, (refl, (refl, refl)))))))

module _ (stod : List Byte → Option ℕ) (reads : (t : List Byte) → stod t ≢ none) where
  tokenize_at-Complete :
      (depth : ℕ) (source : List Byte)
      → length source ≤ depth
      → Complete (tokenize_at stod depth source)
  unfolding tokenize_at ◌>>=◌ new_lexer
  tokenize_at-Complete zero [] h = Complete-end (new_lexer []) refl
  tokenize_at-Complete zero (c ∷ source) h = absurd (omega arith)
  tokenize_at-Complete (suc depth) source h =
      let (s, (e, r)) =
        ends (scan_loop stod (tokenize_at stod depth) (length source) (new_lexer source))
          (scan_loop-AtEnd stod (tokenize_at stod depth) (length source) (new_lexer source)
            (omega arith))
          (scan_loop-Returned stod reads (tokenize_at stod depth)
            (tokenize_at-Returned stod reads depth) (length source) (new_lexer source)) in
      rw (e) (Complete-end s r)

  tokenize-Complete : (source : List Byte) → Complete (tokenize stod source)
  unfolding tokenize
  tokenize-Complete source = tokenize_at-Complete (length source) source (omega arith)

-- Where a lexer stands when it returns, if it does.
returns-Complete :
    (stod : List Byte → Option ℕ) (depth : ℕ) (source : List Byte) (s : Lexer)
    → length source ≤ depth
    → tokenize_at stod depth source ≡ some s
    → Complete (some s)
unfolding tokenize_at ◌>>=◌ new_lexer AtEnd
returns-Complete stod zero [] s h e = subst Complete e (Complete-end (new_lexer []) refl)
returns-Complete stod zero (c ∷ source) s h e = absurd (omega arith)
returns-Complete stod (suc depth) source s h e =
    ended (scan_loop stod (tokenize_at stod depth) (length source) (new_lexer source))
      (scan_loop-AtEnd stod (tokenize_at stod depth) (length source) (new_lexer source)
        (omega arith))
      e
  where
    ended :
        (o : Option Lexer) → AtEnd o → (o >>= λ t. some (end_tokens t)) ≡ some s → Complete (some s)
    ended none k f = absurd (none-ne-some s f)
    ended (some t) k f = subst Complete f (Complete-end t k)

-- `stod` with the number `d` wherever it throws.
abbrev pub or_number : ℕ → Option ℕ → Option ℕ
or_number d none = some d
or_number d (some n) = some n

or_number-some : (d : ℕ) (o : Option ℕ) → or_number d o ≢ none
or_number-some d none h = none-ne-some d (sym h)
or_number-some d (some n) h = none-ne-some n (sym h)

-- Whatever stod reads and wherever it throws: if tokenize returns, it has read the whole source, and
-- the last token is the end of the file, with an empty text. And nothing but stod keeps it from
-- returning: with any number in place of what stod throws, it returns so for every source.
pub tokenize_total :
    (stod : List Byte → Option ℕ) (d : ℕ) (source : List Byte)
    → Complete (tokenize (λ t. or_number d (stod t)) source)
      × ((s : Lexer) → tokenize stod source ≡ some s → Complete (some s))
unfolding tokenize
tokenize_total stod d source = (
  tokenize-Complete (λ t. or_number d (stod t)) (λ t. or_number-some d (stod t)) source,
  λ s e. returns-Complete stod (length source) source s (omega arith) e,
)
