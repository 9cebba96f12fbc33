-- ===== src/Lexer/Progress/Tokens.antt =====
-- The main loop: each token takes a byte at least, so that the whole source is read; and nothing
-- but a number that `stod` refuses stops the lexer.
use ez_language.Prelude.{
  not, ◌==◌, ℕ, zero, suc, ◌-◌, ◌≤◌, ◌≡◌, refl, List, [], ◌∷◌, arith, length, inl, inr, Bool-cases,
  Option, none, some,
}
use ez_language.Bytes.{Byte}
use ez_language.Lexer.Kinds.{TokenKind}
use ez_language.Lexer.State.{Lexer, advance, add_token, error, error_at, is_at_end, peek, ◌>>=◌}
use ez_language.Lexer.Comments.{skip_line_comment}
use ez_language.Lexer.Newline.{scan_newline}
use ez_language.Lexer.Scan.{
  scan_dot, scan_operator, scan_slash, scan_bracket, scan_default, is_operator, is_bracket,
  scan_text, scan_other, single, scan_case, scan_token, scan_loop,
}
use ez_language.Lexer.Progress.{
  left, advance-left, advance_while-left, skip_block_comment-left, is_at_end-left, is_at_end-rest,
}
use ez_language.Lexer.Progress.Words.{
  AtMost, AtMost-mono, scan_number-left, scan_hex_number-left, scan_binary_number-left,
}
use ez_language.Lexer.Progress.Strings.{scan_string-left, scan_identifier-left}
use ez_language.Lexer.Progress.Templates.{scan_interpolated_string-left}

scan_dot-left : (s : Lexer) → left (scan_dot s) ≤ left s
unfolding scan_dot add_token error error_at
scan_dot-left s = ground (arith, advance-left s, advance-left (advance s))

scan_operator-left : (c : Byte) (s : Lexer) → left (scan_operator c s) ≤ left s
unfolding scan_operator add_token
scan_operator-left c s = ground (arith, scan_dot-left s, advance-left s, advance-left (advance s))

skip_line_comment-left : (s : Lexer) → left (skip_line_comment s) ≤ left s
unfolding skip_line_comment
skip_line_comment-left s = advance_while-left (λ c. not (c == b'\n')) (length s.rest) s

scan_slash-left : (s : Lexer) → left (scan_slash s) ≤ left s
unfolding scan_slash add_token
scan_slash-left s =
    ground (
      arith,
      advance-left s,
      skip_line_comment-left (advance s),
      skip_block_comment-left (advance s),
    )

scan_bracket-left : (c : Byte) (s : Lexer) → left (scan_bracket c s) ≤ left s
unfolding scan_bracket add_token
scan_bracket-left c s = ground arith

scan_newline-left : (s : Lexer) → left (scan_newline s) ≤ left s
unfolding scan_newline add_token
scan_newline-left s = ground arith

-- What is left when the loop ends.
unfoldable pub AtEnd : Option Lexer → Type 0
AtEnd none = Unit
AtEnd (some s) = s.rest ≡ []

module _ (stod : List Byte → Option ℕ) where
  scan_default-left : (c : Byte) (s : Lexer) → AtMost (left s) (scan_default stod c s)
  unfolding scan_default error error_at
  scan_default-left c s = ground (
    arith,
    scan_number-left stod s,
    scan_hex_number-left (advance s),
    scan_binary_number-left (advance s),
    scan_identifier-left s,
    advance-left s,
  )

  module _ (sub : List Byte → Option Lexer) where
    scan_text-left : (c : Byte) (s : Lexer) → AtMost (left s) (scan_text stod sub c s)
    unfolding scan_text
    scan_text-left c s = ground (
      arith,
      scan_newline-left s,
      scan_string-left s,
      scan_interpolated_string-left sub s,
      scan_default-left c s,
    )

    scan_other-left : (c : Byte) (s : Lexer) → AtMost (left s) (scan_other stod sub c s)
    unfolding scan_other
    scan_other-left c s = elim (Bool-cases (is_operator c)) [
      | inl h ↦ rw (h) (scan_operator-left c s)
      | inr h ↦ elim (Bool-cases (is_bracket c)) [
        | inl k ↦ rw (h, k) (scan_bracket-left c s)
        | inr k ↦
            rw (h, k)
              (ground (arith, scan_slash-left s, skip_line_comment-left s, scan_text-left c s))
      ]
    ]

    scan_case-left :
        (c : Byte) (o : Option TokenKind) (s : Lexer) → AtMost (left s) (scan_case stod sub c o s)
    unfolding scan_case add_token
    scan_case-left c none s = scan_other-left c s
    scan_case-left c (some k) s = omega arith

    pub scan_token-left : (s : Lexer) → AtMost (left s - 1) (scan_token stod sub s)
    unfolding scan_token
    scan_token-left s =
        AtMost-mono _ (left s - 1) _ (omega (arith, advance-left (record s { lexeme = [] })))
          (scan_case-left (peek s) (single (peek s)) (advance (record s { lexeme = [] })))

    bind-AtEnd :
        (n : ℕ) (o : Option Lexer) (f : Lexer → Option Lexer)
        → AtMost n o
        → ((s : Lexer) → left s ≤ n → AtEnd (f s))
        → AtEnd (o >>= f)
    unfolding ◌>>=◌ AtEnd
    bind-AtEnd n none f h k = tt
    bind-AtEnd n (some s) f h k = k s h

    pub scan_loop-AtEnd : (fuel : ℕ) (s : Lexer) → left s ≤ fuel → AtEnd (scan_loop stod sub fuel s)
    unfolding scan_loop AtEnd
    scan_loop-AtEnd zero s h = empty_rest s.rest h
      where
        empty_rest : (bytes : List Byte) → length bytes ≤ 0 → bytes ≡ []
        empty_rest [] h = refl
        empty_rest (c ∷ bytes) h = absurd (omega arith)
    scan_loop-AtEnd (suc fuel) s h = elim (Bool-cases (is_at_end s)) [
      | inl e ↦ rw (e) (is_at_end-rest s e)
      | inr e ↦ rw (e) (
          bind-AtEnd (left s - 1) (scan_token stod sub s) (scan_loop stod sub fuel)
            (scan_token-left s) (λ t l. scan_loop-AtEnd fuel t (omega (arith, is_at_end-left s e))))
    ]
