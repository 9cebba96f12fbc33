-- ===== src/Lexer/Progress/Words.antt =====
-- The scanners of numbers give no byte back.
use ez_language.Prelude.{ℕ, ◌≤◌, ◌≡◌, Bool, List, arith, length, ◌||◌, ◌==◌, Option, none, some}
use ez_language.Bytes.{Byte}
use ez_language.Lexer.State.{Lexer, advance, add_token, error_at, error}
use ez_language.Lexer.Numbers.{
  is_digit, is_xdigit, skip_digits, scan_fraction, skip_sign, check_exponent, scan_exponent,
  add_double, add_number, scan_number, add_based, scan_hex_number, scan_binary_number,
}
use ez_language.Lexer.Progress.{left, advance-left, advance_while-left}

-- For a function that may throw.
abbrev pub AtMost : ℕ → Option Lexer → Type 0
AtMost n none = Unit
AtMost n (some s) = left s ≤ n

pub AtMost-mono : (m n : ℕ) (o : Option Lexer) → m ≤ n → AtMost m o → AtMost n o
AtMost-mono m n none h t = tt
AtMost-mono m n (some s) h t = omega arith

skip_digits-left : (s : Lexer) → left (skip_digits s) ≤ left s
unfolding skip_digits
skip_digits-left s = advance_while-left is_digit (length s.rest) s

scan_fraction-left : (s : Lexer) → left (scan_fraction s).1 ≤ left s
unfolding scan_fraction
scan_fraction-left s = ground (arith, skip_digits-left (advance s), advance-left s)

skip_sign-left : (s : Lexer) → left (skip_sign s) ≤ left s
unfolding skip_sign
skip_sign-left s = ground (arith, advance-left s)

check_exponent-left : (s : Lexer) → left (check_exponent s) ≡ left s
unfolding check_exponent error error_at
check_exponent-left s = ground arith

scan_exponent-left : (b : Bool) (s : Lexer) → left (scan_exponent (b, s)).1 ≤ left s
unfolding scan_exponent
scan_exponent-left b s = ground (
  arith,
  skip_digits-left (check_exponent (skip_sign (advance s))),
  check_exponent-left (skip_sign (advance s)),
  skip_sign-left (advance s),
  advance-left s,
)

module _ (stod : List Byte → Option ℕ) where
  add_double-left : (o : Option ℕ) (s : Lexer) → AtMost (left s) (add_double stod o s)
  unfolding add_double add_token
  add_double-left none s = tt
  add_double-left (some d) s = omega arith

  add_number-left : (b : Bool) (s : Lexer) → AtMost (left s) (add_number stod (b, s))
  unfolding add_number add_token
  add_number-left b s = ground (arith, add_double-left (stod s.lexeme) s)

  pub scan_number-left : (s : Lexer) → AtMost (left s) (scan_number stod s)
  unfolding scan_number
  scan_number-left s =
      AtMost-mono (left (scan_exponent (scan_fraction (skip_digits s))).1) (left s) _
        (omega (
          arith,
          scan_exponent-left (scan_fraction (skip_digits s)).0 (scan_fraction (skip_digits s)).1,
          scan_fraction-left (skip_digits s),
          skip_digits-left s,
        ))
        (add_number-left _ (scan_exponent (scan_fraction (skip_digits s))).1)

pub scan_hex_number-left : (s : Lexer) → left (scan_hex_number s) ≤ left s
unfolding scan_hex_number add_based error error_at add_token
scan_hex_number-left s = ground (arith, advance_while-left is_xdigit (length s.rest) s)

pub scan_binary_number-left : (s : Lexer) → left (scan_binary_number s) ≤ left s
unfolding scan_binary_number add_based error error_at add_token
scan_binary_number-left s =
    ground (arith, advance_while-left (λ c. c == b'0' || c == b'1') (length s.rest) s)
