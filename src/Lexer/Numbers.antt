-- ===== src/Lexer/Numbers.antt =====
-- `scanNumber`, `scanHexNumber`, `scanBinaryNumber` and `scanIdentifier` of src/lexer/Lexer.cpp.
-- `stod`, the library's reading of a decimal fraction, is a parameter: the 64-bit pattern, or `none`
-- where it throws `out_of_range`, which nothing catches.
use ez_language.Prelude.{
  ℕ, ◌+◌, ◌-◌, ◌*◌, ◌^◌, Bool, true, false, ◌&&◌, ◌||◌, Option, none, some, List, [], ◌∷◌, ltb, leb,
  ◌==◌, if◌then◌else◌, length, drop,
}
use ez_language.Bytes.{Byte}
use ez_language.Lexer.Kinds.{TokenKind}
use ez_language.Lexer.State.{
  Lexer, Message, double, integer, exponent_digits, hex_digits, hex_too_large, binary_digits,
  binary_too_large, is_empty, peek, peek_next, advance, advance_while, add_token, error,
}

abbrev between : ℕ → ℕ → ℕ → Bool
between lo hi c = leb lo c && leb c hi

unfoldable pub is_digit : Byte → Bool
is_digit c = between b'0' b'9' c

unfoldable pub is_alpha : Byte → Bool
is_alpha c = between b'a' b'z' c || between b'A' b'Z' c || c == b'_'

unfoldable pub is_alpha_numeric : Byte → Bool
unfolding is_alpha is_digit
is_alpha_numeric c = is_alpha c || is_digit c

-- `isxdigit` and the value of such a digit.
unfoldable pub is_xdigit : Byte → Bool
unfolding is_digit
is_xdigit c = is_digit c || between b'a' b'f' c || between b'A' b'F' c

unfoldable pub digit_value : Byte → ℕ
digit_value c = if leb c b'9' then c - b'0' else if leb c b'F' then c - b'A' + 10 else c - b'a' + 10

unfoldable pub digits_value : ℕ → ℕ → List Byte → ℕ
unfolding digit_value
digits_value base acc [] = acc
digits_value base acc (c ∷ s) = digits_value base (acc * base + digit_value c) s

unfoldable pub skip_digits : Lexer → Lexer
unfolding advance_while is_digit
skip_digits s = advance_while is_digit (length s.rest) s

-- The two optional parts of a number, with whether it is a fraction.
unfoldable pub scan_fraction : Lexer → Bool × Lexer
unfolding skip_digits peek peek_next
scan_fraction s =
    if peek s == b'.' && is_digit (peek_next s) then (true, skip_digits (advance s)) else (false, s)

unfoldable pub skip_sign : Lexer → Lexer
unfolding advance peek
skip_sign s = if peek s == b'+' || peek s == b'-' then advance s else s

unfoldable pub check_exponent : Lexer → Lexer
unfolding peek error is_digit
check_exponent s = if is_digit (peek s) then s else error exponent_digits s

unfoldable pub scan_exponent : Bool × Lexer → Bool × Lexer
unfolding skip_sign check_exponent skip_digits
scan_exponent (is_float, s) =
    if peek s == b'e' || peek s == b'E'
    then (true, skip_digits (check_exponent (skip_sign (advance s))))
    else (is_float, s)

module _ (stod : List Byte → Option ℕ) where
  unfoldable pub add_double : Option ℕ → Lexer → Option Lexer
  unfolding add_token
  add_double none s = none
  add_double (some d) s = some (add_token TokenKind.number (double d) s)

  unfoldable pub add_number : Bool × Lexer → Option Lexer
  unfolding add_double digits_value
  add_number (is_float, s) =
      if is_float
      then add_double (stod s.lexeme) s
      else if ltb (digits_value 10 0 s.lexeme) (2 ^ 63)
      then some (add_token TokenKind.number (integer (digits_value 10 0 s.lexeme)) s)
      else add_double (stod s.lexeme) s

  unfoldable pub scan_number : Lexer → Option Lexer
  unfolding add_number scan_exponent scan_fraction
  scan_number s = add_number (scan_exponent (scan_fraction (skip_digits s)))

-- A number in base 16 or 2, from the digits behind its prefix.
unfoldable pub add_based : ℕ → Message → Message → Lexer → Lexer
unfolding digits_value add_token error
add_based base no_digits too_large s =
    if is_empty (drop 2 s.lexeme)
    then error no_digits s
    else if ltb (digits_value base 0 (drop 2 s.lexeme)) (2 ^ 64)
    then add_token TokenKind.number (integer (digits_value base 0 (drop 2 s.lexeme))) s
    else error too_large s

unfoldable pub scan_hex_number : Lexer → Lexer
unfolding add_based advance_while
scan_hex_number s =
    add_based 16 hex_digits hex_too_large (advance_while is_xdigit (length s.rest) s)

unfoldable pub scan_binary_number : Lexer → Lexer
unfolding add_based advance_while
scan_binary_number s =
    add_based 2 binary_digits binary_too_large
      (advance_while (λ c. c == b'0' || c == b'1') (length s.rest) s)
