-- ===== src/Lexer/Strings.antt =====
-- `scanString`, `scanRawString` and the rest of `scanIdentifier` of src/lexer/Lexer.cpp. A loop
-- gives `inl` where the function returns from it after an error.
use Prim.Native.Nat.{bit_or}
use ez_language.Prelude.{
  ℕ, zero, suc, ◌+◌, ◌-◌, ◌*◌, ◌/◌, ◌%◌, ◌^◌, Bool, true, false, ◌&&◌, ◌||◌, Option, none, some,
  ◌⊎◌, inl, inr, List, [], ◌∷◌, ◌++◌, ltb, leb, ◌==◌, if◌then◌else◌, length, take, drop,
}
use ez_language.Bytes.{Byte}
use ez_language.Lexer.Kinds.{TokenKind}
use ez_language.Lexer.Keywords.{keywords, find_keyword, same_text}
use ez_language.Lexer.Numbers.{is_xdigit, digit_value, is_alpha_numeric}
use ez_language.Lexer.State.{
  Lexer, nullptr, text, boolean, unterminated_string, no_closing_quote, incomplete_hex_escape,
  invalid_hex_escape, incomplete_unicode_escape, invalid_unicode_escape, raw_string_end, front,
  tail, is_at_end, peek, peek_next, advance, advance_while, add_token, error, error_at,
  unless_returned,
}

-- The library's `strtoul` in base 16, modulo 2 ^ 64: white space, a sign, an optional 0x, digits;
-- `none` where there is no digit.
unfoldable pub skip_spaces : List Byte → List Byte
skip_spaces [] = []
skip_spaces (c ∷ s) = if (leb 9 c && leb c 13) || c == b' ' then skip_spaces s else c ∷ s

unfoldable pub hex_prefix : List Byte → ℕ → ℕ
unfolding is_xdigit digit_value
hex_prefix [] acc = acc
hex_prefix (c ∷ s) acc = if is_xdigit c then hex_prefix s (acc * 16 + digit_value c) else acc

unfoldable pub skip_0x : List Byte → List Byte
unfolding is_xdigit
skip_0x s =
    if front s == b'0'
      && (front (tail s) == b'x' || front (tail s) == b'X')
      && is_xdigit (front (drop 2 s))
    then drop 2 s
    else s

unfoldable pub unsigned_hex : List Byte → Option ℕ
unfolding skip_0x hex_prefix
unsigned_hex s = if is_xdigit (front (skip_0x s)) then some (hex_prefix (skip_0x s) 0) else none

unfoldable pub negate : Option ℕ → Option ℕ
negate none = none
negate (some n) = some ((2 ^ 64 - n) % 2 ^ 64)

unfoldable pub sto_hex : List Byte → Option ℕ
unfolding unsigned_hex skip_spaces negate
sto_hex s =
    let t = skip_spaces s in
    if front t == b'-'
    then negate (unsigned_hex (tail t))
    else if front t == b'+'
    then unsigned_hex (tail t)
    else unsigned_hex t

-- `current += n; column += n`, which does not look at the bytes.
unfoldable pub jump_over : ℕ → Lexer → Lexer
jump_over n s = record s {
  lexeme = s.lexeme ++ take n s.rest;
  rest = drop n s.rest;
  column = s.column + n;
}

unfoldable pub hex_escape_value : Option ℕ → List Byte → Lexer → List Byte × Lexer
unfolding error
hex_escape_value none value s = (value, error invalid_hex_escape s)
hex_escape_value (some n) value s = (value ++ n % 256 ∷ [], s)

unfoldable pub hex_escape : List Byte → Lexer → List Byte × Lexer
unfolding hex_escape_value sto_hex jump_over
hex_escape value s =
    if ltb (length s.rest) 2
    then (value, error incomplete_hex_escape s)
    else hex_escape_value (sto_hex (take 2 s.rest)) value (jump_over 2 s)

-- The bytes for `\uXXXX`.
unfoldable pub unicode_bytes : ℕ → List Byte
unicode_bytes cp =
    if leb cp 0x7F
    then cp ∷ []
    else if leb cp 0x7FF
    then bit_or 0xC0 (cp / 2 ^ 6) % 256 ∷ bit_or 0x80 (cp % 64) ∷ []
    else bit_or 0xE0 (cp / 2 ^ 12) % 256
      ∷ bit_or 0x80 (cp / 2 ^ 6 % 64)
      ∷ bit_or 0x80 (cp % 64)
      ∷ []

unfoldable pub unicode_escape_value : Option ℕ → List Byte → Lexer → List Byte × Lexer
unfolding error unicode_bytes
unicode_escape_value none value s = (value, error invalid_unicode_escape s)
unicode_escape_value (some cp) value s = (value ++ unicode_bytes cp, s)

unfoldable pub unicode_escape : List Byte → Lexer → List Byte × Lexer
unfolding unicode_escape_value sto_hex jump_over
unicode_escape value s =
    if ltb (length s.rest) 4
    then (value, error incomplete_unicode_escape s)
    else unicode_escape_value (sto_hex (take 4 s.rest)) value (jump_over 4 s)

-- The byte that a simple escape stands for; `\\`, `\"`, `\'` and the unknown ones are themselves.
unfoldable pub simple_escape : Byte → Byte
simple_escape c =
    if c == b'n'
    then b'\n'
    else if c == b't'
    then b'\t'
    else if c == b'r'
    then b'\r'
    else if c == b'0'
    then 0
    else c

-- From behind the backslash and the byte `c`.
unfoldable pub escaped : Byte → List Byte → Lexer → List Byte × Lexer
unfolding hex_escape unicode_escape simple_escape
escaped c value s =
    if c == b'x'
    then hex_escape value s
    else if c == b'u'
    then unicode_escape value s
    else (value ++ simple_escape c ∷ [], s)

-- `line++; column = 1` at a newline, before `advance` counts it.
unfoldable pub count_newline : Lexer → Lexer
unfolding peek
count_newline s = if peek s == b'\n' then record s { line = suc s.line; column = 1 } else s

unfoldable pub at_close : Bool → Byte → Lexer → Bool
unfolding peek peek_next
at_close multiline quote s =
    if multiline
    then peek s == b'"' && peek_next s == b'"' && front (drop 2 s.rest) == b'"'
    else peek s == quote

-- The part of a round behind the tests for the end of the string.
unfoldable pub string_step : ℕ → ℕ → List Byte → Lexer → Lexer ⊎ (List Byte × Lexer)
unfolding escaped advance peek is_at_end
string_step line column value s =
    if peek s == b'\\'
    then (if is_at_end (advance s)
        then inl (error_at no_closing_quote line column (advance s))
        else inr (escaped (peek (advance s)) value (advance (advance s))))
    else inr (value ++ peek s ∷ [], advance s)

unfoldable pub string_round : Bool → ℕ → ℕ → List Byte → Lexer → Lexer ⊎ (List Byte × Lexer)
unfolding string_step count_newline
string_round multiline line column value s =
    if multiline
    then string_step line column value (count_newline s)
    else if peek s == b'\n'
    then inl (error unterminated_string s)
    else string_step line column value s

unfoldable pub string_loop :
    ℕ → Bool → Byte → ℕ → ℕ → List Byte × Lexer → Lexer ⊎ (List Byte × Lexer)
unfolding string_round at_close is_at_end unless_returned
string_loop zero multiline quote line column t = inr t
string_loop (suc fuel) multiline quote line column t =
    if is_at_end t.1 || at_close multiline quote t.1
    then inr t
    else unless_returned (string_round multiline line column t.0 t.1)
        (string_loop fuel multiline quote line column)

unfoldable pub end_string : Bool → ℕ → ℕ → Lexer ⊎ (List Byte × Lexer) → Lexer
unfolding add_token error_at is_at_end advance
end_string multiline line column (inl s) = s
end_string multiline line column (inr (value, s)) =
    if is_at_end s
    then error_at no_closing_quote line column s
    else add_token TokenKind.string (text value)
        (if multiline then advance (advance (advance s)) else advance s)

unfoldable pub scan_quoted : Bool → Lexer → ℕ → ℕ → Lexer
unfolding string_loop end_string
scan_quoted multiline s line column =
    end_string multiline line column
      (string_loop (length s.rest) multiline (front s.lexeme) line column ([], s))

unfoldable pub scan_string : Lexer → Lexer
unfolding scan_quoted
scan_string s =
    if front s.lexeme == b'"' && peek s == b'"' && peek_next s == b'"'
    then scan_quoted true (advance (advance s)) s.line s.column
    else scan_quoted false s s.line s.column

unfoldable pub raw_loop : ℕ → Byte → List Byte → Lexer → List Byte × Lexer
unfolding count_newline advance peek is_at_end
raw_loop zero quote value s = (value, s)
raw_loop (suc fuel) quote value s =
    if is_at_end s || peek s == quote
    then (value, s)
    else raw_loop fuel quote (value ++ peek s ∷ []) (advance (count_newline s))

unfoldable pub end_raw : ℕ → ℕ → List Byte × Lexer → Lexer
unfolding add_token error_at is_at_end advance
end_raw line column (value, s) =
    if is_at_end s
    then error_at raw_string_end line column s
    else add_token TokenKind.string (text value) (advance s)

unfoldable pub scan_raw_string : Lexer → Lexer
unfolding raw_loop end_raw
scan_raw_string s = end_raw s.line s.column (raw_loop (length s.rest) (peek s) [] (advance s))

unfoldable pub add_keyword : TokenKind → Lexer → Lexer
unfolding add_token
add_keyword TokenKind.true_kw s = add_token TokenKind.true_kw (boolean true) s
add_keyword TokenKind.false_kw s = add_token TokenKind.false_kw (boolean false) s
add_keyword kind s = add_token kind nullptr s

-- An identifier that is not in the table, or the prefix of a raw string.
unfoldable pub add_word : Option TokenKind → Lexer → Lexer
unfolding add_keyword scan_raw_string peek
add_word (some kind) s = add_keyword kind s
add_word none s =
    if same_text s.lexeme (b'r' ∷ []) && (peek s == b'"' || peek s == b'\'')
    then scan_raw_string (record s { lexeme = [] })
    else add_token TokenKind.identifier nullptr s

unfoldable pub end_word : Lexer → Lexer
unfolding add_word keywords find_keyword
end_word s = add_word (find_keyword keywords s.lexeme) s

unfoldable pub scan_identifier : Lexer → Lexer
unfolding end_word advance_while is_alpha_numeric
scan_identifier s = end_word (advance_while is_alpha_numeric (length s.rest) s)
