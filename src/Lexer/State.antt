-- ===== src/Lexer/State.antt =====
-- The state of `class Lexer` (src/lexer/Lexer.h) and its elementary steps (src/lexer/Lexer.cpp).
-- `peek` gives 0 at the end. Reports keep what `error` prints, without the line of source.
use ez_language.Prelude.{
  ℕ, zero, suc, ◌-◌, Bool, true, false, List, [], ◌∷◌, ◌++◌, ◌==◌, if◌then◌else◌, length, ltb,
  Option, none, some, ◌⊎◌, inl, inr,
}
use ez_language.Prelude.Int.{ℤ, pos, negsuc}
use ez_language.Bytes.{Byte}
use ez_language.Lexer.Kinds.{TokenKind}

-- `a - (int) b`
unfoldable pub int_sub : ℕ → ℕ → ℤ
int_sub a b = if ltb a b then negsuc (b - suc a) else pos (a - b)

-- The variant in a token; a `double` is its 64-bit pattern, a `long long` its own modulo 2 ^ 64.
pub data Literal : Type 0 where
  nullptr : Literal
  double integer : ℕ → Literal
  text : List Byte → Literal
  boolean : Bool → Literal

pub record Token : Type 0 where
  pub kind : TokenKind
  pub lexeme : List Byte
  pub literal : Literal
  pub line : ℕ
  pub column : ℤ

pub data Message : Type 0 where
  invalid_token unterminated_string no_closing_quote incomplete_hex_escape : Message
  invalid_hex_escape incomplete_unicode_escape invalid_unicode_escape : Message
  exponent_digits hex_digits hex_too_large binary_digits binary_too_large : Message
  raw_string_end comment_end template_end interpolation_end : Message
  unexpected_character : Byte → Message

pub record Report : Type 0 where
  pub message : Message
  pub at_line : ℕ
  pub at_column : ℕ

pub record Lexer : Type 0 where
  pub lexeme : List Byte
  pub rest : List Byte
  pub tokens : List Token
  pub line : ℕ
  pub column : ℕ
  pub had_error : Bool
  pub reports : List Report
  pub open_parens : ℕ
  pub open_brackets : ℕ

unfoldable pub new_lexer : List Byte → Lexer
new_lexer source = record {
  lexeme = [];
  rest = source;
  tokens = [];
  line = 1;
  column = 1;
  had_error = false;
  reports = [];
  open_parens = 0;
  open_brackets = 0;
}

abbrev pub front : List Byte → Byte
front [] = 0
front (c ∷ s) = c

abbrev pub tail : List Byte → List Byte
tail [] = []
tail (c ∷ s) = s

abbrev pub is_empty : List Byte → Bool
is_empty [] = true
is_empty (c ∷ s) = false

unfoldable pub is_at_end : Lexer → Bool
is_at_end s = is_empty s.rest

unfoldable pub peek : Lexer → Byte
peek s = front s.rest

unfoldable pub peek_next : Lexer → Byte
peek_next s = front (tail s.rest)

-- `advance` past the byte `c`.
unfoldable pub take_byte : Byte → List Byte → Lexer → Lexer
take_byte c rest s =
    if c == b'\n'
    then record s { lexeme = s.lexeme ++ c ∷ []; rest = rest; line = suc s.line; column = 1 }
    else record s { lexeme = s.lexeme ++ c ∷ []; rest = rest; column = suc s.column }

unfoldable pub advance_from : List Byte → Lexer → Lexer
unfolding take_byte
advance_from [] s = s
advance_from (c ∷ rest) s = take_byte c rest s

-- `advance` gives what `peek` gave before it.
unfoldable pub advance : Lexer → Lexer
unfolding advance_from
advance s = advance_from s.rest s

-- `match`: whether the next byte is the one expected.
unfoldable pub is_next : Byte → Lexer → Bool
unfolding peek is_at_end
is_next c s = if is_at_end s then false else peek s == c

-- `addToken`
unfoldable pub add_token : TokenKind → Literal → Lexer → Lexer
unfolding int_sub
add_token kind literal s = record s {
  tokens =
      s.tokens
      ++ record {
        kind = kind;
        lexeme = s.lexeme;
        literal = literal;
        line = s.line;
        column = int_sub s.column (length s.lexeme);
      }
        ∷ [];
}

unfoldable pub error_at : Message → ℕ → ℕ → Lexer → Lexer
error_at message line column s = record s {
  had_error = true;
  reports = s.reports ++ record { message = message; at_line = line; at_column = column } ∷ [];
}

-- `error` at the current position.
unfoldable pub error : Message → Lexer → Lexer
unfolding error_at
error message s = error_at message s.line s.column s

-- What follows unless the function has returned, or an exception was thrown.
unfoldable pub unless_returned {ℓ} : {A : Type ℓ} → Lexer ⊎ A → (A → Lexer ⊎ A) → Lexer ⊎ A
unless_returned (inl s) f = inl s
unless_returned (inr a) f = f a

infixl 2 ◌>>=◌
unfoldable pub ◌>>=◌ : Option Lexer → (Lexer → Option Lexer) → Option Lexer
none >>= f = none
some s >>= f = f s

-- A loop `while (test) advance();`, with the length of the rest for its fuel.
unfoldable pub advance_while : (Byte → Bool) → ℕ → Lexer → Lexer
unfolding advance is_at_end peek
advance_while test zero s = s
advance_while test (suc fuel) s =
    if is_at_end s then s else if test (peek s) then advance_while test fuel (advance s) else s
