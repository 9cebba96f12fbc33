-- ===== src/Lexer/Scan.antt =====
-- `Lexer::scanToken` and `Lexer::tokenize` of src/lexer/Lexer.cpp, with the parameter `stod` of
-- Lexer/Numbers. The main loop has the length of the source for fuel, and so has the depth of
-- templates inside templates: the text of an expression is shorter than the template.
use ez_language.Prelude.{
  ℕ, zero, suc, ◌-◌, Bool, ◌&&◌, ◌||◌, Option, none, some, List, [], ◌∷◌, ◌++◌, ◌==◌, if◌then◌else◌,
  length,
}
use ez_language.Bytes.{Byte}
use ez_language.Lexer.Kinds.{TokenKind}
use ez_language.Prelude.Int.{pos}
use ez_language.Lexer.State.{
  Lexer, nullptr, invalid_token, unexpected_character, new_lexer, is_at_end, peek, is_next, advance,
  add_token, error, ◌>>=◌,
}
use ez_language.Lexer.Comments.{skip_line_comment, skip_block_comment}
use ez_language.Lexer.Strings.{scan_string, scan_identifier}
use ez_language.Lexer.Numbers.{is_digit, is_alpha, scan_number, scan_hex_number, scan_binary_number}
use ez_language.Lexer.Templates.{is_quote, scan_interpolated_string}
use ez_language.Lexer.Newline.{scan_newline}

abbrev emit : TokenKind → Lexer → Lexer
emit kind s = add_token kind nullptr s

-- `if (match(c)) { f } else { g }`
abbrev when_next : Byte → (Lexer → Lexer) → (Lexer → Lexer) → Lexer → Lexer
when_next c f g s = if is_next c s then f (advance s) else g s

-- The tokens that are one byte and touch nothing else.
unfoldable pub single : Byte → Option TokenKind
single c =
    if c == b','
    then some TokenKind.comma
    else if c == b':'
    then some TokenKind.colon
    else if c == b'@'
    then some TokenKind.at
    else if c == b'{'
    then some TokenKind.lbrace
    else if c == b'}'
    then some TokenKind.rbrace
    else if c == b'%'
    then some TokenKind.percent
    else if c == b'&'
    then some TokenKind.ampersand
    else if c == b'|'
    then some TokenKind.pipe
    else if c == b'^'
    then some TokenKind.caret
    else if c == b'~'
    then some TokenKind.tilde
    else if c == b';'
    then some TokenKind.newline
    else none

unfoldable pub scan_dot : Lexer → Lexer
unfolding is_next advance add_token error
scan_dot =
    when_next b'.' (when_next b'.' (emit TokenKind.ellipsis) (error invalid_token))
      (emit TokenKind.dot)

-- The operators that a second byte may extend.
unfoldable pub scan_operator : Byte → Lexer → Lexer
unfolding is_next advance add_token scan_dot
scan_operator c =
    if c == b'?'
    then when_next b'?' (emit TokenKind.question_question)
        (when_next b'.' (emit TokenKind.question_dot) (emit TokenKind.question_mark))
    else if c == b'+'
    then when_next b'=' (emit TokenKind.plus_equal) (emit TokenKind.plus)
    else if c == b'-'
    then when_next b'=' (emit TokenKind.minus_equal)
        (when_next b'>' (emit TokenKind.arrow) (emit TokenKind.minus))
    else if c == b'*'
    then when_next b'*' (when_next b'=' (emit TokenKind.star_star_equal) (emit TokenKind.star_star))
        (when_next b'=' (emit TokenKind.star_equal) (emit TokenKind.star))
    else if c == b'='
    then when_next b'=' (emit TokenKind.equal_equal)
        (when_next b'>' (emit TokenKind.arrow) (emit TokenKind.equal))
    else if c == b'!'
    then when_next b'=' (emit TokenKind.bang_equal) (emit TokenKind.bang)
    else if c == b'<'
    then when_next b'<' (emit TokenKind.lshift)
        (when_next b'=' (emit TokenKind.less_equal) (emit TokenKind.less))
    else if c == b'>'
    then when_next b'>' (emit TokenKind.rshift)
        (when_next b'=' (emit TokenKind.greater_equal) (emit TokenKind.greater))
    else scan_dot

unfoldable pub is_operator : Byte → Bool
is_operator c =
    c == b'?'
    || c == b'+'
    || c == b'-'
    || c == b'*'
    || c == b'='
    || c == b'!'
    || c == b'<'
    || c == b'>'
    || c == b'.'

unfoldable pub scan_slash : Lexer → Lexer
unfolding is_next advance add_token skip_line_comment skip_block_comment
scan_slash = when_next b'/' skip_line_comment (
    when_next b'*' skip_block_comment
      (when_next b'=' (emit TokenKind.slash_equal) (emit TokenKind.slash)))

unfoldable pub is_bracket : Byte → Bool
is_bracket c = c == b'(' || c == b')' || c == b'[' || c == b']'

unfoldable pub is_space : Byte → Bool
is_space c = c == b' ' || c == b'\r' || c == b'\t'

-- A closing bracket without an opening one leaves the count at 0.
unfoldable pub scan_bracket : Byte → Lexer → Lexer
unfolding add_token
scan_bracket c s =
    if c == b'('
    then emit TokenKind.lparen (record s { open_parens = suc s.open_parens })
    else if c == b')'
    then emit TokenKind.rparen (record s { open_parens = s.open_parens - 1 })
    else if c == b'['
    then emit TokenKind.lbracket (record s { open_brackets = suc s.open_brackets })
    else emit TokenKind.rbracket (record s { open_brackets = s.open_brackets - 1 })

abbrev is_either : Byte → Byte → Byte → Bool
is_either a b c = c == a || c == b

-- `tokenize` behind its loop.
unfoldable pub end_tokens : Lexer → Lexer
end_tokens s = record s {
  tokens =
      s.tokens
      ++ record {
        kind = TokenKind.end_of_file;
        lexeme = [];
        literal = nullptr;
        line = s.line;
        column = pos s.column;
      }
        ∷ [];
}

module _ (stod : List Byte → Option ℕ) where
  -- The default case.
  unfoldable pub scan_default : Byte → Lexer → Option Lexer
  unfolding peek advance error scan_number scan_hex_number scan_binary_number scan_identifier
      is_digit is_alpha
  scan_default c s =
      if is_digit c
      then (if c == b'0' && is_either b'x' b'X' (peek s)
          then some (scan_hex_number (advance s))
          else if c == b'0' && is_either b'b' b'B' (peek s)
          then some (scan_binary_number (advance s))
          else scan_number stod s)
      else if is_alpha c
      then some (scan_identifier s)
      else some (error (unexpected_character c) s)

  module _ (sub : List Byte → Option Lexer) where
    unfoldable pub scan_text : Byte → Lexer → Option Lexer
    unfolding scan_newline scan_default scan_string scan_interpolated_string is_space is_quote
    scan_text c s =
        if c == b'\n'
        then some (scan_newline s)
        else if is_space c
        then some s
        else if is_quote c
        then some (scan_string s)
        else if c == b'`'
        then scan_interpolated_string sub s
        else scan_default c s

    unfoldable pub scan_other : Byte → Lexer → Option Lexer
    unfolding scan_operator scan_slash scan_bracket scan_text skip_line_comment is_operator
        is_bracket
    scan_other c s =
        if is_operator c
        then some (scan_operator c s)
        else if is_bracket c
        then some (scan_bracket c s)
        else if c == b'/'
        then some (scan_slash s)
        else if c == b'#'
        then some (skip_line_comment s)
        else scan_text c s

    unfoldable pub scan_case : Byte → Option TokenKind → Lexer → Option Lexer
    unfolding scan_other add_token
    scan_case c none s = scan_other c s
    scan_case c (some kind) s = some (emit kind s)

    -- `start = current; scanToken();`
    unfoldable pub scan_token : Lexer → Option Lexer
    unfolding scan_case single advance peek
    scan_token s = scan_case (peek s) (single (peek s)) (advance (record s { lexeme = [] }))

    unfoldable pub scan_loop : ℕ → Lexer → Option Lexer
    unfolding scan_token is_at_end ◌>>=◌
    scan_loop zero s = some s
    scan_loop (suc fuel) s = if is_at_end s then some s else (scan_token s >>= scan_loop fuel)

  unfoldable pub tokenize_at : ℕ → List Byte → Option Lexer
  unfolding scan_loop end_tokens new_lexer ◌>>=◌
  tokenize_at zero source = some (end_tokens (new_lexer source))
  tokenize_at (suc depth) source =
      scan_loop (tokenize_at depth) (length source) (new_lexer source) >>= λ s. some (end_tokens s)

  unfoldable pub tokenize : List Byte → Option Lexer
  unfolding tokenize_at
  tokenize source = tokenize_at (length source) source
