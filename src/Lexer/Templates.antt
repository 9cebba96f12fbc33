-- ===== src/Lexer/Templates.antt =====
-- `scanInterpolatedString` of src/lexer/Lexer.cpp. `sub` is what the inner lexer makes of the text of
-- an expression: its last state, or `none` where an exception leaves it.
use ez_language.Prelude.{
  ℕ, zero, suc, ◌-◌, Bool, true, false, not, ◌&&◌, ◌||◌, Option, none, some, ◌⊎◌, inl, inr, List,
  [], ◌∷◌, ◌++◌, map, ◌==◌, if◌then◌else◌, length,
}
use mathlib.Core.List.{flatten}
use ez_language.Bytes.{Byte}
use ez_language.Lexer.Kinds.{TokenKind}
use ez_language.Prelude.Int.{pos}
use ez_language.Lexer.State.{
  Lexer, Token, Literal, nullptr, text, template_end, interpolation_end, is_empty, is_at_end, peek,
  advance, error_at, unless_returned, ◌>>=◌,
}

pub data Part : Type 0 where
  plain expr : List Byte → Part

-- The texts of the parts so far, the text of the current one, and the state.
pub record Scanned : Type 0 where
  pub parts : List Part
  pub current : List Byte
  pub lexer : Lexer

-- A string inside an expression, up to its closing quote: whether it goes on behind the byte `c`.
unfoldable pub inner_step : Byte → List Byte → Lexer → List Byte × Lexer
unfolding advance peek is_at_end
inner_step c value s =
    if c == b'\\' && not (is_at_end s)
    then (value ++ c ∷ peek s ∷ [], advance s)
    else (value ++ c ∷ [], s)

unfoldable pub inner_loop : ℕ → Byte → List Byte → Lexer → List Byte × Lexer
unfolding inner_step is_at_end
inner_loop zero quote value s = (value, s)
inner_loop (suc fuel) quote value s =
    let next = inner_step (peek s) value (advance s) in
    if is_at_end s
    then (value, s)
    else if (peek s == b'\\' && not (is_at_end (advance s))) || not (peek s == quote)
    then inner_loop fuel quote next.0 next.1
    else next

unfoldable pub is_quote : Byte → Bool
is_quote c = c == b'"' || c == b'\''

unfoldable pub brace_depth : Byte → ℕ → ℕ
brace_depth c depth = if c == b'{' then suc depth else if c == b'}' then depth - 1 else depth

-- A round of the loop over an expression that is not its end.
unfoldable pub expr_step : List Byte → Lexer → List Byte × Lexer
unfolding inner_loop is_quote
expr_step value s =
    if is_quote (peek s)
    then inner_loop (length s.rest) (peek s) (value ++ peek s ∷ []) (advance s)
    else (value ++ peek s ∷ [], advance s)

-- Up to the brace that closes the expression, or the end.
unfoldable pub expr_loop : ℕ → ℕ → List Byte → Lexer → List Byte × Lexer
unfolding expr_step brace_depth is_at_end
expr_loop zero depth value s = (value, s)
expr_loop (suc fuel) depth value s =
    if is_at_end s || brace_depth (peek s) depth == 0
    then (value, s)
    else expr_loop fuel (brace_depth (peek s) depth) (expr_step value s).0 (expr_step value s).1

unfoldable pub add_expr : List Byte → List Part → List Part
add_expr value parts = if is_empty value then parts else parts ++ expr value ∷ []

unfoldable pub end_expr : ℕ → ℕ → List Part → List Byte × Lexer → Lexer ⊎ Scanned
unfolding add_expr error_at is_at_end advance
end_expr line column parts (value, s) =
    if is_at_end s
    then inl (error_at interpolation_end line column s)
    else inr (record { parts = add_expr value parts; current = []; lexer = advance s })

unfoldable pub template_escape : Byte → Byte
template_escape c =
    if c == b'n' then b'\n' else if c == b't' then b'\t' else if c == b'r' then b'\r' else c

-- Behind the backslash.
unfoldable pub template_escaped : ℕ → ℕ → Scanned → Lexer ⊎ Scanned
unfolding template_escape error_at is_at_end advance peek
template_escaped line column t =
    if is_at_end t.lexer
    then inl (error_at template_end line column t.lexer)
    else inr (record t {
      current = t.current ++ template_escape (peek t.lexer) ∷ [];
      lexer = advance t.lexer;
    })

unfoldable pub template_step : ℕ → ℕ → Scanned → Lexer ⊎ Scanned
unfolding template_escaped end_expr expr_loop
template_step line column t =
    if peek t.lexer == b'\\'
    then template_escaped line column (record t { lexer = advance t.lexer })
    else if peek t.lexer == b'{'
    then end_expr line column (t.parts ++ plain t.current ∷ [])
        (expr_loop (length t.lexer.rest) 1 [] (advance t.lexer))
    else inr (record t { current = t.current ++ peek t.lexer ∷ []; lexer = advance t.lexer })

unfoldable pub template_loop : ℕ → ℕ → ℕ → Scanned → Lexer ⊎ Scanned
unfolding template_step is_at_end unless_returned
template_loop zero line column t = inr t
template_loop (suc fuel) line column t =
    if is_at_end t.lexer || peek t.lexer == b'`'
    then inr t
    else unless_returned (template_step line column t) (template_loop fuel line column)

abbrev is_expr : Part → Bool
is_expr (plain value) = false
is_expr (expr value) = true

abbrev part_text : Part → List Byte
part_text (plain value) = value
part_text (expr value) = value

unfoldable pub has_expr : List Part → Bool
has_expr [] = false
has_expr (p ∷ ps) = if is_expr p then true else has_expr ps

-- A token at the start of the template.
abbrev pub make_token : ℕ → ℕ → TokenKind → List Byte → Literal → Token
make_token line column kind lexeme literal = record {
  kind = kind;
  lexeme = lexeme;
  literal = literal;
  line = line;
  column = pos column;
}

-- The tokens of an expression without line ends, on the line of the template.
unfoldable pub is_kept : TokenKind → Bool
is_kept TokenKind.end_of_file = false
is_kept TokenKind.newline = false
is_kept kind = true

unfoldable pub inner_tokens : ℕ → List Token → List Token
unfolding is_kept
inner_tokens line [] = []
inner_tokens line (t ∷ ts) =
    if is_kept t.kind then record t { line = line } ∷ inner_tokens line ts else inner_tokens line ts

unfoldable pub push : List Token → Lexer → Lexer
push ts s = record s { tokens = s.tokens ++ ts }

-- What the inner lexer printed is printed; its `hadError` is not looked at.
unfoldable pub emit_inner : ℕ → ℕ → Lexer → Option Lexer → Option Lexer
unfolding inner_tokens push
emit_inner line column s none = none
emit_inner line column s (some inner) = some (
    push
      (make_token line column TokenKind.identifier (b's' ∷ b't' ∷ b'r' ∷ []) nullptr
        ∷ make_token line column TokenKind.lparen (b'(' ∷ []) nullptr
        ∷ (inner_tokens line inner.tokens
            ++ make_token line column TokenKind.rparen (b')' ∷ []) nullptr ∷ []))
      (record s { reports = s.reports ++ inner.reports }))

module _ (sub : List Byte → Option Lexer) where
  unfoldable pub emit_part : ℕ → ℕ → Part → Lexer → Option Lexer
  unfolding emit_inner push
  emit_part line column (plain value) s = some (
      push (make_token line column TokenKind.string (b'"' ∷ (value ++ b'"' ∷ [])) (text value) ∷ [])
        s)
  emit_part line column (expr value) s = emit_inner line column s (sub value)

  -- A plus stands before each part but the first.
  unfoldable pub emit_parts : Bool → ℕ → ℕ → List Part → Lexer → Option Lexer
  unfolding emit_part ◌>>=◌
  emit_parts first line column [] s = some s
  emit_parts first line column (p ∷ ps) s =
      emit_part line column p (
        if first
        then s
        else push (make_token line column TokenKind.plus (b'+' ∷ []) nullptr ∷ []) s)
      >>= emit_parts false line column ps

  unfoldable pub emit_template : ℕ → ℕ → List Part → Lexer → Option Lexer
  unfolding emit_parts has_expr ◌>>=◌
  emit_template line column parts s =
      if has_expr parts
      then (emit_parts true line column parts
            (push (make_token line column TokenKind.lparen (b'(' ∷ []) nullptr ∷ []) s)
          >>= λ t. some (push (make_token line column TokenKind.rparen (b')' ∷ []) nullptr ∷ []) t))
      else (let full = flatten (map part_text parts) in
          some (
            push
              (make_token line column TokenKind.string (b'`' ∷ (full ++ b'`' ∷ [])) (text full)
                ∷ [])
              s))

  unfoldable pub end_template : ℕ → ℕ → Lexer ⊎ Scanned → Option Lexer
  unfolding emit_template error_at is_at_end advance
  end_template line column (inl s) = some s
  end_template line column (inr t) =
      if is_at_end t.lexer
      then some (error_at template_end line column t.lexer)
      else emit_template line column (t.parts ++ plain t.current ∷ []) (advance t.lexer)

  unfoldable pub scan_interpolated_string : Lexer → Option Lexer
  unfolding template_loop end_template
  scan_interpolated_string s = end_template s.line s.column (
      template_loop (length s.rest) s.line s.column
        (record { parts = []; current = []; lexer = s }))
