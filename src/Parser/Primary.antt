-- ===== src/Parser/Primary.antt =====
-- The expressions that begin with a token of their own (`primary`, `lambdaExpression` and
-- `finishCall` of src/parser/ParserExpr.cpp, `parseType` of src/parser/ParserStmt.cpp). What they call
-- back is in `Calls`.
use ez_language.Prelude.{
  ℕ, zero, suc, String, Bool, true, false, ◌||◌, Option, none, some, List, [], ◌∷◌, if◌then◌else◌,
  length,
}
use ez_language.Bytecode.Types.{Text}
use ez_language.Lexer.Kinds.{TokenKind}
use ez_language.Lexer.State.{Token, Literal}
use ez_language.Parser.KindTests.{describe_misplaced_keyword}
use ez_language.Parser.Syntax.{
  TypeAst, named, Expr, literal, identifier, spread, call, array, tuple, dictionary, lambda,
  lambda_block, self, super, new, no_exprs, exprs, all_exprs, all_types, all_pairs,
}
use ez_language.Parser.Tokens.{
  Message, plain, misplaced, ok, failed, out_of_fuel, Parser, and_then, line_at, check, is_at_end,
  match_any, consume, skip_newlines, comma_list,
}

-- The functions that a parsing function may call after it has taken a token, each with the depth of
-- the guards around it, and `declaration`, which may give no statement.
pub record Calls : Type 0 where
  pub expression : ℕ → Parser Expr
  pub ternary : ℕ → Parser Expr
  pub assignment : ℕ → Parser Expr
  pub power : ℕ → Parser Expr
  pub unary : ℕ → Parser Expr
  pub declaration : ℕ → Parser (Option ℕ)
  pub parse_type : Parser TypeAst

-- The type arguments in brackets, if there are any.
unfoldable pub type_arguments : Calls → Parser (List TypeAst)
unfolding and_then match_any consume comma_list
type_arguments r ts = elim (match_any (TokenKind.lbracket ∷ []) ts) [
  | none ↦ ok [] ts
  | some taken ↦ and_then (comma_list (suc (length taken.1)) r.parse_type taken.1) (λ found rest.
      and_then (consume TokenKind.rbracket "Expected ']' after type arguments" rest)
        (λ t rest. ok found rest))
]

unfoldable pub parse_type : Calls → Parser TypeAst
unfolding consume type_arguments and_then
parse_type r ts = and_then (consume TokenKind.identifier "Expected type name" ts) (λ t rest.
    and_then (type_arguments r rest) (λ found rest. ok (named t.lexeme (all_types found)) rest))

-- Items with commas between them up to a closing token, or nothing before it.
unfoldable pub items_until {ℓ} : {A : Type ℓ} → TokenKind → String → Parser A → Parser (List A)
unfolding check comma_list and_then consume
items_until close m item ts =
    and_then (if check close ts then ok [] ts else comma_list (suc (length ts)) item ts)
      (λ found rest. and_then (consume close m rest) (λ t rest. ok found rest))

unfoldable pub new_arguments : Calls → ℕ → Parser (List Expr)
unfolding match_any items_until
new_arguments r d ts = elim (match_any (TokenKind.lparen ∷ []) ts) [
  | none ↦ ok [] ts
  | some taken ↦
      items_until TokenKind.rparen "Expected ')' after arguments" (r.expression d) taken.1
]

unfoldable pub new_expression : Calls → ℕ → Parser Expr
unfolding consume type_arguments new_arguments and_then
new_expression r d ts =
    and_then (consume TokenKind.identifier "Expected model name after 'new'" ts) (λ t rest.
      and_then (type_arguments r rest) (λ type_args rest.
        and_then (new_arguments r d rest)
          (λ args rest. ok (new t.lexeme (all_exprs args) (all_types type_args)) rest)))

-- An element that may be spread.
unfoldable pub spread_or_expression : Calls → ℕ → Parser Expr
unfolding match_any and_then
spread_or_expression r d ts = elim (match_any (TokenKind.ellipsis ∷ []) ts) [
  | none ↦ r.expression d ts
  | some taken ↦ and_then (r.expression d taken.1) (λ e rest. ok (spread e) rest)
]

abbrev pub with_newlines {ℓ} : {A : Type ℓ} → Parser A → Parser A
with_newlines item ts = and_then (item (skip_newlines ts)) (λ a rest. ok a (skip_newlines rest))

unfoldable pub array_literal : Calls → ℕ → Parser Expr
unfolding items_until spread_or_expression and_then skip_newlines
array_literal r d ts =
    and_then
      (items_until TokenKind.rbracket "Expected ']' after array elements"
        (with_newlines (spread_or_expression r d)) ts)
      (λ es rest. ok (array (all_exprs es)) rest)

-- A key that is a name stands for the text of the name.
abbrev pub key_of : Expr → Expr
key_of (identifier name) = literal (Literal.text name)
key_of e = e

-- What may come between two entries.
unfoldable pub entry_end : Parser (Unit {0})
unfolding match_any check skip_newlines
entry_end ts = elim (match_any (TokenKind.comma ∷ []) ts) [
  | some taken ↦ ok tt (skip_newlines taken.1)
  | none ↦
      if check TokenKind.newline ts
      then ok tt (skip_newlines ts)
      else if check TokenKind.rbrace ts
      then ok tt ts
      else failed (plain "Expected ',' or newline between dictionary entries") (line_at ts)
]

unfoldable pub dictionary_entry : Calls → ℕ → Parser (Expr × Expr)
unfolding and_then consume entry_end
dictionary_entry r d ts = and_then (r.ternary d ts) (λ key rest.
    and_then (consume TokenKind.colon "Expected ':' after dictionary key" rest) (λ t rest.
      and_then (r.expression d rest)
        (λ value rest. and_then (entry_end rest) (λ u rest. ok (key_of key, value) rest))))

-- A loop that goes on until the closing brace or the end of the file.
unfoldable pub until_brace {ℓ} : {A : Type ℓ} → ℕ → Parser A → Parser (List A)
unfolding and_then check is_at_end
until_brace zero item ts = out_of_fuel
until_brace (suc n) item ts = elim (check TokenKind.rbrace ts || is_at_end ts) [
  | true ↦ ok [] ts
  | false ↦
      and_then (item ts)
        (λ a rest. and_then (until_brace n item rest) (λ more rest. ok (a ∷ more) rest))
]

unfoldable pub dictionary_literal : Calls → ℕ → Parser Expr
unfolding skip_newlines until_brace dictionary_entry and_then consume
dictionary_literal r d ts =
    let start = skip_newlines ts in
    and_then (until_brace (suc (length start)) (dictionary_entry r d) start) (λ entries rest.
      and_then (consume TokenKind.rbrace "Expected '}' after dictionary" rest)
        (λ t rest. ok (dictionary (all_pairs entries)) rest))

-- Behind the comma that makes a tuple of a first element.
unfoldable pub tuple_rest : Calls → ℕ → Expr → Parser Expr
unfolding items_until and_then skip_newlines
tuple_rest r d e ts =
    and_then
      (items_until TokenKind.rparen "Expected ')' after tuple elements"
        (with_newlines (r.expression d)) ts)
      (λ es rest. ok (tuple (exprs e (all_exprs es))) rest)

unfoldable pub parenthesised : Calls → ℕ → Parser Expr
unfolding match_any and_then tuple_rest consume
parenthesised r d ts = elim (match_any (TokenKind.rparen ∷ []) ts) [
  | some taken ↦ ok (tuple no_exprs) taken.1
  | none ↦ and_then (r.expression d ts) (λ e rest. elim (match_any (TokenKind.comma ∷ []) rest) [
    | some taken ↦ tuple_rest r d e taken.1
    | none ↦
        and_then (consume TokenKind.rparen "Expected ')' after expression" rest)
          (λ t rest. ok e rest)
  ])
]

-- The parameters of a lambda, with `isVariadic`. A rest parameter ends the list.
unfoldable pub parameters : ℕ → Parser (List Text × Bool)
unfolding match_any and_then consume
parameters zero ts = out_of_fuel
parameters (suc n) ts = elim (match_any (TokenKind.ellipsis ∷ []) ts) [
  | some taken ↦
      and_then (consume TokenKind.identifier "Expected parameter name after '...'" taken.1)
        (λ t rest. ok (t.lexeme ∷ [], true) rest)
  | none ↦ and_then (consume TokenKind.identifier "Expected parameter name" ts) (λ t rest.
      elim (match_any (TokenKind.comma ∷ []) rest) [
        | none ↦ ok (t.lexeme ∷ [], false) rest
        | some taken ↦
            and_then (parameters n taken.1) (λ more rest. ok (t.lexeme ∷ more.0, more.1) rest)
      ])
]

abbrev pub only_some : List (Option ℕ) → List ℕ
only_some [] = []
only_some (none ∷ os) = only_some os
only_some (some n ∷ os) = n ∷ only_some os

abbrev pub statement_item : Calls → ℕ → Parser (Option ℕ)
statement_item r d ts = and_then (r.declaration d ts) (λ o rest. ok o (skip_newlines rest))

unfoldable pub lambda_body : Calls → ℕ → List Text × Bool → Bool → Parser Expr
unfolding match_any and_then skip_newlines until_brace consume
lambda_body r d params is_async ts = elim (match_any (TokenKind.arrow ∷ []) ts) [
  | some taken ↦
      and_then (r.expression d (skip_newlines taken.1))
        (λ body rest. ok (lambda params.0 body params.1 is_async) rest)
  | none ↦ elim (match_any (TokenKind.lbrace ∷ []) ts) [
    | some taken ↦
        let start = skip_newlines taken.1 in
        and_then (until_brace (suc (length start)) (statement_item r d) start) (λ body rest.
          and_then (consume TokenKind.rbrace "Expected '}' after lambda body" rest)
            (λ t rest. ok (lambda_block params.0 (only_some body) params.1 is_async) rest))
    | none ↦
        and_then (r.expression d ts) (λ body rest. ok (lambda params.0 body params.1 is_async) rest)
  ]
]

unfoldable pub lambda_expression : Calls → ℕ → Bool → Parser Expr
unfolding check parameters and_then consume skip_newlines lambda_body
lambda_expression r d is_async ts =
    and_then
      (if check TokenKind.pipe ts then ok ([], false) ts else parameters (suc (length ts)) ts)
      (λ params rest.
        and_then (consume TokenKind.pipe "Expected '|' after lambda parameters" rest)
          (λ t rest. lambda_body r d params is_async (skip_newlines rest)))

-- Behind `async`: a lambda, or a block that is called at once.
unfoldable pub async_expression : Calls → ℕ → ℕ → Parser Expr
unfolding match_any lambda_expression check and_then lambda_body
async_expression r d line ts = elim (match_any (TokenKind.pipe ∷ []) ts) [
  | some taken ↦ lambda_expression r d true taken.1
  | none ↦
      if check TokenKind.lbrace ts
      then and_then (lambda_body r d ([], false) true ts) (λ e rest. ok (call e no_exprs []) rest)
      else failed (plain "Expected '|' or '{' after 'async'") line
]

abbrev input_name : Text
input_name = b'_' ∷ b'_' ∷ b'i' ∷ b'n' ∷ b'p' ∷ b'u' ∷ b't' ∷ b'_' ∷ b'_' ∷ []

abbrev pub with_hint : Option String → Message
with_hint none = plain "Expected expression"
with_hint (some hint) = misplaced hint

-- `primary` by the kind of its first token, with the tokens behind it. The lexer gives each number
-- and each string a literal of its own kind.
unfoldable pub primary_from : Calls → ℕ → Token → TokenKind → Parser Expr
unfolding new_expression lambda_expression async_expression array_literal dictionary_literal
    parenthesised
primary_from r d t TokenKind.false_kw rest = ok (literal (Literal.boolean false)) rest
primary_from r d t TokenKind.true_kw rest = ok (literal (Literal.boolean true)) rest
primary_from r d t TokenKind.nil rest = ok (literal Literal.nullptr) rest
primary_from r d t TokenKind.new rest = new_expression r d rest
primary_from r d t TokenKind.number rest = ok (literal t.literal) rest
primary_from r d t TokenKind.string rest = ok (literal t.literal) rest
primary_from r d t TokenKind.identifier rest = ok (identifier t.lexeme) rest
primary_from r d t TokenKind.super_kw rest = ok super rest
primary_from r d t TokenKind.self_kw rest = ok self rest
primary_from r d t TokenKind.in_kw rest = ok (call (identifier input_name) no_exprs []) rest
primary_from r d t TokenKind.pipe rest = lambda_expression r d false rest
primary_from r d t TokenKind.async rest = async_expression r d t.line rest
primary_from r d t TokenKind.lbracket rest = array_literal r d rest
primary_from r d t TokenKind.lbrace rest = dictionary_literal r d rest
primary_from r d t TokenKind.lparen rest = parenthesised r d rest
primary_from r d t k rest = failed (with_hint (describe_misplaced_keyword k)) t.line

unfoldable pub primary : Calls → ℕ → Parser Expr
unfolding primary_from
primary r d [] = failed (plain "Expected expression") 0
primary r d (t ∷ rest) = primary_from r d t t.kind rest
