-- ===== src/Parser/Expressions.antt =====
-- Operators, calls and assignments (`expression` to `call` of src/parser/ParserExpr.cpp). The
-- functions call each other in a circle; here each is built from `Calls`, and `calls` closes the
-- circle as often as its fuel says.
use ez_language.Prelude.{
  ℕ, zero, suc, ◌&&◌, drop, Option, none, some, List, [], ◌∷◌, ltb, if◌then◌else◌, length,
}
use ez_language.Bytecode.Types.{Text}
use ez_language.Lexer.Kinds.{TokenKind}
use ez_language.Lexer.State.{Token}
use ez_language.Parser.KindTests.{same_kind, is_property_name_token}
use ez_language.Parser.Syntax.{
  Expr, Exprs, identifier, binary, logical, unary, await, spread, call, index, property, assign,
  assign_index, set, destructure_assign, ternary, tuple, all_exprs,
}
use ez_language.Parser.Tokens.{
  plain, property_expected, Result, ok, failed, out_of_fuel, Parser, and_then, kind_at, line_at,
  check, match_any, consume, skip_newlines,
}
use ez_language.Parser.Primary.{Calls, items_until, primary, parse_type}

-- An argument with its name, which is empty where none is given.
unfoldable pub argument : Calls → ℕ → Parser (Text × Expr)
unfolding check match_any and_then same_kind
argument r d [] = and_then (r.expression d []) (λ e rest. ok ([], e) rest)
argument r d (t ∷ ts) =
    if check TokenKind.identifier (t ∷ ts) && same_kind (kind_at ts) TokenKind.equal
    then and_then (r.expression d (drop 1 ts)) (λ e rest. ok (t.lexeme, e) rest)
    else elim (match_any (TokenKind.ellipsis ∷ []) (t ∷ ts)) [
      | some taken ↦ and_then (r.expression d taken.1) (λ e rest. ok ([], spread e) rest)
      | none ↦ and_then (r.expression d (t ∷ ts)) (λ e rest. ok ([], e) rest)
    ]

abbrev pub names_of : List (Text × Expr) → List Text
names_of [] = []
names_of ((name, e) ∷ more) = name ∷ names_of more

abbrev pub values_of : List (Text × Expr) → List Expr
values_of [] = []
values_of ((name, e) ∷ more) = e ∷ values_of more

unfoldable pub finish_call : Calls → ℕ → Expr → Parser Expr
unfolding items_until argument and_then
finish_call r d callee ts =
    and_then (items_until TokenKind.rparen "Expected ')' after arguments" (argument r d) ts)
      (λ args rest. ok (call callee (all_exprs (values_of args)) (names_of args)) rest)

-- Behind the dot `op`.
unfoldable pub property_after : Token → Expr → Parser Expr
unfolding same_kind is_property_name_token
property_after op e [] = failed (property_expected op.lexeme) op.line
property_after op e (t ∷ ts) =
    if is_property_name_token t.kind
    then ok (property e t.lexeme (same_kind op.kind TokenKind.question_dot)) ts
    else failed (property_expected op.lexeme) op.line

abbrev pub dots : List TokenKind
dots = TokenKind.dot ∷ TokenKind.question_dot ∷ []

-- One round of the loop of `call`; `none` where it breaks.
unfoldable pub call_step : Calls → ℕ → Expr → List Token → Option (Result Expr)
unfolding match_any finish_call and_then consume property_after skip_newlines
call_step r d e ts = elim (match_any (TokenKind.lparen ∷ []) ts) [
  | some taken ↦ some (finish_call r d e taken.1)
  | none ↦ elim (match_any (TokenKind.lbracket ∷ []) ts) [
    | some taken ↦ some (
        and_then (r.expression d taken.1) (λ i rest.
          and_then (consume TokenKind.rbracket "Expected ']' after index" rest)
            (λ t rest. ok (index e i) rest)))
    | none ↦ elim (match_any dots (skip_newlines ts)) [
      | some taken ↦ some (property_after taken.0 e taken.1)
      | none ↦ none
    ]
  ]
]

unfoldable pub call_loop : ℕ → Calls → ℕ → Expr → Parser Expr
unfolding call_step and_then
call_loop zero r d e ts = out_of_fuel
call_loop (suc n) r d e ts = elim (call_step r d e ts) [
  | none ↦ ok e ts
  | some result ↦ and_then result (λ e rest. call_loop n r d e rest)
]

unfoldable pub call_expression : Calls → ℕ → Parser Expr
unfolding primary and_then call_loop
call_expression r d ts =
    and_then (primary r d ts) (λ e rest. call_loop (suc (length rest)) r d e rest)

abbrev pub unary_operators : List TokenKind
unary_operators = TokenKind.bang ∷ TokenKind.minus ∷ TokenKind.not_kw ∷ TokenKind.tilde ∷ []

unfoldable pub unary_expression : Calls → ℕ → Parser Expr
unfolding match_any and_then call_expression
unary_expression r d ts = elim (match_any unary_operators ts) [
  | some taken ↦ and_then (r.unary d taken.1) (λ e rest. ok (unary taken.0.kind e) rest)
  | none ↦ elim (match_any (TokenKind.await ∷ []) ts) [
    | some taken ↦ and_then (r.unary d taken.1) (λ e rest. ok (await e) rest)
    | none ↦ call_expression r d ts
  ]
]

unfoldable pub power : Calls → ℕ → Parser Expr
unfolding unary_expression and_then match_any
power r d ts = and_then (unary_expression r d ts) (λ e rest.
    elim (match_any (TokenKind.star_star ∷ []) rest) [
      | none ↦ ok e rest
      | some taken ↦
          and_then (r.power d taken.1) (λ right rest. ok (binary e taken.0.kind right) rest)
    ])

-- The loop of each left-associative level.
unfoldable pub left_loop :
    ℕ → List TokenKind → (Expr → TokenKind → Expr → Expr) → Parser Expr → Expr → Parser Expr
unfolding match_any and_then
left_loop zero ops make next e ts = out_of_fuel
left_loop (suc n) ops make next e ts = elim (match_any ops ts) [
  | none ↦ ok e ts
  | some taken ↦
      and_then (next taken.1)
        (λ right rest. left_loop n ops make next (make e taken.0.kind right) rest)
]

-- The operators of the levels, from `power`, which has no loop, over `factor` to `nullCoalescing`.
abbrev pub operator_table : List (List TokenKind)
operator_table =
    []
    ∷ (TokenKind.star ∷ TokenKind.slash ∷ TokenKind.percent ∷ [])
    ∷ (TokenKind.plus ∷ TokenKind.minus ∷ [])
    ∷ (TokenKind.lshift ∷ TokenKind.rshift ∷ [])
    ∷ (TokenKind.greater ∷ TokenKind.greater_equal ∷ TokenKind.less ∷ TokenKind.less_equal
        ∷ TokenKind.in_kw ∷ [])
    ∷ (TokenKind.equal_equal ∷ TokenKind.bang_equal ∷ [])
    ∷ (TokenKind.ampersand ∷ [])
    ∷ (TokenKind.caret ∷ [])
    ∷ (TokenKind.pipe ∷ [])
    ∷ (TokenKind.and ∷ [])
    ∷ (TokenKind.or ∷ [])
    ∷ (TokenKind.question_question ∷ [])
    ∷ []

abbrev pub row : ℕ → List (List TokenKind) → List TokenKind
row k [] = []
row zero (ops ∷ table) = ops
row (suc k) (ops ∷ table) = row k table

unfoldable pub operators : ℕ → List TokenKind
operators k = row k operator_table

-- From `logicalAnd` on the nodes are logical.
unfoldable pub node_of : ℕ → Expr → TokenKind → Expr → Expr
node_of k l op r = if ltb 8 k then logical l op r else binary l op r

-- `power` is level 0; each level calls the one below.
unfoldable pub level : ℕ → Calls → ℕ → Parser Expr
unfolding power operators node_of left_loop and_then
level zero r d ts = power r d ts
level (suc k) r d ts = and_then (level k r d ts) (λ e rest.
    left_loop (suc (length rest)) (operators (suc k)) (node_of (suc k)) (level k r d) e rest)

unfoldable pub null_coalescing : Calls → ℕ → Parser Expr
unfolding level
null_coalescing = level 11

unfoldable pub ternary_expression : Calls → ℕ → Parser Expr
unfolding null_coalescing and_then match_any consume
ternary_expression r d ts = and_then (null_coalescing r d ts) (λ e rest.
    elim (match_any (TokenKind.question_mark ∷ []) rest) [
      | none ↦ ok e rest
      | some taken ↦ and_then (r.expression d taken.1) (λ then_branch rest.
          and_then
            (consume TokenKind.colon "Expected ':' after then branch of ternary operator" rest)
            (λ t rest.
              and_then (r.ternary d rest)
                (λ else_branch rest. ok (ternary e then_branch else_branch) rest)))
    ])

abbrev pub assignment_operators : List TokenKind
assignment_operators =
    TokenKind.equal ∷ TokenKind.plus_equal ∷ TokenKind.minus_equal ∷ TokenKind.star_equal
    ∷ TokenKind.star_star_equal ∷ TokenKind.slash_equal ∷ []

-- The operator of a compound assignment.
unfoldable pub compound_operator : TokenKind → Option TokenKind
compound_operator TokenKind.plus_equal = some TokenKind.plus
compound_operator TokenKind.minus_equal = some TokenKind.minus
compound_operator TokenKind.star_equal = some TokenKind.star
compound_operator TokenKind.star_star_equal = some TokenKind.star_star
compound_operator TokenKind.slash_equal = some TokenKind.slash
compound_operator _ = none

abbrev pub compound_value : Text → Option TokenKind → Expr → Expr
compound_value name none value = value
compound_value name (some op) value = binary (identifier name) op value

abbrev pub if_compound : Option TokenKind → TokenKind → Option TokenKind
if_compound none k = none
if_compound (some op) k = some k

abbrev pub destructured : Option TokenKind → Exprs → Expr → ℕ → Parser Expr
destructured none es value line rest = ok (destructure_assign es value) rest
destructured (some op) es value line rest =
    failed (plain "Compound assignment is not allowed for tuple destructuring") line

-- The node for an assignment to `target` by the operator token `op`.
unfoldable pub assign_to : Expr → Token → Expr → Parser Expr
unfolding compound_operator
assign_to (identifier name) op value rest =
    ok (assign name (compound_value name (compound_operator op.kind) value)) rest
assign_to (index object i) op value rest =
    ok (assign_index object i value (if_compound (compound_operator op.kind) op.kind)) rest
assign_to (property object name optional) op value rest =
    ok (set object name value (if_compound (compound_operator op.kind) op.kind)) rest
assign_to (tuple es) op value rest = destructured (compound_operator op.kind) es value op.line rest
assign_to target op value rest = failed (plain "Invalid assignment target") op.line

unfoldable pub assignment : Calls → ℕ → Parser Expr
unfolding ternary_expression and_then match_any assign_to
assignment r d ts = and_then (ternary_expression r d ts) (λ e rest.
    elim (match_any assignment_operators rest) [
      | none ↦ ok e rest
      | some taken ↦
          and_then (r.assignment d taken.1) (λ value rest. assign_to e taken.0 value rest)
    ])

-- `DepthGuard` with `MAX_DEPTH`.
abbrev pub max_depth : ℕ
max_depth = 100

unfoldable pub expression : Calls → ℕ → Parser Expr
unfolding assignment
expression r d ts =
    if ltb max_depth (suc d)
    then failed (plain "Maximum nesting depth exceeded") (line_at ts)
    else assignment r (suc d) ts

-- Every function with `n` more calls around the circle. `declaration` is the parser of statements.
unfoldable pub calls : (ℕ → Parser (Option ℕ)) → ℕ → Calls
unfolding expression ternary_expression assignment power unary_expression parse_type
calls declaration zero = record {
  expression = λ d ts. out_of_fuel;
  ternary = λ d ts. out_of_fuel;
  assignment = λ d ts. out_of_fuel;
  power = λ d ts. out_of_fuel;
  unary = λ d ts. out_of_fuel;
  declaration = declaration;
  parse_type = λ ts. out_of_fuel;
}
calls declaration (suc n) =
    let r = calls declaration n in
    record {
      expression = expression r;
      ternary = ternary_expression r;
      assignment = assignment r;
      power = power r;
      unary = unary_expression r;
      declaration = declaration;
      parse_type = parse_type r;
    }

-- `expression` at a token list, with as many calls as there are tokens.
unfoldable pub parse_expression : (ℕ → Parser (Option ℕ)) → ℕ → Parser Expr
unfolding calls
parse_expression declaration d ts = (calls declaration (suc (length ts))).expression d ts
