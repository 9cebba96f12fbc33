-- ===== src/Parser/Tests.antt =====
-- The parser on written examples, and instances of the theorems.
use ez_language.Prelude.{ℕ, false, Option, none, some, List, [], ◌∷◌, ◌≡◌, refl, arith}
use ez_language.Bytecode.Types.{Text}
use ez_language.Lexer.Kinds.{TokenKind}
use ez_language.Lexer.State.{Token, Literal}
use ez_language.Parser.KindTests.{same_kind, is_one_of, is_keyword_token, is_property_name_token}
use ez_language.Parser.Syntax.{identifier, binary, call, property, lambda_block, all_exprs}
use ez_language.Parser.Tokens.{
  plain, ok, failed, Parser, and_then, is_at_end, check, match_any, consume, skip_newlines,
  comma_list,
}
use ez_language.Parser.Primary.{
  primary, primary_from, items_until, lambda_expression, parameters, lambda_body, until_brace,
}
use ez_language.Parser.Expressions.{
  argument, finish_call, property_after, call_step, call_loop, call_expression, unary_expression,
  power, left_loop, operators, node_of, level, null_coalescing, ternary_expression, assign_to,
  assignment, expression, calls, parse_expression,
}
use ez_language.Bytecode.Pool.{text_eq}
use ez_language.Utils.Distance.{
  to_lower, cost, next_row, least, last_cell, rows, first_row, name_distance,
}
use ez_language.Parser.Recovery.{
  synchronize, sync_loop, stops_at, depth_behind, suggest_statement_keyword, closest,
}
use ez_language.Parser.Source.{Source, name, infixed, Infix, tree, mark, token, written, nesting}
use ez_language.Parser.ReadBack.{parse_expression-written}

-- A parser of statements that takes one token.
abbrev take_one : ℕ → Parser (Option ℕ)
take_one d [] = ok none []
take_one d (t ∷ ts) = ok (some 7) ts

abbrev word_a : Text
word_a = b'a' ∷ []

abbrev word_b : Text
word_b = b'b' ∷ []

abbrev word_c : Text
word_c = b'c' ∷ []

abbrev id_token : Text → Token
id_token w = token TokenKind.identifier w Literal.nullptr

abbrev file_end : List Token
file_end = mark TokenKind.end_of_file ∷ []

-- `a - b - c`
left_grouping :
    parse_expression take_one 0 (
      id_token word_a
      ∷ mark TokenKind.minus
      ∷ id_token word_b
      ∷ mark TokenKind.minus
      ∷ id_token word_c
      ∷ file_end)
    ≡ ok
        (binary
          (binary (identifier word_a) TokenKind.minus (identifier word_b))
          TokenKind.minus
          (identifier word_c))
        file_end
unfolding parse_expression calls expression assignment ternary_expression null_coalescing level
    power unary_expression call_expression call_loop call_step primary primary_from left_loop
    operators node_of and_then match_any is_at_end is_one_of same_kind skip_newlines
left_grouping = refl

-- `a.b(c)` over two lines, with the dot on the second.
chained_call :
    parse_expression take_one 0 (
      id_token word_a
      ∷ mark TokenKind.newline
      ∷ mark TokenKind.dot
      ∷ id_token word_b
      ∷ mark TokenKind.lparen
      ∷ id_token word_c
      ∷ mark TokenKind.rparen
      ∷ file_end)
    ≡ ok
        (call
          (property (identifier word_a) word_b false)
          (all_exprs (identifier word_c ∷ []))
          ([] ∷ []))
        file_end
unfolding parse_expression calls expression assignment ternary_expression null_coalescing level
    power unary_expression call_expression call_loop call_step primary primary_from left_loop
    operators node_of and_then match_any is_at_end is_one_of same_kind skip_newlines finish_call
    items_until argument check comma_list consume property_after is_property_name_token
    is_keyword_token
chained_call = refl

-- `a + b = c` has no target.
no_target :
    parse_expression take_one 0 (
      id_token word_a
      ∷ mark TokenKind.plus
      ∷ id_token word_b
      ∷ mark TokenKind.equal
      ∷ id_token word_c
      ∷ file_end)
    ≡ failed (plain "Invalid assignment target") 1
unfolding parse_expression calls expression assignment assign_to ternary_expression null_coalescing
    level power unary_expression call_expression call_loop call_step primary primary_from left_loop
    operators node_of and_then match_any is_at_end is_one_of same_kind skip_newlines
no_target = refl

-- A keyword inside brackets is passed over, the next one is not.
recovered :
    synchronize (
      id_token word_a
      ∷ mark TokenKind.lparen
      ∷ mark TokenKind.when
      ∷ mark TokenKind.rparen
      ∷ mark TokenKind.out
      ∷ file_end)
    ≡ mark TokenKind.out ∷ file_end
unfolding synchronize sync_loop stops_at depth_behind is_one_of same_kind
recovered = refl

-- `wen`
suggested : suggest_statement_keyword (b'w' ∷ b'e' ∷ b'n' ∷ []) ≡ b'w' ∷ b'h' ∷ b'e' ∷ b'n' ∷ []
unfolding suggest_statement_keyword closest name_distance text_eq rows first_row next_row least
    last_cell cost to_lower
suggested = refl

-- `|a| { b }`
abbrev lambda_tokens : List Token
lambda_tokens =
    mark TokenKind.pipe
    ∷ id_token word_a
    ∷ mark TokenKind.pipe
    ∷ mark TokenKind.lbrace
    ∷ id_token word_b
    ∷ mark TokenKind.rbrace
    ∷ file_end

block_lambda :
    parse_expression take_one 0 lambda_tokens
    ≡ ok (lambda_block (word_a ∷ []) (7 ∷ []) false false) file_end
unfolding parse_expression calls expression assignment ternary_expression null_coalescing level
    power unary_expression call_expression call_loop call_step primary primary_from left_loop
    operators node_of and_then match_any is_at_end is_one_of same_kind skip_newlines
    lambda_expression parameters lambda_body until_brace consume check
block_lambda = refl

-- `(a - (b - c)) * a` and `)`
abbrev grouped : Source
grouped =
    infixed Infix.star
      (infixed Infix.minus (name word_a) (infixed Infix.minus (name word_b) (name word_c)))
      (name word_a)

abbrev after_it : List Token
after_it = mark TokenKind.rparen ∷ file_end

parse_expression-written_example :
    parse_expression take_one 3 (written grouped after_it) ≡ ok (tree grouped) after_it
unfolding nesting is_one_of same_kind operators
parse_expression-written_example =
    parse_expression-written take_one 3 grouped after_it (omega arith) refl
