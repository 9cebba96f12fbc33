-- ===== src/Parser/ReadBack/Cases.antt =====
-- The forms of expressions, one by one (`call` to `ternary` of src/parser/ParserExpr.cpp).
use ez_language.Prelude.{
  ℕ, zero, suc, ◌≤◌, ◌+◌, arith, Bool, true, false, Option, List, ◌∷◌, ◌≡◌, refl, ◌∙◌, length, ltb,
}
use ez_language.Bytecode.Types.{Text}
use ez_language.Lexer.Kinds.{TokenKind}
use ez_language.Lexer.State.{Token, Literal}
use ez_language.Parser.KindTests.{same_kind, is_one_of, is_property_name_token}
use ez_language.Parser.Tokens.{
  Parser, Result, ok, and_then, match_any, is_at_end, consume, skip_newlines,
}
use ez_language.Parser.Syntax.{Expr, index, property, unary}
use ez_language.Parser.Primary.{Calls, primary, primary_from}
use ez_language.Parser.Expressions.{
  call_step, property_after, call_loop, call_expression, unary_expression, operators, calls,
  max_depth,
}
use ez_language.Parser.Source.{
  Source, name, number, text, item, member, prefixed, awaited, Prefix, prefix_kind, dot_kind, rank,
  tree, mark, token, wrap, written, nesting,
}
use ez_language.Parser.Quiet.{Quiet, all_continuing}
use ez_language.Parser.Climb.{and_then_ok, CallsTo, ReadsAs, expression-Full}
use ez_language.Parser.ReadBack.Parts.{size, length-written, ReadsBack, by_rank, operand}

unary-prefixed :
    (o : Prefix) (r : Calls) (d : ℕ) (e : Expr) (after rest : List Token)
    → r.unary d after ≡ ok e rest
    → unary_expression r d (mark (prefix_kind o) ∷ after) ≡ ok (unary (prefix_kind o) e) rest
unfolding unary_expression match_any is_at_end is_one_of same_kind
unary-prefixed Prefix.bang r d e after rest reads = and_then_ok (r.unary d after) e rest _ reads
unary-prefixed Prefix.minus r d e after rest reads = and_then_ok (r.unary d after) e rest _ reads
unary-prefixed Prefix.not_kw r d e after rest reads = and_then_ok (r.unary d after) e rest _ reads
unary-prefixed Prefix.tilde r d e after rest reads = and_then_ok (r.unary d after) e rest _ reads

call_loop-member :
    (r : Calls) (d : ℕ) (e : Expr) (optional : Bool) (n : Text) (rest : List Token)
    (x : Result Expr)
    → CallsTo r d (property e n optional) rest x
    → CallsTo r d e
        (mark (dot_kind optional) ∷ token TokenKind.identifier n Literal.nullptr ∷ rest)
        x
unfolding call_loop call_step match_any is_at_end is_one_of same_kind skip_newlines property_after
    is_property_name_token and_then
call_loop-member r d e optional n rest x go zero enough = absurd (omega arith)
call_loop-member r d e true n rest x go (suc fuel) enough = go fuel (omega arith)
call_loop-member r d e false n rest x go (suc fuel) enough = go fuel (omega arith)

call_loop-item :
    (r : Calls) (d : ℕ) (e i : Expr) (after rest : List Token) (x : Result Expr)
    → r.expression d after ≡ ok i (mark TokenKind.rbracket ∷ rest)
    → length rest ≤ length after
    → CallsTo r d (index e i) rest x
    → CallsTo r d e (mark TokenKind.lbracket ∷ after) x
unfolding call_loop call_step match_any is_at_end is_one_of same_kind consume and_then
call_loop-item r d e i after rest x reads shorter go zero enough = absurd (omega arith)
call_loop-item r d e i after rest x reads shorter go (suc fuel) enough =
    and_then_ok _ (index e i) rest _
      (and_then_ok (r.expression d after) i (mark TokenKind.rbracket ∷ rest) _ reads)
    ∙ go fuel (omega arith)

module _ (declaration : ℕ → Parser (Option ℕ)) where
  pub ReadsBack-name : (n : Text) → ReadsBack declaration (name n)
  unfolding written size nesting call_expression primary primary_from and_then is_one_of same_kind
  ReadsBack-name n =
      by_rank declaration (name n) (omega arith)
        (λ m d fuel depth. (λ rest. refl, λ rest x go. go (suc (length rest)) (omega arith)))

  pub ReadsBack-number : (l : Literal) → ReadsBack declaration (number l)
  unfolding written size nesting call_expression primary primary_from and_then is_one_of same_kind
  ReadsBack-number l =
      by_rank declaration (number l) (omega arith)
        (λ m d fuel depth. (λ rest. refl, λ rest x go. go (suc (length rest)) (omega arith)))

  pub ReadsBack-text : (l : Literal) → ReadsBack declaration (text l)
  unfolding written size nesting call_expression primary primary_from and_then is_one_of same_kind
  ReadsBack-text l =
      by_rank declaration (text l) (omega arith)
        (λ m d fuel depth. (λ rest. refl, λ rest x go. go (suc (length rest)) (omega arith)))

  pub ReadsBack-member :
      (s : Source) (optional : Bool) (n : Text)
      → ReadsBack declaration s
      → ReadsBack declaration (member s optional n)
  unfolding written size nesting
  ReadsBack-member s optional n ih =
      by_rank declaration (member s optional n) (omega arith) (λ m d fuel depth.
        let object = operand declaration 0 m d s (omega arith) ih (omega arith) depth in
        (
          λ rest. object.0 _,
          λ rest x go.
              object.1 _ x (call_loop-member (calls declaration m) d (tree s) optional n rest x go),
        ))

  pub reads_inner :
      (n d : ℕ) (s : Source)
      → ReadsBack declaration s
      → size s ≤ n
      → suc d + nesting s ≤ max_depth
      → (after : List Token) → Quiet all_continuing after
      → (calls declaration (suc n)).expression d (written s after) ≡ ok (tree s) after
  unfolding calls
  reads_inner n d s ih fuel depth after q =
      expression-Full (calls declaration n) d (written s) (tree s) (ih n (suc d) fuel depth).1
        (omega arith) after q

  own_item :
      (s i : Source)
      → ReadsBack declaration s
      → ReadsBack declaration i
      → (m d : ℕ) → size (item s i) ≤ m
      → d + nesting (item s i) ≤ max_depth
      → ReadsAs 0 (calls declaration m) d (written (item s i)) (tree (item s i))
  unfolding written size nesting is_one_of same_kind operators
  own_item s i ih_s ih_i zero d fuel depth = absurd (omega arith)
  own_item s i ih_s ih_i (suc m) d fuel depth =
      let object =
        operand declaration 0 (suc m) d s (omega arith) ih_s (omega arith) (omega arith) in
      (
        λ rest. object.0 _,
        λ rest x go.
            let after = mark TokenKind.rbracket ∷ rest in
            object.1 _ x (
              call_loop-item (calls declaration (suc m)) d (tree s) (tree i) (written i after) rest
                x (reads_inner m d i ih_i (omega arith) (omega arith) after refl)
                (omega (arith, length-written i after)) go),
      )

  pub ReadsBack-item :
      (s i : Source)
      → ReadsBack declaration s
      → ReadsBack declaration i
      → ReadsBack declaration (item s i)
  ReadsBack-item s i ih_s ih_i =
      by_rank declaration (item s i) (omega arith) (own_item s i ih_s ih_i)

  own_prefixed :
      (o : Prefix) (s : Source)
      → ReadsBack declaration s
      → (m d : ℕ) → size (prefixed o s) ≤ m
      → d + nesting (prefixed o s) ≤ max_depth
      → ReadsAs 1 (calls declaration m) d (written (prefixed o s)) (tree (prefixed o s))
  unfolding written size nesting calls
  own_prefixed o s ih zero d fuel depth rest q = absurd (omega arith)
  own_prefixed o s ih (suc m) d fuel depth rest q =
      unary-prefixed o (calls declaration (suc m)) d (tree s)
        (wrap (ltb 1 (rank s)) (written s) rest) rest
        (operand declaration 1 m d s (omega arith) ih (omega arith) depth rest q)

  pub ReadsBack-prefixed :
      (o : Prefix) (s : Source) → ReadsBack declaration s → ReadsBack declaration (prefixed o s)
  ReadsBack-prefixed o s ih = by_rank declaration (prefixed o s) (omega arith) (own_prefixed o s ih)

  own_awaited :
      (s : Source)
      → ReadsBack declaration s
      → (m d : ℕ) → size (awaited s) ≤ m
      → d + nesting (awaited s) ≤ max_depth
      → ReadsAs 1 (calls declaration m) d (written (awaited s)) (tree (awaited s))
  unfolding written size nesting unary_expression match_any is_at_end is_one_of same_kind calls
  own_awaited s ih zero d fuel depth rest q = absurd (omega arith)
  own_awaited s ih (suc m) d fuel depth rest q =
      and_then_ok
        (unary_expression (calls declaration m) d (wrap (ltb 1 (rank s)) (written s) rest)) (tree s)
        rest _ (operand declaration 1 m d s (omega arith) ih (omega arith) depth rest q)

  pub ReadsBack-awaited : (s : Source) → ReadsBack declaration s → ReadsBack declaration (awaited s)
  ReadsBack-awaited s ih = by_rank declaration (awaited s) (omega arith) (own_awaited s ih)
