-- ===== src/Parser/ReadBack/Operators.antt =====
-- The forms of expressions with operators between operands (`power` to `ternary` of
-- src/parser/ParserExpr.cpp).
use ez_language.Prelude.{
  ℕ, zero, suc, ◌≤◌, ◌+◌, arith, Option, none, some, List, ◌∷◌, ◌≡◌, refl, ap, ◌∙◌, length, ltb,
}
use ez_language.Lexer.Kinds.{TokenKind}
use ez_language.Lexer.State.{Token}
use ez_language.Parser.KindTests.{same_kind, is_one_of}
use ez_language.Parser.Tokens.{Parser, Result, ok, and_then, match_any, is_at_end, consume}
use ez_language.Parser.Syntax.{Expr}
use ez_language.Parser.Primary.{Calls}
use ez_language.Parser.Expressions.{
  unary_expression, power, left_loop, operators, node_of, level, null_coalescing,
  ternary_expression, expression, calls, max_depth,
}
use ez_language.Parser.Source.{
  Source, raised, infixed, conditional, Infix, looseness, infix_kind, infix_node, rank, tree, mark,
  wrap, written, nesting,
}
use ez_language.Parser.Quiet.{infix_kind-Quiet}
use ez_language.Parser.Climb.{and_then_ok, LoopsTo, ReadsAs, Full, closed}
use ez_language.Parser.ReadBack.Parts.{size, length-operand, ReadsBack, by_rank, operand}
use ez_language.Parser.ReadBack.Cases.{reads_inner}

looseness_bound : (o : Infix) → looseness o ≤ 10
looseness_bound Infix.star = omega arith
looseness_bound _ = omega arith

node_of_eq :
    (o : Infix) (l r : Expr) → node_of (suc (looseness o)) l (infix_kind o) r ≡ infix_node o l r
unfolding node_of
node_of_eq Infix.star l r = refl
node_of_eq _ l r = refl

match_any-infix :
    (o : Infix) (rest : List Token)
    → match_any (operators (suc (looseness o))) (mark (infix_kind o) ∷ rest)
      ≡ some (mark (infix_kind o), rest)
unfolding match_any is_at_end is_one_of same_kind operators
match_any-infix Infix.star rest = refl
match_any-infix _ rest = refl

-- One round of the loop of a level.
left_loop-infix :
    (o : Infix) (r : Calls) (d : ℕ) (e right : Expr) (after rest : List Token) (x : Result Expr)
    → level (looseness o) r d after ≡ ok right rest
    → length rest ≤ length after
    → LoopsTo (looseness o) r d (infix_node o e right) rest x
    → LoopsTo (looseness o) r d e (mark (infix_kind o) ∷ after) x
unfolding left_loop
left_loop-infix o r d e right after rest x reads shorter go zero enough = absurd (omega arith)
left_loop-infix o r d e right after rest x reads shorter go (suc n) enough =
    let j = looseness o in
    ap
      (λ (m : Option (Token × List Token)). elim m [
        | none ↦ ok e (mark (infix_kind o) ∷ after)
        | some taken ↦ and_then (level j r d taken.1) (λ right rest.
            left_loop n (operators (suc j)) (node_of (suc j)) (level j r d)
              (node_of (suc j) e taken.0.kind right) rest)
      ])
      (match_any-infix o after)
    ∙ and_then_ok (level j r d after) right rest _ reads
    ∙ ap (λ e. left_loop n (operators (suc j)) (node_of (suc j)) (level j r d) e rest)
        (node_of_eq o e right)
    ∙ go n (omega arith)

module _ (declaration : ℕ → Parser (Option ℕ)) where
  own_raised :
      (s t : Source)
      → ReadsBack declaration s
      → ReadsBack declaration t
      → (m d : ℕ) → size (raised s t) ≤ m
      → d + nesting (raised s t) ≤ max_depth
      → ReadsAs 2 (calls declaration m) d (written (raised s t)) (tree (raised s t))
  unfolding written size nesting level power match_any is_at_end is_one_of same_kind calls
  own_raised s t ih_s ih_t zero d fuel depth rest q = absurd (omega arith)
  own_raised s t ih_s ih_t (suc m) d fuel depth rest q =
      let after = wrap (ltb 2 (rank t)) (written t) rest in
      let behind = mark TokenKind.star_star ∷ after in
      and_then_ok
        (unary_expression (calls declaration (suc m)) d (wrap (ltb 1 (rank s)) (written s) behind))
        (tree s) behind _
        (operand declaration 1 (suc m) d s (omega arith) ih_s (omega arith) (omega arith) behind
          refl)
      ∙ and_then_ok (power (calls declaration m) d after) (tree t) rest _
          (operand declaration 2 m d t (omega arith) ih_t (omega arith) (omega arith) rest q)

  pub ReadsBack-raised :
      (s t : Source)
      → ReadsBack declaration s
      → ReadsBack declaration t
      → ReadsBack declaration (raised s t)
  ReadsBack-raised s t ih_s ih_t =
      by_rank declaration (raised s t) (omega arith) (own_raised s t ih_s ih_t)

  own_infixed :
      (o : Infix) (s t : Source)
      → ReadsBack declaration s
      → ReadsBack declaration t
      → (m d : ℕ) → size (infixed o s t) ≤ m
      → d + nesting (infixed o s t) ≤ max_depth
      → ReadsAs
          (suc (suc (suc (looseness o))))
          (calls declaration m)
          d
          (written (infixed o s t))
          (tree (infixed o s t))
  unfolding written size nesting
  own_infixed o s t ih_s ih_t m d fuel depth rest x q go =
      let r = calls declaration m in
      let c = suc (suc (looseness o)) in
      let top = looseness_bound o in
      let after = wrap (ltb c (rank t)) (written t) rest in
      operand declaration (suc c) m d s (omega arith) ih_s (omega arith) (omega arith)
        (mark (infix_kind o) ∷ after) x (infix_kind-Quiet o)
        (left_loop-infix o r d (tree s) (tree t) after rest x
          (closed c r d (wrap (ltb c (rank t)) (written t)) (tree t)
            (operand declaration c m d t (omega arith) ih_t (omega arith) (omega arith)) rest q)
          (omega (arith, length-operand (ltb c (rank t)) t rest)) go)

  pub ReadsBack-infixed :
      (o : Infix) (s t : Source)
      → ReadsBack declaration s
      → ReadsBack declaration t
      → ReadsBack declaration (infixed o s t)
  ReadsBack-infixed o s t ih_s ih_t =
      by_rank declaration (infixed o s t) (omega (arith, looseness_bound o))
        (own_infixed o s t ih_s ih_t)

  own_conditional :
      (c s t : Source)
      → ReadsBack declaration c
      → ReadsBack declaration s
      → ReadsBack declaration t
      → (m d : ℕ) → size (conditional c s t) ≤ m
      → d + nesting (conditional c s t) ≤ max_depth
      → Full (calls declaration m) d (written (conditional c s t)) (tree (conditional c s t))
  unfolding written size nesting ternary_expression null_coalescing match_any is_at_end is_one_of
      same_kind operators consume and_then calls
  own_conditional c s t ih_c ih_s ih_t zero d fuel depth rest q = absurd (omega arith)
  own_conditional c s t ih_c ih_s ih_t (suc m) d fuel depth rest q =
      let r = calls declaration (suc m) in
      let behind_s = mark TokenKind.colon ∷ written t rest in
      let behind_c = mark TokenKind.question_mark ∷ written s behind_s in
      and_then_ok (level 11 r d (wrap (ltb 13 (rank c)) (written c) behind_c)) (tree c) behind_c _ (
        closed 13 r d (wrap (ltb 13 (rank c)) (written c)) (tree c)
          (operand declaration 13 (suc m) d c (omega arith) ih_c (omega arith) (omega arith))
          behind_c refl)
      ∙ and_then_ok (expression (calls declaration m) d (written s behind_s)) (tree s) behind_s _
          (reads_inner declaration m d s ih_s (omega arith) (omega arith) behind_s refl)
      ∙ and_then_ok (ternary_expression (calls declaration m) d (written t rest)) (tree t) rest _
          ((ih_t m d (omega arith) (omega arith)).1 rest q)

  pub ReadsBack-conditional :
      (c s t : Source)
      → ReadsBack declaration c
      → ReadsBack declaration s
      → ReadsBack declaration t
      → ReadsBack declaration (conditional c s t)
  ReadsBack-conditional c s t ih_c ih_s ih_t n d fuel depth =
      (λ k low top. absurd (omega arith), own_conditional c s t ih_c ih_s ih_t n d fuel depth)
