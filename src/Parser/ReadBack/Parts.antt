-- ===== src/Parser/ReadBack/Parts.antt =====
-- The tokens that are written for an expression: how many they are, and how they begin. What
-- `primary` makes of parentheses (src/parser/ParserExpr.cpp).
use ez_language.Prelude.{
  ℕ, zero, suc, ◌≤◌, ◌+◌, arith, Bool, true, false, Option, List, [], ◌∷◌, ◌≡◌, refl, ◌∙◌, length,
  ltb, ltb_false→le,
}
use ez_language.Lexer.Kinds.{TokenKind}
use ez_language.Lexer.State.{Token, Literal}
use ez_language.Parser.KindTests.{same_kind, is_one_of}
use ez_language.Parser.Tokens.{Parser, ok, and_then, match_any, consume}
use ez_language.Parser.Primary.{primary, parenthesised}
use ez_language.Parser.Expressions.{call_expression, expression, calls, max_depth}
use ez_language.Parser.Source.{
  Source, name, number, text, item, member, prefixed, awaited, raised, infixed, conditional, Prefix,
  looseness, rank, tree, dot_kind, infix_kind, prefix_kind, token, mark, wrap, written, deeper,
  nesting,
}
use ez_language.Parser.Quiet.{Quiet, branch-Quiet}
use ez_language.Parser.Climb.{and_then_ok, ReadsAs, Full, rise_to, full, expression-Full}

abbrev pub bracketed : Bool → ℕ → ℕ
bracketed true n = suc (suc n)
bracketed false n = n

-- How many tokens are written.
unfoldable pub size : Source → ℕ
size (name n) = 1
size (number l) = 1
size (text l) = 1
size (item s i) = bracketed (ltb 0 (rank s)) (size s) + suc (suc (size i))
size (member s optional n) = bracketed (ltb 0 (rank s)) (size s) + 2
size (prefixed o s) = suc (bracketed (ltb 1 (rank s)) (size s))
size (awaited s) = suc (bracketed (ltb 1 (rank s)) (size s))
size (raised s t) = bracketed (ltb 1 (rank s)) (size s) + suc (bracketed (ltb 2 (rank t)) (size t))
size (infixed o s t) =
    bracketed (ltb (suc (suc (suc (looseness o)))) (rank s)) (size s)
    + suc (bracketed (ltb (suc (suc (looseness o))) (rank t)) (size t))
size (conditional c s t) = bracketed (ltb 13 (rank c)) (size c) + suc (suc (size s + size t))

length-wrap :
    (b : Bool) (p : List Token → List Token) (n : ℕ) (rest : List Token)
    → ((us : List Token) → length (p us) ≡ n + length us)
    → length (wrap b p rest) ≡ bracketed b n + length rest
length-wrap true p n rest h = omega (arith, h (mark TokenKind.rparen ∷ rest))
length-wrap false p n rest h = h rest

pub length-written :
    (s : Source) (rest : List Token) → length (written s rest) ≡ size s + length rest
unfolding written size
length-written (name n) rest = omega arith
length-written (number l) rest = omega arith
length-written (text l) rest = omega arith
length-written (item s i) rest = omega (
  arith,
  length-wrap (ltb 0 (rank s)) (written s) (size s)
      (mark TokenKind.lbracket ∷ written i (mark TokenKind.rbracket ∷ rest)) (length-written s),
  length-written i (mark TokenKind.rbracket ∷ rest),
)
length-written (member s optional n) rest = omega (
  arith,
  length-wrap (ltb 0 (rank s)) (written s) (size s)
      (mark (dot_kind optional) ∷ token TokenKind.identifier n Literal.nullptr ∷ rest)
      (length-written s),
)
length-written (prefixed o s) rest =
    omega (arith, length-wrap (ltb 1 (rank s)) (written s) (size s) rest (length-written s))
length-written (awaited s) rest =
    omega (arith, length-wrap (ltb 1 (rank s)) (written s) (size s) rest (length-written s))
length-written (raised s t) rest = omega (
  arith,
  length-wrap (ltb 1 (rank s)) (written s) (size s)
      (mark TokenKind.star_star ∷ wrap (ltb 2 (rank t)) (written t) rest) (length-written s),
  length-wrap (ltb 2 (rank t)) (written t) (size t) rest (length-written t),
)
length-written (infixed o s t) rest = omega (
  arith,
  length-wrap (ltb (suc (suc (suc (looseness o)))) (rank s)) (written s) (size s)
      (mark (infix_kind o) ∷ wrap (ltb (suc (suc (looseness o))) (rank t)) (written t) rest)
      (length-written s),
  length-wrap (ltb (suc (suc (looseness o))) (rank t)) (written t) (size t) rest (length-written t),
)
length-written (conditional c s t) rest = omega (
  arith,
  length-wrap (ltb 13 (rank c)) (written c) (size c)
      (mark TokenKind.question_mark ∷ written s (mark TokenKind.colon ∷ written t rest))
      (length-written c),
  length-written s (mark TokenKind.colon ∷ written t rest),
  length-written t rest,
)

pub length-operand :
    (b : Bool) (s : Source) (rest : List Token)
    → length (wrap b (written s) rest) ≡ bracketed b (size s) + length rest
length-operand b s rest = length-wrap b (written s) (size s) rest (length-written s)

abbrev Opens : (List Token → List Token) → Type 0
Opens p = (rest : List Token) → Quiet (TokenKind.rparen ∷ []) (p rest)

Opens-wrap : (b : Bool) (p : List Token → List Token) → Opens p → Opens (wrap b p)
unfolding is_one_of same_kind
Opens-wrap true p h rest = refl
Opens-wrap false p h rest = h rest

Opens-prefix : (o : Prefix) → is_one_of (TokenKind.rparen ∷ []) (prefix_kind o) ≡ false
unfolding is_one_of same_kind
Opens-prefix Prefix.bang = refl
Opens-prefix _ = refl

-- No expression begins with a closing parenthesis.
Opens-written : (s : Source) → Opens (written s)
unfolding written is_one_of same_kind
Opens-written (name n) rest = refl
Opens-written (number l) rest = refl
Opens-written (text l) rest = refl
Opens-written (item s i) rest = Opens-wrap (ltb 0 (rank s)) (written s) (Opens-written s) _
Opens-written (member s optional n) rest =
    Opens-wrap (ltb 0 (rank s)) (written s) (Opens-written s) _
Opens-written (prefixed o s) rest = Opens-prefix o
Opens-written (awaited s) rest = refl
Opens-written (raised s t) rest = Opens-wrap (ltb 1 (rank s)) (written s) (Opens-written s) _
Opens-written (infixed o s t) rest =
    Opens-wrap (ltb (suc (suc (suc (looseness o)))) (rank s)) (written s) (Opens-written s) _
Opens-written (conditional c s t) rest =
    Opens-wrap (ltb 13 (rank c)) (written c) (Opens-written c) _

-- With fuel for each token and depth for each level of nesting, the functions of all ranks from its
-- own read an expression back.
abbrev pub ReadsBack : (ℕ → Parser (Option ℕ)) → Source → Type 0
ReadsBack declaration s =
    (n d : ℕ)
    → size s ≤ n
    → d + nesting s ≤ max_depth
    → ((c : ℕ) → rank s ≤ c → c ≤ 13 → ReadsAs c (calls declaration n) d (written s) (tree s))
      × Full (calls declaration n) d (written s) (tree s)

module _ (declaration : ℕ → Parser (Option ℕ)) where
  pub by_rank :
      (s : Source)
      → rank s ≤ 13
      → ((n d : ℕ)
          → size s ≤ n
          → d + nesting s ≤ max_depth
          → ReadsAs (rank s) (calls declaration n) d (written s) (tree s))
      → ReadsBack declaration s
  by_rank s le own n d fuel depth =
      let reads = own n d fuel depth in
      (
        λ c low top. rise_to c (rank s) (calls declaration n) d (written s) (tree s) low reads,
        full (calls declaration n) d (written s) (tree s)
            (rise_to 13 (rank s) (calls declaration n) d (written s) (tree s) le reads),
      )

  parenthesised_reads :
      (n d : ℕ) (s : Source)
      → Full (calls declaration n) (suc d) (written s) (tree s)
      → suc d ≤ max_depth
      → (rest : List Token)
      → primary (calls declaration (suc n)) d (wrap true (written s) rest) ≡ ok (tree s) rest
  unfolding primary parenthesised calls consume match_any and_then
  parenthesised_reads n d s h le rest =
      let inner = mark TokenKind.rparen ∷ rest in
      branch-Quiet (TokenKind.rparen ∷ []) (written s inner) _ _ (Opens-written s inner)
      ∙ and_then_ok (expression (calls declaration n) d (written s inner)) (tree s) inner _
          (expression-Full (calls declaration n) d (written s) (tree s) h le inner refl)

  in_parentheses :
      (n d : ℕ) (s : Source)
      → Full (calls declaration n) (suc d) (written s) (tree s)
      → suc d ≤ max_depth
      → ReadsAs 0 (calls declaration (suc n)) d (wrap true (written s)) (tree s)
  unfolding call_expression is_one_of same_kind
  in_parentheses n d s h le = (
    λ rest. refl,
    λ rest x go.
        and_then_ok (primary (calls declaration (suc n)) d (wrap true (written s) rest)) (tree s)
          rest _ (parenthesised_reads n d s h le rest)
        ∙ go (suc (length rest)) (omega arith),
  )

  wrapped :
      (b : Bool) (c n d : ℕ) (s : Source)
      → (b ≡ false → rank s ≤ c)
      → c ≤ 13
      → ReadsBack declaration s
      → bracketed b (size s) ≤ n
      → d + deeper b (nesting s) ≤ max_depth
      → ReadsAs c (calls declaration n) d (wrap b (written s)) (tree s)
  wrapped false c n d s low top ih fuel depth = (ih n d fuel depth).0 c (low refl) top
  wrapped true c zero d s low top ih fuel depth = absurd (omega arith)
  wrapped true c (suc n) d s low top ih fuel depth =
      rise_to c 0 (calls declaration (suc n)) d (wrap true (written s)) (tree s) (omega arith)
        (in_parentheses n d s (ih n (suc d) (omega arith) (omega arith)).1 (omega arith))

  -- An operand, in parentheses where it needs them.
  pub operand :
      (c n d : ℕ) (s : Source)
      → c ≤ 13
      → ReadsBack declaration s
      → bracketed (ltb c (rank s)) (size s) ≤ n
      → d + deeper (ltb c (rank s)) (nesting s) ≤ max_depth
      → ReadsAs c (calls declaration n) d (wrap (ltb c (rank s)) (written s)) (tree s)
  operand c n d s top = wrapped (ltb c (rank s)) c n d s (ltb_false→le c (rank s)) top
