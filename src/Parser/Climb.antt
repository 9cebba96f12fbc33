-- ===== src/Parser/Climb.antt =====
-- From one function to the next (`call` to `assignment` of src/parser/ParserExpr.cpp): what one of them
-- reads as an expression is read as the same by those that bind more loosely.
use ez_language.Prelude.{
  ℕ, zero, suc, ◌<◌, ◌≤◌, ◌+◌, ◌-◌, arith, none, some, List, [], ◌∷◌, ◌++◌, ◌≡◌, ap, subst, ◌∙◌,
  length, le→ltb_false,
}
use ez_language.Lexer.Kinds.{TokenKind}
use ez_language.Lexer.State.{Token}
use ez_language.Parser.Tokens.{Parser, Result, ok, and_then, kind_at}
use ez_language.Parser.Syntax.{Expr}
use ez_language.Parser.Primary.{Calls}
use ez_language.Parser.Expressions.{
  operators, node_of, assignment_operators, call_loop, call_expression, unary_operators,
  unary_expression, power, left_loop, level, null_coalescing, ternary_expression, assignment,
  max_depth, expression,
}
use ez_language.Parser.Quiet.{
  Quiet, up_to, all_continuing, quiet_left, quiet_right, Quiet-here, Quiet-pred, branch-Quiet,
  call_step-Quiet,
}

pub and_then_ok {ℓ κ} :
    {A : Type ℓ} {B : Type κ} (r : Result A) (a : A) (rest : List Token) (f : A → Parser B)
    → r ≡ ok a rest
    → and_then r f ≡ f a rest
unfolding and_then
and_then_ok r a rest f h = ap (λ x. and_then x f) h

-- A loop goes on from `e` at `rest` to `x`, with whatever fuel is enough.
abbrev pub CallsTo : Calls → ℕ → Expr → List Token → Result Expr → Type 0
CallsTo r d e rest x = (fuel : ℕ) → length rest < fuel → call_loop fuel r d e rest ≡ x

abbrev pub LoopsTo : ℕ → Calls → ℕ → Expr → List Token → Result Expr → Type 0
LoopsTo j r d e rest x =
    (fuel : ℕ)
    → length rest < fuel
    → left_loop fuel (operators (suc j)) (node_of (suc j)) (level j r d) e rest ≡ x

-- The function of each rank up to 13.
abbrev pub run : ℕ → Calls → ℕ → Parser Expr
run zero = call_expression
run (suc zero) = unary_expression
run (suc (suc j)) = level j

abbrev pub Closed : ℕ → Calls → ℕ → (List Token → List Token) → Expr → Type 0
Closed c r d p e = (rest : List Token) → Quiet (up_to c) rest → run c r d (p rest) ≡ ok e rest

abbrev pub prefixes : List TokenKind
prefixes = unary_operators ++ TokenKind.await ∷ []

-- The function of a rank reads the tokens of `p` as `e`, and a loop of its own goes on from there.
abbrev pub ReadsAs : ℕ → Calls → ℕ → (List Token → List Token) → Expr → Type 0
ReadsAs zero r d p e =
    ((rest : List Token) → Quiet prefixes (p rest))
    × ((rest : List Token) (x : Result Expr)
        → CallsTo r d e rest x
        → call_expression r d (p rest) ≡ x)
ReadsAs (suc zero) r d p e = Closed 1 r d p e
ReadsAs (suc (suc zero)) r d p e = Closed 2 r d p e
ReadsAs (suc (suc (suc j))) r d p e =
    (rest : List Token) (x : Result Expr)
    → Quiet (up_to (suc (suc j))) rest
    → LoopsTo j r d e rest x
    → level (suc j) r d (p rest) ≡ x

call_loop-Quiet :
    (r : Calls) (d : ℕ) (e : Expr) (rest : List Token)
    → Quiet (up_to 0) rest
    → CallsTo r d e rest (ok e rest)
unfolding call_loop
call_loop-Quiet r d e rest q zero h = absurd (omega arith)
call_loop-Quiet r d e rest q (suc n) h =
    ap
      (λ o. elim o [
        | none ↦ ok e rest
        | some result ↦ and_then result (λ e rest. call_loop n r d e rest)
      ])
      (call_step-Quiet r d e rest q)

left_loop-Quiet :
    (j : ℕ) (r : Calls) (d : ℕ) (e : Expr) (rest : List Token)
    → Quiet (operators (suc j)) rest
    → LoopsTo j r d e rest (ok e rest)
unfolding left_loop
left_loop-Quiet j r d e rest q zero h = absurd (omega arith)
left_loop-Quiet j r d e rest q (suc n) h = branch-Quiet (operators (suc j)) rest _ _ q

pub closed :
    (c : ℕ) (r : Calls) (d : ℕ) (p : List Token → List Token) (e : Expr)
    → ReadsAs c r d p e
    → Closed c r d p e
closed zero r d p e h rest q = h.1 rest (ok e rest) (call_loop-Quiet r d e rest q)
closed (suc zero) r d p e h rest q = h rest q
closed (suc (suc zero)) r d p e h rest q = h rest q
closed (suc (suc (suc j))) r d p e h rest q =
    h rest (ok e rest) (Quiet-pred (suc (suc j)) rest q)
      (left_loop-Quiet j r d e rest (Quiet-here (suc (suc (suc j))) rest q))

climb_to_unary :
    (r : Calls) (d : ℕ) (p : List Token → List Token) (e : Expr)
    → ReadsAs 0 r d p e
    → Closed 1 r d p e
unfolding unary_expression
climb_to_unary r d p e h rest q =
    branch-Quiet unary_operators (p rest) _ _
      (quiet_left unary_operators (TokenKind.await ∷ []) (kind_at (p rest)) (h.0 rest))
    ∙ branch-Quiet (TokenKind.await ∷ []) (p rest) _ _
        (quiet_right unary_operators (TokenKind.await ∷ []) (kind_at (p rest)) (h.0 rest))
    ∙ closed zero r d p e h rest q

climb_to_power :
    (r : Calls) (d : ℕ) (p : List Token → List Token) (e : Expr)
    → Closed 1 r d p e
    → Closed 2 r d p e
unfolding power level
climb_to_power r d p e h rest q =
    and_then_ok (unary_expression r d (p rest)) e rest _ (h rest (Quiet-pred 1 rest q))
    ∙ branch-Quiet (TokenKind.star_star ∷ []) rest _ _ (Quiet-here 2 rest q)

climb_to_level :
    (j : ℕ) (r : Calls) (d : ℕ) (p : List Token → List Token) (e : Expr)
    → Closed (suc (suc j)) r d p e
    → ReadsAs (suc (suc (suc j))) r d p e
unfolding level
climb_to_level j r d p e h rest x q go =
    and_then_ok (level j r d (p rest)) e rest _ (h rest q) ∙ go (suc (length rest)) (omega arith)

climb :
    (c : ℕ) (r : Calls) (d : ℕ) (p : List Token → List Token) (e : Expr)
    → ReadsAs c r d p e
    → ReadsAs (suc c) r d p e
climb zero r d p e h = climb_to_unary r d p e h
climb (suc zero) r d p e h = climb_to_power r d p e h
climb (suc (suc j)) r d p e h = climb_to_level j r d p e (closed (suc (suc j)) r d p e h)

abbrev after : ℕ → ℕ → ℕ
after zero c = c
after (suc k) c = suc (after k c)

after_eq : (k c : ℕ) → after k c ≡ k + c
after_eq zero c = omega arith
after_eq (suc k) c = omega (arith, after_eq k c)

rise :
    (k c : ℕ) (r : Calls) (d : ℕ) (p : List Token → List Token) (e : Expr)
    → ReadsAs c r d p e
    → ReadsAs (after k c) r d p e
rise zero c r d p e h = h
rise (suc k) c r d p e h = climb (after k c) r d p e (rise k c r d p e h)

pub rise_to :
    (c b : ℕ) (r : Calls) (d : ℕ) (p : List Token → List Token) (e : Expr)
    → b ≤ c
    → ReadsAs b r d p e
    → ReadsAs c r d p e
rise_to c b r d p e le h =
    subst (λ k. ReadsAs k r d p e) (omega (arith, after_eq (c - b) b)) (rise (c - b) b r d p e h)

-- An expression in whatever `ternary` reads.
abbrev pub Full : Calls → ℕ → (List Token → List Token) → Expr → Type 0
Full r d p e =
    (rest : List Token) → Quiet all_continuing rest → ternary_expression r d (p rest) ≡ ok e rest

pub full :
    (r : Calls) (d : ℕ) (p : List Token → List Token) (e : Expr) → ReadsAs 13 r d p e → Full r d p e
unfolding ternary_expression null_coalescing
full r d p e h rest q =
    and_then_ok (level 11 r d (p rest)) e rest _ (
      closed 13 r d p e h rest
        (quiet_right (TokenKind.question_mark ∷ assignment_operators) (up_to 13) (kind_at rest) q))
    ∙ branch-Quiet (TokenKind.question_mark ∷ []) rest _ _ (
        quiet_left (TokenKind.question_mark ∷ []) (assignment_operators ++ up_to 13) (kind_at rest)
          q)

pub expression-Full :
    (r : Calls) (d : ℕ) (p : List Token → List Token) (e : Expr)
    → Full r (suc d) p e
    → suc d ≤ max_depth
    → (rest : List Token) → Quiet all_continuing rest
    → expression r d (p rest) ≡ ok e rest
unfolding expression assignment
expression-Full r d p e h le rest q = rw (le→ltb_false max_depth (suc d) le) (
    and_then_ok (ternary_expression r (suc d) (p rest)) e rest _ (h rest q)
    ∙ branch-Quiet assignment_operators rest _ _ (
        quiet_left assignment_operators (up_to 13) (kind_at rest) (
          quiet_right (TokenKind.question_mark ∷ []) (assignment_operators ++ up_to 13)
            (kind_at rest) q)))
