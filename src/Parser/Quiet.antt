-- ===== src/Parser/Quiet.antt =====
-- The tokens with which an expression may go on, for each of the functions from `call` to
-- `assignment` (src/parser/ParserExpr.cpp), and that those functions stop at any other.
use ez_language.Prelude.{
  ℕ, zero, suc, Bool, true, false, not, ◌&&◌, ◌||◌, none, some, List, [], ◌∷◌, ◌++◌, ◌≡◌, refl, sym,
  ap, ◌∙◌,
}
use mathlib.Core.Bool.{true≢false}
use ez_language.Lexer.Kinds.{TokenKind}
use ez_language.Lexer.State.{Token}
use ez_language.Parser.KindTests.{same_kind, is_one_of}
use ez_language.Parser.Tokens.{kind_at, is_at_end, take_if, match_any, skip_newlines}
use ez_language.Parser.Syntax.{Expr}
use ez_language.Parser.Primary.{Calls}
use ez_language.Parser.Expressions.{
  operators, assignment_operators, dots, property_after, call_step,
}
use ez_language.Parser.Source.{Infix, infix_kind, looseness}

abbrev pub continuing : ℕ → List TokenKind
continuing zero =
    TokenKind.newline ∷ TokenKind.lparen ∷ TokenKind.lbracket ∷ TokenKind.dot
    ∷ TokenKind.question_dot ∷ []
continuing (suc zero) = []
continuing (suc (suc zero)) = TokenKind.star_star ∷ []
continuing (suc (suc (suc j))) = operators (suc j)

abbrev pub up_to : ℕ → List TokenKind
up_to zero = continuing zero
up_to (suc c) = continuing (suc c) ++ up_to c

abbrev pub Quiet : List TokenKind → List Token → Type 0
Quiet ks ts = is_one_of ks (kind_at ts) ≡ false

abbrev pub all_continuing : List TokenKind
all_continuing = TokenKind.question_mark ∷ assignment_operators ++ up_to 13

or_false_left : (a b : Bool) → (a || b) ≡ false → a ≡ false
or_false_left true b h = h
or_false_left false b h = refl

or_false_right : (a b : Bool) → (a || b) ≡ false → b ≡ false
or_false_right true b h = absurd (true≢false h)
or_false_right false b h = h

or_assoc : (a b c : Bool) → (a || (b || c)) ≡ ((a || b) || c)
or_assoc true b c = refl
or_assoc false b c = refl

is_one_of-append :
    (ks js : List TokenKind) (k : TokenKind)
    → is_one_of (ks ++ js) k ≡ (is_one_of ks k || is_one_of js k)
unfolding is_one_of
is_one_of-append [] js k = refl
is_one_of-append (x ∷ ks) js k =
    rw (is_one_of-append ks js k) (or_assoc (same_kind k x) (is_one_of ks k) (is_one_of js k))

pub quiet_left :
    (ks js : List TokenKind) (k : TokenKind)
    → is_one_of (ks ++ js) k ≡ false
    → is_one_of ks k ≡ false
quiet_left ks js k h = or_false_left _ _ (sym (is_one_of-append ks js k) ∙ h)

pub quiet_right :
    (ks js : List TokenKind) (k : TokenKind)
    → is_one_of (ks ++ js) k ≡ false
    → is_one_of js k ≡ false
quiet_right ks js k h = or_false_right (is_one_of ks k) _ (sym (is_one_of-append ks js k) ∙ h)

pub Quiet-here : (c : ℕ) (ts : List Token) → Quiet (up_to c) ts → Quiet (continuing c) ts
Quiet-here zero ts q = q
Quiet-here (suc c) ts q = quiet_left (continuing (suc c)) (up_to c) (kind_at ts) q

pub Quiet-pred : (c : ℕ) (ts : List Token) → Quiet (up_to (suc c)) ts → Quiet (up_to c) ts
Quiet-pred c ts q = quiet_right (continuing (suc c)) (up_to c) (kind_at ts) q

take_if-false : (b : Bool) (ts : List Token) → take_if (b && false) ts ≡ none
take_if-false true [] = refl
take_if-false true (t ∷ ts) = refl
take_if-false false [] = refl
take_if-false false (t ∷ ts) = refl

pub match_any-Quiet : (ks : List TokenKind) (ts : List Token) → Quiet ks ts → match_any ks ts ≡ none
unfolding match_any
match_any-Quiet ks ts q = rw q (take_if-false (not (is_at_end ts)) ts)

skip_newlines_stops :
    (t : Token) (ts : List Token)
    → same_kind t.kind TokenKind.newline ≡ false
    → skip_newlines (t ∷ ts) ≡ t ∷ ts
unfolding skip_newlines
skip_newlines_stops t ts h = rw h refl

pub skip_newlines-Quiet :
    (ts : List Token) → Quiet (TokenKind.newline ∷ []) ts → skip_newlines ts ≡ ts
unfolding is_one_of
skip_newlines-Quiet [] q = unfold skip_newlines in refl
skip_newlines-Quiet (t ∷ ts) q = skip_newlines_stops t ts (or_false_left _ _ q)

-- A branch on `match` where it does not.
pub branch-Quiet {ℓ} :
    {B : Type ℓ} (ks : List TokenKind) (ts : List Token) (x : B) (f : Token × List Token → B)
    → Quiet ks ts
    → elim (match_any ks ts) [ none ↦ x | some p ↦ f p ] ≡ x
branch-Quiet ks ts x f q = ap (λ o. elim o [ none ↦ x | some p ↦ f p ]) (match_any-Quiet ks ts q)

-- The loop of `call` breaks.
pub call_step-Quiet :
    (r : Calls) (d : ℕ) (e : Expr) (ts : List Token)
    → Quiet (up_to 0) ts
    → call_step r d e ts ≡ none
unfolding call_step
call_step-Quiet r d e ts q =
    branch-Quiet (TokenKind.lparen ∷ []) ts _ _ (
      quiet_left (TokenKind.lparen ∷ []) (TokenKind.lbracket ∷ dots) (kind_at ts) (
        quiet_right (TokenKind.newline ∷ []) (TokenKind.lparen ∷ TokenKind.lbracket ∷ dots)
          (kind_at ts) q))
    ∙ branch-Quiet (TokenKind.lbracket ∷ []) ts _ _ (
        quiet_left (TokenKind.lbracket ∷ []) dots (kind_at ts) (
          quiet_right (TokenKind.newline ∷ TokenKind.lparen ∷ []) (TokenKind.lbracket ∷ dots)
            (kind_at ts) q))
    ∙ ap (λ us. elim (match_any dots us) [ none ↦ none | some p ↦ some (property_after p.0 e p.1) ])
        (skip_newlines-Quiet ts (
          quiet_left (TokenKind.newline ∷ []) (TokenKind.lparen ∷ TokenKind.lbracket ∷ dots)
            (kind_at ts) q))
    ∙ branch-Quiet dots ts none (λ p. some (property_after p.0 e p.1))
        (quiet_right (TokenKind.newline ∷ TokenKind.lparen ∷ TokenKind.lbracket ∷ []) dots
          (kind_at ts) q)

-- An operator ends whatever binds more tightly.
pub infix_kind-Quiet :
    (o : Infix) → is_one_of (up_to (suc (suc (looseness o)))) (infix_kind o) ≡ false
unfolding is_one_of same_kind operators
infix_kind-Quiet Infix.star = refl
infix_kind-Quiet _ = refl
