-- ===== src/Arith/Folding.antt =====
-- Constant folding agrees with the machine on integers.
use ez_language.Prelude.{
  ℕ, ◌*◌, ◌%◌, ◌^◌, ◌<◌, ◌≡◌, ◌≢◌, refl, sym, ap, ◌∙◌, Bool, true, false, ◌||◌, Option, none, some,
  arith, ◌==◌, ==_iff, ltb, ltb→lt, le→ltb_false, if◌then◌else◌,
}
use ez_language.Bytecode.Types.{Constant, int, double, integer, number}
use ez_language.Bytecode.Pool.{resolve}
use ez_language.Arith.{wrap_add, wrap_sub, wrap_mul, div_is_ub, quotient, remainder, div_is_exact}
use ez_language.Arith.Operators.{
  BinaryOp, plus, minus, star, star_star, slash, percent, lshift, rshift, binary_opcode, pushed,
  zero_division, shift_amount, undefined, fold_ints, Folded, folded, left_alone, undefined_shift,
  shift_is_ub, shift_left, shift_right, overflows, machine_ints, Reduced, left, right, neither,
  reduce, reduce_left, reduce_right, or_right,
}

folded_inj : (x c : Constant) → folded x ≡ folded c → x ≡ c
folded_inj x c e = cc

not_left_alone : (c : Constant) → left_alone ≢ folded c
not_left_alone c e = cc

not_undefined : (c : Constant) → undefined_shift ≢ folded c
not_undefined c e = cc

guarded :
    (z o : Bool) (x c : Constant)
    → (if z || o then left_alone else folded x) ≡ folded c
    → (if z then zero_division else if o then undefined else pushed (resolve x))
      ≡ pushed (resolve c)
guarded true o x c h = absurd (not_left_alone c h)
guarded false true x c h = absurd (not_left_alone c h)
guarded false false x c h = ap (λ k. pushed (resolve k)) (folded_inj x c h)

resolve-if :
    (e : Bool) (q d : ℕ)
    → (if e then integer q else number d) ≡ resolve (if e then int q else double d)
unfolding resolve
resolve-if true q d = refl
resolve-if false q d = refl

within :
    (b : Bool) (f : Folded) (c : Constant)
    → (if b then f else left_alone) ≡ folded c
    → (b ≡ true) × (f ≡ folded c)
within true f c h = (refl, h)
within false f c h = absurd (not_left_alone c h)

defined : (b : Bool) (x c : Constant) → (if b then undefined_shift else folded x) ≡ folded c → x ≡ c
defined true x c h = absurd (not_undefined c h)
defined false x c h = folded_inj x c h

shifted :
    (r : ℕ) (x c : Constant)
    → ltb r 64 ≡ true
    → x ≡ c
    → (if ltb 63 r then shift_amount else pushed (resolve x)) ≡ pushed (resolve c)
shifted r x c e h =
    rw (le→ltb_false 63 r (omega (arith, ltb→lt r 64 e))) (ap (λ k. pushed (resolve k)) h)

module _ (divide pow : ℕ → ℕ → ℕ) where
  -- Where constant folding gives a constant for an operator on two integers, it is what the
  -- instruction for the operator pushes on them. (It gives none where `<<` on the two numbers is
  -- undefined.)
  pub fold_ints-machine_ints :
      (op : BinaryOp) (l r : ℕ) (c : Constant)
      → fold_ints divide pow op l r ≡ folded c
      → machine_ints divide pow (binary_opcode op) l r ≡ pushed (resolve c)
  unfolding fold_ints machine_ints binary_opcode resolve div_is_ub overflows div_is_exact
  fold_ints-machine_ints star_star l r c h = absurd (not_left_alone c h)
  fold_ints-machine_ints slash l r c h =
      ap (λ v. if r == 0 then zero_division else if overflows l r then undefined else pushed v)
        (resolve-if (div_is_exact l r) (quotient l r) (divide l r))
      ∙ guarded (r == 0) (overflows l r) _ c h
  fold_ints-machine_ints percent l r c h =
      guarded (r == 0) (overflows l r) (int (remainder l r)) c h
  fold_ints-machine_ints lshift l r c h =
      let (small, f) = within (ltb r 64) _ c h in
      shifted r (int (shift_left l r)) c small (defined (shift_is_ub l r) _ c f)
  fold_ints-machine_ints rshift l r c h =
      let (small, f) = within (ltb r 64) (folded (int (shift_right l r))) c h in
      shifted r (int (shift_right l r)) c small (folded_inj _ c f)
  fold_ints-machine_ints _ l r c h = ap (λ c. pushed (resolve c)) (folded_inj _ c h)

-- The side that `compileBinary` compiles in place of an operation gives what the operation would
-- push, as long as both sides are integers.
abbrev pub Kept : BinaryOp → ℕ → ℕ → Reduced → (ℕ → ℕ → ℕ) → (ℕ → ℕ → ℕ) → Type 0
Kept op l r left divide pow = machine_ints divide pow (binary_opcode op) l r ≡ pushed (integer l)
Kept op l r right divide pow = machine_ints divide pow (binary_opcode op) l r ≡ pushed (integer r)
Kept op l r neither divide pow = Unit

-- The constant of a side, if it is one, is the integer that stands there.
abbrev pub Holds : Option Constant → ℕ → Type 0
Holds none n = Unit
Holds (some c) n = c ≡ int n

module _ (divide pow : ℕ → ℕ → ℕ) where
  unchanged :
      (op : BinaryOp) (x l r : ℕ)
      → machine_ints divide pow (binary_opcode op) l r ≡ pushed (integer x)
      → x ≡ l
      → Kept op l r left divide pow
  unchanged op x l r h e = h ∙ ap (λ n. pushed (integer n)) e

  unchanged_right :
      (op : BinaryOp) (x l r : ℕ)
      → machine_ints divide pow (binary_opcode op) l r ≡ pushed (integer x)
      → x ≡ r
      → Kept op l r right divide pow
  unchanged_right op x l r h e = h ∙ ap (λ n. pushed (integer n)) e

  if-Kept :
      (op : BinaryOp) (l r : ℕ) (b : Bool) (o : Reduced)
      → (b ≡ true → Kept op l r o divide pow)
      → Kept op l r (if b then o else neither) divide pow
  if-Kept op l r true o h = h refl
  if-Kept op l r false o h = tt

  int_inj : (x y : ℕ) → Constant.int x ≡ int y → x ≡ y
  int_inj x y e = cc

  reduce_left-Kept :
      (op : BinaryOp) (c : Option Constant) (l r : ℕ)
      → l < 2 ^ 64
      → Holds c r
      → Kept op l r (reduce_left op c) divide pow
  unfolding reduce_left machine_ints binary_opcode wrap_add wrap_sub wrap_mul
  reduce_left-Kept plus (some (int x)) l r u e =
      if-Kept plus l r (x == 0) left (λ z.
        unchanged plus (wrap_add l r) l r refl (omega (arith, (==_iff x 0).0 z, int_inj x r e)))
  reduce_left-Kept minus (some (int x)) l r u e = if-Kept minus l r (x == 0) left (λ z.
      unchanged minus (wrap_sub l r) l r refl (omega (arith, (==_iff x 0).0 z, int_inj x r e)))
  reduce_left-Kept star (some (int x)) l r u e = if-Kept star l r (x == 1) left (λ z.
      unchanged star (wrap_mul l r) l r refl
        (ap (λ n. l * n % 2 ^ 64) (sym (int_inj x r e) ∙ (==_iff x 1).0 z) ∙ by_one))
    where
      by_one : l * 1 % 2 ^ 64 ≡ l
      by_one = omega arith
  reduce_left-Kept _ _ l r u e = tt

  reduce_right-Kept :
      (op : BinaryOp) (c : Option Constant) (l r : ℕ)
      → r < 2 ^ 64
      → Holds c l
      → Kept op l r (reduce_right op c) divide pow
  unfolding reduce_right machine_ints binary_opcode wrap_add wrap_mul
  reduce_right-Kept plus (some (int x)) l r u e = if-Kept plus l r (x == 0) right (λ z.
      unchanged_right plus (wrap_add l r) l r refl (omega (arith, (==_iff x 0).0 z, int_inj x l e)))
  reduce_right-Kept star (some (int x)) l r u e = if-Kept star l r (x == 1) right (λ z.
      unchanged_right star (wrap_mul l r) l r refl
        (ap (λ n. n * r % 2 ^ 64) (sym (int_inj x l e) ∙ (==_iff x 1).0 z) ∙ by_one))
    where
      by_one : 1 * r % 2 ^ 64 ≡ r
      by_one = omega arith
  reduce_right-Kept _ _ l r u e = tt

  or_right-Kept :
      (op : BinaryOp) (l r : ℕ) (o p : Reduced)
      → Kept op l r o divide pow
      → Kept op l r p divide pow
      → Kept op l r (or_right o p) divide pow
  or_right-Kept op l r left p h k = h
  or_right-Kept op l r right p h k = h
  or_right-Kept op l r neither p h k = k

  -- Where both sides are integers, the side that `compileBinary` keeps by an identity (adding or
  -- subtracting 0, multiplying by 1) is what the instruction would push.
  pub reduce-Kept :
      (op : BinaryOp) (lc rc : Option Constant) (l r : ℕ)
      → l < 2 ^ 64
      → r < 2 ^ 64
      → Holds lc l
      → Holds rc r
      → Kept op l r (reduce op lc rc) divide pow
  unfolding reduce
  reduce-Kept op lc rc l r u v h k =
      or_right-Kept op l r (reduce_left op rc) (reduce_right op lc) (reduce_left-Kept op rc l r u k)
        (reduce_right-Kept op lc l r v h)
