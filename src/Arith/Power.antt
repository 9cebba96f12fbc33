-- ===== src/Arith/Power.antt =====
-- The loop of `BytecodeVM::doPower` (src/vm/BytecodeVMExecute.cpp) computes powers.
use ez_language.Prelude.{
  ℕ, zero, suc, ◌+◌, ◌*◌, ◌/◌, ◌%◌, ◌^◌, ◌<◌, ◌≡◌, sym, ap, ◌∙◌, inl, inr, false, arith, ◌==◌,
  ==_iff, ltb, lt→ltb, if◌then◌else◌, Bool-cases,
}
use native.Mathlib.Nat.{
  mul_comm, mul_assoc, pow-zero, pow-suc, add-mod, mod-mod, mod-eq_of_lt, mod-lt, mul-one, one-mul,
  two-pow-succ,
}
use ez_language.Arith.{wrap_mul, power_loop, power}

mul-mod_inner : (a b m : ℕ) → a % m * b % m ≡ a * b % m
mul-mod_inner a zero m = omega arith
mul-mod_inner a (suc b) m =
    ap (λ n. n % m) left
    ∙ add-mod (a % m * b) (a % m) m
    ∙ ap (λ n. (n + a % m % m) % m) (mul-mod_inner a b m)
    ∙ ap (λ n. (a * b % m + n) % m) (mod-mod a m)
    ∙ sym (add-mod (a * b) a m)
    ∙ ap (λ n. n % m) right
  where
    left : a % m * suc b ≡ a % m * b + a % m
    left = omega arith

    right : a * b + a ≡ a * suc b
    right = omega arith

mul-mod_left : (a b m : ℕ) → a * (b % m) % m ≡ a * b % m
mul-mod_left a b m =
    ap (λ n. n % m) (mul_comm a (b % m)) ∙ mul-mod_inner b a m ∙ ap (λ n. n % m) (mul_comm b a)

pow-mod : (a m k : ℕ) → (a % m) ^ k % m ≡ a ^ k % m
pow-mod a m zero = ap (λ n. n % m) (pow-zero (a % m) ∙ sym (pow-zero a))
pow-mod a m (suc k) =
    ap (λ n. n % m) (pow-suc (a % m) k)
    ∙ mul-mod_left ((a % m) ^ k) a m
    ∙ sym (mul-mod_inner ((a % m) ^ k) a m)
    ∙ ap (λ n. n * a % m) (pow-mod a m k)
    ∙ mul-mod_inner (a ^ k) a m
    ∙ ap (λ n. n % m) (sym (pow-suc a k))

square_pow : (b h : ℕ) → (b * b) ^ h ≡ b ^ (h + h)
square_pow b zero = pow-zero (b * b) ∙ sym (pow-zero b)
square_pow b (suc h) =
    pow-suc (b * b) h
    ∙ ap (λ n. n * (b * b)) (square_pow b h)
    ∙ sym (mul_assoc (b ^ (h + h)) b b)
    ∙ ap (λ n. n * b) (sym (pow-suc b (h + h)))
    ∙ sym (pow-suc b (suc (h + h)))
    ∙ ap (λ n. b ^ n) count
  where
    count : suc (suc (h + h)) ≡ suc h + suc h
    count = omega arith

odd_pow : (r b h : ℕ) → r * b * b ^ (h + h) ≡ r * b ^ (h + h + 1)
odd_pow r b h =
    mul_assoc r b (b ^ (h + h))
    ∙ ap (λ n. r * n) (mul_comm b (b ^ (h + h)) ∙ sym (pow-suc b (h + h)))
    ∙ ap (λ n. r * b ^ n) count
  where
    count : suc (h + h) ≡ h + h + 1
    count = omega arith

squared : (b h : ℕ) → (b * b % 2 ^ 64) ^ suc h % 2 ^ 64 ≡ b ^ (suc h + suc h) % 2 ^ 64
squared b h = pow-mod (b * b) (2 ^ 64) (suc h) ∙ ap (λ n. n % 2 ^ 64) (square_pow b (suc h))

-- The base of the next round, which is not squared when the loop is about to end.
next_base : (b h : ℕ) → (if ltb 0 h then wrap_mul b b else b) ^ h % 2 ^ 64 ≡ b ^ (h + h) % 2 ^ 64
unfolding wrap_mul
next_base b zero = ap (λ n. n % 2 ^ 64) (pow-zero b ∙ sym (pow-zero b))
next_base b (suc h) = rw (lt→ltb 0 (suc h) (omega arith)) (squared b h)

ended : (base exp result : ℕ) → exp ≡ 0 → result < 2 ^ 64 → result * base ^ exp % 2 ^ 64 ≡ result
ended base exp result e r =
    ap (λ k. result * base ^ k % 2 ^ 64) e
    ∙ ap (λ n. result * n % 2 ^ 64) (pow-zero base)
    ∙ ap (λ n. n % 2 ^ 64) (mul-one result)
    ∙ mod-eq_of_lt r

-- The loop keeps the result times the power that is still to come.
power_loop_lem :
    (n base exp result : ℕ)
    → exp < 2 ^ n
    → result < 2 ^ 64
    → power_loop n base exp result ≡ result * base ^ exp % 2 ^ 64
unfolding power_loop wrap_mul
power_loop_lem zero base exp result h r = sym (ended base exp result (omega arith) r)
power_loop_lem (suc n) base exp result h r = elim (Bool-cases (exp == 0)) [
  | inl e ↦ rw (e) (sym (ended base exp result ((==_iff exp 0).0 e) r))
  | inr e ↦ rw (e) (elim (Bool-cases (exp % 2 == 1)) [
    | inl odd ↦ rw (odd) (
        power_loop_lem n (if ltb 0 half then wrap_mul base base else base) half
          (result * base % 2 ^ 64) small (mod-lt (result * base) (omega arith))
        ∙ mul-mod_inner (result * base) _ (2 ^ 64)
        ∙ through (result * base)
        ∙ ap (λ n. n % 2 ^ 64)
            (odd_pow result base half
              ∙ ap (λ n. result * base ^ n) (odd_half ((==_iff (exp % 2) 1).0 odd))))
    | inr even ↦ rw (even) (
        power_loop_lem n (if ltb 0 half then wrap_mul base base else base) half result small r
        ∙ through result
        ∙ ap (λ n. result * base ^ n % 2 ^ 64) (even_half even))
  ])
]
  where
    half : ℕ
    half = exp / 2

    small : half < 2 ^ n
    small = omega (arith, two-pow-succ n)

    through :
        (x : ℕ)
        → x * (if ltb 0 half then wrap_mul base base else base) ^ half % 2 ^ 64
          ≡ x * base ^ (half + half) % 2 ^ 64
    through x =
        sym (mul-mod_left x ((if ltb 0 half then wrap_mul base base else base) ^ half) (2 ^ 64))
        ∙ ap (λ n. x * n % 2 ^ 64) (next_base base half)
        ∙ mul-mod_left x (base ^ (half + half)) (2 ^ 64)

    odd_half : exp % 2 ≡ 1 → half + half + 1 ≡ exp
    odd_half e = omega arith

    even_half : (exp % 2 == 1) ≡ false → half + half ≡ exp
    even_half e = ground arith

-- A non-negative exponent: the loop ends, and gives the power modulo 2 ^ 64.
pub power_lem : (base exp : ℕ) → exp < 2 ^ 63 → power base exp ≡ base ^ exp % 2 ^ 64
unfolding power
power_lem base exp h =
    power_loop_lem 63 base exp 1 h (omega arith) ∙ ap (λ n. n % 2 ^ 64) (one-mul (base ^ exp))
