-- ===== src/Arith.antt =====
-- Integer arithmetic of the language (src/utils/WrapArith.h, and the integer cases of the operators
-- in src/vm/BytecodeVMExecute.cpp and of constant folding in src/compiler/BytecodeCompilerStmt.cpp).
-- A `long long` is its two's complement pattern, a number below 2 ^ 64.
pub mod Power
pub mod Operators
pub mod Folding
mod Tests
use ez_language.Prelude.{
  ℕ, zero, suc, ◌+◌, ◌-◌, ◌*◌, ◌/◌, ◌%◌, ◌^◌, Bool, true, false, not, ◌&&◌, ◌||◌, ◌==◌, ltb, leb,
  if◌then◌else◌,
}

unfoldable pub wrap_add : ℕ → ℕ → ℕ
wrap_add a b = (a + b) % 2 ^ 64

unfoldable pub wrap_sub : ℕ → ℕ → ℕ
wrap_sub a b = (a + 2 ^ 64 - b) % 2 ^ 64

unfoldable pub wrap_mul : ℕ → ℕ → ℕ
wrap_mul a b = a * b % 2 ^ 64

unfoldable pub wrap_neg : ℕ → ℕ
wrap_neg a = (2 ^ 64 - a) % 2 ^ 64

-- `a < 0`
unfoldable pub is_negative : ℕ → Bool
is_negative a = leb (2 ^ 63) a

-- The absolute value, at most 2 ^ 63.
unfoldable pub magnitude : ℕ → ℕ
unfolding is_negative
magnitude a = if is_negative a then 2 ^ 64 - a else a

unfoldable pub div_is_ub : ℕ → ℕ → Bool
div_is_ub a b = (b == 0) || ((a == 2 ^ 63) && (b == 2 ^ 64 - 1))

abbrev pub signed : Bool → ℕ → ℕ
signed negative n = if negative then wrap_neg n else n

abbrev pub differ : Bool → Bool → Bool
differ true b = not b
differ false b = b

-- `a / b`, rounded towards 0, and `a % b`, with the sign of `a`.
unfoldable pub quotient : ℕ → ℕ → ℕ
unfolding is_negative magnitude wrap_neg
quotient a b = signed (differ (is_negative a) (is_negative b)) (magnitude a / magnitude b)

unfoldable pub remainder : ℕ → ℕ → ℕ
unfolding is_negative magnitude wrap_neg
remainder a b = signed (is_negative a) (magnitude a % magnitude b)

unfoldable pub div_is_exact : ℕ → ℕ → Bool
unfolding remainder
div_is_exact a b = remainder a b == 0

-- `a < b` on signed numbers.
unfoldable pub less : ℕ → ℕ → Bool
less a b = ltb ((a + 2 ^ 63) % 2 ^ 64) ((b + 2 ^ 63) % 2 ^ 64)

-- The loop of `BytecodeVM::doPower`. A non-negative exponent is below 2 ^ 63, so 63 rounds do.
unfoldable pub power_loop : ℕ → ℕ → ℕ → ℕ → ℕ
unfolding wrap_mul
power_loop zero base exp result = result
power_loop (suc n) base exp result =
    let half = exp / 2 in
    let rest =
      power_loop n (if ltb 0 half then wrap_mul base base else base) half
        (if exp % 2 == 1 then wrap_mul result base else result) in
    if exp == 0 then result else rest

unfoldable pub power : ℕ → ℕ → ℕ
unfolding power_loop
power base exp = power_loop 63 base exp 1
