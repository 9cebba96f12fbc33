-- ===== src/Arith/Operators.antt =====
-- Binary operators on two integers: how constant folding computes them (`isConstant` of
-- src/compiler/BytecodeCompilerStmt.cpp), which instructions stand for them and which of them are
-- left out (`compileBinary` of src/compiler/BytecodeCompilerExpr.cpp), and what these instructions do
-- (src/vm/BytecodeVMExecute.cpp). The division of two `long long` as `double`, and `std::pow`, are
-- parameters, on 64-bit patterns.
use ez_language.Prelude.{
  ◌||◌, ℕ, zero, suc, ◌+◌, ◌-◌, ◌*◌, ◌/◌, ◌%◌, ◌^◌, Bool, not, ◌&&◌, Option, some, ◌==◌, ltb,
  if◌then◌else◌,
}
use ez_language.Bytecode.Types.{Constant, int, double, bool, Value, integer, number, boolean}
use ez_language.Bytecode.OpCodes.{OpCode}
use ez_language.Arith.{
  wrap_add, wrap_sub, wrap_mul, wrap_neg, is_negative, div_is_ub, quotient, remainder, div_is_exact,
  less, power,
}

-- The tokens that `compileBinary` knows, but `in`.
pub data BinaryOp : Type 0 where
  plus minus star star_star slash percent ampersand pipe caret lshift rshift : BinaryOp
  equal_equal bang_equal lesser less_equal greater greater_equal : BinaryOp

unfoldable pub binary_opcode : BinaryOp → OpCode
binary_opcode plus = OpCode.add
binary_opcode minus = OpCode.sub
binary_opcode star = OpCode.mul
binary_opcode star_star = OpCode.pow
binary_opcode slash = OpCode.div
binary_opcode percent = OpCode.mod_op
binary_opcode ampersand = OpCode.bit_and
binary_opcode pipe = OpCode.bit_or
binary_opcode caret = OpCode.bit_xor
binary_opcode lshift = OpCode.shift_left
binary_opcode rshift = OpCode.shift_right
binary_opcode equal_equal = OpCode.equal
binary_opcode bang_equal = OpCode.not_equal
binary_opcode lesser = OpCode.less
binary_opcode less_equal = OpCode.less_eq
binary_opcode greater = OpCode.greater
binary_opcode greater_equal = OpCode.greater_eq

-- An operator on each bit, of which there are `n`, the lowest first.
unfoldable pub bitwise : (ℕ → ℕ → ℕ) → ℕ → ℕ → ℕ → ℕ
bitwise f zero a b = 0
bitwise f (suc n) a b = f (a % 2) (b % 2) + 2 * bitwise f n (a / 2) (b / 2)

abbrev both : ℕ → ℕ → ℕ
both a b = a * b

abbrev either : ℕ → ℕ → ℕ
either a b = a + b - a * b

abbrev one_of : ℕ → ℕ → ℕ
one_of a b = (a + b) % 2

unfoldable pub shift_left : ℕ → ℕ → ℕ
shift_left a s = a * 2 ^ s % 2 ^ 64

-- `a >> s`, which rounds down.
unfoldable pub shift_right : ℕ → ℕ → ℕ
unfolding is_negative wrap_neg
shift_right a s = if is_negative a then wrap_neg ((2 ^ 64 - a + 2 ^ s - 1) / 2 ^ s) else a / 2 ^ s

-- What an instruction does: push a value, throw, or what C++ leaves undefined.
pub data Outcome : Type 0 where
  pushed : Value → Outcome
  zero_division shift_amount undefined other : Outcome

-- The least `long long` by -1.
unfoldable pub overflows : ℕ → ℕ → Bool
overflows a b = (a == 2 ^ 63) && (b == 2 ^ 64 - 1)

-- `a << s` on `long long` is left undefined by C++17 where `a` is negative, or where the result does
-- not fit the unsigned type.
unfoldable pub shift_is_ub : ℕ → ℕ → Bool
unfolding is_negative
shift_is_ub a s = is_negative a || ltb (2 ^ 64 - 1) (a * 2 ^ s)

-- What `isConstant` does: give a constant, leave the operation to the machine, or run into what
-- C++ leaves undefined.
pub data Folded : Type 0 where
  folded : Constant → Folded
  left_alone undefined_shift : Folded

module _ (divide pow : ℕ → ℕ → ℕ) where
  -- `isConstant` where both sides are integer constants.
  unfoldable pub fold_ints : BinaryOp → ℕ → ℕ → Folded
  unfolding wrap_add wrap_sub wrap_mul remainder quotient div_is_ub div_is_exact bitwise shift_left
      shift_right less shift_is_ub
  fold_ints plus l r = folded (int (wrap_add l r))
  fold_ints minus l r = folded (int (wrap_sub l r))
  fold_ints star l r = folded (int (wrap_mul l r))
  fold_ints star_star l r = left_alone
  fold_ints slash l r =
      if div_is_ub l r
      then left_alone
      else folded (if div_is_exact l r then int (quotient l r) else double (divide l r))
  fold_ints percent l r = if div_is_ub l r then left_alone else folded (int (remainder l r))
  fold_ints ampersand l r = folded (int (bitwise both 64 l r))
  fold_ints pipe l r = folded (int (bitwise either 64 l r))
  fold_ints caret l r = folded (int (bitwise one_of 64 l r))
  fold_ints lshift l r =
      if ltb r 64
      then if shift_is_ub l r then undefined_shift else folded (int (shift_left l r))
      else left_alone
  fold_ints rshift l r = if ltb r 64 then folded (int (shift_right l r)) else left_alone
  fold_ints equal_equal l r = folded (bool (l == r))
  fold_ints bang_equal l r = folded (bool (not (l == r)))
  fold_ints lesser l r = folded (bool (less l r))
  fold_ints less_equal l r = folded (bool (not (less r l)))
  fold_ints greater l r = folded (bool (less r l))
  fold_ints greater_equal l r = folded (bool (not (less l r)))

  -- The handlers where both operands are integers, `a` below `b` on the stack. A shift amount is
  -- refused from 64 on, which as a pattern is also every negative one.
  unfoldable pub machine_ints : OpCode → ℕ → ℕ → Outcome
  unfolding wrap_add wrap_sub wrap_mul remainder quotient overflows bitwise shift_left shift_right
      less power is_negative
  machine_ints OpCode.add a b = pushed (integer (wrap_add a b))
  machine_ints OpCode.sub a b = pushed (integer (wrap_sub a b))
  machine_ints OpCode.mul a b = pushed (integer (wrap_mul a b))
  machine_ints OpCode.pow a b =
      pushed (if is_negative b then number (pow a b) else integer (power a b))
  machine_ints OpCode.div a b =
      if b == 0
      then zero_division
      else if overflows a b
      then undefined
      else pushed (if remainder a b == 0 then integer (quotient a b) else number (divide a b))
  machine_ints OpCode.mod_op a b =
      if b == 0
      then zero_division
      else if overflows a b
      then undefined
      else pushed (integer (remainder a b))
  machine_ints OpCode.bit_and a b = pushed (integer (bitwise both 64 a b))
  machine_ints OpCode.bit_or a b = pushed (integer (bitwise either 64 a b))
  machine_ints OpCode.bit_xor a b = pushed (integer (bitwise one_of 64 a b))
  machine_ints OpCode.shift_left a b =
      if ltb 63 b then shift_amount else pushed (integer (shift_left a b))
  machine_ints OpCode.shift_right a b =
      if ltb 63 b then shift_amount else pushed (integer (shift_right a b))
  machine_ints OpCode.equal a b = pushed (boolean (a == b))
  machine_ints OpCode.not_equal a b = pushed (boolean (not (a == b)))
  machine_ints OpCode.less a b = pushed (boolean (less a b))
  machine_ints OpCode.less_eq a b = pushed (boolean (not (less b a)))
  machine_ints OpCode.greater a b = pushed (boolean (less b a))
  machine_ints OpCode.greater_eq a b = pushed (boolean (not (less a b)))
  machine_ints _ a b = other

-- What `compileBinary` compiles in place of the operation: one of the two sides.
pub data Reduced : Type 0 where
  left right neither : Reduced

unfoldable pub reduce_left : BinaryOp → Option Constant → Reduced
reduce_left plus (some (int r)) = if r == 0 then left else neither
reduce_left minus (some (int r)) = if r == 0 then left else neither
reduce_left star (some (int r)) = if r == 1 then left else neither
reduce_left _ _ = neither

unfoldable pub reduce_right : BinaryOp → Option Constant → Reduced
reduce_right plus (some (int l)) = if l == 0 then right else neither
reduce_right star (some (int l)) = if l == 1 then right else neither
reduce_right _ _ = neither

abbrev pub or_right : Reduced → Reduced → Reduced
or_right neither o = o
or_right r o = r

-- By the constants that the left and the right side are, if they are.
unfoldable pub reduce : BinaryOp → Option Constant → Option Constant → Reduced
unfolding reduce_left reduce_right
reduce op l r = or_right (reduce_left op r) (reduce_right op l)
