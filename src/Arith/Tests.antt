-- ===== src/Arith/Tests.antt =====
-- Runs of the integer operators, and the theorems at them.
use ez_language.Prelude.{ℕ, ◌-◌, ◌%◌, ◌^◌, ◌≡◌, refl, none, some, arith}
use ez_language.Bytecode.Types.{int, integer}
use ez_language.Bytecode.OpCodes.{OpCode}
use ez_language.Bytecode.Pool.{resolve}
use ez_language.Arith.{power}
use ez_language.Arith.Power.{power_lem}
use ez_language.Arith.Operators.{
  fold_ints, plus, slash, binary_opcode, pushed, undefined, machine_ints, reduce,
}
use ez_language.Arith.Folding.{fold_ints-machine_ints, Kept, reduce-Kept}

-- A stand-in for the operations on doubles, which no test here reaches.
abbrev no_double : ℕ → ℕ → ℕ
no_double a b = 0

power_lem_example : power 3 5 ≡ 3 ^ 5 % 2 ^ 64
power_lem_example = power_lem 3 5 (omega arith)

-- -7 / 2 is no integer, -8 / 2 is -4, and -7 % 3 is -1.
eight_halved :
    machine_ints no_double no_double OpCode.div (2 ^ 64 - 8) 2 ≡ pushed (integer (2 ^ 64 - 4))
unfolding machine_ints
eight_halved = refl

seven_by_three :
    machine_ints no_double no_double OpCode.mod_op (2 ^ 64 - 7) 3 ≡ pushed (integer (2 ^ 64 - 1))
unfolding machine_ints
seven_by_three = refl

bits_joined : machine_ints no_double no_double OpCode.bit_or 12 10 ≡ pushed (integer 14)
unfolding machine_ints
bits_joined = refl

least_divided : machine_ints no_double no_double OpCode.div (2 ^ 63) (2 ^ 64 - 1) ≡ undefined
unfolding machine_ints
least_divided = refl

fold_ints-machine_ints_example :
    machine_ints no_double no_double (binary_opcode slash) 6 2 ≡ pushed (resolve (int 3))
unfolding fold_ints
fold_ints-machine_ints_example = fold_ints-machine_ints no_double no_double slash 6 2 (int 3) refl

reduce-Kept_example : Kept plus 5 0 (reduce plus none (some (int 0))) no_double no_double
reduce-Kept_example =
    reduce-Kept no_double no_double plus none (some (int 0)) 5 0 (omega arith) (omega arith) tt refl
