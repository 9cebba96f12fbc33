-- ===== src/Vm/Arity.antt =====
-- The argument count test of `BytecodeVM::dispatchCall` (src/vm/BytecodeVMExecute.cpp).
use ez_language.Prelude.{ℕ, ◌-◌, ltb, if◌then◌else◌}
use ez_language.Bytecode.Types.{FunctionInfo}

unfoldable pub min_arity : FunctionInfo → ℕ
min_arity i = if ltb i.default_param_count i.arity then i.arity - i.default_param_count else 0

-- A count as a message reports it: the receiver of a method is not the caller's to pass.
unfoldable pub reported : FunctionInfo → ℕ → ℕ
reported i n = if i.is_method then n - 1 else n

-- A TypeError says how many arguments are needed, or taken at most, and how many there were.
pub data ArityCheck : Type 0 where
  accepted : ArityCheck
  needs takes_at_most : ℕ → ℕ → ArityCheck

-- A variadic function takes any number; what is missing is filled up with nil.
unfoldable pub check_arity : FunctionInfo → ℕ → ArityCheck
unfolding min_arity reported
check_arity i arg_count =
    if i.is_variadic
    then accepted
    else if ltb arg_count (min_arity i)
    then needs (reported i (min_arity i)) (reported i arg_count)
    else if ltb i.arity arg_count
    then takes_at_most (reported i i.arity) (reported i arg_count)
    else accepted
