-- ===== src/Compiler/State.antt =====
-- The state of the compiler for one function (`struct Compiler` of src/compiler/BytecodeCompiler.h
-- and `struct Local` of src/bytecode/Bytecode.h), and how an error ends a compilation.
use ez_language.Prelude.{ℕ, Bool, Option, none, some, List, [], ◌∷◌, if◌then◌else◌, length}
use ez_language.Bytecode.Types.{Text, Upvalue, FunctionInfo}
use ez_language.Bytecode.Pool.{text_eq}

pub record Local : Type 0 where
  pub name : Text
  pub depth : ℕ
  pub is_captured : Bool
  pub is_const : Bool
  pub is_stack_resident : Bool
  pub exported : Bool
  pub start_pc : ℕ
  pub local_var_info_idx : ℕ

-- `locals` has the back of the vector first: the slot of a local is the number of locals after it.
pub record Compiler : Type 0 where
  pub function : FunctionInfo
  pub locals : List Local
  pub scope_depth : ℕ
  pub upvalues : List Upvalue
  pub max_locals : ℕ

-- The messages with which the modelled operations call `errorAt`.
pub data CompileError : Type 0 where
  too_many_locals too_many_captured too_many_globals too_many_constants : CompileError

pub data Result {ℓ} (A : Type ℓ) : Type ℓ where
  ok : A → Result A
  thrown : CompileError → Result A

unfoldable pub and_then {ℓ κ} : {A : Type ℓ} {B : Type κ} → Result A → (A → Result B) → Result B
and_then (ok a) f = f a
and_then (thrown e) f = thrown e

-- `errorAt` throws, unless an error was there before: then it returns, and the caller goes on.
unfoldable pub error_at {ℓ} : {A : Type ℓ} → CompileError → Bool → Result A → Result A
error_at e had_error rest = if had_error then rest else thrown e

-- The loops of `resolveLocal` and `resolveUpvalue`: the last local of that name.
unfoldable pub last_named : Text → List Local → Option ℕ
unfolding text_eq
last_named name [] = none
last_named name (l ∷ ls) =
    let rest = last_named name ls in if text_eq l.name name then some (length ls) else rest

unfoldable pub resolve_local : Text → Compiler → Option ℕ
unfolding last_named
resolve_local name c = last_named name c.locals
