-- ===== src/Compiler/Tests.antt =====
-- A small program's variables, and the theorems of the compiler at it.
use ez_language.Prelude.{
  ℕ, ◌≡◌, refl, true, false, Option, none, some, List, [], ◌∷◌, ◌++◌, arith, length,
}
use mathlib.Core.Option.{none-ne-some}
use ez_language.Bytecode.Types.{Text, FunctionInfo, empty_chunk, Upvalue, local, upvalue, number}
use ez_language.Bytecode.OpCodes.{OpCode, opcode_byte}
use ez_language.Bytecode.Pool.{text_eq}
use ez_language.Compiler.State.{last_named, Local, Compiler, Result, ok, resolve_local}
use ez_language.Compiler.Upvalues.{resolve_upvalue}
use ez_language.Compiler.Upvalues.Resolves.{Resolves, resolve_upvalue-Resolves}
use ez_language.Compiler.Scopes.{begin_scope, push_local, add_local, emit_end, end_scope}
use ez_language.Compiler.Scopes.Closing.{end_all, end_scope_lem, Declares, add_local-Declares}
use ez_language.Compiler.Code.{emit_load_local, emit_store_local, emit_value}
use ez_language.Compiler.Code.Loads.{access_at-emit_local}
use ez_language.Compiler.Code.Constants.{Pushes, emit_value-Pushes}
use ez_language.Compiler.Globals.{Globals, find_slot, global_slot_for}
use ez_language.Compiler.Globals.Granted.{Grants, IsInjective, global_slot_for-Grants}
use ez_language.Vm.Loads.{load, store, access_at}

abbrev blank_function : FunctionInfo
blank_function = record {
  name = [];
  filename = [];
  class_name = [];
  param_names = [];
  arity = 0;
  is_variadic = false;
  is_async = false;
  is_method = false;
  has_cached = false;
  chunk = empty_chunk;
  upvalues = [];
  upvalue_count = 0;
  local_count = 0;
  local_vars = [];
  call_sites = [];
  default_param_count = 0;
  global_slot_count = 0;
}

abbrev blank : Compiler
blank = record {
  function = blank_function;
  locals = [];
  scope_depth = 0;
  upvalues = [];
  max_locals = 0;
}

abbrev x : Text
x = 120 ∷ []

abbrev y : Text
y = 121 ∷ []

-- A function with two locals named x, the inner one in a scope.
abbrev outermost : Compiler
outermost = push_local x false (begin_scope (push_local y false (push_local x false blank)))

x_is_innermost : resolve_local x outermost ≡ some 2
unfolding resolve_local last_named text_eq push_local begin_scope
x_is_innermost = refl

resolve_upvalue-Resolves_example :
    Resolves false x blank
      (blank ∷ outermost ∷ [])
      (resolve_upvalue false x blank (blank ∷ outermost ∷ []))
resolve_upvalue-Resolves_example = resolve_upvalue-Resolves false x blank (blank ∷ outermost ∷ [])

-- A variable two functions further out is reached through an upvalue of the function between.
abbrev answer : Result (Option ℕ × (Compiler × List Compiler)) → Option ℕ × List (List Upvalue)
answer (ok (r, (c, d ∷ ds))) = (r, c.upvalues ∷ d.upvalues ∷ [])
answer _ = (none, [])

captured_through : answer (resolve_upvalue false x blank (blank ∷ outermost ∷ [])) ≡ (
  some 0,
  (record { type = upvalue; index = 0 } ∷ []) ∷ (record { type = local; index = 2 } ∷ []) ∷ [],
)
unfolding resolve_upvalue last_named text_eq push_local begin_scope
captured_through = refl

abbrev inner_local : Local
inner_local = record {
  name = x;
  depth = 1;
  is_captured = true;
  is_const = false;
  is_stack_resident = true;
  exported = false;
  start_pc = 0;
  local_var_info_idx = 0;
}

abbrev outer_local : Local
outer_local = record inner_local { depth = 0 }

abbrev two_scopes : Compiler
two_scopes = record {
  function = blank_function;
  locals = inner_local ∷ outer_local ∷ [];
  scope_depth = 1;
  upvalues = [];
  max_locals = 2;
}

end_scope_lem_example :
    ((end_scope 7 two_scopes).locals ≡ outer_local ∷ [])
    × (((end_scope 7 two_scopes).scope_depth ≡ 0)
        × ((end_scope 7 two_scopes).function.chunk.code ≡ [] ++ end_all (inner_local ∷ []) 1))
end_scope_lem_example =
    end_scope_lem 7 0 (inner_local ∷ []) (outer_local ∷ []) two_scopes refl refl (omega arith, tt)
      (omega arith)

-- The instruction for a captured local in the slot 300 closes the slot 44.
wrong_slot_closed :
    (emit_end 7 inner_local 300 blank_function).chunk.code
    ≡ opcode_byte OpCode.close_upvalue ∷ 44 ∷ opcode_byte OpCode.pop ∷ []
unfolding emit_end
wrong_slot_closed = refl

add_local-Declares_example : Declares y false outermost (add_local y true false outermost)
add_local-Declares_example = add_local-Declares y true false outermost

access_at-emit_local_example :
    (access_at (emit_load_local 7 300 empty_chunk).code 0
      ≡ some (load 300, length (emit_load_local 7 300 empty_chunk).code))
    × (access_at (emit_store_local 7 300 empty_chunk).code 0
        ≡ some (store 300, length (emit_store_local 7 300 empty_chunk).code))
access_at-emit_local_example = access_at-emit_local 7 300 empty_chunk (omega arith)

emit_value-Pushes_example :
    Pushes (number 5) empty_chunk (emit_value 7 false (number 5) empty_chunk)
emit_value-Pushes_example = emit_value-Pushes 7 (number 5) empty_chunk refl

abbrev no_globals : Globals
no_globals = record { global_slots = []; next_global_slot = 0 }

no_globals-IsInjective : IsInjective no_globals
unfolding find_slot
no_globals-IsInjective = record {
  below = λ a i h. absurd (none-ne-some i h);
  distinct = λ a b i h k. absurd (none-ne-some i h);
}

global_slot_for-Grants_example : Grants x no_globals (global_slot_for false x no_globals)
global_slot_for-Grants_example = global_slot_for-Grants x no_globals no_globals-IsInjective
