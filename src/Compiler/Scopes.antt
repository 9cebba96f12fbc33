-- ===== src/Compiler/Scopes.antt =====
-- Scopes and locals (`beginScope`, `endScope`, `addLocal` and `markInitialized` of
-- src/compiler/BytecodeCompilerStmt.cpp).
pub mod Closing
use ez_language.Prelude.{
  ℕ, zero, suc, ◌-◌, ◌^◌, ◌%◌, Bool, true, false, Option, none, some, List, [], ◌∷◌, ◌++◌, ltb,
  if◌then◌else◌, length, get_elem?, set,
}
use ez_language.Bytecode.Types.{Text, LocalVarInfo, FunctionInfo}
use ez_language.Bytecode.OpCodes.{OpCode}
use ez_language.Bytecode.Emit.{write_byte, write_op}
use ez_language.Compiler.State.{Local, Compiler, too_many_locals, Result, ok, error_at}

unfoldable pub begin_scope : Compiler → Compiler
begin_scope c = record c { scope_depth = suc c.scope_depth }

-- `scopeDepth--` on a `size_t`.
abbrev pub one_less : ℕ → ℕ
one_less zero = 2 ^ 64 - 1
one_less (suc d) = d

abbrev set_end : ℕ → Option LocalVarInfo → List LocalVarInfo → ℕ → List LocalVarInfo
set_end i none vars pc = vars
set_end i (some v) vars pc = set vars i (record v { end_pc = pc })

-- The code that ends the life of the local at the back, in the slot `slot`.
unfoldable pub emit_end : ℕ → Local → ℕ → FunctionInfo → FunctionInfo
unfolding write_op write_byte
emit_end line l slot f =
    let ended = record f {
      local_vars =
          set_end l.local_var_info_idx (get_elem? f.local_vars l.local_var_info_idx) f.local_vars
            (length f.chunk.code);
    } in
    let closed =
      if l.is_captured
      then write_byte (slot % 256) line (write_op OpCode.close_upvalue line ended.chunk)
      else ended.chunk in
    record ended { chunk = if l.is_stack_resident then write_op OpCode.pop line closed else closed }

-- The loop of `endScope`.
unfoldable pub end_locals : ℕ → ℕ → List Local → FunctionInfo → List Local × FunctionInfo
unfolding emit_end
end_locals line depth [] f = ([], f)
end_locals line depth (l ∷ ls) f =
    let rest = end_locals line depth ls (emit_end line l (length ls) f) in
    if ltb depth l.depth then rest else (l ∷ ls, f)

unfoldable pub end_scope : ℕ → Compiler → Compiler
unfolding end_locals
end_scope line c =
    let depth = one_less c.scope_depth in
    let (locals, function) = end_locals line depth c.locals c.function in
    record c { scope_depth = depth; locals = locals; function = function }

unfoldable pub push_local : Text → Bool → Compiler → Compiler
push_local name is_const c =
    let start_pc = length c.function.chunk.code in
    let count = suc (length c.locals) in
    record c {
      locals =
          record {
            name = name;
            depth = c.scope_depth;
            is_captured = false;
            is_const = is_const;
            is_stack_resident = true;
            exported = false;
            start_pc = start_pc;
            local_var_info_idx = length c.function.local_vars;
          }
          ∷ c.locals;
      function = record c.function {
        local_vars =
            c.function.local_vars
            ++ record {
              name = name;
              slot = length c.locals;
              start_pc = start_pc;
              end_pc = 2 ^ 64 - 1;
            }
              ∷ [];
      };
      max_locals = if ltb c.max_locals count then count else c.max_locals;
    }

-- The slot, and the compiler with the local added.
unfoldable pub add_local : Text → Bool → Bool → Compiler → Result (ℕ × Compiler)
unfolding push_local error_at
add_local name is_const had_error c =
    let added = ok (length c.locals, push_local name is_const c) in
    if ltb 65535 (suc (length c.locals)) then error_at too_many_locals had_error added else added

abbrev set_depth : ℕ → List Local → List Local
set_depth d [] = []
set_depth d (l ∷ ls) = record l { depth = d } ∷ ls

unfoldable pub mark_initialized : Compiler → Compiler
mark_initialized c = elim c.scope_depth [
  | zero ↦ c
  | suc d ↦ record c { locals = set_depth (suc d) c.locals }
]
