-- ===== src/Compiler/Code.antt =====
-- The code that the compiler emits for locals and constants (`emitLoadLocal`, `emitStoreLocal`,
-- `makeConstant` and both `emitConstant` of src/compiler/BytecodeCompilerStmt.cpp).
pub mod Loads
pub mod Constants
use ez_language.Prelude.{
  ℕ, zero, suc, ◌+◌, ◌/◌, ◌%◌, Bool, true, false, List, [], ◌∷◌, ltb, leb, if◌then◌else◌,
}
use ez_language.Bytecode.Types.{
  Constant, int, double, string, Chunk, Value, nil, boolean, integer, number, text,
}
use ez_language.Bytecode.OpCodes.{
  OpCode, opcode_byte, load_local, load_local_w, store_local, store_local_w, load_const, load_nil,
  load_true, load_false, load_zero, load_one,
}
use ez_language.Bytecode.Emit.{write_op, write_bytes}
use ez_language.Bytecode.Pool.{add_constant}
use ez_language.Compiler.State.{too_many_constants, Result, ok, error_at}

-- `emitLoadLocal` and `emitStoreLocal`, with their narrow and their wide instruction.
unfoldable pub emit_access : OpCode → OpCode → ℕ → ℕ → Chunk → Chunk
unfolding write_op write_bytes
emit_access narrow wide line slot chunk =
    if leb slot 0xFF
    then write_bytes (opcode_byte narrow ∷ slot % 256 ∷ []) line chunk
    else write_bytes (slot / 256 % 256 ∷ slot % 256 ∷ []) line (write_op wide line chunk)

unfoldable pub emit_load_local : ℕ → ℕ → Chunk → Chunk
unfolding emit_access
emit_load_local line slot chunk = emit_access load_local load_local_w line slot chunk

unfoldable pub emit_store_local : ℕ → ℕ → Chunk → Chunk
unfolding emit_access
emit_store_local line slot chunk = emit_access store_local store_local_w line slot chunk

unfoldable pub emit_constant : ℕ → Bool → Constant → Chunk → Result Chunk
unfolding add_constant error_at write_op write_bytes
emit_constant line had_error constant chunk =
    let (i, placed) = add_constant constant chunk in
    if ltb 65535 i
    then error_at too_many_constants had_error (ok placed)
    else ok (write_bytes (i / 256 % 256 ∷ i % 256 ∷ []) line (write_op load_const line placed))

-- `emitConstant` on a `Value`. For a value of another kind it emits LOAD_NIL.
unfoldable pub emit_value : ℕ → Bool → Value → Chunk → Result Chunk
unfolding emit_constant write_op
emit_value line had_error nil chunk = ok (write_op load_nil line chunk)
emit_value line had_error (boolean true) chunk = ok (write_op load_true line chunk)
emit_value line had_error (boolean false) chunk = ok (write_op load_false line chunk)
emit_value line had_error (integer zero) chunk = ok (write_op load_zero line chunk)
emit_value line had_error (integer (suc zero)) chunk = ok (write_op load_one line chunk)
emit_value line had_error (integer (suc (suc n))) chunk =
    emit_constant line had_error (int (suc (suc n))) chunk
emit_value line had_error (number d) chunk = emit_constant line had_error (double d) chunk
emit_value line had_error (text t) chunk = emit_constant line had_error (string t) chunk
