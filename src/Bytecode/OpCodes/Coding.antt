-- ===== src/Bytecode/OpCodes/Coding.antt =====
-- The numbering and the lengths of instructions.
use ez_language.Prelude.{
  ℕ, ◌<◌, ◌≡◌, refl, Bool, true, false, not, ◌&&◌, ◌||◌, none, some, arith, ◌==◌,
}
use ez_language.Bytecode.OpCodes.{
  OpCode, load_const, line, load_property, store_property, intercepted_store_property, closure,
  opcode_byte, opcode_of, disassembled_length, executed_length,
}

pub opcode_of-opcode_byte :
    (op : OpCode) → (opcode_of (opcode_byte op) ≡ some op) × (opcode_byte op < 256)
unfolding opcode_of opcode_byte
opcode_of-opcode_byte load_const = (refl, omega arith)
opcode_of-opcode_byte _ = (refl, omega arith)

-- The instructions at which the disassembler does not advance as the virtual machine does.
unfoldable pub is_misread : OpCode → Bool
is_misread load_property = true
is_misread store_property = true
is_misread intercepted_store_property = true
is_misread line = true
is_misread _ = false

unfoldable pub is_closure : OpCode → Bool
is_closure closure = true
is_closure _ = false

-- The disassembler, given the table of functions with the one that a CLOSURE names, steps over an
-- instruction exactly as the virtual machine reads it, except for LOAD_PROPERTY, STORE_PROPERTY,
-- INTERCEPTED_STORE_PROPERTY and LINE, at which the two differ whatever the operands are. Without
-- it, the two differ at a CLOSURE of a function with upvalues also, and nowhere else.
pub disassembled_length_exact :
    (ups : ℕ) (op : OpCode)
    → ((disassembled_length (some ups) op == executed_length ups op) ≡ not (is_misread op))
      × ((disassembled_length none op == executed_length ups op)
          ≡ not (is_misread op || (is_closure op && not (ups == 0))))
unfolding disassembled_length executed_length is_misread is_closure
disassembled_length_exact ups load_const = (refl, refl)
disassembled_length_exact ups closure = (ground arith, ground arith)
disassembled_length_exact ups _ = (refl, refl)
