-- ===== src/Bytecode/OpCodes/Names.antt =====
-- `opcodeName` of src/bytecode/Bytecode.cpp.
use ez_language.Prelude.{◌≡◌, refl, Option, none, some, List, [], ◌∷◌, if◌then◌else◌}
use ez_language.Bytecode.Types.{Text}
use ez_language.Bytecode.Pool.{text_eq}
use ez_language.Bytecode.OpCodes.{OpCode, opcodes}

-- `opcodeName`. Every instruction has a case, so that the default is not met.
unfoldable pub opcode_name : OpCode → Text
opcode_name OpCode.load_const =
    b'L' ∷ b'O' ∷ b'A' ∷ b'D' ∷ b'_' ∷ b'C' ∷ b'O' ∷ b'N' ∷ b'S' ∷ b'T' ∷ []
opcode_name OpCode.load_local =
    b'L' ∷ b'O' ∷ b'A' ∷ b'D' ∷ b'_' ∷ b'L' ∷ b'O' ∷ b'C' ∷ b'A' ∷ b'L' ∷ []
opcode_name OpCode.store_local =
    b'S' ∷ b'T' ∷ b'O' ∷ b'R' ∷ b'E' ∷ b'_' ∷ b'L' ∷ b'O' ∷ b'C' ∷ b'A' ∷ b'L' ∷ []
opcode_name OpCode.load_upvalue =
    b'L' ∷ b'O' ∷ b'A' ∷ b'D' ∷ b'_' ∷ b'U' ∷ b'P' ∷ b'V' ∷ b'A' ∷ b'L' ∷ b'U' ∷ b'E' ∷ []
opcode_name OpCode.store_upvalue =
    b'S' ∷ b'T' ∷ b'O' ∷ b'R' ∷ b'E' ∷ b'_' ∷ b'U' ∷ b'P' ∷ b'V' ∷ b'A' ∷ b'L' ∷ b'U' ∷ b'E' ∷ []
opcode_name OpCode.load_global =
    b'L' ∷ b'O' ∷ b'A' ∷ b'D' ∷ b'_' ∷ b'G' ∷ b'L' ∷ b'O' ∷ b'B' ∷ b'A' ∷ b'L' ∷ []
opcode_name OpCode.store_global =
    b'S' ∷ b'T' ∷ b'O' ∷ b'R' ∷ b'E' ∷ b'_' ∷ b'G' ∷ b'L' ∷ b'O' ∷ b'B' ∷ b'A' ∷ b'L' ∷ []
opcode_name OpCode.load_property =
    b'L' ∷ b'O' ∷ b'A' ∷ b'D' ∷ b'_' ∷ b'P' ∷ b'R' ∷ b'O' ∷ b'P' ∷ b'E' ∷ b'R' ∷ b'T' ∷ b'Y' ∷ []
opcode_name OpCode.store_property =
    b'S' ∷ b'T' ∷ b'O' ∷ b'R' ∷ b'E' ∷ b'_' ∷ b'P' ∷ b'R' ∷ b'O' ∷ b'P' ∷ b'E' ∷ b'R' ∷ b'T' ∷ b'Y'
    ∷ []
opcode_name OpCode.pop = b'P' ∷ b'O' ∷ b'P' ∷ []
opcode_name OpCode.dup = b'D' ∷ b'U' ∷ b'P' ∷ []
opcode_name OpCode.dup2 = b'D' ∷ b'U' ∷ b'P' ∷ b'2' ∷ []
opcode_name OpCode.load_nil = b'L' ∷ b'O' ∷ b'A' ∷ b'D' ∷ b'_' ∷ b'N' ∷ b'I' ∷ b'L' ∷ []
opcode_name OpCode.load_true = b'L' ∷ b'O' ∷ b'A' ∷ b'D' ∷ b'_' ∷ b'T' ∷ b'R' ∷ b'U' ∷ b'E' ∷ []
opcode_name OpCode.load_false =
    b'L' ∷ b'O' ∷ b'A' ∷ b'D' ∷ b'_' ∷ b'F' ∷ b'A' ∷ b'L' ∷ b'S' ∷ b'E' ∷ []
opcode_name OpCode.load_zero = b'L' ∷ b'O' ∷ b'A' ∷ b'D' ∷ b'_' ∷ b'Z' ∷ b'E' ∷ b'R' ∷ b'O' ∷ []
opcode_name OpCode.load_one = b'L' ∷ b'O' ∷ b'A' ∷ b'D' ∷ b'_' ∷ b'O' ∷ b'N' ∷ b'E' ∷ []
opcode_name OpCode.load_empty_str =
    b'L' ∷ b'O' ∷ b'A' ∷ b'D' ∷ b'_' ∷ b'E' ∷ b'M' ∷ b'P' ∷ b'T' ∷ b'Y' ∷ b'_' ∷ b'S' ∷ b'T' ∷ b'R'
    ∷ []
opcode_name OpCode.inc_local = b'I' ∷ b'N' ∷ b'C' ∷ b'_' ∷ b'L' ∷ b'O' ∷ b'C' ∷ b'A' ∷ b'L' ∷ []
opcode_name OpCode.dec_local = b'D' ∷ b'E' ∷ b'C' ∷ b'_' ∷ b'L' ∷ b'O' ∷ b'C' ∷ b'A' ∷ b'L' ∷ []
opcode_name OpCode.add = b'A' ∷ b'D' ∷ b'D' ∷ []
opcode_name OpCode.sub = b'S' ∷ b'U' ∷ b'B' ∷ []
opcode_name OpCode.mul = b'M' ∷ b'U' ∷ b'L' ∷ []
opcode_name OpCode.div = b'D' ∷ b'I' ∷ b'V' ∷ []
opcode_name OpCode.mod_op = b'M' ∷ b'O' ∷ b'D' ∷ []
opcode_name OpCode.pow = b'P' ∷ b'O' ∷ b'W' ∷ []
opcode_name OpCode.negate = b'N' ∷ b'E' ∷ b'G' ∷ b'A' ∷ b'T' ∷ b'E' ∷ []
opcode_name OpCode.bit_and = b'B' ∷ b'I' ∷ b'T' ∷ b'_' ∷ b'A' ∷ b'N' ∷ b'D' ∷ []
opcode_name OpCode.bit_or = b'B' ∷ b'I' ∷ b'T' ∷ b'_' ∷ b'O' ∷ b'R' ∷ []
opcode_name OpCode.bit_xor = b'B' ∷ b'I' ∷ b'T' ∷ b'_' ∷ b'X' ∷ b'O' ∷ b'R' ∷ []
opcode_name OpCode.bit_not = b'B' ∷ b'I' ∷ b'T' ∷ b'_' ∷ b'N' ∷ b'O' ∷ b'T' ∷ []
opcode_name OpCode.shift_left =
    b'S' ∷ b'H' ∷ b'I' ∷ b'F' ∷ b'T' ∷ b'_' ∷ b'L' ∷ b'E' ∷ b'F' ∷ b'T' ∷ []
opcode_name OpCode.shift_right =
    b'S' ∷ b'H' ∷ b'I' ∷ b'F' ∷ b'T' ∷ b'_' ∷ b'R' ∷ b'I' ∷ b'G' ∷ b'H' ∷ b'T' ∷ []
opcode_name OpCode.equal = b'E' ∷ b'Q' ∷ b'U' ∷ b'A' ∷ b'L' ∷ []
opcode_name OpCode.not_equal = b'N' ∷ b'O' ∷ b'T' ∷ b'_' ∷ b'E' ∷ b'Q' ∷ b'U' ∷ b'A' ∷ b'L' ∷ []
opcode_name OpCode.less = b'L' ∷ b'E' ∷ b'S' ∷ b'S' ∷ []
opcode_name OpCode.less_eq = b'L' ∷ b'E' ∷ b'S' ∷ b'S' ∷ b'_' ∷ b'E' ∷ b'Q' ∷ []
opcode_name OpCode.greater = b'G' ∷ b'R' ∷ b'E' ∷ b'A' ∷ b'T' ∷ b'E' ∷ b'R' ∷ []
opcode_name OpCode.greater_eq =
    b'G' ∷ b'R' ∷ b'E' ∷ b'A' ∷ b'T' ∷ b'E' ∷ b'R' ∷ b'_' ∷ b'E' ∷ b'Q' ∷ []
opcode_name OpCode.not = b'N' ∷ b'O' ∷ b'T' ∷ []
opcode_name OpCode.jump = b'J' ∷ b'U' ∷ b'M' ∷ b'P' ∷ []
opcode_name OpCode.jump_if_false =
    b'J' ∷ b'U' ∷ b'M' ∷ b'P' ∷ b'_' ∷ b'I' ∷ b'F' ∷ b'_' ∷ b'F' ∷ b'A' ∷ b'L' ∷ b'S' ∷ b'E' ∷ []
opcode_name OpCode.jump_if_true =
    b'J' ∷ b'U' ∷ b'M' ∷ b'P' ∷ b'_' ∷ b'I' ∷ b'F' ∷ b'_' ∷ b'T' ∷ b'R' ∷ b'U' ∷ b'E' ∷ []
opcode_name OpCode.jump_if_nil =
    b'J' ∷ b'U' ∷ b'M' ∷ b'P' ∷ b'_' ∷ b'I' ∷ b'F' ∷ b'_' ∷ b'N' ∷ b'I' ∷ b'L' ∷ []
opcode_name OpCode.jump_if_not_nil =
    b'J' ∷ b'U' ∷ b'M' ∷ b'P' ∷ b'_' ∷ b'I' ∷ b'F' ∷ b'_' ∷ b'N' ∷ b'O' ∷ b'T' ∷ b'_' ∷ b'N' ∷ b'I'
    ∷ b'L' ∷ []
opcode_name OpCode.loop = b'L' ∷ b'O' ∷ b'O' ∷ b'P' ∷ []
opcode_name OpCode.call = b'C' ∷ b'A' ∷ b'L' ∷ b'L' ∷ []
opcode_name OpCode.tail_call = b'T' ∷ b'A' ∷ b'I' ∷ b'L' ∷ b'_' ∷ b'C' ∷ b'A' ∷ b'L' ∷ b'L' ∷ []
opcode_name OpCode.call_kw = b'C' ∷ b'A' ∷ b'L' ∷ b'L' ∷ b'_' ∷ b'K' ∷ b'W' ∷ []
opcode_name OpCode.return = b'R' ∷ b'E' ∷ b'T' ∷ b'U' ∷ b'R' ∷ b'N' ∷ []
opcode_name OpCode.closure = b'C' ∷ b'L' ∷ b'O' ∷ b'S' ∷ b'U' ∷ b'R' ∷ b'E' ∷ []
opcode_name OpCode.close_upvalue =
    b'C' ∷ b'L' ∷ b'O' ∷ b'S' ∷ b'E' ∷ b'_' ∷ b'U' ∷ b'P' ∷ b'V' ∷ b'A' ∷ b'L' ∷ b'U' ∷ b'E' ∷ []
opcode_name OpCode.make_array =
    b'M' ∷ b'A' ∷ b'K' ∷ b'E' ∷ b'_' ∷ b'A' ∷ b'R' ∷ b'R' ∷ b'A' ∷ b'Y' ∷ []
opcode_name OpCode.build_tuple =
    b'B' ∷ b'U' ∷ b'I' ∷ b'L' ∷ b'D' ∷ b'_' ∷ b'T' ∷ b'U' ∷ b'P' ∷ b'L' ∷ b'E' ∷ []
opcode_name OpCode.make_dict = b'M' ∷ b'A' ∷ b'K' ∷ b'E' ∷ b'_' ∷ b'D' ∷ b'I' ∷ b'C' ∷ b'T' ∷ []
opcode_name OpCode.index_get = b'I' ∷ b'N' ∷ b'D' ∷ b'E' ∷ b'X' ∷ b'_' ∷ b'G' ∷ b'E' ∷ b'T' ∷ []
opcode_name OpCode.index_set = b'I' ∷ b'N' ∷ b'D' ∷ b'E' ∷ b'X' ∷ b'_' ∷ b'S' ∷ b'E' ∷ b'T' ∷ []
opcode_name OpCode.array_append =
    b'A' ∷ b'R' ∷ b'R' ∷ b'A' ∷ b'Y' ∷ b'_' ∷ b'A' ∷ b'P' ∷ b'P' ∷ b'E' ∷ b'N' ∷ b'D' ∷ []
opcode_name OpCode.array_extend =
    b'A' ∷ b'R' ∷ b'R' ∷ b'A' ∷ b'Y' ∷ b'_' ∷ b'E' ∷ b'X' ∷ b'T' ∷ b'E' ∷ b'N' ∷ b'D' ∷ []
opcode_name OpCode.call_spread =
    b'C' ∷ b'A' ∷ b'L' ∷ b'L' ∷ b'_' ∷ b'S' ∷ b'P' ∷ b'R' ∷ b'E' ∷ b'A' ∷ b'D' ∷ []
opcode_name OpCode.new_instance =
    b'N' ∷ b'E' ∷ b'W' ∷ b'_' ∷ b'I' ∷ b'N' ∷ b'S' ∷ b'T' ∷ b'A' ∷ b'N' ∷ b'C' ∷ b'E' ∷ []
opcode_name OpCode.get_method =
    b'G' ∷ b'E' ∷ b'T' ∷ b'_' ∷ b'M' ∷ b'E' ∷ b'T' ∷ b'H' ∷ b'O' ∷ b'D' ∷ []
opcode_name OpCode.super = b'S' ∷ b'U' ∷ b'P' ∷ b'E' ∷ b'R' ∷ []
opcode_name OpCode.super_call =
    b'S' ∷ b'U' ∷ b'P' ∷ b'E' ∷ b'R' ∷ b'_' ∷ b'C' ∷ b'A' ∷ b'L' ∷ b'L' ∷ []
opcode_name OpCode.get_iter = b'G' ∷ b'E' ∷ b'T' ∷ b'_' ∷ b'I' ∷ b'T' ∷ b'E' ∷ b'R' ∷ []
opcode_name OpCode.get_dict_iter =
    b'G' ∷ b'E' ∷ b'T' ∷ b'_' ∷ b'D' ∷ b'I' ∷ b'C' ∷ b'T' ∷ b'_' ∷ b'I' ∷ b'T' ∷ b'E' ∷ b'R' ∷ []
opcode_name OpCode.iter_next = b'I' ∷ b'T' ∷ b'E' ∷ b'R' ∷ b'_' ∷ b'N' ∷ b'E' ∷ b'X' ∷ b'T' ∷ []
opcode_name OpCode.iter_has_next =
    b'I' ∷ b'T' ∷ b'E' ∷ b'R' ∷ b'_' ∷ b'H' ∷ b'A' ∷ b'S' ∷ b'_' ∷ b'N' ∷ b'E' ∷ b'X' ∷ b'T' ∷ []
opcode_name OpCode.try_start = b'T' ∷ b'R' ∷ b'Y' ∷ b'_' ∷ b'S' ∷ b'T' ∷ b'A' ∷ b'R' ∷ b'T' ∷ []
opcode_name OpCode.try_end = b'T' ∷ b'R' ∷ b'Y' ∷ b'_' ∷ b'E' ∷ b'N' ∷ b'D' ∷ []
opcode_name OpCode.throw = b'T' ∷ b'H' ∷ b'R' ∷ b'O' ∷ b'W' ∷ []
opcode_name OpCode.finally_start =
    b'F' ∷ b'I' ∷ b'N' ∷ b'A' ∷ b'L' ∷ b'L' ∷ b'Y' ∷ b'_' ∷ b'S' ∷ b'T' ∷ b'A' ∷ b'R' ∷ b'T' ∷ []
opcode_name OpCode.finally_end =
    b'F' ∷ b'I' ∷ b'N' ∷ b'A' ∷ b'L' ∷ b'L' ∷ b'Y' ∷ b'_' ∷ b'E' ∷ b'N' ∷ b'D' ∷ []
opcode_name OpCode.to_string = b'T' ∷ b'O' ∷ b'_' ∷ b'S' ∷ b'T' ∷ b'R' ∷ b'I' ∷ b'N' ∷ b'G' ∷ []
opcode_name OpCode.print = b'P' ∷ b'R' ∷ b'I' ∷ b'N' ∷ b'T' ∷ []
opcode_name OpCode.clock = b'C' ∷ b'L' ∷ b'O' ∷ b'C' ∷ b'K' ∷ []
opcode_name OpCode.type_of = b'T' ∷ b'Y' ∷ b'P' ∷ b'E' ∷ b'_' ∷ b'O' ∷ b'F' ∷ []
opcode_name OpCode.is_instance_of =
    b'I' ∷ b'S' ∷ b'_' ∷ b'I' ∷ b'N' ∷ b'S' ∷ b'T' ∷ b'A' ∷ b'N' ∷ b'C' ∷ b'E' ∷ b'_' ∷ b'O' ∷ b'F'
    ∷ []
opcode_name OpCode.op_await = b'A' ∷ b'W' ∷ b'A' ∷ b'I' ∷ b'T' ∷ []
opcode_name OpCode.make_interface =
    b'M' ∷ b'A' ∷ b'K' ∷ b'E' ∷ b'_' ∷ b'I' ∷ b'N' ∷ b'T' ∷ b'E' ∷ b'R' ∷ b'F' ∷ b'A' ∷ b'C' ∷ b'E'
    ∷ []
opcode_name OpCode.make_class =
    b'M' ∷ b'A' ∷ b'K' ∷ b'E' ∷ b'_' ∷ b'C' ∷ b'L' ∷ b'A' ∷ b'S' ∷ b'S' ∷ []
opcode_name OpCode.breakpoint =
    b'B' ∷ b'R' ∷ b'E' ∷ b'A' ∷ b'K' ∷ b'P' ∷ b'O' ∷ b'I' ∷ b'N' ∷ b'T' ∷ []
opcode_name OpCode.line = b'L' ∷ b'I' ∷ b'N' ∷ b'E' ∷ []
opcode_name OpCode.has_global =
    b'H' ∷ b'A' ∷ b'S' ∷ b'_' ∷ b'G' ∷ b'L' ∷ b'O' ∷ b'B' ∷ b'A' ∷ b'L' ∷ []
opcode_name OpCode.load_global_slot =
    b'L' ∷ b'O' ∷ b'A' ∷ b'D' ∷ b'_' ∷ b'G' ∷ b'L' ∷ b'O' ∷ b'B' ∷ b'A' ∷ b'L' ∷ b'_' ∷ b'S' ∷ b'L'
    ∷ b'O' ∷ b'T' ∷ []
opcode_name OpCode.store_global_slot =
    b'S' ∷ b'T' ∷ b'O' ∷ b'R' ∷ b'E' ∷ b'_' ∷ b'G' ∷ b'L' ∷ b'O' ∷ b'B' ∷ b'A' ∷ b'L' ∷ b'_' ∷ b'S'
    ∷ b'L' ∷ b'O' ∷ b'T' ∷ []
opcode_name OpCode.loop_less_eq_local =
    b'L' ∷ b'O' ∷ b'O' ∷ b'P' ∷ b'_' ∷ b'L' ∷ b'E' ∷ b'S' ∷ b'S' ∷ b'_' ∷ b'E' ∷ b'Q' ∷ b'_' ∷ b'L'
    ∷ b'O' ∷ b'C' ∷ b'A' ∷ b'L' ∷ []
opcode_name OpCode.loop_greater_eq_local =
    b'L' ∷ b'O' ∷ b'O' ∷ b'P' ∷ b'_' ∷ b'G' ∷ b'R' ∷ b'E' ∷ b'A' ∷ b'T' ∷ b'E' ∷ b'R' ∷ b'_' ∷ b'E'
    ∷ b'Q' ∷ b'_' ∷ b'L' ∷ b'O' ∷ b'C' ∷ b'A' ∷ b'L' ∷ []
opcode_name OpCode.intercepted_store_property =
    b'I' ∷ b'N' ∷ b'T' ∷ b'E' ∷ b'R' ∷ b'C' ∷ b'E' ∷ b'P' ∷ b'T' ∷ b'E' ∷ b'D' ∷ b'_' ∷ b'S' ∷ b'T'
    ∷ b'O' ∷ b'R' ∷ b'E' ∷ b'_' ∷ b'P' ∷ b'R' ∷ b'O' ∷ b'P' ∷ b'E' ∷ b'R' ∷ b'T' ∷ b'Y' ∷ []
opcode_name OpCode.ratelimit_check =
    b'R' ∷ b'A' ∷ b'T' ∷ b'E' ∷ b'L' ∷ b'I' ∷ b'M' ∷ b'I' ∷ b'T' ∷ b'_' ∷ b'C' ∷ b'H' ∷ b'E' ∷ b'C'
    ∷ b'K' ∷ []
opcode_name OpCode.get_cached_result =
    b'G' ∷ b'E' ∷ b'T' ∷ b'_' ∷ b'C' ∷ b'A' ∷ b'C' ∷ b'H' ∷ b'E' ∷ b'D' ∷ b'_' ∷ b'R' ∷ b'E' ∷ b'S'
    ∷ b'U' ∷ b'L' ∷ b'T' ∷ []
opcode_name OpCode.store_cached_result =
    b'S' ∷ b'T' ∷ b'O' ∷ b'R' ∷ b'E' ∷ b'_' ∷ b'C' ∷ b'A' ∷ b'C' ∷ b'H' ∷ b'E' ∷ b'D' ∷ b'_' ∷ b'R'
    ∷ b'E' ∷ b'S' ∷ b'U' ∷ b'L' ∷ b'T' ∷ []
opcode_name OpCode.load_local_w =
    b'L' ∷ b'O' ∷ b'A' ∷ b'D' ∷ b'_' ∷ b'L' ∷ b'O' ∷ b'C' ∷ b'A' ∷ b'L' ∷ b'_' ∷ b'W' ∷ []
opcode_name OpCode.store_local_w =
    b'S' ∷ b'T' ∷ b'O' ∷ b'R' ∷ b'E' ∷ b'_' ∷ b'L' ∷ b'O' ∷ b'C' ∷ b'A' ∷ b'L' ∷ b'_' ∷ b'W' ∷ []
opcode_name OpCode.member_in = b'I' ∷ b'N' ∷ []
opcode_name OpCode.add_local_local =
    b'A' ∷ b'D' ∷ b'D' ∷ b'_' ∷ b'L' ∷ b'O' ∷ b'C' ∷ b'A' ∷ b'L' ∷ b'_' ∷ b'L' ∷ b'O' ∷ b'C' ∷ b'A'
    ∷ b'L' ∷ []
opcode_name OpCode.sub_local_local =
    b'S' ∷ b'U' ∷ b'B' ∷ b'_' ∷ b'L' ∷ b'O' ∷ b'C' ∷ b'A' ∷ b'L' ∷ b'_' ∷ b'L' ∷ b'O' ∷ b'C' ∷ b'A'
    ∷ b'L' ∷ []
opcode_name OpCode.inc_local_by =
    b'I' ∷ b'N' ∷ b'C' ∷ b'_' ∷ b'L' ∷ b'O' ∷ b'C' ∷ b'A' ∷ b'L' ∷ b'_' ∷ b'B' ∷ b'Y' ∷ []
opcode_name OpCode.add_global_local =
    b'A' ∷ b'D' ∷ b'D' ∷ b'_' ∷ b'G' ∷ b'L' ∷ b'O' ∷ b'B' ∷ b'A' ∷ b'L' ∷ b'_' ∷ b'L' ∷ b'O' ∷ b'C'
    ∷ b'A' ∷ b'L' ∷ []
opcode_name OpCode.print_str = b'P' ∷ b'R' ∷ b'I' ∷ b'N' ∷ b'T' ∷ b'_' ∷ b'S' ∷ b'T' ∷ b'R' ∷ []
opcode_name OpCode.invoke_method =
    b'I' ∷ b'N' ∷ b'V' ∷ b'O' ∷ b'K' ∷ b'E' ∷ b'_' ∷ b'M' ∷ b'E' ∷ b'T' ∷ b'H' ∷ b'O' ∷ b'D' ∷ []
opcode_name OpCode.end = b'E' ∷ b'N' ∷ b'D' ∷ []

-- The first instruction of a list with that name.
unfoldable pub named : Text → List OpCode → Option OpCode
unfolding text_eq opcode_name
named name [] = none
named name (op ∷ ops) =
    let rest = named name ops in if text_eq (opcode_name op) name then some op else rest

-- The disassembler prints a different name for every instruction: the name gives it back.
pub named-opcode_name : (op : OpCode) → named (opcode_name op) opcodes ≡ some op
unfolding named opcode_name
named-opcode_name OpCode.load_const = refl
named-opcode_name _ = refl
