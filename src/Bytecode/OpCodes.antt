-- ===== src/Bytecode/OpCodes.antt =====
-- `enum class OpCode` of src/bytecode/Bytecode.h, its numbering, and how many bytes an instruction
-- takes: what `Chunk::disassembleInstruction` steps over, and what the dispatch loop of
-- src/vm/BytecodeVMExecute.cpp reads.
pub mod Coding
pub mod Names
use ez_language.Prelude.{
  ℕ, zero, suc, ◌+◌, ◌*◌, Option, none, some, List, [], ◌∷◌, get_elem?, Bool, true, false,
}
use ez_language.Bytes.{Byte}

pub data OpCode : Type 0 where
  load_const load_local store_local load_upvalue store_upvalue load_global store_global : OpCode
  load_property store_property pop dup dup2 load_nil load_true load_false load_zero : OpCode
  load_one load_empty_str inc_local dec_local add sub mul div mod_op pow negate bit_and : OpCode
  bit_or bit_xor bit_not shift_left shift_right equal not_equal less less_eq greater : OpCode
  greater_eq not jump jump_if_false jump_if_true jump_if_nil jump_if_not_nil loop call : OpCode
  tail_call call_kw return closure close_upvalue make_array build_tuple make_dict : OpCode
  index_get index_set array_append array_extend call_spread new_instance get_method super : OpCode
  super_call get_iter get_dict_iter iter_next iter_has_next try_start try_end throw : OpCode
  finally_start finally_end to_string print clock type_of is_instance_of op_await : OpCode
  make_interface make_class breakpoint line has_global load_global_slot store_global_slot : OpCode
  loop_less_eq_local loop_greater_eq_local intercepted_store_property ratelimit_check : OpCode
  get_cached_result store_cached_result load_local_w store_local_w member_in : OpCode
  add_local_local sub_local_local inc_local_by add_global_local print_str invoke_method : OpCode
  end : OpCode

-- `opcodeByte`: the position in the enumeration, which .ezc files hold.
unfoldable pub opcode_byte : OpCode → Byte
opcode_byte load_const = 0
opcode_byte load_local = 1
opcode_byte store_local = 2
opcode_byte load_upvalue = 3
opcode_byte store_upvalue = 4
opcode_byte load_global = 5
opcode_byte store_global = 6
opcode_byte load_property = 7
opcode_byte store_property = 8
opcode_byte pop = 9
opcode_byte dup = 10
opcode_byte dup2 = 11
opcode_byte load_nil = 12
opcode_byte load_true = 13
opcode_byte load_false = 14
opcode_byte load_zero = 15
opcode_byte load_one = 16
opcode_byte load_empty_str = 17
opcode_byte inc_local = 18
opcode_byte dec_local = 19
opcode_byte add = 20
opcode_byte sub = 21
opcode_byte mul = 22
opcode_byte div = 23
opcode_byte mod_op = 24
opcode_byte pow = 25
opcode_byte negate = 26
opcode_byte bit_and = 27
opcode_byte bit_or = 28
opcode_byte bit_xor = 29
opcode_byte bit_not = 30
opcode_byte shift_left = 31
opcode_byte shift_right = 32
opcode_byte equal = 33
opcode_byte not_equal = 34
opcode_byte less = 35
opcode_byte less_eq = 36
opcode_byte greater = 37
opcode_byte greater_eq = 38
opcode_byte not = 39
opcode_byte jump = 40
opcode_byte jump_if_false = 41
opcode_byte jump_if_true = 42
opcode_byte jump_if_nil = 43
opcode_byte jump_if_not_nil = 44
opcode_byte loop = 45
opcode_byte call = 46
opcode_byte tail_call = 47
opcode_byte call_kw = 48
opcode_byte return = 49
opcode_byte closure = 50
opcode_byte close_upvalue = 51
opcode_byte make_array = 52
opcode_byte build_tuple = 53
opcode_byte make_dict = 54
opcode_byte index_get = 55
opcode_byte index_set = 56
opcode_byte array_append = 57
opcode_byte array_extend = 58
opcode_byte call_spread = 59
opcode_byte new_instance = 60
opcode_byte get_method = 61
opcode_byte super = 62
opcode_byte super_call = 63
opcode_byte get_iter = 64
opcode_byte get_dict_iter = 65
opcode_byte iter_next = 66
opcode_byte iter_has_next = 67
opcode_byte try_start = 68
opcode_byte try_end = 69
opcode_byte throw = 70
opcode_byte finally_start = 71
opcode_byte finally_end = 72
opcode_byte to_string = 73
opcode_byte print = 74
opcode_byte clock = 75
opcode_byte type_of = 76
opcode_byte is_instance_of = 77
opcode_byte op_await = 78
opcode_byte make_interface = 79
opcode_byte make_class = 80
opcode_byte breakpoint = 81
opcode_byte line = 82
opcode_byte has_global = 83
opcode_byte load_global_slot = 84
opcode_byte store_global_slot = 85
opcode_byte loop_less_eq_local = 86
opcode_byte loop_greater_eq_local = 87
opcode_byte intercepted_store_property = 88
opcode_byte ratelimit_check = 89
opcode_byte get_cached_result = 90
opcode_byte store_cached_result = 91
opcode_byte load_local_w = 92
opcode_byte store_local_w = 93
opcode_byte member_in = 94
opcode_byte add_local_local = 95
opcode_byte sub_local_local = 96
opcode_byte inc_local_by = 97
opcode_byte add_global_local = 98
opcode_byte print_str = 99
opcode_byte invoke_method = 100
opcode_byte end = 101

abbrev pub opcodes : List OpCode
opcodes =
    load_const ∷ load_local ∷ store_local ∷ load_upvalue ∷ store_upvalue ∷ load_global
    ∷ store_global ∷ load_property ∷ store_property ∷ pop ∷ dup ∷ dup2 ∷ load_nil ∷ load_true
    ∷ load_false ∷ load_zero ∷ load_one ∷ load_empty_str ∷ inc_local ∷ dec_local ∷ add ∷ sub ∷ mul
    ∷ div ∷ mod_op ∷ pow ∷ negate ∷ bit_and ∷ bit_or ∷ bit_xor ∷ bit_not ∷ shift_left ∷ shift_right
    ∷ equal ∷ not_equal ∷ less ∷ less_eq ∷ greater ∷ greater_eq ∷ not ∷ jump ∷ jump_if_false
    ∷ jump_if_true ∷ jump_if_nil ∷ jump_if_not_nil ∷ loop ∷ call ∷ tail_call ∷ call_kw ∷ return
    ∷ closure ∷ close_upvalue ∷ make_array ∷ build_tuple ∷ make_dict ∷ index_get ∷ index_set
    ∷ array_append ∷ array_extend ∷ call_spread ∷ new_instance ∷ get_method ∷ super ∷ super_call
    ∷ get_iter ∷ get_dict_iter ∷ iter_next ∷ iter_has_next ∷ try_start ∷ try_end ∷ throw
    ∷ finally_start ∷ finally_end ∷ to_string ∷ print ∷ clock ∷ type_of ∷ is_instance_of ∷ op_await
    ∷ make_interface ∷ make_class ∷ breakpoint ∷ line ∷ has_global ∷ load_global_slot
    ∷ store_global_slot ∷ loop_less_eq_local ∷ loop_greater_eq_local ∷ intercepted_store_property
    ∷ ratelimit_check ∷ get_cached_result ∷ store_cached_result ∷ load_local_w ∷ store_local_w
    ∷ member_in ∷ add_local_local ∷ sub_local_local ∷ inc_local_by ∷ add_global_local ∷ print_str
    ∷ invoke_method ∷ end ∷ []

-- `static_cast<OpCode>` of a byte: `none` past the enumeration.
unfoldable pub opcode_of : Byte → Option OpCode
opcode_of b = get_elem? opcodes b

-- By how much `disassembleInstruction` advances; `ups` is the number of upvalues of the function
-- that a CLOSURE instruction names, or `none` where no table of functions is given or the index is
-- outside it.
unfoldable pub disassembled_length : Option ℕ → OpCode → ℕ
disassembled_length ups load_const = 3
disassembled_length ups load_local = 2
disassembled_length ups store_local = 2
disassembled_length ups load_upvalue = 2
disassembled_length ups store_upvalue = 2
disassembled_length ups load_global = 3
disassembled_length ups store_global = 3
disassembled_length ups load_property = 3
disassembled_length ups store_property = 3
disassembled_length ups inc_local = 2
disassembled_length ups dec_local = 2
disassembled_length ups jump = 5
disassembled_length ups jump_if_false = 5
disassembled_length ups jump_if_true = 5
disassembled_length ups jump_if_nil = 5
disassembled_length ups jump_if_not_nil = 5
disassembled_length ups loop = 5
disassembled_length ups call = 2
disassembled_length ups tail_call = 2
disassembled_length ups call_kw = 2
disassembled_length ups close_upvalue = 2
disassembled_length ups make_array = 2
disassembled_length ups build_tuple = 2
disassembled_length ups make_dict = 2
disassembled_length ups new_instance = 4
disassembled_length ups get_method = 3
disassembled_length ups super_call = 4
disassembled_length ups iter_next = 5
disassembled_length ups try_start = 5
disassembled_length ups make_interface = 4
disassembled_length ups make_class = 6
disassembled_length ups line = 2
disassembled_length ups has_global = 3
disassembled_length ups load_global_slot = 3
disassembled_length ups store_global_slot = 3
disassembled_length ups loop_less_eq_local = 7
disassembled_length ups loop_greater_eq_local = 7
disassembled_length ups intercepted_store_property = 3
disassembled_length ups ratelimit_check = 3
disassembled_length ups get_cached_result = 3
disassembled_length ups store_cached_result = 3
disassembled_length ups load_local_w = 3
disassembled_length ups store_local_w = 3
disassembled_length ups add_local_local = 3
disassembled_length ups sub_local_local = 3
disassembled_length ups inc_local_by = 3
disassembled_length ups add_global_local = 4
disassembled_length ups invoke_method = 6
disassembled_length none closure = 3
disassembled_length (some ups) closure = 3 + 3 * ups
disassembled_length ups _ = 1

-- How many bytes the dispatch loop takes: the instruction and the operands that its handler reads
-- by `READ_BYTE`, `READ_SHORT` and `READ_INT`.
unfoldable pub executed_length : ℕ → OpCode → ℕ
executed_length ups load_const = 3
executed_length ups load_local = 2
executed_length ups store_local = 2
executed_length ups load_upvalue = 2
executed_length ups store_upvalue = 2
executed_length ups load_global = 3
executed_length ups store_global = 3
executed_length ups load_property = 5
executed_length ups store_property = 5
executed_length ups inc_local = 2
executed_length ups dec_local = 2
executed_length ups jump = 5
executed_length ups jump_if_false = 5
executed_length ups jump_if_true = 5
executed_length ups jump_if_nil = 5
executed_length ups jump_if_not_nil = 5
executed_length ups loop = 5
executed_length ups call = 2
executed_length ups tail_call = 2
executed_length ups call_kw = 2
executed_length ups close_upvalue = 2
executed_length ups make_array = 2
executed_length ups build_tuple = 2
executed_length ups make_dict = 2
executed_length ups new_instance = 4
executed_length ups get_method = 3
executed_length ups super_call = 4
executed_length ups iter_next = 5
executed_length ups try_start = 5
executed_length ups make_interface = 4
executed_length ups make_class = 6
executed_length ups line = 3
executed_length ups has_global = 3
executed_length ups load_global_slot = 3
executed_length ups store_global_slot = 3
executed_length ups loop_less_eq_local = 7
executed_length ups loop_greater_eq_local = 7
executed_length ups intercepted_store_property = 5
executed_length ups ratelimit_check = 3
executed_length ups get_cached_result = 3
executed_length ups store_cached_result = 3
executed_length ups load_local_w = 3
executed_length ups store_local_w = 3
executed_length ups add_local_local = 3
executed_length ups sub_local_local = 3
executed_length ups inc_local_by = 3
executed_length ups add_global_local = 4
executed_length ups invoke_method = 6
executed_length ups closure = 3 + 3 * ups
executed_length ups _ = 1
