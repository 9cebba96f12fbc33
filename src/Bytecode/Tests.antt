-- ===== src/Bytecode/Tests.antt =====
-- Small chunks, and the theorems of the folder at them.
use ez_language.Bytes.{Byte}
use ez_language.Bytecode.Types.{CallSiteInfo}
use ez_language.Bytecode.OpCodes.{opcodes}
use ez_language.Bytecode.OpCodes.Names.{opcode_name, named, named-opcode_name}
use ez_language.Prelude.{◌*◌, ap, sym, suc, zero}
use mathlib.Core.Option.{none-ne-some, some_inj}
use ez_language.Bytecode.CallSites.{callee_name_at}
use ez_language.Bytecode.CallSites.Search.{first_at, IsSorted, callee_name_at-first_at}
use ez_language.Prelude.{
  ℕ, ◌+◌, ◌-◌, ◌<◌, ◌≤◌, ◌≡◌, ◌⊎◌, refl, not, ◌&&◌, ◌||◌, none, some, ◌++◌, List, [], ◌∷◌, arith,
  length, get_elem?, ◌==◌,
}
use ez_language.Bytecode.Types.{Constant, Chunk, empty_chunk}
use ez_language.Bytecode.Pool.{pool_add, add_constant, get_constant}
use ez_language.Bytecode.Pool.Reuse.{
  Same, get_constant-add_constant, StandsOnce, pool_add-StandsOnce,
}
use ez_language.Bytecode.OpCodes.{OpCode, opcode_byte, disassembled_length, executed_length}
use ez_language.Bytecode.OpCodes.Coding.{is_misread, is_closure, disassembled_length_exact}
use ez_language.Bytecode.Emit.{write_op, write_jump, patch_jump, write_loop, read_int}
use ez_language.Bytecode.Emit.Jumps.{patch_jump_lem, write_loop_lem}

-- 7, 0.0 and "a"
abbrev pool : List Constant
pool = Constant.int 7 ∷ Constant.double 0 ∷ Constant.string (b'a' ∷ []) ∷ []

abbrev pooled : Chunk
pooled = record empty_chunk { constants = pool }

-- The pattern of -0.0.
abbrev minus_zero : Constant
minus_zero = Constant.double 0x8000_0000_0000_0000

reused : pool_add (Constant.string (b'a' ∷ [])) pool ≡ (2, pool)
unfolding pool_add
reused = refl

-- -0.0 is given the index of 0.0.
sign_lost :
    get_constant (add_constant minus_zero pooled).1 (add_constant minus_zero pooled).0
    ≡ Constant.double 0
unfolding get_constant add_constant
sign_lost = refl

get_constant-add_constant_example :
    Same
      (get_constant (add_constant minus_zero pooled).1 (add_constant minus_zero pooled).0)
      minus_zero
    × ((i : ℕ) → i < 3 → get_constant (add_constant minus_zero pooled).1 i ≡ get_constant pooled i)
get_constant-add_constant_example = get_constant-add_constant minus_zero pooled

pool_once : StandsOnce pool
pool_once c zero zero k e f = refl
pool_once c (suc zero) (suc zero) k e f = refl
pool_once c (suc (suc zero)) (suc (suc zero)) k e f = refl
pool_once c zero (suc zero) k e f = cc
pool_once c zero (suc (suc zero)) k e f = cc
pool_once c (suc zero) zero k e f = cc
pool_once c (suc zero) (suc (suc zero)) k e f = cc
pool_once c (suc (suc zero)) zero k e f = cc
pool_once c (suc (suc zero)) (suc zero) k e f = cc
pool_once c (suc (suc (suc i))) j k e f = absurd (none-ne-some c e)
pool_once c i (suc (suc (suc j))) k e f = absurd (none-ne-some c f)

pool_add-StandsOnce_example : StandsOnce (pool_add minus_zero pool).1
pool_add-StandsOnce_example = pool_add-StandsOnce minus_zero pool pool_once

disassembled_length_exact_example :
    ((disassembled_length (some 2) OpCode.closure == executed_length 2 OpCode.closure)
      ≡ not (is_misread OpCode.closure))
    × ((disassembled_length none OpCode.closure == executed_length 2 OpCode.closure)
        ≡ not (is_misread OpCode.closure || (is_closure OpCode.closure && not (2 == 0))))
disassembled_length_exact_example = disassembled_length_exact 2 OpCode.closure

-- A jump over two instructions.
abbrev jumping : Chunk
jumping = write_op OpCode.pop 3 (write_op OpCode.dup 3 (write_jump OpCode.jump 2 empty_chunk))

jumping_code :
    (patch_jump 1 jumping).code
    ≡ opcode_byte OpCode.jump ∷ 0 ∷ 0 ∷ 0 ∷ 2 ∷ opcode_byte OpCode.dup ∷ opcode_byte OpCode.pop ∷ []
unfolding patch_jump write_jump
jumping_code = refl

patch_jump_lem_example :
    (read_int (patch_jump 1 jumping).code 1 ≡ some (length (patch_jump 1 jumping).code - 5))
    × (length (patch_jump 1 jumping).code ≡ length jumping.code)
    × ((i : ℕ)
        → (i < 1) ⊎ (5 ≤ i)
        → get_elem? (patch_jump 1 jumping).code i ≡ get_elem? jumping.code i)
    × ((patch_jump 1 jumping).lines ≡ jumping.lines)
    × ((patch_jump 1 jumping).constants ≡ jumping.constants)
unfolding write_jump
patch_jump_lem_example = patch_jump_lem jumping 1 (omega arith) (omega arith) (omega arith)

write_loop_lem_example :
    let after = write_loop 1 9 jumping in
    ((read_int after.code (length jumping.code + 1) ≡ some (length after.code - 1))
      × (length after.code ≡ length jumping.code + 5))
    × (((operand : List Byte) × (after.code ≡ jumping.code ++ opcode_byte OpCode.loop ∷ operand))
        × ((after.lines ≡ jumping.lines ++ 9 ∷ 9 ∷ 9 ∷ 9 ∷ 9 ∷ [])
            × (after.constants ≡ jumping.constants)))
unfolding write_jump
write_loop_lem_example = write_loop_lem 1 9 jumping (omega arith) (omega arith)

abbrev two_sites : List CallSiteInfo
two_sites = record { offset = 3; name = b'f' ∷ [] } ∷ record { offset = 7; name = b'g' ∷ [] } ∷ []

offset_at : (i : ℕ) (c : CallSiteInfo) → get_elem? two_sites i ≡ some c → c.offset ≡ 3 + 4 * i
offset_at zero c h = ap (λ d. d.offset) (sym (some_inj.0 h))
offset_at (suc zero) c h = ap (λ d. d.offset) (sym (some_inj.0 h))
offset_at (suc (suc i)) c h = absurd (none-ne-some c h)

two_sites-IsSorted : IsSorted two_sites
two_sites-IsSorted i j a b h g k = omega (arith, offset_at i a g, offset_at j b k)

g_called : callee_name_at 7 two_sites ≡ some (b'g' ∷ [])
unfolding callee_name_at
g_called = refl

callee_name_at-first_at_example : callee_name_at 5 two_sites ≡ first_at 5 two_sites
callee_name_at-first_at_example = callee_name_at-first_at 5 two_sites two_sites-IsSorted

named-opcode_name_example : named (opcode_name OpCode.add) opcodes ≡ some OpCode.add
named-opcode_name_example = named-opcode_name OpCode.add
