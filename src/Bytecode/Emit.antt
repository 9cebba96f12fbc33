-- ===== src/Bytecode/Emit.antt =====
-- How the compiler appends to a chunk (`writeByte` to `writeLoop` of src/bytecode/Bytecode.cpp),
-- and how the dispatch loop reads the jumps back (src/vm/BytecodeVMExecute.cpp). A `size_t` wraps
-- at 2 ^ 64.
pub mod Jumps
use ez_language.Prelude.{
  ℕ, ◌+◌, ◌-◌, ◌*◌, ◌/◌, ◌%◌, ◌^◌, Option, none, some, List, [], ◌∷◌, ◌++◌, ltb, if◌then◌else◌,
  length, get_elem?, set,
}
use ez_language.Bytes.{Byte}
use ez_language.Bytecode.Types.{Chunk}
use ez_language.Bytecode.OpCodes.{OpCode, opcode_byte}

-- `writeByte` also returns the index of the byte.
unfoldable pub write_byte : Byte → ℕ → Chunk → Chunk
write_byte byte line chunk = record chunk {
  code = chunk.code ++ byte ∷ [];
  lines = chunk.lines ++ line ∷ [];
}

unfoldable pub write_op : OpCode → ℕ → Chunk → Chunk
unfolding write_byte
write_op op line chunk = write_byte (opcode_byte op) line chunk

-- `writeBytes` with a list for its two or three bytes.
unfoldable pub write_bytes : List Byte → ℕ → Chunk → Chunk
unfolding write_byte
write_bytes [] line chunk = chunk
write_bytes (b ∷ bs) line chunk = write_bytes bs line (write_byte b line chunk)

unfoldable pub write_jump : OpCode → ℕ → Chunk → Chunk
unfolding write_op write_bytes
write_jump op line chunk =
    write_bytes (0xFF ∷ 0xFF ∷ 0xFF ∷ 0xFF ∷ []) line (write_op op line chunk)

-- `x - y` on `size_t`.
abbrev pub size_sub : ℕ → ℕ → ℕ
size_sub x y = (x + 2 ^ 64 - y % 2 ^ 64) % 2 ^ 64

-- `(n >> 8 * k) & 0xFF`
abbrev pub byte_of : ℕ → ℕ → Byte
byte_of k n = n / 2 ^ (8 * k) % 256

unfoldable pub patch_jump : ℕ → Chunk → Chunk
patch_jump offset chunk =
    let jump = size_sub (size_sub (length chunk.code) offset) 4 in
    if ltb 0xFFFF_FFFF jump then chunk else record chunk {
      code =
          set
            (set (set (set chunk.code offset (byte_of 3 jump)) (offset + 1) (byte_of 2 jump))
              (offset + 2) (byte_of 1 jump))
            (offset + 3) (byte_of 0 jump);
    }

-- An offset that is too large is reported, and only the instruction byte stays written.
unfoldable pub write_loop : ℕ → ℕ → Chunk → Chunk
unfolding write_op write_bytes
write_loop loop_start line chunk =
    let started = write_op OpCode.loop line chunk in
    let offset = length started.code - loop_start + 4 in
    if ltb (length started.code) loop_start
    then started
    else if ltb 0xFFFF_FFFF offset
    then started
    else write_bytes
        (byte_of 3 offset ∷ byte_of 2 offset ∷ byte_of 1 offset ∷ byte_of 0 offset ∷ []) line
        started

unfoldable pub big_endian : Option Byte → Option Byte → Option Byte → Option Byte → Option ℕ
big_endian (some a) (some b) (some c) (some d) = some (a * 2 ^ 24 + b * 2 ^ 16 + c * 2 ^ 8 + d)
big_endian _ _ _ _ = none

-- `READ_INT` at the index `ip`; `none` where it would read outside the code.
unfoldable pub read_int : List Byte → ℕ → Option ℕ
read_int code ip =
    big_endian (get_elem? code ip) (get_elem? code (ip + 1)) (get_elem? code (ip + 2))
      (get_elem? code (ip + 3))
