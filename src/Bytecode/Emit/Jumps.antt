-- ===== src/Bytecode/Emit/Jumps.antt =====
-- Jumps land where the compiler meant them to.
use ez_language.Prelude.{
  ℕ, suc, ◌+◌, ◌-◌, ◌^◌, ◌≤◌, ◌<◌, ◌≡◌, ◌⊎◌, ◌≢◌, ◌∙◌, ap, refl, sym, append_assoc, append-nil,
  Option, some, List, [], ◌∷◌, ◌++◌, arith, le→ltb_false, length, length-append, length-set, map,
  get_elem?, get_elem?-set_self, get_elem?-set_ne, set,
}
use Prim.Native.Nat.add
use ez_language.Bytes.{Byte}
use ez_language.Bytecode.Types.{Chunk}
use ez_language.Bytecode.OpCodes.{OpCode, opcode_byte}
use ez_language.Bytecode.Emit.{
  write_byte, write_op, write_bytes, size_sub, byte_of, patch_jump, write_loop, big_endian,
  read_int,
}

-- The four bytes of a 32-bit number, written over a list at `i`.
abbrev put_int : List Byte → ℕ → ℕ → List Byte
put_int l i n =
    set (set (set (set l i (byte_of 3 n)) (i + 1) (byte_of 2 n)) (i + 2) (byte_of 1 n)) (i + 3)
      (byte_of 0 n)

-- A read beside a write.
beside :
    (l : List Byte) (i j v : ℕ) {o : Option Byte}
    → i ≢ j
    → get_elem? l j ≡ o
    → get_elem? (set l i v) j ≡ o
beside l i j v ne e = get_elem?-set_ne l i j v ne ∙ e

read_int-put_int :
    (l : List Byte) (i n : ℕ) → i + 4 ≤ length l → n < 2 ^ 32 → read_int (put_int l i n) i ≡ some n
unfolding read_int big_endian
read_int-put_int l i n h k = rw (third, second, first, last, big_endian) (ap some (omega arith))
  where
    l₃ : List Byte
    l₃ = set l i (byte_of 3 n)

    l₂ : List Byte
    l₂ = set l₃ (i + 1) (byte_of 2 n)

    l₁ : List Byte
    l₁ = set l₂ (i + 2) (byte_of 1 n)

    l₀ : List Byte
    l₀ = set l₁ (i + 3) (byte_of 0 n)

    third : get_elem? l₀ i ≡ some (byte_of 3 n)
    third = beside l₁ _ i _ (omega arith) (
        beside l₂ _ i _ (omega arith)
          (beside l₃ _ i _ (omega arith) (get_elem?-set_self l i _ (omega arith))))

    second : get_elem? l₀ (i + 1) ≡ some (byte_of 2 n)
    second = beside l₁ _ (i + 1) _ (omega arith) (
        beside l₂ _ (i + 1) _ (omega arith)
          (get_elem?-set_self l₃ (i + 1) _ (omega (arith, length-set l i (byte_of 3 n)))))

    first : get_elem? l₀ (i + 2) ≡ some (byte_of 1 n)
    first = beside l₁ _ (i + 2) _ (omega arith) (
        get_elem?-set_self l₂ (i + 2) _
          (omega (arith, length-set l i (byte_of 3 n), length-set l₃ (i + 1) (byte_of 2 n))))

    last : get_elem? l₀ (i + 3) ≡ some (byte_of 0 n)
    last = get_elem?-set_self l₁ (i + 3) _ (
        omega (
          arith,
          length-set l i (byte_of 3 n),
          length-set l₃ (i + 1) (byte_of 2 n),
          length-set l₂ (i + 2) (byte_of 1 n),
        ))

put_int-beside :
    (l : List Byte) (i n j : ℕ)
    → (j < i) ⊎ (i + 4 ≤ j)
    → get_elem? (put_int l i n) j ≡ get_elem? l j
put_int-beside l i n j h = beside _ _ j _ (ground arith) (
    beside _ _ j _ (ground arith)
      (beside _ _ j _ (ground arith) (beside l _ j _ (ground arith) refl)))

length-put_int : (l : List Byte) (i n : ℕ) → length (put_int l i n) ≡ length l
length-put_int l i n =
    length-set _ (i + 3) (byte_of 0 n)
    ∙ length-set _ (i + 2) (byte_of 1 n)
    ∙ length-set _ (i + 1) (byte_of 2 n)
    ∙ length-set l i (byte_of 3 n)

module _ (chunk : Chunk) (offset : ℕ) (room : offset + 4 ≤ length chunk.code)
    (near : length chunk.code < offset + 4 + 2 ^ 32) (fits : length chunk.code < 2 ^ 64) where
  jump-eq : size_sub (size_sub (length chunk.code) offset) 4 ≡ length chunk.code - (offset + 4)
  jump-eq = omega arith

  -- For an operand of four bytes inside the code, at most 2 ^ 32 - 1 bytes before its end:
  -- `patchJump` makes the forward jump there land at the end of the code, keeps every byte outside
  -- the operand, and keeps the length, the lines and the constants.
  pub patch_jump_lem :
      (read_int (patch_jump offset chunk).code offset
        ≡ some (length (patch_jump offset chunk).code - (offset + 4)))
      × (length (patch_jump offset chunk).code ≡ length chunk.code)
      × ((i : ℕ)
          → (i < offset) ⊎ (offset + 4 ≤ i)
          → get_elem? (patch_jump offset chunk).code i ≡ get_elem? chunk.code i)
      × ((patch_jump offset chunk).lines ≡ chunk.lines)
      × ((patch_jump offset chunk).constants ≡ chunk.constants)
  unfolding patch_jump
  patch_jump_lem =
      rw (jump-eq, le→ltb_false 0xFFFF_FFFF (length chunk.code - (offset + 4)) (omega arith))
        (
          rw (length-put_int chunk.code offset (length chunk.code - (offset + 4)))
              (read_int-put_int chunk.code offset _ room (omega arith)),
          length-put_int chunk.code offset _,
          λ i h. put_int-beside chunk.code offset _ i h,
          refl,
          refl,
        )

read_int-cons : (b : Byte) (l : List Byte) (i : ℕ) → read_int (b ∷ l) (suc i) ≡ read_int l i
unfolding read_int
read_int-cons b l i = rw (add.suc i 1, add.suc i 2, add.suc i 3)

read_int-append_right :
    (xs ys : List Byte) (i : ℕ) → read_int (xs ++ ys) (length xs + i) ≡ read_int ys i
read_int-append_right [] ys i = rw add.zero
read_int-append_right (x ∷ xs) ys i =
    rw (add.suc (length xs) i, read_int-cons) (read_int-append_right xs ys i)

pub code-write_bytes :
    (bs : List Byte) (line : ℕ) (chunk : Chunk)
    → (write_bytes bs line chunk).code ≡ chunk.code ++ bs
unfolding write_bytes
code-write_bytes [] line chunk = sym (append-nil chunk.code)
code-write_bytes (b ∷ bs) line chunk =
    code-write_bytes bs line (write_byte b line chunk) ∙ append_assoc chunk.code (b ∷ []) bs

-- The four bytes of a 32-bit number behind an instruction byte.
abbrev int_bytes : ℕ → List Byte
int_bytes n = byte_of 3 n ∷ byte_of 2 n ∷ byte_of 1 n ∷ byte_of 0 n ∷ []

read_int-append :
    (l : List Byte) (op : Byte) (n : ℕ)
    → n < 2 ^ 32
    → read_int ((l ++ op ∷ []) ++ int_bytes n) (length l + 1) ≡ some n
unfolding read_int big_endian
read_int-append l op n h =
    rw (append_assoc l (op ∷ []) (int_bytes n))
      (read_int-append_right l (op ∷ int_bytes n) 1 ∙ ap some (omega arith))

lines-write_bytes :
    (bs : List Byte) (line : ℕ) (chunk : Chunk)
    → ((write_bytes bs line chunk).lines ≡ chunk.lines ++ map (λ b. line) bs)
      × ((write_bytes bs line chunk).constants ≡ chunk.constants)
unfolding write_bytes write_byte
lines-write_bytes [] line chunk = (sym (append-nil chunk.lines), refl)
lines-write_bytes (b ∷ bs) line chunk =
    let ih = lines-write_bytes bs line (write_byte b line chunk) in
    (ih.0 ∙ append_assoc chunk.lines (line ∷ []) (map (λ b. line) bs), ih.1)

write_loop_jump :
    (loop_start line : ℕ) (chunk : Chunk)
    → loop_start ≤ length chunk.code
    → length chunk.code + 5 < loop_start + 2 ^ 32
    → (read_int (write_loop loop_start line chunk).code (length chunk.code + 1)
        ≡ some (length (write_loop loop_start line chunk).code - loop_start))
      × (length (write_loop loop_start line chunk).code ≡ length chunk.code + 5)
unfolding write_loop write_op write_byte
write_loop_jump loop_start line chunk h k =
    let size : length (chunk.code ++ opcode_byte OpCode.loop ∷ []) ≡ length chunk.code + 1 =
      length-append chunk.code (opcode_byte OpCode.loop ∷ []) in
    let n : ℕ = length chunk.code + 1 - loop_start + 4 in
    let total : length ((chunk.code ++ opcode_byte OpCode.loop ∷ []) ++ int_bytes n)
        ≡ length chunk.code + 5 =
      omega
        (arith, length-append (chunk.code ++ opcode_byte OpCode.loop ∷ []) (int_bytes n), size) in
    let back : n ≡ length chunk.code + 5 - loop_start = omega arith in
    rw
      (
        size,
        le→ltb_false (length chunk.code + 1) loop_start (omega arith),
        le→ltb_false 0xFFFF_FFFF n (omega arith),
        code-write_bytes (int_bytes n) line (write_byte (opcode_byte OpCode.loop) line chunk),
        total,
      )
      (rw (← back) (read_int-append chunk.code (opcode_byte OpCode.loop) n (omega arith)), refl)

-- For a loop that starts inside the code, at most 2 ^ 32 - 6 bytes before its end: `writeLoop`
-- appends a LOOP instruction of five bytes to the code, which it keeps, as the constants and
-- the lines before; it has the given line five times; and the jump back that its operand says, taken
-- from behind the instruction, lands at the start of the loop.
pub write_loop_lem :
    (loop_start line : ℕ) (chunk : Chunk)
    → loop_start ≤ length chunk.code
    → length chunk.code + 5 < loop_start + 2 ^ 32
    → let after = write_loop loop_start line chunk in
      ((read_int after.code (length chunk.code + 1) ≡ some (length after.code - loop_start))
        × (length after.code ≡ length chunk.code + 5))
      × (((operand : List Byte) × (after.code ≡ chunk.code ++ opcode_byte OpCode.loop ∷ operand))
          × ((after.lines ≡ chunk.lines ++ line ∷ line ∷ line ∷ line ∷ line ∷ [])
              × (after.constants ≡ chunk.constants)))
unfolding write_loop write_op write_byte
write_loop_lem loop_start line chunk h k =
    let n : ℕ = length chunk.code + 1 - loop_start + 4 in
    let started : Chunk = write_byte (opcode_byte OpCode.loop) line chunk in
    let size : length (chunk.code ++ opcode_byte OpCode.loop ∷ []) ≡ length chunk.code + 1 =
      length-append chunk.code (opcode_byte OpCode.loop ∷ []) in
    let kept = lines-write_bytes (int_bytes n) line started in
    (
      write_loop_jump loop_start line chunk h k,
      rw
          (
            size,
            le→ltb_false (length chunk.code + 1) loop_start (omega arith),
            le→ltb_false 0xFFFF_FFFF n (omega arith),
          )
          (
            (
              int_bytes n,
              code-write_bytes (int_bytes n) line started
                  ∙ append_assoc chunk.code (opcode_byte OpCode.loop ∷ []) (int_bytes n),
            ),
            (
              kept.0 ∙ append_assoc chunk.lines (line ∷ []) (line ∷ line ∷ line ∷ line ∷ []),
              kept.1,
            ),
          ),
    )
