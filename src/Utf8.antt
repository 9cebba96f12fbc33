-- ===== src/Utf8.antt =====
-- src/runtime/Utf8.h. A string is the list of its bytes, and a position in it is the rest of the
-- string from there, so that advancing an index is `drop`. A shift by k is a division by 2 ^ k, a
-- mask of k ones is the remainder by 2 ^ k, and `cp << 6 | low` is `cp * 64 + low`, since the six
-- bits shifted in are zero. A `while` loop has fuel; each round takes a byte at least, so the length
-- of the string is enough.
pub mod Bits
pub mod Coding
mod Tests
use Prim.Native.Nat.{bit_and, bit_or}
use mathlib.Core.List.{reverse, flatten}
use ez_language.Prelude.{
  ℕ, zero, suc, ◌+◌, ◌-◌, ◌*◌, ◌/◌, ◌%◌, ◌^◌, Bool, true, false, not, ◌&&◌, ◌||◌, List, [], ◌∷◌,
  ◌++◌, ltb, leb, ◌==◌, if◌then◌else◌, length, take, drop,
}
use ez_language.Bytes.{Byte}

-- `seqLen`
unfoldable pub seq_len : Byte → ℕ
seq_len c =
    if ltb c 0x80
    then 1
    else if bit_and c 0xE0 == 0xC0
    then 2
    else if bit_and c 0xF0 == 0xE0
    then 3
    else if bit_and c 0xF8 == 0xF0
    then 4
    else 1

-- The loop of `validAt`: all are of the form 10xxxxxx.
unfoldable pub all_continue : List Byte → Bool
all_continue [] = true
all_continue (b ∷ s) = if bit_and b 0xC0 == 0x80 then all_continue s else false

-- `validAt`, at the front of a string that is not empty.
unfoldable pub valid_at : List Byte → ℕ → Bool
unfolding all_continue
valid_at [] n = false
valid_at (c ∷ s) n =
    if n == 1
    then ltb c 0x80 || seq_len c == 1
    else if ltb (length (c ∷ s)) n
    then false
    else all_continue (take (n - 1) s)

-- The bits that a lead byte of a sequence of `n` bytes carries.
unfoldable pub lead_bits : ℕ → Byte → ℕ
lead_bits n c = if n == 2 then c % 2 ^ 5 else if n == 3 then c % 2 ^ 4 else c % 2 ^ 3

unfoldable pub add_bits : ℕ → List Byte → ℕ
add_bits cp [] = cp
add_bits cp (b ∷ s) = add_bits (cp * 64 + b % 64) s

-- `decode`: the code point and the rest of the string. (No call is made at the end of a string.)
unfoldable pub decode : List Byte → ℕ × List Byte
unfolding seq_len valid_at lead_bits add_bits
decode [] = (0, [])
decode (c ∷ s) =
    let n = seq_len c in
    if n == 1 || not (valid_at (c ∷ s) n)
    then (c, s)
    else (add_bits (lead_bits n c) (take (n - 1) s), drop n (c ∷ s))

-- The bytes that `encode` appends for a code point in range.
unfoldable pub utf8_bytes : ℕ → List Byte
utf8_bytes cp =
    if ltb cp 0x80
    then cp ∷ []
    else if ltb cp 0x800
    then bit_or 0xC0 (cp / 2 ^ 6) ∷ bit_or 0x80 (cp % 64) ∷ []
    else if ltb cp 0x1_0000
    then bit_or 0xE0 (cp / 2 ^ 12) ∷ bit_or 0x80 (cp / 2 ^ 6 % 64) ∷ bit_or 0x80 (cp % 64) ∷ []
    else bit_or 0xF0 (cp / 2 ^ 18)
      ∷ bit_or 0x80 (cp / 2 ^ 12 % 64)
      ∷ bit_or 0x80 (cp / 2 ^ 6 % 64)
      ∷ bit_or 0x80 (cp % 64)
      ∷ []

-- `encode`: whether the code point is a Unicode scalar value, and the output with it appended.
unfoldable pub encode : ℕ → List Byte → Bool × List Byte
encode cp out =
    if ltb 0x10_FFFF cp
    then (false, out)
    else if leb 0xD800 cp && leb cp 0xDFFF
    then (false, out)
    else (true, out ++ utf8_bytes cp)

-- How many bytes the loops take for the character at the front of a string.
unfoldable pub char_len : List Byte → ℕ
unfolding seq_len valid_at
char_len [] = 1
char_len (c ∷ s) = if valid_at (c ∷ s) (seq_len c) then seq_len c else 1

-- The loop of `reverseChars` that records the characters.
unfoldable pub spans : ℕ → List Byte → List (List Byte)
unfolding char_len
spans zero s = []
spans (suc fuel) [] = []
spans (suc fuel) (c ∷ s) = let n = char_len (c ∷ s) in take n (c ∷ s) ∷ spans fuel (drop n (c ∷ s))

unfoldable pub reverse_chars : List Byte → List Byte
unfolding spans
reverse_chars s = flatten (reverse (spans (length s) s))

-- `lengthChars`
unfoldable pub count_chars : ℕ → List Byte → ℕ
unfolding char_len
count_chars zero s = 0
count_chars (suc fuel) [] = 0
count_chars (suc fuel) (c ∷ s) = suc (count_chars fuel (drop (char_len (c ∷ s)) (c ∷ s)))

unfoldable pub length_chars : List Byte → ℕ
unfolding count_chars
length_chars s = count_chars (length s) s

-- The loop of `charOffsetToByteOffset` with `k` characters to go: the bytes that it passes.
unfoldable pub bytes_passed : ℕ → ℕ → List Byte → ℕ
unfolding char_len
bytes_passed (suc fuel) (suc k) (c ∷ s) =
    char_len (c ∷ s) + bytes_passed fuel k (drop (char_len (c ∷ s)) (c ∷ s))
bytes_passed _ _ _ = 0

unfoldable pub char_offset_to_byte_offset : List Byte → ℕ → ℕ
unfolding bytes_passed
char_offset_to_byte_offset s char_index = bytes_passed (length s) char_index s

-- The loop of `byteOffsetToCharOffset` with `b` bytes to go up to the given offset: the characters
-- that it passes.
unfoldable pub chars_passed : ℕ → ℕ → List Byte → ℕ
unfolding char_len
chars_passed (suc fuel) (suc b) (c ∷ s) =
    suc (chars_passed fuel (suc b - char_len (c ∷ s)) (drop (char_len (c ∷ s)) (c ∷ s)))
chars_passed _ _ _ = 0

unfoldable pub byte_offset_to_char_offset : List Byte → ℕ → ℕ
unfolding chars_passed
byte_offset_to_char_offset s byte_index = chars_passed (length s) byte_index s

abbrev in_range : ℕ → ℕ → ℕ → Bool
in_range lo hi cp = leb lo cp && leb cp hi

-- `toUpperCP` and `toLowerCP`
unfoldable pub to_upper_cp : ℕ → ℕ
to_upper_cp cp =
    if in_range b'a' b'z' cp
    then cp - 32
    else if in_range 0xE0 0xF6 cp
    then cp - 32
    else if in_range 0xF8 0xFE cp
    then cp - 32
    else if cp == 0xFF
    then 0x178
    else if in_range 0x430 0x44F cp
    then cp - 32
    else cp

unfoldable pub to_lower_cp : ℕ → ℕ
to_lower_cp cp =
    if in_range b'A' b'Z' cp
    then cp + 32
    else if in_range 0xC0 0xD6 cp
    then cp + 32
    else if in_range 0xD8 0xDE cp
    then cp + 32
    else if cp == 0x178
    then 0xFF
    else if in_range 0x410 0x42F cp
    then cp + 32
    else cp

-- The loop of `upperChars` and `lowerChars`: decode, map, encode. A failure of `encode` is ignored.
unfoldable pub map_chars : (ℕ → ℕ) → ℕ → List Byte → List Byte → List Byte
unfolding decode encode
map_chars f zero s out = out
map_chars f (suc fuel) [] out = out
map_chars f (suc fuel) (c ∷ s) out =
    map_chars f fuel (decode (c ∷ s)).1 (encode (f (decode (c ∷ s)).0) out).1

unfoldable pub upper_chars : List Byte → List Byte
unfolding map_chars to_upper_cp
upper_chars s = map_chars to_upper_cp (length s) s []

unfoldable pub lower_chars : List Byte → List Byte
unfolding map_chars to_lower_cp
lower_chars s = map_chars to_lower_cp (length s) s []
