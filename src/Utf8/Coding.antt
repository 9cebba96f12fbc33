-- ===== src/Utf8/Coding.antt =====
-- Encoding and decoding of single code points.
use ez_language.Prelude.{
  ap, ◌∙◌, ℕ, ◌+◌, ◌*◌, ◌/◌, ◌%◌, ◌^◌, ◌<◌, ◌≤◌, ◌≡◌, ◌⊎◌, inl, inr, true, false, List, [], ◌∷◌,
  ◌++◌, arith, ltb, leb, ◌&&◌, lt→ltb, le→ltb_false, if◌then◌else◌, Bool-cases, length, ltb→lt,
  ltb_false→le,
}
use ez_language.Bytes.{Byte}
use ez_language.Utf8.{seq_len, decode, utf8_bytes, encode}
use ez_language.Utf8.Bits.{
  seq_len_lem, bit_or-80, bit_or-C0, bit_or-E0, bit_or-F0, bit_and-continue,
}

-- A Unicode scalar value.
abbrev pub IsScalar : ℕ → Type 0
IsScalar cp = (cp ≤ 0x10_FFFF) × ((cp < 0xD800) ⊎ (0xDFFF < cp))

-- The bytes of a code point in plain arithmetic.
abbrev pub plain : ℕ → List Byte
plain cp =
    if ltb cp 0x80
    then cp ∷ []
    else if ltb cp 0x800
    then (192 + cp / 2 ^ 6) ∷ (128 + cp % 64) ∷ []
    else if ltb cp 0x1_0000
    then (224 + cp / 2 ^ 12) ∷ (128 + cp / 2 ^ 6 % 64) ∷ (128 + cp % 64) ∷ []
    else (240 + cp / 2 ^ 18)
      ∷ (128 + cp / 2 ^ 12 % 64)
      ∷ (128 + cp / 2 ^ 6 % 64)
      ∷ (128 + cp % 64)
      ∷ []

pub utf8_bytes-plain : (cp : ℕ) → cp ≤ 0x10_FFFF → utf8_bytes cp ≡ plain cp
unfolding utf8_bytes
utf8_bytes-plain cp h = ground (
  arith,
  bit_or-80 (cp % 64) (omega arith),
  bit_or-80 (cp / 64 % 64) (omega arith),
  bit_or-80 (cp / 4096 % 64) (omega arith),
  bit_or-C0 (cp / 64),
  bit_or-E0 (cp / 4096),
  bit_or-F0 (cp / 262144) (omega arith),
)

-- A sequence that starts with a lead byte and goes on with enough continuation bytes.
seq_two : (a : ℕ) → a < 32 → seq_len (192 + a) ≡ 2
seq_two a h = ground (arith, seq_len_lem (192 + a) (omega arith))

seq_three : (a : ℕ) → a < 16 → seq_len (224 + a) ≡ 3
seq_three a h = ground (arith, seq_len_lem (224 + a) (omega arith))

seq_four : (a : ℕ) → a < 8 → seq_len (240 + a) ≡ 4
seq_four a h = ground (arith, seq_len_lem (240 + a) (omega arith))

decode_two :
    (a b : ℕ) (rest : List Byte)
    → a < 32
    → b < 64
    → decode ((192 + a) ∷ (128 + b) ∷ rest) ≡ (a * 64 + b, rest)
unfolding decode
decode_two a b rest ha hb =
    rw
      (
        seq_two a ha,
        le→ltb_false (length ((192 + a) ∷ (128 + b) ∷ rest)) 2 (omega arith),
        bit_and-continue b hb,
      )
      (ap (λ n. (n, rest)) (omega arith))

decode_three :
    (a b c : ℕ) (rest : List Byte)
    → a < 16
    → b < 64
    → c < 64
    → decode ((224 + a) ∷ (128 + b) ∷ (128 + c) ∷ rest) ≡ ((a * 64 + b) * 64 + c, rest)
unfolding decode
decode_three a b c rest ha hb hc =
    rw
      (
        seq_three a ha,
        le→ltb_false (length ((224 + a) ∷ (128 + b) ∷ (128 + c) ∷ rest)) 3 (omega arith),
        bit_and-continue b hb,
        bit_and-continue c hc,
      )
      (ap (λ n. (n, rest)) (omega arith))

decode_four :
    (a b c d : ℕ) (rest : List Byte)
    → a < 8
    → b < 64
    → c < 64
    → d < 64
    → decode ((240 + a) ∷ (128 + b) ∷ (128 + c) ∷ (128 + d) ∷ rest)
      ≡ (((a * 64 + b) * 64 + c) * 64 + d, rest)
unfolding decode
decode_four a b c d rest ha hb hc hd =
    rw
      (
        seq_four a ha,
        le→ltb_false (length ((240 + a) ∷ (128 + b) ∷ (128 + c) ∷ (128 + d) ∷ rest)) 4
            (omega arith),
        bit_and-continue b hb,
        bit_and-continue c hc,
        bit_and-continue d hd,
      )
      (ap (λ n. (n, rest)) (omega arith))

decode_one : (a : ℕ) (rest : List Byte) → a < 128 → decode (a ∷ rest) ≡ (a, rest)
unfolding decode
decode_one a rest h = rw (seq_len_lem a (omega arith), lt→ltb a 192 (omega arith))

pair_fst : (a b : ℕ) (rest : List Byte) → a ≡ b → ◌≡◌ {A = ℕ × List Byte} (a, rest) (b, rest)
pair_fst a b rest e = ap (λ n. (n, rest)) e

case_two :
    (cp : ℕ) (rest : List Byte)
    → cp < 0x800
    → decode ((192 + cp / 64) ∷ (128 + cp % 64) ∷ rest) ≡ (cp, rest)
case_two cp rest h =
    decode_two (cp / 64) (cp % 64) rest (omega arith) (omega arith)
    ∙ pair_fst (cp / 64 * 64 + cp % 64) cp rest (omega arith)

case_three :
    (cp : ℕ) (rest : List Byte)
    → cp < 0x1_0000
    → decode ((224 + cp / 4096) ∷ (128 + cp / 64 % 64) ∷ (128 + cp % 64) ∷ rest) ≡ (cp, rest)
case_three cp rest h =
    decode_three (cp / 4096) (cp / 64 % 64) (cp % 64) rest (omega arith) (omega arith) (omega arith)
    ∙ pair_fst ((cp / 4096 * 64 + cp / 64 % 64) * 64 + cp % 64) cp rest (omega arith)

case_four :
    (cp : ℕ) (rest : List Byte)
    → cp ≤ 0x10_FFFF
    → decode (
        (240 + cp / 262144)
        ∷ (128 + cp / 4096 % 64)
        ∷ (128 + cp / 64 % 64)
        ∷ (128 + cp % 64)
        ∷ rest)
      ≡ (cp, rest)
case_four cp rest h =
    decode_four (cp / 262144) (cp / 4096 % 64) (cp / 64 % 64) (cp % 64) rest (omega arith)
      (omega arith) (omega arith) (omega arith)
    ∙ pair_fst (((cp / 262144 * 64 + cp / 4096 % 64) * 64 + cp / 64 % 64) * 64 + cp % 64) cp rest
        (omega arith)

decode-plain : (cp : ℕ) (rest : List Byte) → cp ≤ 0x10_FFFF → decode (plain cp ++ rest) ≡ (cp, rest)
decode-plain cp rest h = elim (Bool-cases (ltb cp 0x80)) [
  | inl l ↦ rw (l) (decode_one cp rest (ltb→lt _ _ l))
  | inr l ↦ elim (Bool-cases (ltb cp 0x800)) [
    | inl m ↦ rw (l, m) (case_two cp rest (ltb→lt _ _ m))
    | inr m ↦ elim (Bool-cases (ltb cp 0x1_0000)) [
      | inl n ↦ rw (l, m, n) (case_three cp rest (ltb→lt _ _ n))
      | inr n ↦ rw (l, m, n) (case_four cp rest h)
    ]
  ]
]

-- A code point that encode accepts is read back from the front of what it wrote, and the rest of
-- the string is left.
pub decode-utf8_bytes :
    (cp : ℕ) (rest : List Byte) → cp ≤ 0x10_FFFF → decode (utf8_bytes cp ++ rest) ≡ (cp, rest)
decode-utf8_bytes cp rest h = rw (utf8_bytes-plain cp h) (decode-plain cp rest h)

-- encode accepts a number exactly when it is a Unicode scalar value, and then what it has appended
-- to the output is decoded to that number, with any string behind it left over; otherwise the
-- output is unchanged.
pub decode-encode :
    (cp : ℕ) (out rest : List Byte)
    → (IsScalar cp
        × ((bytes : List Byte) × ((encode cp out ≡ (true, out ++ bytes))
              × (decode (bytes ++ rest) ≡ (cp, rest)))))
      ⊎ (((0x10_FFFF < cp) ⊎ ((0xD800 ≤ cp) × (cp ≤ 0xDFFF))) × (encode cp out ≡ (false, out)))
unfolding encode
decode-encode cp out rest = elim (Bool-cases (ltb 0x10_FFFF cp)) [
  | inl l ↦ inr (inl (ltb→lt _ _ l), rw (l))
  | inr l ↦ elim (Bool-cases (leb 0xD800 cp && leb cp 0xDFFF)) [
    | inl m ↦ inr (inr (ground arith), rw (l, m))
    | inr m ↦ inl (
      (ground arith, ground arith),
      (utf8_bytes cp, (rw (l, m), decode-utf8_bytes cp rest (ltb_false→le _ _ l))),
    )
  ]
]
