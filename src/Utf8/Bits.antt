-- ===== src/Utf8/Bits.antt =====
-- The bit tests and masks of Utf8.h as arithmetic, checked for every byte.
use Prim.Native.Nat.{bit_and, bit_or}
use ez_language.Prelude.{
  ◌&&◌, ℕ, zero, suc, ◌+◌, ◌<◌, ◌≡◌, refl, Bool, true, arith, ltb, ◌==◌, ==_iff, if◌then◌else◌,
}
use ez_language.Bytes.{Byte}
use ez_language.Utf8.{seq_len}

-- A test of the numbers under a bound, from the bound down.
passes : (ℕ → Bool) → ℕ → Bool
passes test zero = true
passes test (suc bound) = test bound && passes test bound

passes-at : (test : ℕ → Bool) (bound i : ℕ) → i < bound → passes test bound ≡ true → test i ≡ true
unfolding passes
passes-at test zero i under all = absurd (omega arith)
passes-at test (suc bound) i under all = ground (arith, passes-at test bound i)

-- The length of a sequence by the range of its lead byte.
abbrev pub seq_len_range : Byte → ℕ
seq_len_range c =
    if ltb c 192
    then 1
    else if ltb c 224
    then 2
    else if ltb c 240
    then 3
    else if ltb c 248
    then 4
    else 1

seq_len_table : passes (λ c. seq_len c == seq_len_range c) 256 ≡ true
unfolding passes seq_len
seq_len_table = refl

pub seq_len_lem : (c : Byte) → c < 256 → seq_len c ≡ seq_len_range c
seq_len_lem c h = (==_iff _ _).0 (passes-at _ 256 c h seq_len_table)

or_table : (m n : ℕ) → Bool
or_table m n = passes (λ x. bit_or m x == m + x) n

or_lem : (m n x : ℕ) → or_table m n ≡ true → x < n → bit_or m x ≡ m + x
unfolding or_table
or_lem m n x t h = (==_iff _ _).0 (passes-at _ n x h t)

pub bit_or-80 : (x : ℕ) → x < 64 → bit_or 0x80 x ≡ 128 + x
unfolding or_table passes
bit_or-80 x h = or_lem 0x80 64 x refl h

pub bit_or-C0 : (x : ℕ) → x < 32 → bit_or 0xC0 x ≡ 192 + x
unfolding or_table passes
bit_or-C0 x h = or_lem 0xC0 32 x refl h

pub bit_or-E0 : (x : ℕ) → x < 16 → bit_or 0xE0 x ≡ 224 + x
unfolding or_table passes
bit_or-E0 x h = or_lem 0xE0 16 x refl h

pub bit_or-F0 : (x : ℕ) → x < 8 → bit_or 0xF0 x ≡ 240 + x
unfolding or_table passes
bit_or-F0 x h = or_lem 0xF0 8 x refl h

continue_table : passes (λ x. bit_and (128 + x) 0xC0 == 0x80) 64 ≡ true
unfolding passes
continue_table = refl

pub bit_and-continue : (x : ℕ) → x < 64 → bit_and (128 + x) 0xC0 ≡ 0x80
bit_and-continue x h = (==_iff _ _).0 (passes-at _ 64 x h continue_table)
