-- ===== src/Bytes.antt =====
-- Machine words as little-endian bytes: what the streams of src/bytecode/serializer read and write
-- through `reinterpret_cast`. A byte is a native number below 256.
use native.Mathlib.Nat.{pow-suc}
use ez_language.Prelude.{
  ℕ, zero, suc, ◌+◌, ◌*◌, ◌/◌, ◌%◌, ◌^◌, ◌<◌, ◌≡◌, refl, List, [], ◌∷◌, arith, length,
}

abbrev pub Byte : Type 0
Byte = ℕ

-- The `k` low bytes of `v`, the lowest first.
unfoldable pub le_bytes : ℕ → ℕ → List Byte
le_bytes zero v = []
le_bytes (suc k) v = (v % 256) ∷ le_bytes k (v / 256)

unfoldable pub of_le : List Byte → ℕ
of_le [] = 0
of_le (b ∷ bs) = b + 256 * of_le bs

pub length-le_bytes : (k v : ℕ) → length (le_bytes k v) ≡ k
unfolding le_bytes
length-le_bytes zero v = refl
length-le_bytes (suc k) v = omega (arith, length-le_bytes k (v / 256))

pub of_le-le_bytes : (k v : ℕ) → v < 256 ^ k → of_le (le_bytes k v) ≡ v
unfolding le_bytes of_le
of_le-le_bytes zero v h = omega arith
of_le-le_bytes (suc k) v h =
    omega (arith, pow-suc 256 k, of_le-le_bytes k (v / 256) (omega (arith, pow-suc 256 k)))
