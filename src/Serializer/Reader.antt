-- ===== src/Serializer/Reader.antt =====
-- Readers over a stream, which is the list of bytes that are left, and the three primitives of the
-- anonymous namespace of BytecodeSerializer.cpp: `readExact`, `readPod` and `readCount`.
use ez_language.Prelude.{ℕ, zero, suc, String, List, [], ◌∷◌, ltb, if◌then◌else◌}
use ez_language.Bytes.{Byte, of_le}

-- The exceptions that the reading code throws.
pub data Error : Type 0 where
  truncated implausible : String → Error
  unknown_tag too_deep too_short old_format not_ezc : Error

pub data Result {ℓ} (A : Type ℓ) : Type ℓ where
  ok : A → Result A
  err : Error → Result A

abbrev pub Reader {ℓ} : Type ℓ → Type ℓ
Reader A = List Byte → Result (A × List Byte)

unfoldable pub pure {ℓ} : {A : Type ℓ} → A → Reader A
pure a ts = ok (a, ts)

unfoldable pub throw {ℓ} : {A : Type ℓ} → Error → Reader A
throw e ts = err e

unfoldable pub continue {ℓ κ} :
    {A : Type ℓ} {B : Type κ} → Result (A × List Byte) → (A → Reader B) → Result (B × List Byte)
continue (ok (a, ts)) f = f a ts
continue (err e) f = err e

infixl 1 ◌>>=◌ ◌>>◌
unfoldable pub ◌>>=◌ {ℓ κ} : {A : Type ℓ} {B : Type κ} → Reader A → (A → Reader B) → Reader B
unfolding continue
◌>>=◌ p f ts = continue (p ts) f

abbrev pub ◌>>◌ {ℓ} : {B : Type ℓ} → Reader (Unit {0}) → Reader B → Reader B
p >> q = p >>= λ _. q

-- `EZC_MAX_COUNT` and `EZC_MAX_NEST_DEPTH`
abbrev pub ezc_max_count : ℕ
ezc_max_count = 67_108_864

abbrev pub ezc_max_nest_depth : ℕ
ezc_max_nest_depth = 512

-- `readExact`: the next `n` bytes.
unfoldable pub read_exact : ℕ → String → Reader (List Byte)
read_exact zero what ts = pure [] ts
read_exact (suc n) what [] = throw (truncated what) []
read_exact (suc n) what (b ∷ ts) = (read_exact n what >>= λ bs. pure (b ∷ bs)) ts

-- `readPod` at an unsigned type of `k` bytes.
unfoldable pub read_pod : ℕ → String → Reader ℕ
read_pod k what = read_exact k what >>= λ bs. pure (of_le bs)

unfoldable pub check_count : ℕ → String → Reader ℕ
check_count n what = if ltb ezc_max_count n then throw (implausible what) else pure n

unfoldable pub read_count : String → Reader ℕ
read_count what = read_pod 4 what >>= λ n. check_count n what

-- A loop of `n` rounds that reads one item in each.
unfoldable pub read_many {ℓ} : {A : Type ℓ} → ℕ → Reader A → Reader (List A)
read_many zero p = pure []
read_many (suc n) p = do a ← p; as' ← read_many n p; pure (a ∷ as')
