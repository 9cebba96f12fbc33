-- ===== src/Serializer/Reads.antt =====
-- What it means that a reader reads a value off the front of a stream, with a rule for each
-- primitive of Reader.antt.
use native.Mathlib.Nat.{mod-eq_of_lt}
use ez_language.Prelude.{
  ℕ, ◌<◌, ◌≤◌, ◌^◌, ◌≡◌, refl, String, List, [], ◌∷◌, ◌++◌, append_assoc, append-nil, arith,
  le→ltb_false, length, All,
}
use ez_language.Bytes.{Byte, le_bytes, of_le, length-le_bytes, of_le-le_bytes}
use ez_language.Serializer.Reader.{
  Reader, ok, pure, continue, ◌>>=◌, ezc_max_count, read_exact, read_pod, check_count, read_count,
  read_many,
}
use ez_language.Serializer.Write.{write_u32, write_u64, write_all}

-- `p` takes exactly `bytes` off any stream that begins with them, and gives `a`.
pub record Reads {ℓ} {A : Type ℓ} (p : Reader A) (bytes : List Byte) (a : A) : Type ℓ where
  pub on : (rest : List Byte) → p (bytes ++ rest) ≡ ok (a, rest)

module _ {ℓ} {A : Type ℓ} where
  pub Reads-pure : (a : A) → Reads (pure a) [] a
  unfolding pure
  Reads-pure a = record { on = λ rest. refl }

  pub Reads-bind {κ} :
      {B : Type κ} {p : Reader A} (f : A → Reader B) {xs ys : List Byte} {a : A} {b : B}
      → Reads p xs a
      → Reads (f a) ys b
      → Reads (p >>= f) (xs ++ ys) b
  unfolding ◌>>=◌ continue
  Reads-bind f {xs = xs} {ys = ys} h k = record {
    on = λ rest. rw (append_assoc xs ys rest, h.on (ys ++ rest)) (k.on rest);
  }

  -- The last step of a reader: it takes no more bytes.
  pub Reads-map {κ} :
      {B : Type κ} {p : Reader A} (f : A → B) {xs : List Byte} {a : A}
      → Reads p xs a
      → Reads (p >>= λ x. pure (f x)) xs (f a)
  unfolding ◌>>=◌ continue pure
  Reads-map f {xs = xs} h = record { on = λ rest. rw (h.on rest) }

  -- A step that takes no byte.
  pub Reads-then {κ} :
      {B : Type κ} {p : Reader A} (f : A → Reader B) {xs : List Byte} {a : A} {b : B}
      → Reads p [] a
      → Reads (f a) xs b
      → Reads (p >>= f) xs b
  Reads-then f h k = Reads-bind f h k

module _ {ℓ} {A : Type ℓ} where
  pub Reads-many :
      (p : Reader A) (w : A → List Byte) (P : A → Type 0)
      → ((a : A) → P a → Reads p (w a) a)
      → (l : List A) → All P l
      → Reads (read_many (length l) p) (write_all w l) l
  unfolding read_many write_all
  Reads-many p w P each [] h = Reads-pure []
  Reads-many p w P each (a ∷ l) (h, hs) =
      Reads-bind _ (each a h) (Reads-map (λ l. a ∷ l) (Reads-many p w P each l hs))

pub Reads-exact : (s : List Byte) (what : String) → Reads (read_exact (length s) what) s s
unfolding read_exact pure ◌>>=◌ continue
Reads-exact [] what = record { on = λ rest. refl }
Reads-exact (b ∷ s) what = record { on = λ rest. rw ((Reads-exact s what).on rest) }

pub Reads-pod : (k v : ℕ) (what : String) → v < 256 ^ k → Reads (read_pod k what) (le_bytes k v) v
unfolding read_pod
Reads-pod k v what h = rw (of_le-le_bytes k v h) at (Reads-map of_le bytes)
  where
    bytes : Reads (read_exact k what) (le_bytes k v) (le_bytes k v)
    bytes = rw (length-le_bytes k v) at (Reads-exact (le_bytes k v) what)

pub Reads-u32 : (v : ℕ) (what : String) → v < 2 ^ 32 → Reads (read_pod 4 what) (write_u32 v) v
unfolding write_u32
Reads-u32 v what h = rw (mod-eq_of_lt h) (Reads-pod 4 v what h)

pub Reads-u64 : (v : ℕ) (what : String) → v < 2 ^ 64 → Reads (read_pod 8 what) (write_u64 v) v
unfolding write_u64
Reads-u64 v what h = Reads-pod 8 v what h

pub Reads-byte : (b : Byte) (what : String) → b < 256 → Reads (read_pod 1 what) (b ∷ []) b
unfolding le_bytes
Reads-byte b what h = rw (mod-eq_of_lt h) at (Reads-pod 1 b what h)

pub Reads-count :
    (n : ℕ) (what : String) → n ≤ ezc_max_count → Reads (read_count what) (write_u32 n) n
unfolding read_count check_count
Reads-count n what h =
    rw (← append-nil (write_u32 n))
      (Reads-bind _ (Reads-u32 n what (omega arith)) (rw (le→ltb_false _ _ h) (Reads-pure n)))
