-- ===== src/Serializer/Stable.antt =====
-- Readers do not look beyond what they take: one that succeeds on a stream succeeds alike when the
-- stream goes on.
pub mod Files
use ez_language.Prelude.{
  ℕ, zero, suc, ◌≡◌, refl, String, Bool, true, false, List, [], ◌∷◌, ◌++◌, arith, if◌then◌else◌,
  ltb, Bool-cases, inl, inr, ◌==◌,
}
use ez_language.Bytes.{Byte, of_le}
use ez_language.Serializer.Reader.{
  Error, Reader, Result, ok, err, pure, throw, continue, ◌>>=◌, read_exact, read_pod, check_count,
  read_count, read_many,
}

pub record Stable {ℓ} {A : Type ℓ} (p : Reader A) : Type ℓ where
  pub extend :
      (xs ys : List Byte) {a : A} {r : List Byte}
      → p xs ≡ ok (a, r)
      → p (xs ++ ys) ≡ ok (a, r ++ ys)

-- Inversion of a bind that succeeds.
pub >>=-eq-ok {ℓ κ} :
    {A : Type ℓ} {B : Type κ} (m : Result (A × List Byte)) (f : A → Reader B) {b : B}
    {r : List Byte}
    → continue m f ≡ ok (b, r)
    → (a : A) × (rest : List Byte) × (m ≡ ok (a, rest)) × (f a rest ≡ ok (b, r))
unfolding continue
>>=-eq-ok (ok (a, rest)) f h = (a, rest, refl, h)
>>=-eq-ok (err e) f h = cc

module _ {ℓ} {A : Type ℓ} where
  pub Stable-pure : (a : A) → Stable (pure a)
  unfolding pure
  Stable-pure a = record { extend = λ xs ys h. ground arith }

  pub Stable-throw : (e : Error) → Stable (throw {A = A} e)
  unfolding throw
  Stable-throw e = record { extend = λ xs ys h. cc }

  pub Stable-bind {κ} :
      {B : Type κ} {p : Reader A} {f : A → Reader B}
      → Stable p
      → ((a : A) → Stable (f a))
      → Stable (p >>= f)
  unfolding ◌>>=◌
  Stable-bind {p = p} {f = f} s t = record {
    extend = λ xs ys h.
        let (a, rest, e, k) = >>=-eq-ok (p xs) f h in
        rw (s.extend xs ys e, continue) ((t a).extend rest ys k);
  }

  pub Stable-if : (b : Bool) {p q : Reader A} → Stable p → Stable q → Stable (if b then p else q)
  Stable-if true s t = s
  Stable-if false s t = t

module _ {ℓ} {A : Type ℓ} where
  pub Stable-many : (n : ℕ) {p : Reader A} → Stable p → Stable (read_many n p)
  unfolding read_many
  Stable-many zero s = Stable-pure []
  Stable-many (suc n) s = Stable-bind s λ a. Stable-bind (Stable-many n s) λ l. Stable-pure (a ∷ l)

exact_suc :
    (n : ℕ) (what : String)
    → Stable (read_exact n what)
    → (xs ys : List Byte) {a r : List Byte} → read_exact (suc n) what xs ≡ ok (a, r)
    → read_exact (suc n) what (xs ++ ys) ≡ ok (a, r ++ ys)
unfolding read_exact throw
exact_suc n what s [] ys h = cc
exact_suc n what s (b ∷ xs) ys h = (Stable-bind s λ bs. Stable-pure (b ∷ bs)).extend xs ys h

pub Stable-exact : (n : ℕ) (what : String) → Stable (read_exact n what)
unfolding read_exact pure
Stable-exact zero what = record { extend = λ xs ys h. ground arith }
Stable-exact (suc n) what = record { extend = exact_suc n what (Stable-exact n what) }

pub Stable-pod : (k : ℕ) (what : String) → Stable (read_pod k what)
unfolding read_pod
Stable-pod k what = Stable-bind (Stable-exact k what) λ bs. Stable-pure (of_le bs)

pub Stable-count : (what : String) → Stable (read_count what)
unfolding read_count check_count
Stable-count what =
    Stable-bind (Stable-pod 4 what) λ n. Stable-if _ (Stable-throw _) (Stable-pure n)
