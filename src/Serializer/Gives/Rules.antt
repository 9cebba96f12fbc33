-- ===== src/Serializer/Gives/Rules.antt =====
-- A rule for each primitive of Reader.antt.
use native.Mathlib.Nat.{pow-suc}
use ez_language.Prelude.{
  ℕ, zero, suc, ◌^◌, ◌<◌, ◌≤◌, ◌≡◌, refl, ap, subst, String, Bool, true, false, List, [], ◌∷◌,
  arith, ltb, ltb_false→le, if◌then◌else◌, length, All,
}
use ez_language.Bytes.{Byte, of_le}
use ez_language.Serializer.Reader.{
  Error, Reader, Result, ok, pure, throw, ◌>>=◌, ezc_max_count, read_exact, read_pod, check_count,
  read_count, read_many,
}
use ez_language.Serializer.Stable.{>>=-eq-ok}

abbrev pub IsByte : ℕ → Type 0
IsByte b = b < 256

-- On bytes, `p` gives a value of which `P` holds, and leaves bytes.
pub record Gives {ℓ κ} {A : Type ℓ} (P : A → Type κ) (p : Reader A) : Type (ℓ ⊔ κ) where
  pub on :
      (xs : List Byte) {a : A} {r : List Byte}
      → All IsByte xs
      → p xs ≡ ok (a, r)
      → P a × All IsByte r

ok-injective {ℓ} :
    {A : Type ℓ} (a : A) (xs : List Byte) {b : A} {ys : List Byte}
    → ◌≡◌ {A = Result (A × List Byte)} (ok (a, xs)) (ok (b, ys))
    → (a ≡ b) × (xs ≡ ys)
ok-injective a xs e = (cc, cc)

module _ {ℓ κ} {A : Type ℓ} {P : A → Type κ} where
  pub Gives-pure : (a : A) → P a → Gives P (pure a)
  unfolding pure
  Gives-pure a h = record {
    on = λ xs bs e. let (p, q) = ok-injective a xs e in (subst P p h, subst (All IsByte) q bs);
  }

  pub Gives-throw : (e : Error) → Gives P (throw e)
  unfolding throw
  Gives-throw e = record { on = λ xs bs h. cc }

  pub Gives-bind {ℓ' κ'} :
      {B : Type ℓ'} {Q : B → Type κ'} {p : Reader A} {f : A → Reader B}
      → Gives P p
      → ((a : A) → P a → Gives Q (f a))
      → Gives Q (p >>= f)
  unfolding ◌>>=◌
  Gives-bind {p = p} {f = f} s t = record {
    on = λ xs bs h.
        let (a, rest, e, k) = >>=-eq-ok (p xs) f h in
        let (pa, left) = s.on xs bs e in (t a pa).on rest left k;
  }

  pub weaken {κ'} : {Q : A → Type κ'} {p : Reader A} → Gives P p → ((a : A) → P a → Q a) → Gives Q p
  weaken s k = record { on = λ xs bs h. let (pa, left) = s.on xs bs h in (k _ pa, left) }

  pub Gives-if :
      (b : Bool) {p q : Reader A}
      → (b ≡ true → Gives P p)
      → (b ≡ false → Gives P q)
      → Gives P (if b then p else q)
  Gives-if true s t = s refl
  Gives-if false s t = t refl

module _ {ℓ κ} {A : Type ℓ} {P : A → Type κ} where
  -- A loop gives as many items as it has rounds.
  pub Gives-many :
      (n : ℕ) {p : Reader A} → Gives P p → Gives (λ l. All P l × (length l ≡ n)) (read_many n p)
  unfolding read_many
  Gives-many zero s = Gives-pure [] (tt, refl)
  Gives-many (suc n) s =
      Gives-bind s
        λ a pa. Gives-bind (Gives-many n s) λ l (h, e). Gives-pure (a ∷ l) ((pa, h), ap suc e)

abbrev pub IsBlock : ℕ → List Byte → Type 0
IsBlock n bs = All IsByte bs × (length bs ≡ n)

exact_suc :
    (n : ℕ) (what : String)
    → Gives (IsBlock n) (read_exact n what)
    → (xs : List Byte) {a r : List Byte} → All IsByte xs
    → read_exact (suc n) what xs ≡ ok (a, r)
    → IsBlock (suc n) a × All IsByte r
unfolding read_exact throw
exact_suc n what s [] bs h = cc
exact_suc n what s (b ∷ xs) (hb, bs) h =
    (Gives-bind {Q = IsBlock (suc n)} s λ l (hl, e). Gives-pure (b ∷ l) ((hb, hl), ap suc e)).on xs
      bs h

pub Gives-exact : (n : ℕ) (what : String) → Gives (IsBlock n) (read_exact n what)
unfolding read_exact
Gives-exact zero what = record { on = (Gives-pure [] (tt, refl)).on }
Gives-exact (suc n) what = record { on = exact_suc n what (Gives-exact n what) }

of_le-lt : (bs : List Byte) → All IsByte bs → of_le bs < 256 ^ length bs
unfolding of_le
of_le-lt [] h = omega arith
of_le-lt (b ∷ bs) (h, hs) = omega (arith, pow-suc 256 (length bs), of_le-lt bs hs)

pub Gives-pod : (k : ℕ) (what : String) → Gives (λ v. v < 256 ^ k) (read_pod k what)
unfolding read_pod
Gives-pod k what =
    Gives-bind (Gives-exact k what) λ bs (h, e). Gives-pure _ (rw e at (of_le-lt bs h))

pub Gives-count : (what : String) → Gives (λ n. n ≤ ezc_max_count) (read_count what)
unfolding read_count check_count
Gives-count what = Gives-bind (Gives-pod 4 what) λ n _.
    Gives-if (ltb ezc_max_count n) (λ _. Gives-throw _) λ e. Gives-pure n (ltb_false→le _ n e)
