-- ===== src/Gc/Phases/Seeds.antt =====
-- The seeds of phase 3 of src/gc/CycleCollector.cpp: the candidates with more owners than visits.
use ez_language.Prelude.{
  ℕ, zero, suc, ◌+◌, ◌≤◌, ◌<◌, ◌≡◌, refl, sym, ap, subst, ◌∙◌, ◌⊎◌, inl, inr, true, false, some,
  List, [], ◌∷◌, ◌++◌, arith, ltb→lt, lt→ltb, if◌then◌else◌, length, get_elem?, set, All,
  Bool-cases, get_elem?-of_lt, lt-of_get_elem?,
}
use mathlib.Core.Bool.{true≢false}
use mathlib.Core.Option.{some_inj, none-ne-some}
use ez_language.Prelude.Int.{ℤ, pos, minus, is_positive}
use ez_language.Gc.Heap.{Heap}
use ez_language.Gc.Flood.{flagged, Marks, mark_one, mark}
use ez_language.Gc.Flood.Steps.{In, flagged-set_back}
use ez_language.Gc.Phases.{
  decrement, decrement_all, external_counts, internal_refs, phase2_build_candidates, seed,
}
use ez_language.Gc.Phases.Adjusted.{is_positive-minus, visits, owners, phase2-get}

unfoldable pub positives : ℕ → List ℤ → List ℕ
positives k [] = []
positives k (x ∷ xs) = let rest = positives (suc k) xs in if is_positive x then k ∷ rest else rest

mark_one-new :
    (k : ℕ) (m : Marks)
    → flagged m.flags k ≡ false
    → mark_one k m ≡ record { flags = set m.flags k true; worklist = k ∷ m.worklist }
unfolding mark_one
mark_one-new k m h = rw (h)

pub seed-mark :
    (k : ℕ) (xs : List ℤ) (m : Marks)
    → ((j : ℕ) → k ≤ j → flagged m.flags j ≡ false)
    → seed k xs m ≡ mark (positives k xs) m
unfolding seed positives mark
seed-mark k [] m h = refl
seed-mark k (x ∷ xs) m h = elim (Bool-cases (is_positive x)) [
  | inl p ↦ rw (p) (
      seed-mark (suc k) xs (record { flags = set m.flags k true; worklist = k ∷ m.worklist })
        (λ j l. not_after j l (Bool-cases (flagged (set m.flags k true) j)))
      ∙ ap (mark (positives (suc k) xs)) (sym (mark_one-new k m (h k (omega arith)))))
  | inr p ↦ rw (p) (seed-mark (suc k) xs m (λ j l. h j (omega arith)))
]
  where
    not_after :
        (j : ℕ)
        → suc k ≤ j
        → (flagged (set m.flags k true) j ≡ true) ⊎ (flagged (set m.flags k true) j ≡ false)
        → flagged (set m.flags k true) j ≡ false
    not_after j l (inr f) = f
    not_after j l (inl t) = elim (flagged-set_back m.flags j k t) [
      | inl e ↦ absurd (omega arith)
      | inr f ↦ absurd (true≢false (sym f ∙ h j (omega arith)))
    ]

positives-in :
    (k d : ℕ) (xs : List ℤ) (x : ℤ)
    → get_elem? xs d ≡ some x
    → is_positive x ≡ true
    → In (k + d) (positives k xs)
unfolding positives
positives-in k d [] x g p = absurd (none-ne-some x g)
positives-in k zero (y ∷ xs) x g p = rw (some_inj.0 g, p) (inl (omega arith))
positives-in k (suc d) (y ∷ xs) x g p = elim (Bool-cases (is_positive y)) [
  | inl q ↦ rw (q) (inr (shifted (positives-in (suc k) d xs x g p)))
  | inr q ↦ rw (q) (shifted (positives-in (suc k) d xs x g p))
]
  where
    shifted : In (suc k + d) (positives (suc k) xs) → In (k + suc d) (positives (suc k) xs)
    shifted = subst (λ i. In i (positives (suc k) xs)) (omega arith)

positives-out :
    (k i : ℕ) (xs : List ℤ)
    → In i (positives k xs)
    → (d : ℕ) × ((i ≡ k + d) × ((x : ℤ) × ((get_elem? xs d ≡ some x) × (is_positive x ≡ true))))
unfolding positives
positives-out k i [] h = absurd h
positives-out k i (x ∷ xs) h = elim (Bool-cases (is_positive x)) [
  | inl q ↦
      elim (subst (λ b. In i (if b then k ∷ positives (suc k) xs else positives (suc k) xs)) q h) [
        | inl e ↦ (0, (omega arith, (x, (refl, q))))
        | inr more ↦ later (positives-out (suc k) i xs more)
      ]
  | inr q ↦ later (
      positives-out (suc k) i xs
        (subst (λ b. In i (if b then k ∷ positives (suc k) xs else positives (suc k) xs)) q h))
]
  where
    later :
        (d : ℕ) × ((i ≡ suc k + d)
            × ((y : ℤ) × ((get_elem? xs d ≡ some y) × (is_positive y ≡ true))))
        → (d : ℕ) × ((i ≡ k + d)
            × ((y : ℤ) × ((get_elem? (x ∷ xs) d ≡ some y) × (is_positive y ≡ true))))
    later (d, (e, r)) = (suc d, (omega arith, r))

positives-lt : (k : ℕ) (xs : List ℤ) → All (λ j. j < k + length xs) (positives k xs)
unfolding positives
positives-lt k [] = tt
positives-lt k (x ∷ xs) = elim (Bool-cases (is_positive x)) [
  | inl q ↦ rw (q) (omega arith, shifted (positives-lt (suc k) xs))
  | inr q ↦ rw (q) (shifted (positives-lt (suc k) xs))
]
  where
    shifted :
        All (λ j. j < suc k + length xs) (positives (suc k) xs)
        → All (λ j. j < k + suc (length xs)) (positives (suc k) xs)
    shifted = subst (λ n. All (λ j. j < n) (positives (suc k) xs)) (omega arith)

pub positives-below : (xs : List ℤ) → All (λ j. j < length xs) (positives 0 xs)
positives-below xs =
    subst (λ n. All (λ j. j < n) (positives 0 xs)) (omega arith) (positives-lt 0 xs)

length-decrement_all : (is : List ℕ) (xs : List ℤ) → length (decrement_all is xs) ≡ length xs
unfolding decrement_all decrement
length-decrement_all [] xs = refl
length-decrement_all (i ∷ is) xs = length-decrement_all is (decrement i xs) ∙ length-decrement i xs
  where
    length-decrement : (i : ℕ) (xs : List ℤ) → length (decrement i xs) ≡ length xs
    length-decrement i [] = refl
    length-decrement zero (x ∷ xs) = refl
    length-decrement (suc i) (x ∷ xs) = ap suc (length-decrement i xs)

length-external_counts :
    (use_count : ℕ → ℕ) (live rest : List ℕ)
    → length (external_counts use_count live rest) ≡ length rest
unfolding external_counts
length-external_counts use_count live [] = refl
length-external_counts use_count live (a ∷ rest) =
    ap suc (length-external_counts use_count (live ++ a ∷ []) rest)

-- A candidate has an owner that is not one of the references from candidates.
abbrev pub IsOwned : Heap → (ℕ → ℕ) → List ℕ → ℕ → Type 0
IsOwned heap use_count live i =
    (a : ℕ) × ((get_elem? live i ≡ some a) × (visits heap live i < owners use_count live i a))

module _ (heap : Heap) (use_count : ℕ → ℕ) (live : List ℕ) where
  abbrev pub adjusted : List ℤ
  adjusted = phase2_build_candidates heap use_count live

  pub length-adjusted : length adjusted ≡ length live
  unfolding phase2_build_candidates
  length-adjusted =
      length-decrement_all (internal_refs heap live live) (external_counts use_count [] live)
      ∙ length-external_counts use_count [] live

  pub IsOwned-in : (i : ℕ) → IsOwned heap use_count live i → In i (positives 0 adjusted)
  IsOwned-in i (a, (g, l)) =
      subst (λ k. In k (positives 0 adjusted)) (omega arith)
        (positives-in 0 i adjusted _ (phase2-get heap use_count live i a g)
          (is_positive-minus (visits heap live i) (owners use_count live i a) ∙ lt→ltb _ _ l))

  pub in-IsOwned : (i : ℕ) → In i (positives 0 adjusted) → IsOwned heap use_count live i
  in-IsOwned i h =
      let (d, (e, (x, (g, p)))) = positives-out 0 i adjusted h in
      let at : get_elem? adjusted i ≡ some x =
        subst (λ k. get_elem? adjusted k ≡ some x) (omega arith) g in
      let (a, found) =
        get_elem?-of_lt live i (omega (arith, length-adjusted, lt-of_get_elem? adjusted i x at)) in
      let y = minus (visits heap live i) (pos (owners use_count live i a)) in
      let same : x ≡ y = some_inj.0 (sym at ∙ phase2-get heap use_count live i a found) in
      (
        a,
        (
          found,
          ltb→lt _ _ (
              sym (is_positive-minus (visits heap live i) (owners use_count live i a))
              ∙ subst (λ z. is_positive z ≡ true) same p),
        ),
      )
