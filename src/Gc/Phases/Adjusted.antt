-- ===== src/Gc/Phases/Adjusted.antt =====
-- What phase 2 of src/gc/CycleCollector.cpp leaves for each candidate.
use ez_language.Prelude.{
  ℕ, zero, suc, ◌+◌, ◌≡◌, refl, sym, ap, ◌∙◌, inl, inr, false, some, List, [], ◌∷◌, ◌++◌, arith,
  ◌==◌, ltb, get_elem?, take, append_assoc, append-nil, subst, Bool-cases, ==_iff,
}
use mathlib.Core.Option.{map, none-ne-some, some_inj}
use ez_language.Prelude.Int.{ℤ, pos, negsuc, pred, minus, is_positive}
use ez_language.Gc.Heap.{Heap}
use ez_language.Gc.Phases.{
  occurrences, external_counts, decrement, decrement_all, internal_refs, phase2_build_candidates,
}

minus_negsuc : (k n : ℕ) → is_positive (minus k (negsuc n)) ≡ false
unfolding minus is_positive pred
minus_negsuc zero n = refl
minus_negsuc (suc k) n = minus_negsuc k (suc n)

pub is_positive-minus : (k m : ℕ) → is_positive (minus k (pos m)) ≡ ltb k m
unfolding minus is_positive pred
is_positive-minus zero zero = refl
is_positive-minus zero (suc m) = ground arith
is_positive-minus (suc k) zero = minus_negsuc k 0 ∙ ground arith
is_positive-minus (suc k) (suc m) = is_positive-minus k m ∙ ground arith

decrement_self :
    (i : ℕ) (xs : List ℤ) (x : ℤ)
    → get_elem? xs i ≡ some x
    → get_elem? (decrement i xs) i ≡ some (pred x)
unfolding decrement
decrement_self i [] x h = absurd (none-ne-some x h)
decrement_self zero (y ∷ xs) x h = ap (λ o. map pred o) h
decrement_self (suc i) (y ∷ xs) x h = decrement_self i xs x h

decrement_other :
    (i j : ℕ) (xs : List ℤ) → (j == i) ≡ false → get_elem? (decrement i xs) j ≡ get_elem? xs j
unfolding decrement
decrement_other i j [] h = refl
decrement_other zero zero (x ∷ xs) h = ground arith
decrement_other zero (suc j) (x ∷ xs) h = refl
decrement_other (suc i) zero (x ∷ xs) h = refl
decrement_other (suc i) (suc j) (x ∷ xs) h = decrement_other i j xs (ground arith)

decrement_all-get :
    (is : List ℕ) (j : ℕ) (xs : List ℤ) (x : ℤ)
    → get_elem? xs j ≡ some x
    → get_elem? (decrement_all is xs) j ≡ some (minus (occurrences j is) x)
unfolding decrement_all occurrences minus
decrement_all-get [] j xs x h = h
decrement_all-get (i ∷ is) j xs x h = elim (Bool-cases (j == i)) [
  | inl e ↦
      rw (e, one_more)
        (decrement_all-get is j (decrement i xs) (pred x) (
          subst (λ k. get_elem? (decrement i xs) k ≡ some (pred x)) (sym ((==_iff j i).0 e))
            (decrement_self i xs x (subst (λ k. get_elem? xs k ≡ some x) ((==_iff j i).0 e) h))))
  | inr e ↦
      rw (e, none_more) (decrement_all-get is j (decrement i xs) x (decrement_other i j xs e ∙ h))
]
  where
    one_more : 1 + occurrences j is ≡ suc (occurrences j is)
    one_more = omega arith

    none_more : 0 + occurrences j is ≡ occurrences j is
    none_more = omega arith

external_counts-get :
    (use_count : ℕ → ℕ) (live rest : List ℕ) (j a : ℕ)
    → get_elem? rest j ≡ some a
    → get_elem? (external_counts use_count live rest) j
      ≡ some (pos (use_count a + occurrences a (live ++ take j rest)))
unfolding external_counts
external_counts-get use_count live [] j a h = absurd (none-ne-some a h)
external_counts-get use_count live (b ∷ rest) zero a h =
    rw (append-nil live) (ap (λ z. some (pos (use_count z + occurrences z live))) (some_inj.0 h))
external_counts-get use_count live (b ∷ rest) (suc j) a h =
    rw⁻¹ (append_assoc live (b ∷ []) (take j rest))
      (external_counts-get use_count (live ++ b ∷ []) rest j a h)

-- The references to a candidate from all candidates.
abbrev pub visits : Heap → List ℕ → ℕ → ℕ
visits heap live j = occurrences j (internal_refs heap live live)

-- The owners that a candidate has beside the collector's copies made after it.
abbrev pub owners : (ℕ → ℕ) → List ℕ → ℕ → ℕ → ℕ
owners use_count live j a = use_count a + occurrences a (take j live)

pub phase2-get :
    (heap : Heap) (use_count : ℕ → ℕ) (live : List ℕ) (j a : ℕ)
    → get_elem? live j ≡ some a
    → get_elem? (phase2_build_candidates heap use_count live) j
      ≡ some (minus (visits heap live j) (pos (owners use_count live j a)))
unfolding phase2_build_candidates
phase2-get heap use_count live j a h =
    decrement_all-get (internal_refs heap live live) j (external_counts use_count [] live) _
      (external_counts-get use_count [] live j a h)
