-- ===== src/Gc/Phases/Cleared.antt =====
-- What a collection of src/gc/CycleCollector.cpp leaves of the heap.
use ez_language.Prelude.{
  ℕ, zero, suc, ◌+◌, ◌<◌, ◌≡◌, ◌≢◌, refl, sym, ap, subst, ◌∙◌, ◌⊎◌, inl, inr, Option, none, some,
  List, [], ◌∷◌, map, arith, ◌==◌, ==_iff, get_elem?, take, Bool-cases, lt-of_get_elem?,
}
use ez_language.Gc.Heap.{
  Value, scalar, Object, array, tuple, dictionary, instance_of, class_of, function, other, closure,
  method_of, concat_string, Heap, clear_object,
}
use ez_language.Gc.Flood.Steps.{In}
use ez_language.Gc.Flood.Reach.{Reach, start, step}
use ez_language.Gc.Phases.{
  occurrences, edges, break_one, phase2_build_candidates, phase3_find_garbage, phase4_break_cycles,
}
use ez_language.Gc.Phases.Adjusted.{visits}
use ez_language.Gc.Phases.Seeds.{IsOwned}
use ez_language.Gc.Phases.Garbage.{phase3-Reach}

map_scalars : (vs : List Value) → map (λ v. scalar) (map (λ v. scalar) vs) ≡ map (λ v. scalar) vs
map_scalars [] = refl
map_scalars (v ∷ vs) = ap (λ t. scalar ∷ t) (map_scalars vs)

clear_object_twice : (o : Object) → clear_object (clear_object o) ≡ clear_object o
unfolding clear_object
clear_object_twice (array vs) = refl
clear_object_twice (tuple vs) = refl
clear_object_twice (dictionary vs) = refl
clear_object_twice (instance_of i) = refl
clear_object_twice (class_of c) =
    ap
      (λ vs.
        class_of (record { parent = none; methods = []; static_members = []; validators = vs }))
      (map_scalars c.validators)
clear_object_twice function = refl
clear_object_twice other = refl
clear_object_twice (closure us) = refl
clear_object_twice (method_of r m) = refl
clear_object_twice (concat_string l r) = refl

-- The heap after phase 4 on some candidates.
abbrev pub broken : List ℕ → List ℕ → Heap × ℕ → Heap
broken live garbage t = (phase4_break_cycles live garbage t).0

break_one_self : (t : Heap × ℕ) (b : ℕ) → (break_one (some b) t).0 b ≡ clear_object (t.0 b)
unfolding break_one
break_one_self t b = rw ((==_iff b b).1 refl)

break_one_other : (o : Option ℕ) (t : Heap × ℕ) (b : ℕ) → o ≢ some b → (break_one o t).0 b ≡ t.0 b
unfolding break_one
break_one_other none t b h = refl
break_one_other (some a) t b h = elim (Bool-cases (b == a)) [
  | inl e ↦ absurd (h (ap (λ x. some x) (sym ((==_iff b a).0 e))))
  | inr e ↦ rw (e)
]

break_one-cases :
    (o : Option ℕ) (t : Heap × ℕ) (b : ℕ)
    → ((break_one o t).0 b ≡ t.0 b) ⊎ ((break_one o t).0 b ≡ clear_object (t.0 b))
unfolding break_one
break_one-cases none t b = inl refl
break_one-cases (some a) t b = elim (Bool-cases (b == a)) [
  | inl e ↦ inr (rw (e) (ap (λ x. clear_object (t.0 x)) (sym ((==_iff b a).0 e))))
  | inr e ↦ inl (rw (e))
]

pub broken-other :
    (live garbage : List ℕ) (t : Heap × ℕ) (b : ℕ)
    → ((i : ℕ) → In i garbage → get_elem? live i ≢ some b)
    → broken live garbage t b ≡ t.0 b
unfolding phase4_break_cycles
broken-other live [] t b h = refl
broken-other live (i ∷ garbage) t b h =
    broken-other live garbage (break_one (get_elem? live i) t) b (λ j g. h j (inr g))
    ∙ break_one_other (get_elem? live i) t b (h i (inl refl))

broken-cases :
    (live garbage : List ℕ) (t : Heap × ℕ) (b : ℕ)
    → (broken live garbage t b ≡ t.0 b) ⊎ (broken live garbage t b ≡ clear_object (t.0 b))
unfolding phase4_break_cycles
broken-cases live [] t b = inl refl
broken-cases live (i ∷ garbage) t b =
    elim (broken-cases live garbage (break_one (get_elem? live i) t) b) [
      | inl e ↦ elim (break_one-cases (get_elem? live i) t b) [
        | inl f ↦ inl (e ∙ f)
        | inr f ↦ inr (e ∙ f)
      ]
      | inr e ↦ elim (break_one-cases (get_elem? live i) t b) [
        | inl f ↦ inr (e ∙ ap clear_object f)
        | inr f ↦ inr (e ∙ ap clear_object f ∙ clear_object_twice (t.0 b))
      ]
    ]

pub broken-cleared :
    (live garbage : List ℕ) (t : Heap × ℕ) (i b : ℕ)
    → In i garbage
    → get_elem? live i ≡ some b
    → broken live garbage t b ≡ clear_object (t.0 b)
unfolding phase4_break_cycles
broken-cleared live [] t i b h g = absurd h
broken-cleared live (j ∷ garbage) t i b (inr h) g = elim (break_one-cases (get_elem? live j) t b) [
  | inl f ↦ broken-cleared live garbage (break_one (get_elem? live j) t) i b h g ∙ ap clear_object f
  | inr f ↦
      broken-cleared live garbage (break_one (get_elem? live j) t) i b h g
      ∙ ap clear_object f
      ∙ clear_object_twice (t.0 b)
]
broken-cleared live (j ∷ garbage) t i b (inl e) g =
    let at = break_one (get_elem? live j) t in
    let first : at.0 b ≡ clear_object (t.0 b) =
      ap (λ o. (break_one o t).0 b) (ap (get_elem? live) (sym e) ∙ g) ∙ break_one_self t b in
    elim (broken-cases live garbage at b) [
      | inl f ↦ f ∙ first
      | inr f ↦ f ∙ ap clear_object first ∙ clear_object_twice (t.0 b)
    ]

-- An object that somebody beside the candidates holds.
abbrev pub IsHeld : (ℕ → ℕ) → List ℕ → ℕ → Type 0
IsHeld holders live i = (a : ℕ) × ((get_elem? live i ≡ some a) × (0 < holders a))

Reach-map :
    (edges : ℕ → List ℕ) (P Q : ℕ → Type 0) (i : ℕ)
    → ((j : ℕ) → P j → Q j)
    → Reach edges P i
    → Reach edges Q i
Reach-map edges P Q i f (start p) = start (f i p)
Reach-map edges P Q i f (step {i = k} r e) = step (Reach-map edges P Q k f r) e

occurrences-zero :
    (xs : List ℕ) (n a : ℕ)
    → ((j : ℕ) → j < n → get_elem? xs j ≢ some a)
    → occurrences a (take n xs) ≡ 0
unfolding occurrences
occurrences-zero xs zero a h = refl
occurrences-zero [] (suc n) a h = refl
occurrences-zero (x ∷ xs) (suc n) a h = elim (Bool-cases (a == x)) [
  | inl e ↦ absurd (h 0 (omega arith) (ap (λ y. some y) (sym ((==_iff a x).0 e))))
  | inr e ↦ rw (e) (omega (arith, occurrences-zero xs n a (λ j l. h (suc j) (omega arith))))
]

module _ (heap : Heap) (use_count holders : ℕ → ℕ) (live : List ℕ)
    (distinct : (i j a : ℕ) → get_elem? live i ≡ some a → get_elem? live j ≡ some a → i ≡ j)
    (accurate : (i a : ℕ)
      → get_elem? live i ≡ some a
      → use_count a ≡ holders a + visits heap live i) where
  alone : (i a : ℕ) → get_elem? live i ≡ some a → occurrences a (take i live) ≡ 0
  alone i a g = occurrences-zero live i a (λ j l h. absurd (omega (arith, distinct i j a g h)))

  held-IsOwned : (i : ℕ) → IsHeld holders live i → IsOwned heap use_count live i
  held-IsOwned i (a, (g, h)) = (a, (g, omega (arith, accurate i a g)))

  owned-IsHeld : (i : ℕ) → IsOwned heap use_count live i → IsHeld holders live i
  owned-IsHeld i (a, (g, h)) = (a, (g, omega (arith, accurate i a g, alone i a g)))

  abbrev pub garbage : List ℕ
  garbage = phase3_find_garbage heap live (phase2_build_candidates heap use_count live)

  -- Where each candidate is tracked once, and each count is the number of holders outside the
  -- candidates and of the references that visits of the candidates report: a collection leaves every
  -- candidate as it is that can be reached from one with such a holder, clears every other
  -- candidate, and leaves all other objects as they are.
  pub phase4-Reach :
      (cycles a : ℕ)
      → ((i : ℕ)
          → get_elem? live i ≡ some a
          → Reach (edges heap live) (IsHeld holders live) i
          → broken live garbage (heap, cycles) a ≡ heap a)
        × (((i : ℕ)
              → get_elem? live i ≡ some a
              → (¬ Reach (edges heap live) (IsHeld holders live) i)
              → broken live garbage (heap, cycles) a ≡ clear_object (heap a))
            × (((i : ℕ) → get_elem? live i ≢ some a)
                → broken live garbage (heap, cycles) a ≡ heap a))
  phase4-Reach cycles a = (kept, (cleared, beside))
    where
      kept :
          (i : ℕ)
          → get_elem? live i ≡ some a
          → Reach (edges heap live) (IsHeld holders live) i
          → broken live garbage (heap, cycles) a ≡ heap a
      kept i g r =
          broken-other live garbage (heap, cycles) a
            (λ j h k. (phase3-Reach heap use_count live j (lt-of_get_elem? live j a k)).0 h (
              subst (λ x. Reach (edges heap live) (IsOwned heap use_count live) x)
                (distinct i j a g k)
                (Reach-map (edges heap live) (IsHeld holders live) (IsOwned heap use_count live) i
                  held-IsOwned r)))

      cleared :
          (i : ℕ)
          → get_elem? live i ≡ some a
          → (¬ Reach (edges heap live) (IsHeld holders live) i)
          → broken live garbage (heap, cycles) a ≡ clear_object (heap a)
      cleared i g n =
          broken-cleared live garbage (heap, cycles) i a
            ((phase3-Reach heap use_count live i (lt-of_get_elem? live i a g)).1 (λ r. n (
              Reach-map (edges heap live) (IsOwned heap use_count live) (IsHeld holders live) i
                owned-IsHeld r)))
            g

      beside : ((i : ℕ) → get_elem? live i ≢ some a) → broken live garbage (heap, cycles) a ≡ heap a
      beside h = broken-other live garbage (heap, cycles) a (λ i g. h i)
