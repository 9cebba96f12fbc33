-- ===== src/Gc/Phases/Garbage.antt =====
-- What phase 3 of src/gc/CycleCollector.cpp takes for garbage.
use ez_language.Prelude.{
  ℕ, zero, suc, ◌+◌, ◌<◌, ◌≡◌, ◌↔◌, refl, sym, ap, subst, ◌∙◌, inl, inr, Bool, true, false, Option,
  none, some, List, [], ◌∷◌, arith, ◌==◌, if◌then◌else◌, length, get_elem?, All, Bool-cases,
}
use mathlib.Core.Bool.{true≢false}
use mathlib.Core.Option.{none-ne-some, some_inj}
use ez_language.Gc.Heap.{Heap, object_refs}
use ez_language.Gc.Flood.{flagged, Marks, mark, flood}
use ez_language.Gc.Flood.Steps.{In, unmarked-le, mark-Grows, mark-flagged}
use ez_language.Gc.Flood.Reach.{Reach, Inv, flood-Inv_at, flood-Reach}
use ez_language.Gc.Phases.{
  index_of, next_index, add_index, found, edges_from, edges, phase2_build_candidates, all_false,
  unset_from, phase3_find_garbage,
}
use ez_language.Gc.Phases.Seeds.{
  IsOwned, positives, seed-mark, IsOwned-in, in-IsOwned, length-adjusted, positives-below,
}

next_index-lt :
    (a b n i : ℕ) (o : Option ℕ)
    → ((j : ℕ) → o ≡ some j → j < n)
    → next_index a b o ≡ some i
    → i < suc n
next_index-lt a b n i none h e = elim (Bool-cases (a == b)) [
  | inl q ↦ omega (arith, some_inj.0 (subst (λ t. (if t then some 0 else none) ≡ some i) q e))
  | inr q ↦ absurd (none-ne-some i (subst (λ t. (if t then some 0 else none) ≡ some i) q e))
]
next_index-lt a b n i (some j) h e = omega (arith, h j refl, some_inj.0 e)

index_of-lt : (a : ℕ) (live : List ℕ) (i : ℕ) → index_of a live ≡ some i → i < length live
unfolding index_of
index_of-lt a [] i h = absurd (none-ne-some i h)
index_of-lt a (b ∷ live) i h =
    next_index-lt a b (length live) i (index_of a live) (index_of-lt a live) h

add_index-lt :
    (n : ℕ) (o : Option ℕ) (is : List ℕ)
    → ((j : ℕ) → o ≡ some j → j < n)
    → All (λ j. j < n) is
    → All (λ j. j < n) (add_index o is)
add_index-lt n none is h a = a
add_index-lt n (some j) is h a = (h j refl, a)

found-lt : (live refs : List ℕ) → All (λ j. j < length live) (found live refs)
unfolding found
found-lt live [] = tt
found-lt live (a ∷ refs) =
    add_index-lt (length live) (index_of a live) (found live refs) (index_of-lt a live)
      (found-lt live refs)

edges_from-lt :
    (heap : Heap) (live : List ℕ) (o : Option ℕ)
    → All (λ j. j < length live) (edges_from heap live o)
unfolding edges_from
edges_from-lt heap live none = tt
edges_from-lt heap live (some a) = found-lt live (object_refs (heap a))

edges-lt : (heap : Heap) (live : List ℕ) (i : ℕ) → All (λ j. j < length live) (edges heap live i)
unfolding edges
edges-lt heap live i = edges_from-lt heap live (get_elem? live i)

length-all_false : (live : List ℕ) → length (all_false live) ≡ length live
length-all_false [] = refl
length-all_false (a ∷ live) = ap suc (length-all_false live)

flagged-all_false : (live : List ℕ) (i : ℕ) → flagged (all_false live) i ≡ false
unfolding flagged
flagged-all_false [] i = refl
flagged-all_false (a ∷ live) zero = refl
flagged-all_false (a ∷ live) (suc i) = flagged-all_false live i

unset_from-in :
    (k d : ℕ) (flags : List Bool)
    → d < length flags
    → flagged flags d ≡ false
    → In (k + d) (unset_from k flags)
unfolding unset_from flagged
unset_from-in k d [] l h = absurd (omega arith)
unset_from-in k zero (b ∷ flags) l h = rw (h) (inl (omega arith))
unset_from-in k (suc d) (b ∷ flags) l h = elim (Bool-cases b) [
  | inl q ↦ rw (q) (shifted (unset_from-in (suc k) d flags (omega arith) h))
  | inr q ↦ rw (q) (inr (shifted (unset_from-in (suc k) d flags (omega arith) h)))
]
  where
    shifted : In (suc k + d) (unset_from (suc k) flags) → In (k + suc d) (unset_from (suc k) flags)
    shifted = subst (λ i. In i (unset_from (suc k) flags)) (omega arith)

unset_from-out :
    (k i : ℕ) (flags : List Bool)
    → In i (unset_from k flags)
    → (d : ℕ) × ((i ≡ k + d) × (flagged flags d ≡ false))
unfolding unset_from flagged
unset_from-out k i [] h = absurd h
unset_from-out k i (true ∷ flags) h =
    let (d, (e, f)) = unset_from-out (suc k) i flags h in (suc d, (omega arith, f))
unset_from-out k i (false ∷ flags) (inl e) = (0, (omega arith, refl))
unset_from-out k i (false ∷ flags) (inr h) =
    let (d, (e, f)) = unset_from-out (suc k) i flags h in (suc d, (omega arith, f))

module _ (heap : Heap) (use_count : ℕ → ℕ) (live : List ℕ) where
  abbrev blank : Marks
  blank = record { flags = all_false live; worklist = [] }

  abbrev seeds : List ℕ
  seeds = positives 0 (phase2_build_candidates heap use_count live)

  seeds-lt : All (λ j. j < length (all_false live)) seeds
  seeds-lt =
      subst (λ n. All (λ j. j < n) seeds)
        (length-adjusted heap use_count live ∙ sym (length-all_false live))
        (positives-below (phase2_build_candidates heap use_count live))

  started :
      Inv
        (length live)
        (edges heap live)
        (IsOwned heap use_count live)
        (edges-lt heap live)
        (mark seeds blank)
  started =
      let grown = mark-Grows seeds blank seeds-lt in
      record {
        size = grown.size ∙ length-all_false live;
        sound = λ i h. elim (grown.fresh i h) [
          | inl old ↦ absurd (true≢false (sym old ∙ flagged-all_false live i))
          | inr new ↦ Reach.start (in-IsOwned heap use_count live i new.0)
        ];
        waiting = grown.waiting (λ i h. absurd h);
        closed = λ i h. elim (grown.fresh i h) [
          | inl old ↦ absurd (true≢false (sym old ∙ flagged-all_false live i))
          | inr new ↦ inl new.1
        ];
        seeds = λ i h. mark-flagged seeds blank i seeds-lt (IsOwned-in heap use_count live i h);
      }

  flooded : Marks
  flooded = flood (edges heap live) (length live) (mark seeds blank)

  flooded-Reach :
      (i : ℕ)
      → (flagged flooded.flags i ≡ true) ↔ Reach (edges heap live) (IsOwned heap use_count live) i
  unfolding flooded
  flooded-Reach i =
      flood-Reach (length live) (edges heap live) (IsOwned heap use_count live) (edges-lt heap live)
        (length live) (mark seeds blank) started
        (omega (
          arith,
          (mark-Grows seeds blank seeds-lt).balance,
          unmarked-le (all_false live),
          length-all_false live,
        ))
        i

  phase3-unset :
      phase3_find_garbage heap live (phase2_build_candidates heap use_count live)
      ≡ unset_from 0 flooded.flags
  unfolding phase3_find_garbage flooded
  phase3-unset =
      ap (λ m. unset_from 0 (flood (edges heap live) (length live) m).flags)
        (seed-mark 0 (phase2_build_candidates heap use_count live) blank
          (λ j l. flagged-all_false live j))

  length-flooded : length flooded.flags ≡ length live
  unfolding flooded
  length-flooded =
      (flood-Inv_at (length live) (edges heap live) (IsOwned heap use_count live)
        (edges-lt heap live) (length live) (mark seeds blank).flags (mark seeds blank).worklist
        started).size

  -- Phase 3 takes for garbage exactly the candidates that cannot be reached, along references from
  -- candidates, from a candidate with more owners than there are references to it from candidates.
  -- (Whatever the heap and the counts are.)
  pub phase3-Reach :
      (i : ℕ)
      → i < length live
      → In i (phase3_find_garbage heap live (phase2_build_candidates heap use_count live))
        ↔ (¬ Reach (edges heap live) (IsOwned heap use_count live) i)
  phase3-Reach i l = (unreached, garbage)
    where
      unreached :
          In i (phase3_find_garbage heap live (phase2_build_candidates heap use_count live))
          → ¬ Reach (edges heap live) (IsOwned heap use_count live) i
      unreached h r =
          let (d, (e, f)) = unset_from-out 0 i flooded.flags (subst (In i) phase3-unset h) in
          true≢false (
            sym ((flooded-Reach i).1 r)
            ∙ subst (λ k. flagged flooded.flags k ≡ false) (omega arith) f)

      garbage :
          (¬ Reach (edges heap live) (IsOwned heap use_count live) i)
          → In i (phase3_find_garbage heap live (phase2_build_candidates heap use_count live))
      garbage n = elim (Bool-cases (flagged flooded.flags i)) [
        | inl t ↦ absurd (n ((flooded-Reach i).0 t))
        | inr f ↦ subst (In i) (sym phase3-unset) (
            subst (λ k. In k (unset_from 0 flooded.flags)) (omega arith)
              (unset_from-in 0 i flooded.flags (omega (arith, length-flooded)) f))
      ]
