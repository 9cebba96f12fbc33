-- ===== src/Gc/Tests.antt =====
-- Runs of the collector on small heaps.
use ez_language.Prelude.{
  ℕ, zero, suc, ◌+◌, ◌≡◌, ◌≢◌, ◌↔◌, refl, sym, subst, ◌∙◌, Bool, false, none, some, List, [], ◌∷◌,
  arith, get_elem?,
}
use mathlib.Core.List.{flatten}
use ez_language.Prelude.Int.{pred}
use mathlib.Core.Option.{none-ne-some, some_inj}
use ez_language.Gc.Heap.{
  scalar, pointer, bound_method, array, instance_of, other, Heap, clear_object,
}
use ez_language.Gc.Flood.Steps.{In}
use ez_language.Gc.Flood.Reach.{Reach}
use ez_language.Gc.Phases.{
  edges, internal_refs, occurrences, phase2_build_candidates, phase3_find_garbage,
}
use ez_language.Gc.Phases.Adjusted.{visits}
use ez_language.Gc.Phases.Seeds.{IsOwned}
use ez_language.Gc.Phases.Garbage.{phase3-Reach}
use ez_language.Gc.Phases.Cleared.{IsHeld, broken, phase4-Reach}
use ez_language.Gc.Generations.{Collector, nothing, wanted, collect_major, wanted-collect_major}
use ez_language.Gc.Safepoint.{running, collecting, System, init, Reach as Course}
use ez_language.Gc.Safepoint.Handshake.{anywhere, all_starting, collecting-overtaken}

-- The array at 0 holds the array at 1; the array at 2 holds only itself.
abbrev heap_of_three : Heap
heap_of_three zero = array (pointer 1 ∷ [])
heap_of_three (suc zero) = array (scalar ∷ [])
heap_of_three (suc (suc zero)) = array (pointer 2 ∷ [])
heap_of_three (suc (suc (suc a))) = other

abbrev tracked_three : List ℕ
tracked_three = 0 ∷ 1 ∷ 2 ∷ []

abbrev one_each : ℕ → ℕ
one_each a = 1

-- One holder of the array at 0.
abbrev held_first : ℕ → ℕ
held_first zero = 1
held_first (suc a) = 0

tracked_at : (i a : ℕ) → get_elem? tracked_three i ≡ some a → a ≡ i
tracked_at zero a h = sym (some_inj.0 h)
tracked_at (suc zero) a h = sym (some_inj.0 h)
tracked_at (suc (suc zero)) a h = sym (some_inj.0 h)
tracked_at (suc (suc (suc i))) a h = absurd (none-ne-some a h)

counts_accurate :
    (i a : ℕ)
    → get_elem? tracked_three i ≡ some a
    → one_each a ≡ held_first a + visits heap_of_three tracked_three i
unfolding internal_refs occurrences flatten
counts_accurate zero a h =
    subst (λ b. 1 ≡ held_first b + visits heap_of_three tracked_three 0) (sym (tracked_at 0 a h))
      refl
counts_accurate (suc zero) a h =
    subst (λ b. 1 ≡ held_first b + visits heap_of_three tracked_three 1) (sym (tracked_at 1 a h))
      refl
counts_accurate (suc (suc zero)) a h =
    subst (λ b. 1 ≡ held_first b + visits heap_of_three tracked_three 2) (sym (tracked_at 2 a h))
      refl
counts_accurate (suc (suc (suc i))) a h = absurd (none-ne-some a h)

self_held_collected :
    phase3_find_garbage heap_of_three tracked_three
      (phase2_build_candidates heap_of_three one_each tracked_three)
    ≡ 2 ∷ []
unfolding phase3_find_garbage phase2_build_candidates flatten pred
self_held_collected = refl

-- Two arrays that hold themselves hold one bound method of the instance at 1, which has another
-- owner: the bound method and that owner are its two references.
abbrev heap_of_shared : Heap
heap_of_shared zero = array (pointer 0 ∷ bound_method (pointer 1) scalar ∷ [])
heap_of_shared (suc zero) =
    instance_of
      (record { klass = none; property_values = scalar ∷ []; audit_log = []; cache_store = [] })
heap_of_shared (suc (suc zero)) = array (pointer 2 ∷ bound_method (pointer 1) scalar ∷ [])
heap_of_shared (suc (suc (suc a))) = other

abbrev two_for_instance : ℕ → ℕ
two_for_instance (suc zero) = 2
two_for_instance a = 1

-- The bound method is counted once for each of its holders, so the instance that is in use counts
-- as garbage.
shared_bound_method_collected :
    phase3_find_garbage heap_of_shared tracked_three
      (phase2_build_candidates heap_of_shared two_for_instance tracked_three)
    ≡ 0 ∷ 1 ∷ 2 ∷ []
unfolding phase3_find_garbage phase2_build_candidates flatten pred
shared_bound_method_collected = refl

phase3-Reach_example :
    In 2 (
      phase3_find_garbage heap_of_three tracked_three
        (phase2_build_candidates heap_of_three one_each tracked_three))
    ↔ (¬ Reach (edges heap_of_three tracked_three) (IsOwned heap_of_three one_each tracked_three) 2)
phase3-Reach_example = phase3-Reach heap_of_three one_each tracked_three 2 (omega arith)

abbrev after_three : Heap
after_three =
    broken tracked_three
      (phase3_find_garbage heap_of_three tracked_three
        (phase2_build_candidates heap_of_three one_each tracked_three))
      (heap_of_three, 0)

phase4-Reach_example :
    ((i : ℕ)
      → get_elem? tracked_three i ≡ some 2
      → Reach (edges heap_of_three tracked_three) (IsHeld held_first tracked_three) i
      → after_three 2 ≡ heap_of_three 2)
    × (((i : ℕ)
          → get_elem? tracked_three i ≡ some 2
          → (¬ Reach (edges heap_of_three tracked_three) (IsHeld held_first tracked_three) i)
          → after_three 2 ≡ clear_object (heap_of_three 2))
        × (((i : ℕ) → get_elem? tracked_three i ≢ some 2) → after_three 2 ≡ heap_of_three 2))
phase4-Reach_example =
    phase4-Reach heap_of_three one_each held_first tracked_three
      (λ i j a g h. sym (tracked_at i a g) ∙ tracked_at j a h) counts_accurate 0 2

abbrev crowded : Collector
crowded = record {
  young_tracked = 0 ∷ 1 ∷ [];
  old_tracked = 2 ∷ [];
  minor_threshold = 1;
  major_threshold = 2;
  major_threshold_base = 2;
  cycles_collected = 0;
  disabled = false;
}

abbrev all_there : ℕ → Bool
all_there a = false

wanted-collect_major_example :
    wanted (collect_major all_there all_there one_each (crowded, heap_of_three)).0 ≡ nothing
wanted-collect_major_example =
    wanted-collect_major all_there all_there one_each crowded heap_of_three (omega arith)
      (omega arith)

collecting-overtaken_example :
    (s : System) × (Course anywhere (init (all_starting 3)) s
      × ((s.driver ≡ collecting) × (s.threads ≡ running ∷ all_starting 2)))
collecting-overtaken_example = collecting-overtaken 2
