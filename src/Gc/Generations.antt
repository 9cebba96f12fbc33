-- ===== src/Gc/Generations.antt =====
-- The two generations of `CycleCollector` and what triggers a collection (src/gc/CycleCollector.h
-- and CycleCollector.cpp).
use ez_language.Prelude.{
  ℕ, ◌+◌, ◌/◌, ◌≤◌, ◌≡◌, Bool, List, [], ◌∷◌, ◌++◌, arith, ltb, leb, length, if◌then◌else◌,
}
use ez_language.Gc.Heap.{Heap}
use ez_language.Gc.Phases.{collect_internal}

pub record Collector : Type 0 where
  pub young_tracked : List ℕ
  pub old_tracked : List ℕ
  pub minor_threshold : ℕ
  pub major_threshold : ℕ
  pub major_threshold_base : ℕ
  pub cycles_collected : ℕ
  pub disabled : Bool

pub data Wanted : Type 0 where
  nothing minor major : Wanted

-- What `track` asks for, with the new object in place.
unfoldable pub wanted : Collector → Wanted
wanted c =
    if c.disabled
    then nothing
    else if leb c.minor_threshold (length c.young_tracked)
    then minor
    else if leb c.major_threshold (length c.old_tracked)
    then major
    else nothing

unfoldable pub push_tracked : ℕ → Collector → Collector
push_tracked a c = record c { young_tracked = c.young_tracked ++ a ∷ [] }

module _ (expired expired_after : ℕ → Bool) (use_count : ℕ → ℕ) where
  unfoldable pub collect_minor : Collector × Heap → Collector × Heap
  unfolding collect_internal
  collect_minor (c, heap) =
      let (survivors, (heap, cycles)) =
        collect_internal expired expired_after use_count c.young_tracked
          (heap, c.cycles_collected) in
      (
        record c {
          young_tracked = [];
          old_tracked = c.old_tracked ++ survivors;
          cycles_collected = cycles;
        },
        heap,
      )

  -- The threshold is set above the surviving heap.
  unfoldable pub next_threshold : ℕ → ℕ → ℕ
  next_threshold base survivors =
      let scaled = survivors + survivors / 2 in if ltb base scaled then scaled else base

  unfoldable pub collect_major : Collector × Heap → Collector × Heap
  unfolding collect_internal next_threshold
  collect_major (c, heap) =
      let (survivors, (heap, cycles)) =
        collect_internal expired expired_after use_count (c.old_tracked ++ c.young_tracked)
          (heap, c.cycles_collected) in
      (
        record c {
          young_tracked = [];
          old_tracked = survivors;
          cycles_collected = cycles;
          major_threshold = next_threshold c.major_threshold_base (length survivors);
        },
        heap,
      )

  -- Right after a major collection nothing more is asked for, however many objects survived: for a
  -- minor threshold of at least 1 and a base for the major one of at least 2.
  pub wanted-collect_major :
      (c : Collector) (heap : Heap)
      → 1 ≤ c.minor_threshold
      → 2 ≤ c.major_threshold_base
      → wanted (collect_major (c, heap)).0 ≡ nothing
  unfolding wanted collect_major next_threshold
  wanted-collect_major c heap h k = ground arith
