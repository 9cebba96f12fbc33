-- ===== src/Gc/Phases.antt =====
-- The four phases and the two generations of `CycleCollector` (src/gc/CycleCollector.cpp and
-- CycleCollector.h). A tracked object is its address. The counts that `shared_ptr` keeps are
-- parameters: `use_count` of an object without the collector's own copies, and which objects have
-- expired, before and after the garbage is cleared.
pub mod Adjusted
pub mod Seeds
pub mod Garbage
pub mod Cleared
use ez_language.Prelude.{
  ℕ, zero, suc, ◌+◌, ◌/◌, ◌*◌, Bool, true, false, Option, none, some, List, [], ◌∷◌, ◌++◌, ◌==◌,
  ltb, leb, if◌then◌else◌, length, get_elem?, set,
}
use ez_language.Prelude.Int.{ℤ, pos, pred, is_positive}
use ez_language.Gc.Heap.{Object, Heap, object_refs, clear_object}
use ez_language.Gc.Flood.{flagged, Marks, mark, flood}

unfoldable pub phase1_purge_expired : (ℕ → Bool) → List ℕ → List ℕ
phase1_purge_expired expired [] = []
phase1_purge_expired expired (a ∷ buffer) =
    let rest = phase1_purge_expired expired buffer in if expired a then rest else a ∷ rest

unfoldable pub occurrences : ℕ → List ℕ → ℕ
occurrences a [] = 0
occurrences a (b ∷ bs) = (if a == b then 1 else 0) + occurrences a bs

-- The counts read while `live` is filled: the copies already there count, the local one does not.
unfoldable pub external_counts : (ℕ → ℕ) → List ℕ → List ℕ → List ℤ
unfolding occurrences
external_counts use_count live [] = []
external_counts use_count live (a ∷ rest) =
    pos (use_count a + occurrences a live) ∷ external_counts use_count (live ++ a ∷ []) rest

-- `ptrToIdx.find`: a later entry for the same pointer replaces an earlier one.
abbrev pub next_index : ℕ → ℕ → Option ℕ → Option ℕ
next_index a b none = if a == b then some 0 else none
next_index a b (some i) = some (suc i)

unfoldable pub index_of : ℕ → List ℕ → Option ℕ
index_of a [] = none
index_of a (b ∷ live) = next_index a b (index_of a live)

abbrev add_index : Option ℕ → List ℕ → List ℕ
add_index none is = is
add_index (some i) is = i ∷ is

-- The candidates among the addresses that a visit reports.
unfoldable pub found : List ℕ → List ℕ → List ℕ
unfolding index_of
found live [] = []
found live (a ∷ refs) = add_index (index_of a live) (found live refs)

-- `adjustedRC[i]--`
unfoldable pub decrement : ℕ → List ℤ → List ℤ
decrement i [] = []
decrement zero (x ∷ xs) = pred x ∷ xs
decrement (suc i) (x ∷ xs) = x ∷ decrement i xs

unfoldable pub decrement_all : List ℕ → List ℤ → List ℤ
unfolding decrement
decrement_all [] xs = xs
decrement_all (i ∷ is) xs = decrement_all is (decrement i xs)

-- Every reference from one of the objects of the second list to a candidate.
unfoldable pub internal_refs : Heap → List ℕ → List ℕ → List ℕ
unfolding found object_refs
internal_refs heap live [] = []
internal_refs heap live (a ∷ rest) =
    found live (object_refs (heap a)) ++ internal_refs heap live rest

-- `adjustedRC` after phase 2, for the candidates in `live`.
unfoldable pub phase2_build_candidates : Heap → (ℕ → ℕ) → List ℕ → List ℤ
unfolding decrement_all internal_refs external_counts
phase2_build_candidates heap use_count live =
    decrement_all (internal_refs heap live live) (external_counts use_count [] live)

-- The candidates that a visit of `live[i]` finds.
unfoldable pub edges_from : Heap → List ℕ → Option ℕ → List ℕ
unfolding found object_refs
edges_from heap live none = []
edges_from heap live (some a) = found live (object_refs (heap a))

unfoldable pub edges : Heap → List ℕ → ℕ → List ℕ
unfolding edges_from
edges heap live i = edges_from heap live (get_elem? live i)

unfoldable pub seed : ℕ → List ℤ → Marks → Marks
unfolding is_positive
seed i [] m = m
seed i (x ∷ adjusted) m =
    seed (suc i) adjusted (
      if is_positive x then record { flags = set m.flags i true; worklist = i ∷ m.worklist } else m)

abbrev pub all_false : List ℕ → List Bool
all_false [] = []
all_false (a ∷ live) = false ∷ all_false live

unfoldable pub unset_from : ℕ → List Bool → List ℕ
unset_from i [] = []
unset_from i (b ∷ flags) = let rest = unset_from (suc i) flags in if b then rest else i ∷ rest

unfoldable pub phase3_find_garbage : Heap → List ℕ → List ℤ → List ℕ
unfolding seed flood edges unset_from
phase3_find_garbage heap live adjusted =
    unset_from 0
      (flood (edges heap live) (length live)
        (seed 0 adjusted (record { flags = all_false live; worklist = [] }))).flags

abbrev pub write : Heap → ℕ → Object → Heap
write heap a o b = if b == a then o else heap b

-- On the heap and `cyclesCollected_`.
unfoldable pub break_one : Option ℕ → Heap × ℕ → Heap × ℕ
unfolding clear_object
break_one none t = t
break_one (some a) t = (write t.0 a (clear_object (t.0 a)), suc t.1)

unfoldable pub phase4_break_cycles : List ℕ → List ℕ → Heap × ℕ → Heap × ℕ
unfolding break_one
phase4_break_cycles live [] t = t
phase4_break_cycles live (i ∷ garbage) t =
    phase4_break_cycles live garbage (break_one (get_elem? live i) t)

-- The candidates that are left, the heap and the number of objects cleared so far. (With no
-- candidate the source returns early; the phases then do nothing.)
unfoldable pub collect_internal :
    (ℕ → Bool) → (ℕ → Bool) → (ℕ → ℕ) → List ℕ → Heap × ℕ → List ℕ × (Heap × ℕ)
unfolding phase1_purge_expired phase2_build_candidates phase3_find_garbage phase4_break_cycles
collect_internal expired expired_after use_count candidates (heap, cycles) =
    let live = phase1_purge_expired expired candidates in
    let garbage = phase3_find_garbage heap live (phase2_build_candidates heap use_count live) in
    (phase1_purge_expired expired_after live, phase4_break_cycles live garbage (heap, cycles))
