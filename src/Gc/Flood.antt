-- ===== src/Gc/Flood.antt =====
-- The worklist loop of `CycleCollector::phase3_findGarbage` (src/gc/CycleCollector.cpp), over the
-- indices that a visit of each candidate finds.
pub mod Steps
pub mod Reach
use ez_language.Prelude.{ℕ, zero, suc, Bool, true, false, List, [], ◌∷◌, if◌then◌else◌, set}

unfoldable pub flagged : List Bool → ℕ → Bool
flagged [] i = false
flagged (b ∷ flags) zero = b
flagged (b ∷ flags) (suc i) = flagged flags i

-- `liveFlag` and the worklist, the back of the vector first.
pub record Marks : Type 0 where
  pub flags : List Bool
  pub worklist : List ℕ

-- What the visitor does at a candidate.
unfoldable pub mark_one : ℕ → Marks → Marks
unfolding flagged
mark_one j m =
    if flagged m.flags j
    then m
    else record { flags = set m.flags j true; worklist = j ∷ m.worklist }

unfoldable pub mark : List ℕ → Marks → Marks
unfolding mark_one
mark [] m = m
mark (j ∷ js) m = mark js (mark_one j m)

-- Each candidate enters the worklist at most once, so their number is enough fuel.
unfoldable pub flood : (ℕ → List ℕ) → ℕ → Marks → Marks
unfolding mark
flood edges zero m = m
flood edges (suc fuel) m = elim m.worklist [
  | [] ↦ m
  | i ∷ rest ↦ flood edges fuel (mark (edges i) (record m { worklist = rest }))
]
