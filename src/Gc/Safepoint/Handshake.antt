-- ===== src/Gc/Safepoint/Handshake.antt =====
-- What the handshake of src/gc/CycleCollector.cpp ensures, and where it does not.
use ez_language.Prelude.{ℕ, zero, suc, ◌+◌, ◌≡◌, refl, ◌⊎◌, Bool, true, false, List, [], ◌∷◌, arith}
use ez_language.Gc.Safepoint.{
  Phase, starting, running, parked, safe, Driver, idle, asked, granted, collecting, released,
  System, init, begin_mutator_thread, sole_mutator, lock, Reach, here, next,
}

abbrev total : (Phase → ℕ) → List Phase → ℕ
total w [] = 0
total w (p ∷ ps) = w p + total w ps

abbrev waits : Phase → ℕ
waits parked = 1
waits safe = 1
waits p = 0

abbrev runs : Phase → ℕ
runs running = 1
runs p = 0

abbrev registered : Phase → ℕ
registered p = waits p + runs p

-- No thread but the driver runs, and none can start to.
IsStopped : System → Type 0
IsStopped s =
    (total runs s.threads ≡ 0) × ((s.safepoint_requested ≡ true) ⊎ (total registered s.threads ≡ 0))

Promise : Driver → System → Type 0
Promise idle s = s.safepoint_requested ≡ false
Promise asked s = s.safepoint_requested ≡ true
Promise granted s = IsStopped s
Promise collecting s = IsStopped s × (s.mutex_held ≡ true)
Promise released s = Unit

record Inv (s : System) : Type 0 where
  parked_count : s.parked_mutators ≡ total waits s.threads
  active_count : s.active_mutators ≡ suc (total registered s.threads)
  promise : Promise s.driver s

-- The driver is not between the end of `bringToSafepoint` and taking `mutex_`.
abbrev pub outside_window : Driver → Bool
outside_window granted = false
outside_window d = true

unfoldable pub all_starting : ℕ → List Phase
all_starting zero = []
all_starting (suc n) = starting ∷ all_starting n

abbrev pub anywhere : Driver → Bool
anywhere d = true

-- The code does not keep threads from registering there: from the start with one thread more, a
-- state can be reached in which the collector is at work and that thread runs.
pub collecting-overtaken :
    (n : ℕ)
    → (s : System) × (Reach anywhere (init (all_starting (suc n))) s
        × ((s.driver ≡ collecting) × (s.threads ≡ running ∷ all_starting n)))
unfolding init all_starting
collecting-overtaken n = (
  _,
  (
    next
        (next (next here (sole_mutator refl (omega arith)))
          (begin_mutator_thread [] (all_starting n) refl refl refl))
        (lock refl refl),
    (refl, refl),
  ),
)
