-- ===== src/Gc/Safepoint.antt =====
-- The handshake between a collecting thread and the others (src/gc/CycleCollector.h and
-- CycleCollector.cpp: `track`, `bringToSafepoint`, `releaseSafepoint`, `parkAtSafepoint`,
-- `enterSafeRegion`, `exitSafeRegion`, `beginMutatorThread`, `endMutatorThread`), as a step relation
-- with one rule for each piece of code that runs under a lock or on one atomic. One thread drives
-- the collection; two threads that drive at once, and the back-off counter, are left out.
pub mod Handshake
use ez_language.Prelude.{ℕ, suc, ◌-◌, ◌≤◌, ◌≡◌, ◌⊎◌, Bool, true, false, List, ◌∷◌, ◌++◌}

-- A thread other than the one that collects: started and not yet registered, running bytecode,
-- parked at a safepoint, in a native call that does not touch the heap, or ended.
pub data Phase : Type 0 where
  starting running parked safe ended : Phase

-- Where the collecting thread is: outside, waiting in `bringToSafepoint`, behind it, in the
-- collection with `mutex_` held, and before `releaseSafepoint`.
pub data Driver : Type 0 where
  idle asked granted collecting released : Driver

pub record System : Type 0 where
  pub safepoint_requested : Bool
  pub parked_mutators : ℕ
  pub active_mutators : ℕ
  pub mutex_held : Bool
  pub driver : Driver
  pub threads : List Phase

-- Only the main thread runs.
unfoldable pub init : List Phase → System
init threads = record {
  safepoint_requested = false;
  parked_mutators = 0;
  active_mutators = 1;
  mutex_held = false;
  driver = idle;
  threads = threads;
}

-- `may_register` says where the driver may be when a thread registers; the code asks nothing.
pub data Step (may_register : Driver → Bool) : System → System → Type 0 where
  begin_mutator_thread :
      {s : System}
      → (pre post : List Phase) → s.threads ≡ pre ++ starting ∷ post
      → s.mutex_held ≡ false
      → may_register s.driver ≡ true
      → Step may_register s
          (record s { active_mutators = suc s.active_mutators; threads = pre ++ running ∷ post })
  end_mutator_thread :
      {s : System}
      → (pre post : List Phase) → s.threads ≡ pre ++ running ∷ post
      → s.mutex_held ≡ false
      → Step may_register s
          (record s { active_mutators = s.active_mutators - 1; threads = pre ++ ended ∷ post })
  park :
      {s : System}
      → (pre post : List Phase) → s.threads ≡ pre ++ running ∷ post
      → s.safepoint_requested ≡ true
      → Step may_register s
          (record s { parked_mutators = suc s.parked_mutators; threads = pre ++ parked ∷ post })
  resume :
      {s : System}
      → (pre post : List Phase) → s.threads ≡ pre ++ parked ∷ post
      → s.safepoint_requested ≡ false
      → Step may_register s
          (record s { parked_mutators = s.parked_mutators - 1; threads = pre ++ running ∷ post })
  enter_safe_region :
      {s : System}
      → (pre post : List Phase) → s.threads ≡ pre ++ running ∷ post
      → Step may_register s
          (record s { parked_mutators = suc s.parked_mutators; threads = pre ++ safe ∷ post })
  exit_safe_region :
      {s : System}
      → (pre post : List Phase) → s.threads ≡ pre ++ safe ∷ post
      → s.safepoint_requested ≡ false
      → Step may_register s
          (record s { parked_mutators = s.parked_mutators - 1; threads = pre ++ running ∷ post })
  sole_mutator :
      {s : System}
      → s.driver ≡ idle
      → s.active_mutators ≤ 1
      → Step may_register s (record s { driver = granted })
  request :
      {s : System}
      → s.driver ≡ idle
      → 2 ≤ s.active_mutators
      → s.safepoint_requested ≡ false
      → Step may_register s (record s { driver = asked; safepoint_requested = true })
  all_parked :
      {s : System}
      → s.driver ≡ asked
      → s.active_mutators - 1 ≤ s.parked_mutators
      → Step may_register s (record s { driver = granted })
  time_out :
      {s : System}
      → s.driver ≡ asked
      → Step may_register s (record s { driver = idle; safepoint_requested = false })
  lock :
      {s : System}
      → s.driver ≡ granted
      → s.mutex_held ≡ false
      → Step may_register s (record s { driver = collecting; mutex_held = true })
  unlock :
      {s : System}
      → s.driver ≡ collecting
      → Step may_register s (record s { driver = released; mutex_held = false })
  release :
      {s : System}
      → s.driver ≡ released
      → Step may_register s (record s { driver = idle; safepoint_requested = false })

pub data Reach (may_register : Driver → Bool) (s : System) : System → Type 0 where
  here : Reach may_register s s
  next : {t u : System} → Reach may_register s t → Step may_register t u → Reach may_register s u
