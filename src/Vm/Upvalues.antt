-- ===== src/Vm/Upvalues.antt =====
-- The captured variables of the virtual machine (`captureUpvalue` of src/vm/BytecodeVMExecute.cpp
-- and `closeUpvalues` of src/vm/BytecodeVMObjects.cpp). A stack slot has its index for its address,
-- and an upvalue object its number.
pub mod Closing
pub mod Sharing
use ez_language.Prelude.{ℕ, suc, Bool, List, [], ◌∷◌, ◌==◌, ltb, leb, if◌then◌else◌}

-- What `location` points to: a slot of the stack, or the field `closed` with its value.
pub data Location (V : Type 0) : Type 0 where
  at_slot : ℕ → Location V
  at_closed : V → Location V

-- `open_upvalues` is the list from `openUpvalues` along `next`: the objects, each with its slot.
pub record Captured (V : Type 0) : Type 0 where
  pub stack : ℕ → V
  pub objects : ℕ → Location V
  pub next_object : ℕ
  pub open_upvalues : List (ℕ × ℕ)

abbrev pub put : {V : Type 0} → (ℕ → Location V) → ℕ → Location V → ℕ → Location V
put objects i l j = if j == i then l else objects j

-- The walk of `captureUpvalue`: the object for the slot `local`, and the list with it. `fresh` is
-- the object that is made when there is none.
unfoldable pub find_open : ℕ → ℕ → List (ℕ × ℕ) → ℕ × List (ℕ × ℕ)
find_open fresh local [] = (fresh, (fresh, local) ∷ [])
find_open fresh local ((i, slot) ∷ rest) =
    let further = find_open fresh local rest in
    if ltb local slot
    then (further.0, (i, slot) ∷ further.1)
    else if slot == local
    then (i, (i, slot) ∷ rest)
    else (fresh, (fresh, local) ∷ (i, slot) ∷ rest)

unfoldable pub capture_upvalue : {V : Type 0} → ℕ → Captured V → ℕ × Captured V
unfolding find_open
capture_upvalue local s =
    let (i, opened) = find_open s.next_object local s.open_upvalues in
    (
      i,
      if i == s.next_object
          then record s {
            objects = put s.objects i (at_slot local);
            next_object = suc i;
            open_upvalues = opened;
          }
          else s,
    )

-- The loop of `closeUpvalues`.
unfoldable pub close_all :
    {V : Type 0} → ℕ → (ℕ → V) → (ℕ → Location V) → List (ℕ × ℕ) → (ℕ → Location V) × List (ℕ × ℕ)
close_all last stack objects [] = (objects, [])
close_all last stack objects ((i, slot) ∷ rest) =
    let closed = close_all last stack (put objects i (at_closed (stack slot))) rest in
    if leb last slot then closed else (objects, (i, slot) ∷ rest)

unfoldable pub close_upvalues : {V : Type 0} → ℕ → Captured V → Captured V
unfolding close_all
close_upvalues last s =
    let (objects, open_upvalues) = close_all last s.stack s.objects s.open_upvalues in
    record s { objects = objects; open_upvalues = open_upvalues }

abbrev pub value_at : {V : Type 0} → (ℕ → V) → Location V → V
value_at stack (at_slot slot) = stack slot
value_at stack (at_closed v) = v

-- LOAD_UPVALUE: `*location`.
unfoldable pub read_upvalue : {V : Type 0} → Captured V → ℕ → V
read_upvalue s i = value_at s.stack (s.objects i)
