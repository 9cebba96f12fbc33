-- ===== src/Compiler/Globals.antt =====
-- The slots of global variables (`globalSlotFor` and `setGlobalSlot` of
-- src/compiler/BytecodeCompiler.cpp).
pub mod Granted
use ez_language.Prelude.{
  ℕ, zero, suc, ◌+◌, ◌%◌, ◌^◌, ◌≤◌, ◌<◌, ◌≡◌, refl, sym, ap, subst, ◌∙◌, ◌⊎◌, inl, inr, Bool, true,
  false, Option, none, some, List, [], ◌∷◌, arith, ltb, leb, ltb→lt, ltb_false→le, if◌then◌else◌,
  Bool-cases, Option-cases,
}
use mathlib.Core.Option.{none-ne-some, some_inj}
use ez_language.Bytecode.Types.{Text}
use ez_language.Bytecode.Pool.{text_eq}
use ez_language.Compiler.State.{too_many_globals, Result, ok, thrown, error_at}

pub record Globals : Type 0 where
  pub global_slots : List (Text × ℕ)
  pub next_global_slot : ℕ

-- `globalSlots.find`
unfoldable pub find_slot : Text → List (Text × ℕ) → Option ℕ
unfolding text_eq
find_slot name [] = none
find_slot name ((other, i) ∷ slots) =
    let rest = find_slot name slots in if text_eq other name then some i else rest

-- `globalSlots[name] = slot`
unfoldable pub put_slot : Text → ℕ → List (Text × ℕ) → List (Text × ℕ)
unfolding text_eq
put_slot name slot [] = (name, slot) ∷ []
put_slot name slot ((other, i) ∷ slots) =
    let rest = put_slot name slot slots in
    if text_eq other name then (other, slot) ∷ slots else (other, i) ∷ rest

-- With what `globalSlots.find` gives. `nextGlobalSlot` has 32 bits, a slot 16. The slot 0 is returned where `errorAt` returns.
unfoldable pub find_or_take : Option ℕ → Bool → Text → Globals → Result (ℕ × Globals)
unfolding put_slot error_at
find_or_take (some i) had_error name g = ok (i, g)
find_or_take none had_error name g =
    if ltb 65535 g.next_global_slot
    then error_at too_many_globals had_error (ok (0, g))
    else ok (
      g.next_global_slot % 2 ^ 16,
      record {
        global_slots = put_slot name (g.next_global_slot % 2 ^ 16) g.global_slots;
        next_global_slot = (g.next_global_slot + 1) % 2 ^ 32;
      },
    )

unfoldable pub global_slot_for : Bool → Text → Globals → Result (ℕ × Globals)
unfolding find_slot find_or_take
global_slot_for had_error name g = find_or_take (find_slot name g.global_slots) had_error name g

unfoldable pub set_global_slot : Text → ℕ → Globals → Globals
unfolding put_slot
set_global_slot name slot g = record {
  global_slots = put_slot name slot g.global_slots;
  next_global_slot = if leb g.next_global_slot slot then suc slot else g.next_global_slot;
}
