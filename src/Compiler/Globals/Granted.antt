-- ===== src/Compiler/Globals/Granted.antt =====
-- Each global name has a slot of its own (src/compiler/BytecodeCompiler.cpp).
use ez_language.Prelude.{
  ℕ, suc, ◌≤◌, ◌<◌, ◌≡◌, refl, sym, ap, ◌∙◌, ◌⊎◌, inl, inr, false, Option, none, some, List, [],
  ◌∷◌, arith, ltb, ltb→lt, ltb_false→le, ◌%◌, ◌^◌, ◌+◌, Bool-cases,
}
use mathlib.Core.Option.{none-ne-some, some_inj}
use ez_language.Bytecode.Types.{Text}
use ez_language.Bytecode.Pool.{text_eq}
use ez_language.Bytecode.Pool.Reuse.{text_eq-eq}
use ez_language.Compiler.Scopes.Closing.{text_eq_self}
use ez_language.Compiler.State.{Result, ok, thrown, error_at}
use ez_language.Compiler.Globals.{Globals, find_slot, put_slot, find_or_take, global_slot_for}

find_slot-put_self :
    (name : Text) (slot : ℕ) (slots : List (Text × ℕ))
    → find_slot name (put_slot name slot slots) ≡ some slot
unfolding find_slot put_slot
find_slot-put_self name slot [] = rw (text_eq_self name) refl
find_slot-put_self name slot ((other, i) ∷ slots) = elim (Bool-cases (text_eq other name)) [
  | inl e ↦ rw (e) (rw (e) refl)
  | inr e ↦ rw (e) (rw (e) (find_slot-put_self name slot slots))
]

find_slot-put_other :
    (name other : Text) (slot : ℕ) (slots : List (Text × ℕ))
    → text_eq name other ≡ false
    → find_slot other (put_slot name slot slots) ≡ find_slot other slots
unfolding find_slot put_slot
find_slot-put_other name other slot [] h = rw (h) refl
find_slot-put_other name other slot ((x, i) ∷ slots) h = elim (Bool-cases (text_eq x name)) [
  | inl e ↦ rw (e) (rw (ap (λ t. text_eq t other) (text_eq-eq x name e) ∙ h) refl)
  | inr e ↦ rw (e) (elim (Bool-cases (text_eq x other)) [
    | inl f ↦ rw (f) refl
    | inr f ↦ rw (f) (find_slot-put_other name other slot slots h)
  ])
]

-- All slots are below the next one, and no two names share one.
pub record IsInjective (g : Globals) : Type 0 where
  pub below : (a : Text) (i : ℕ) → find_slot a g.global_slots ≡ some i → i < g.next_global_slot
  pub distinct :
      (a b : Text) (i : ℕ)
      → find_slot a g.global_slots ≡ some i
      → find_slot b g.global_slots ≡ some i
      → a ≡ b

-- What `globalSlotFor` may do.
abbrev pub Grants : Text → Globals → Result (ℕ × Globals) → Type 0
Grants name g (ok (i, h)) =
    (find_slot name h.global_slots ≡ some i)
    × (((a : Text) (j : ℕ)
          → find_slot a g.global_slots ≡ some j
          → find_slot a h.global_slots ≡ some j)
        × IsInjective h)
Grants name g (thrown e) = 65536 ≤ g.next_global_slot

put-cases :
    (name a : Text) (slot i : ℕ) (slots : List (Text × ℕ))
    → find_slot a (put_slot name slot slots) ≡ some i
    → ((name ≡ a) × (slot ≡ i)) ⊎ (find_slot a slots ≡ some i)
put-cases name a slot i slots h = elim (Bool-cases (text_eq name a)) [
  | inl e ↦
      let same = text_eq-eq name a e in
      inl (
        same,
        some_inj.0 (
            sym (find_slot-put_self name slot slots)
            ∙ ap (λ t. find_slot t (put_slot name slot slots)) same
            ∙ h),
      )
  | inr e ↦ inr (sym (find_slot-put_other name a slot slots e) ∙ h)
]

abbrev after_taking : Text → Globals → Globals
after_taking name g = record {
  global_slots = put_slot name g.next_global_slot g.global_slots;
  next_global_slot = suc g.next_global_slot;
}

taken-IsInjective : (name : Text) (g : Globals) → IsInjective g → IsInjective (after_taking name g)
taken-IsInjective name g v = record {
  below = λ a i h. elim (put-cases name a g.next_global_slot i g.global_slots h) [
    | inl (e, f) ↦ omega arith
    | inr f ↦ omega (arith, v.below a i f)
  ];
  distinct = λ a b i h k. elim (put-cases name a g.next_global_slot i g.global_slots h) [
    | inl (e, f) ↦ elim (put-cases name b g.next_global_slot i g.global_slots k) [
      | inl (e2, f2) ↦ sym e ∙ e2
      | inr f2 ↦ absurd (omega (arith, v.below b i f2))
    ]
    | inr f ↦ elim (put-cases name b g.next_global_slot i g.global_slots k) [
      | inl (e2, f2) ↦ absurd (omega (arith, v.below a i f))
      | inr f2 ↦ v.distinct a b i f f2
    ]
  ];
}

taken :
    (name : Text) (g : Globals)
    → IsInjective g
    → find_slot name g.global_slots ≡ none
    → Grants name g (ok (g.next_global_slot, after_taking name g))
taken name g v free = (
  find_slot-put_self name g.next_global_slot g.global_slots,
  (
    λ a j h. elim (Bool-cases (text_eq name a)) [
      | inl e ↦ absurd (
          none-ne-some j
            (sym free ∙ ap (λ t. find_slot t g.global_slots) (text_eq-eq name a e) ∙ h))
      | inr e ↦ find_slot-put_other name a g.next_global_slot g.global_slots e ∙ h
    ],
    taken-IsInjective name g v,
  ),
)

find_or_take-Grants :
    (o : Option ℕ) (name : Text) (g : Globals)
    → find_slot name g.global_slots ≡ o
    → IsInjective g
    → Grants name g (find_or_take o false name g)
unfolding find_or_take error_at
find_or_take-Grants (some i) name g e v = (e, (λ a j h. h, v))
find_or_take-Grants none name g e v = elim (Bool-cases (ltb 65535 g.next_global_slot)) [
  | inl full ↦ rw (full) (omega (arith, ltb→lt 65535 g.next_global_slot full))
  | inr room ↦
      let small : g.next_global_slot % 2 ^ 16 ≡ g.next_global_slot =
        omega (arith, ltb_false→le 65535 g.next_global_slot room) in
      let next : (g.next_global_slot + 1) % 2 ^ 32 ≡ suc g.next_global_slot =
        omega (arith, ltb_false→le 65535 g.next_global_slot room) in
      rw (room, small, next) (taken name g v e)
]

-- Where every slot is below the next one and no two names share a slot, and no error was there
-- before: `globalSlotFor` gives the name a slot, which it keeps; every other name keeps its own; and
-- still no two names share one. It throws only when 65,536 slots are taken.
pub global_slot_for-Grants :
    (name : Text) (g : Globals) → IsInjective g → Grants name g (global_slot_for false name g)
unfolding global_slot_for
global_slot_for-Grants name g v = find_or_take-Grants (find_slot name g.global_slots) name g refl v
