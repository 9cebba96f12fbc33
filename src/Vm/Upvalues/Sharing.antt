-- ===== src/Vm/Upvalues/Sharing.antt =====
-- A slot has one upvalue object while it is open (src/vm/BytecodeVMExecute.cpp).
use ez_language.Prelude.{
  ℕ, suc, ◌<◌, ◌≡◌, refl, sym, ap, subst, ◌∙◌, ◌⊎◌, inl, inr, false, List, [], ◌∷◌, arith, ◌==◌,
  ==_iff, ltb, lt→ltb, ltb→lt, ltb_false→le, le→ltb_false, Bool-cases,
}
use ez_language.Vm.Upvalues.{Location, at_slot, Captured, put, find_open, capture_upvalue}
use ez_language.Vm.Upvalues.Closing.{
  IsBelow, IsOpen, put_self, put_other, IsOpen-put, IsBelow-trans,
}

-- A second walk for the same slot ends where the first did.
find_open_twice :
    (n m local : ℕ) (list : List (ℕ × ℕ))
    → find_open m local (find_open n local list).1 ≡ find_open n local list
unfolding find_open
find_open_twice n m local [] =
    rw (le→ltb_false local local (omega arith)) (rw ((==_iff local local).1 refl) refl)
find_open_twice n m local ((i, slot) ∷ rest) = elim (Bool-cases (ltb local slot)) [
  | inl e ↦ rw (e) (rw (e) (ap (λ r. (r.0, (i, slot) ∷ r.1)) (find_open_twice n m local rest)))
  | inr e ↦ elim (Bool-cases (slot == local)) [
    | inl f ↦ rw (e) (rw (f) (rw (e) (rw (f) refl)))
    | inr f ↦ rw (e) (
        rw (f)
          (rw (le→ltb_false local local (omega arith)) (rw ((==_iff local local).1 refl) refl)))
  ]
]

-- The object `i` is in the list for the slot.
abbrev pub IsOpenFor : ℕ → ℕ → List (ℕ × ℕ) → Type 0
IsOpenFor i slot [] = ⊥
IsOpenFor i slot ((j, t) ∷ rest) = ((j ≡ i) × (t ≡ slot)) ⊎ IsOpenFor i slot rest

IsOpenFor-IsBelow :
    (i slot top : ℕ) (list : List (ℕ × ℕ)) → IsBelow top list → IsOpenFor i slot list → slot < top
IsOpenFor-IsBelow i slot top [] b h = elim h [ ]
IsOpenFor-IsBelow i slot top ((j, t) ∷ rest) (u, b) (inl (e, f)) = omega arith
IsOpenFor-IsBelow i slot top ((j, t) ∷ rest) (u, b) (inr h) = IsOpenFor-IsBelow i slot top rest b h

find_open-kept :
    (n local i slot : ℕ) (list : List (ℕ × ℕ))
    → IsOpenFor i slot list
    → IsOpenFor i slot (find_open n local list).1
unfolding find_open
find_open-kept n local i slot [] h = elim h [ ]
find_open-kept n local i slot ((j, t) ∷ rest) h = elim (Bool-cases (ltb local t)) [
  | inl e ↦ rw (e) (elim h [ inl g ↦ inl g | inr g ↦ inr (find_open-kept n local i slot rest g) ])
  | inr e ↦ elim (Bool-cases (t == local)) [
    | inl f ↦ rw (e) (rw (f) h)
    | inr f ↦ rw (e) (rw (f) (inr h))
  ]
]

module _ {V : Type 0} where
  find_open-IsOpenFor :
      (n m i slot : ℕ) (objects : ℕ → Location V) (list : List (ℕ × ℕ))
      → IsOpen m objects list
      → IsOpenFor i slot list
      → (find_open n slot list).0 ≡ i
  unfolding find_open
  find_open-IsOpenFor n m i slot objects [] o h = elim h [ ]
  find_open-IsOpenFor n m i slot objects ((j, t) ∷ rest) (k, (at, (below, o))) (inl (e, f)) =
      rw (le→ltb_false slot t (omega arith), (==_iff t slot).1 f) e
  find_open-IsOpenFor n m i slot objects ((j, t) ∷ rest) (k, (at, (below, o))) (inr h) =
      rw (lt→ltb slot t (IsOpenFor-IsBelow i slot t rest below h))
        (find_open-IsOpenFor n m i slot objects rest o h)

  -- The walk ends at an open upvalue of the slot, or puts a new one in its place in the order.
  abbrev Finds : ℕ → ℕ → (ℕ → Location V) → List (ℕ × ℕ) → ℕ × List (ℕ × ℕ) → Type 0
  Finds n local objects list (j, tail) =
      ((j < n) × (objects j ≡ at_slot local))
      ⊎ ((j ≡ n)
          × (IsOpen (suc n) (put objects n (at_slot local)) tail
              × ((m : ℕ) → local < m → IsBelow m list → IsBelow m tail)))

  Finds-cons :
      (n local i slot : ℕ) (objects : ℕ → Location V) (rest : List (ℕ × ℕ)) (r : ℕ × List (ℕ × ℕ))
      → local < slot
      → IsOpen n objects ((i, slot) ∷ rest)
      → Finds n local objects rest r
      → Finds n local objects ((i, slot) ∷ rest) (r.0, (i, slot) ∷ r.1)
  Finds-cons n local i slot objects rest (j, tail) u h (inl d) = inl d
  Finds-cons n local i slot objects rest (j, tail) u (k, (at, (below, h))) (inr (e, (o, b))) = inr (
    e,
    (
      (
        omega arith,
        (
          put_other objects n i (at_slot local) (λ x. absurd (omega arith)) ∙ at,
          (b slot u below, o),
        ),
      ),
      λ m l x. (x.0, b m l x.1),
    ),
  )

  find_open-Finds :
      (n local : ℕ) (objects : ℕ → Location V) (list : List (ℕ × ℕ))
      → IsOpen n objects list
      → Finds n local objects list (find_open n local list)
  unfolding find_open
  find_open-Finds n local objects [] h =
      inr (refl, ((omega arith, (put_self objects n (at_slot local), (tt, tt))), λ m l x. (l, tt)))
  find_open-Finds n local objects ((i, slot) ∷ rest) (k, (at, (below, h))) =
      elim (Bool-cases (ltb local slot)) [
        | inl e ↦ rw (e) (
            Finds-cons n local i slot objects rest (find_open n local rest) (ltb→lt local slot e)
              (k, (at, (below, h))) (find_open-Finds n local objects rest h))
        | inr e ↦ elim (Bool-cases (slot == local)) [
          | inl f ↦ rw (e) (rw (f) (inl (k, at ∙ ap at_slot ((==_iff slot local).0 f))))
          | inr f ↦ rw (e) (
              rw (f) (
                inr (
                  refl,
                  (
                    (
                      omega arith,
                      (
                        put_self objects n (at_slot local),
                        (
                          (
                            lower e f,
                            IsBelow-trans slot local rest (ltb_false→le local slot e) below,
                          ),
                          IsOpen-put n (suc n) n slot objects (at_slot local) ((i, slot) ∷ rest)
                              (omega arith) (inl (omega arith)) (k, (at, (below, h))),
                        ),
                      ),
                    ),
                    λ m l x. (l, x),
                  ),
                )))
        ]
      ]
    where
      lower : ltb local slot ≡ false → (slot == local) ≡ false → slot < local
      lower e f = ground arith

  captured :
      (local : ℕ) (s : Captured V)
      → IsOpen s.next_object s.objects s.open_upvalues
      → ((capture_upvalue local s).1.objects (capture_upvalue local s).0 ≡ at_slot local)
        × (IsOpen
              (capture_upvalue local s).1.next_object
              (capture_upvalue local s).1.objects
              (capture_upvalue local s).1.open_upvalues
            × ((capture_upvalue local (capture_upvalue local s).1).0 ≡ (capture_upvalue local s).0))
  unfolding capture_upvalue
  captured local s h = elim (find_open-Finds s.next_object local s.objects s.open_upvalues h) [
    | inl (k, at) ↦ rw (old k) (at, (h, refl))
    | inr (e, (o, b)) ↦ rw ((==_iff found s.next_object).1 e) (
      put_self s.objects found (at_slot local),
      (
        subst (λ n. IsOpen (suc n) (put s.objects n (at_slot local)) opened) (sym e) o,
        ap (λ r. r.0) (find_open_twice s.next_object (suc found) local s.open_upvalues),
      ),
    )
  ]
    where
      found : ℕ
      found = (find_open s.next_object local s.open_upvalues).0

      opened : List (ℕ × ℕ)
      opened = (find_open s.next_object local s.open_upvalues).1

      old : found < s.next_object → (found == s.next_object) ≡ false
      old k = ground arith

  still_open :
      (local : ℕ) (s : Captured V) (i slot : ℕ)
      → IsOpenFor i slot s.open_upvalues
      → IsOpenFor i slot (capture_upvalue local s).1.open_upvalues
  unfolding capture_upvalue
  still_open local s i slot e =
      elim (Bool-cases ((find_open s.next_object local s.open_upvalues).0 == s.next_object)) [
        | inl c ↦ rw (c) (find_open-kept s.next_object local i slot s.open_upvalues e)
        | inr c ↦ rw (c) e
      ]

  -- Where the open upvalues stand in the order of their slots and point to them, they still do after
  -- `captureUpvalue`, the object that it gives points to the slot, and a later call for the slot
  -- gives the same object. Whatever object was open for a slot before is still the one that a call for
  -- that slot gives.
  pub capture_upvalue_lem :
      (local : ℕ) (s : Captured V)
      → IsOpen s.next_object s.objects s.open_upvalues
      → ((capture_upvalue local s).1.objects (capture_upvalue local s).0 ≡ at_slot local)
        × (IsOpen
              (capture_upvalue local s).1.next_object
              (capture_upvalue local s).1.objects
              (capture_upvalue local s).1.open_upvalues
            × (((capture_upvalue local (capture_upvalue local s).1).0 ≡ (capture_upvalue local s).0)
                × ((i slot : ℕ)
                    → IsOpenFor i slot s.open_upvalues
                    → (capture_upvalue slot (capture_upvalue local s).1).0 ≡ i)))
  unfolding capture_upvalue
  capture_upvalue_lem local s h =
      let (at, (o, twice)) = captured local s h in
      (
        at,
        (
          o,
          (
            twice,
            λ i slot e.
                find_open-IsOpenFor (capture_upvalue local s).1.next_object
                  (capture_upvalue local s).1.next_object i slot (capture_upvalue local s).1.objects
                  (capture_upvalue local s).1.open_upvalues o (still_open local s i slot e),
          ),
        ),
      )
