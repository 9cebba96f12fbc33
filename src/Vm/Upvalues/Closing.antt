-- ===== src/Vm/Upvalues/Closing.antt =====
-- Closing upvalues does not change what they read (src/vm/BytecodeVMObjects.cpp).
use ez_language.Prelude.{
  ℕ, ◌≤◌, ◌<◌, ◌≡◌, ◌≢◌, refl, sym, ap, subst, ◌∙◌, ◌⊎◌, inl, inr, true, false, List, [], ◌∷◌,
  arith, ◌==◌, ==_iff, leb, ltb, lt→ltb, le→ltb_false, leb→le, if◌then◌else◌, Bool-cases,
}
use ez_language.Vm.Upvalues.{
  Location, at_slot, at_closed, Captured, put, close_all, close_upvalues, value_at, read_upvalue,
}

-- All slots of the list are below `slot`.
abbrev pub IsBelow : ℕ → List (ℕ × ℕ) → Type 0
IsBelow slot [] = Unit
IsBelow slot ((i, t) ∷ rest) = (t < slot) × IsBelow slot rest

pub IsBelow-trans : (a b : ℕ) (rest : List (ℕ × ℕ)) → a ≤ b → IsBelow a rest → IsBelow b rest
IsBelow-trans a b [] h k = tt
IsBelow-trans a b ((i, t) ∷ rest) h (k, r) = (omega arith, IsBelow-trans a b rest h r)

-- Those of the list with a slot below `last`.
unfoldable pub all_below : ℕ → List (ℕ × ℕ) → List (ℕ × ℕ)
all_below last [] = []
all_below last ((i, slot) ∷ rest) =
    let more = all_below last rest in if ltb slot last then (i, slot) ∷ more else more

all_below-IsBelow :
    (last : ℕ) (list : List (ℕ × ℕ)) → IsBelow last list → all_below last list ≡ list
unfolding all_below
all_below-IsBelow last [] h = refl
all_below-IsBelow last ((i, slot) ∷ rest) (u, h) =
    rw (lt→ltb slot last u) (ap (λ l. (i, slot) ∷ l) (all_below-IsBelow last rest h))

leb_false→lt : (a b : ℕ) → leb a b ≡ false → b < a
leb_false→lt a b h = ground arith

module _ {V : Type 0} where
  -- The list goes down the stack, and each of its objects points to its slot.
  abbrev pub IsOpen : ℕ → (ℕ → Location V) → List (ℕ × ℕ) → Type 0
  IsOpen n objects [] = Unit
  IsOpen n objects ((i, slot) ∷ rest) =
      (i < n) × ((objects i ≡ at_slot slot) × (IsBelow slot rest × IsOpen n objects rest))

  pub at_slot_inj : (a b : ℕ) (l : Location V) → l ≡ at_slot a → l ≡ at_slot b → a ≡ b
  at_slot_inj a b l e f = cc

  pub put_self : (objects : ℕ → Location V) (i : ℕ) (l : Location V) → put objects i l i ≡ l
  put_self objects i l = rw ((==_iff i i).1 refl) refl

  pub put_other :
      (objects : ℕ → Location V) (i j : ℕ) (l : Location V) → j ≢ i → put objects i l j ≡ objects j
  put_other objects i j l h = elim (Bool-cases (j == i)) [
    | inl e ↦ absurd (h ((==_iff j i).0 e))
    | inr e ↦ rw (e) refl
  ]

  -- A change of an object that points to a slot above all of the list, or to none.
  pub IsOpen-put :
      (n m i slot : ℕ) (objects : ℕ → Location V) (l : Location V) (rest : List (ℕ × ℕ))
      → n ≤ m
      → ((n ≤ i) ⊎ ((objects i ≡ at_slot slot) × IsBelow slot rest))
      → IsOpen n objects rest
      → IsOpen m (put objects i l) rest
  IsOpen-put n m i slot objects l [] u d h = tt
  IsOpen-put n m i slot objects l ((j, t) ∷ rest) u d (k, (at, (below, h))) = (
    omega arith,
    (
      put_other objects i j l (apart d) ∙ at,
      (below, IsOpen-put n m i slot objects l rest u (further d) h),
    ),
  )
    where
      apart : ((n ≤ i) ⊎ ((objects i ≡ at_slot slot) × ((t < slot) × IsBelow slot rest))) → j ≢ i
      apart (inl a) e = absurd (omega arith)
      apart (inr (a, (b, c))) e =
          absurd (omega (arith, at_slot_inj t slot (objects j) at (ap objects e ∙ a)))

      further :
          ((n ≤ i) ⊎ ((objects i ≡ at_slot slot) × ((t < slot) × IsBelow slot rest)))
          → (n ≤ i) ⊎ ((objects i ≡ at_slot slot) × IsBelow slot rest)
      further (inl a) = inl a
      further (inr (a, (b, c))) = inr (a, c)

  close_all-reads :
      (last n : ℕ) (stack : ℕ → V) (objects : ℕ → Location V) (list : List (ℕ × ℕ)) (k : ℕ)
      → IsOpen n objects list
      → value_at stack ((close_all last stack objects list).0 k) ≡ value_at stack (objects k)
  unfolding close_all
  close_all-reads last n stack objects [] k h = refl
  close_all-reads last n stack objects ((i, slot) ∷ rest) k (u, (at, (below, h))) =
      elim (Bool-cases (leb last slot)) [
        | inl e ↦ rw (e) (
            close_all-reads last n stack (put objects i (at_closed (stack slot))) rest k (
              IsOpen-put n n i slot objects (at_closed (stack slot)) rest (omega arith)
                (inr (at, below)) h)
            ∙ elim (Bool-cases (k == i)) [
              | inl f ↦ rw (f) (ap (value_at stack) (sym at ∙ ap objects (sym ((==_iff k i).0 f))))
              | inr f ↦ rw (f) refl
            ])
        | inr e ↦ rw (e) refl
      ]

  close_all-IsOpen :
      (last n : ℕ) (stack : ℕ → V) (objects : ℕ → Location V) (list : List (ℕ × ℕ))
      → IsOpen n objects list
      → IsOpen n (close_all last stack objects list).0 (close_all last stack objects list).1
        × IsBelow last (close_all last stack objects list).1
  unfolding close_all
  close_all-IsOpen last n stack objects [] h = (tt, tt)
  close_all-IsOpen last n stack objects ((i, slot) ∷ rest) (u, (at, (below, h))) =
      elim (Bool-cases (leb last slot)) [
        | inl e ↦ rw (e) (
            close_all-IsOpen last n stack (put objects i (at_closed (stack slot))) rest (
              IsOpen-put n n i slot objects (at_closed (stack slot)) rest (omega arith)
                (inr (at, below)) h))
        | inr e ↦ rw (e) (
          (u, (at, (below, h))),
          (under e, IsBelow-trans slot last rest (omega (arith, under e)) below),
        )
      ]
    where
      under : leb last slot ≡ false → slot < last
      under e = ground arith

  -- Each object whose slot is not below `last` holds the value of the slot itself.
  abbrev pub HasClosed : ℕ → (ℕ → V) → (ℕ → Location V) → List (ℕ × ℕ) → Type 0
  HasClosed last stack objects [] = Unit
  HasClosed last stack objects ((i, slot) ∷ rest) =
      (last ≤ slot → objects i ≡ at_closed (stack slot)) × HasClosed last stack objects rest

  HasClosed-IsBelow :
      (last : ℕ) (stack : ℕ → V) (objects : ℕ → Location V) (list : List (ℕ × ℕ))
      → IsBelow last list
      → HasClosed last stack objects list
  HasClosed-IsBelow last stack objects [] h = tt
  HasClosed-IsBelow last stack objects ((i, slot) ∷ rest) (u, h) =
      (λ k. absurd (omega arith), HasClosed-IsBelow last stack objects rest h)

  at_closed-at_slot : (v : V) (t : ℕ) (l : Location V) → l ≡ at_closed v → l ≡ at_slot t → ⊥
  at_closed-at_slot v t l e f = cc

  -- An object that is closed already stays as it is.
  close_all-untouched :
      (last n : ℕ) (stack : ℕ → V) (objects : ℕ → Location V) (list : List (ℕ × ℕ)) (k : ℕ) (v : V)
      → IsOpen n objects list
      → objects k ≡ at_closed v
      → (close_all last stack objects list).0 k ≡ at_closed v
  unfolding close_all
  close_all-untouched last n stack objects [] k v h e = e
  close_all-untouched last n stack objects ((i, slot) ∷ rest) k v (u, (at, (below, h))) e =
      elim (Bool-cases (leb last slot)) [
        | inl c ↦ rw (c) (
            close_all-untouched last n stack (put objects i (at_closed (stack slot))) rest k v
              (IsOpen-put n n i slot objects (at_closed (stack slot)) rest (omega arith)
                (inr (at, below)) h)
              (put_other objects i k (at_closed (stack slot))
                  (λ same. at_closed-at_slot v slot (objects i) (ap objects (sym same) ∙ e) at)
                ∙ e))
        | inr c ↦ rw (c) e
      ]

  close_all-closes :
      (last : ℕ) (stack : ℕ → V) (objects : ℕ → Location V) (i slot : ℕ) (rest : List (ℕ × ℕ))
      → leb last slot ≡ true
      → close_all last stack objects ((i, slot) ∷ rest)
        ≡ close_all last stack (put objects i (at_closed (stack slot))) rest
  unfolding close_all
  close_all-closes last stack objects i slot rest c = rw (c) refl

  close_all-stops :
      (last : ℕ) (stack : ℕ → V) (objects : ℕ → Location V) (i slot : ℕ) (rest : List (ℕ × ℕ))
      → leb last slot ≡ false
      → close_all last stack objects ((i, slot) ∷ rest) ≡ (objects, (i, slot) ∷ rest)
  unfolding close_all
  close_all-stops last stack objects i slot rest c = rw (c) refl

  -- What is closed of a list, and what stays open.
  abbrev Leaves : ℕ → (ℕ → V) → List (ℕ × ℕ) → (ℕ → Location V) × List (ℕ × ℕ) → Type 0
  Leaves last stack list r = HasClosed last stack r.0 list × (r.1 ≡ all_below last list)

  close_all-Leaves :
      (last n : ℕ) (stack : ℕ → V) (objects : ℕ → Location V) (list : List (ℕ × ℕ))
      → IsOpen n objects list
      → Leaves last stack list (close_all last stack objects list)
  unfolding all_below
  close_all-Leaves last n stack objects [] h = unfold close_all in (tt, refl)
  close_all-Leaves last n stack objects ((i, slot) ∷ rest) (u, (at, (below, h))) =
      let moved : ℕ → Location V = put objects i (at_closed (stack slot)) in
      let open_rest : IsOpen n moved rest =
        IsOpen-put n n i slot objects (at_closed (stack slot)) rest (omega arith) (inr (at, below))
          h in
      let ih = close_all-Leaves last n stack moved rest open_rest in
      elim (Bool-cases (leb last slot)) [
        | inl c ↦
            subst (λ r. Leaves last stack ((i, slot) ∷ rest) r)
              (sym (close_all-closes last stack objects i slot rest c))
              (
                (
                  λ k.
                      close_all-untouched last n stack moved rest i (stack slot) open_rest
                        (put_self objects i (at_closed (stack slot))),
                  ih.0,
                ),
                rw (le→ltb_false slot last (leb→le last slot c)) ih.1,
              )
        | inr c ↦
            let under : slot < last = leb_false→lt last slot c in
            let rest_under : IsBelow last rest = IsBelow-trans slot last rest (omega arith) below in
            subst (λ r. Leaves last stack ((i, slot) ∷ rest) r)
              (sym (close_all-stops last stack objects i slot rest c))
              (
                (λ k. absurd (omega arith), HasClosed-IsBelow last stack objects rest rest_under),
                rw (lt→ltb slot last under)
                    (ap (λ l. (i, slot) ∷ l) (sym (all_below-IsBelow last rest rest_under))),
              )
      ]

  -- Where the open upvalues stand in the order of their slots and point to them: after
  -- `closeUpvalues` exactly those with a slot below the given one are open, in the same order and still
  -- pointing to their slots; each of the others holds the value of its slot itself; and every
  -- upvalue object reads as the value that it read before.
  pub close_upvalues_lem :
      (last : ℕ) (s : Captured V)
      → IsOpen s.next_object s.objects s.open_upvalues
      → ((i : ℕ) → read_upvalue (close_upvalues last s) i ≡ read_upvalue s i)
        × (IsOpen s.next_object
              (close_upvalues last s).objects
              (close_upvalues last s).open_upvalues
            × (HasClosed last s.stack (close_upvalues last s).objects s.open_upvalues
                × ((close_upvalues last s).open_upvalues ≡ all_below last s.open_upvalues)))
  unfolding close_upvalues read_upvalue
  close_upvalues_lem last s h = (
    λ i. close_all-reads last s.next_object s.stack s.objects s.open_upvalues i h,
    (
      (close_all-IsOpen last s.next_object s.stack s.objects s.open_upvalues h).0,
      close_all-Leaves last s.next_object s.stack s.objects s.open_upvalues h,
    ),
  )
