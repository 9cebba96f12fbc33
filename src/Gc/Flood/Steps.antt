-- ===== src/Gc/Flood/Steps.antt =====
-- What the visits of src/gc/CycleCollector.cpp do to the flags and the worklist.
use ez_language.Prelude.{
  ℕ, zero, suc, ◌+◌, ◌≤◌, ◌<◌, ◌≡◌, refl, sym, subst, ap, ◌∙◌, ◌⊎◌, inl, inr, Bool, true, false,
  List, [], ◌∷◌, arith, if◌then◌else◌, set, length, length-set, All, Bool-cases,
}
use ez_language.Gc.Flood.{flagged, Marks, mark_one, mark}

abbrev pub In : ℕ → List ℕ → Type 0
In x [] = ⊥
In x (y ∷ ys) = (x ≡ y) ⊎ In x ys

pub flagged-set_self :
    (flags : List Bool) (i : ℕ) → i < length flags → flagged (set flags i true) i ≡ true
unfolding flagged
flagged-set_self [] i h = absurd (omega arith)
flagged-set_self (b ∷ flags) zero h = refl
flagged-set_self (b ∷ flags) (suc i) h = flagged-set_self flags i (omega arith)

flagged-set_keep :
    (flags : List Bool) (i j : ℕ) → flagged flags i ≡ true → flagged (set flags j true) i ≡ true
unfolding flagged
flagged-set_keep [] i j h = h
flagged-set_keep (b ∷ flags) zero zero h = refl
flagged-set_keep (b ∷ flags) zero (suc j) h = h
flagged-set_keep (b ∷ flags) (suc i) zero h = h
flagged-set_keep (b ∷ flags) (suc i) (suc j) h = flagged-set_keep flags i j h

pub flagged-set_back :
    (flags : List Bool) (i j : ℕ)
    → flagged (set flags j true) i ≡ true
    → (i ≡ j) ⊎ (flagged flags i ≡ true)
unfolding flagged
flagged-set_back [] i j h = inr h
flagged-set_back (b ∷ flags) zero zero h = inl refl
flagged-set_back (b ∷ flags) zero (suc j) h = inr h
flagged-set_back (b ∷ flags) (suc i) zero h = inr h
flagged-set_back (b ∷ flags) (suc i) (suc j) h = elim (flagged-set_back flags i j h) [
  | inl e ↦ inl (ap suc e)
  | inr k ↦ inr k
]

-- How many candidates are not flagged.
unfoldable pub unmarked : List Bool → ℕ
unmarked [] = 0
unmarked (b ∷ flags) = (if b then 0 else 1) + unmarked flags

unmarked-set :
    (flags : List Bool) (j : ℕ)
    → j < length flags
    → flagged flags j ≡ false
    → suc (unmarked (set flags j true)) ≡ unmarked flags
unfolding flagged unmarked
unmarked-set [] j l h = absurd (omega arith)
unmarked-set (b ∷ flags) zero l h = rw (h) (omega arith)
unmarked-set (b ∷ flags) (suc j) l h = omega (arith, unmarked-set flags j (omega arith) h)

pub unmarked-le : (flags : List Bool) → unmarked flags ≤ length flags
unfolding unmarked
unmarked-le [] = omega arith
unmarked-le (b ∷ flags) = ground (arith, unmarked-le flags)

-- Nothing that was flagged or waiting is lost, what is new was visited and waits, and each new flag
-- is one entry of the worklist.
pub record Grows (js : List ℕ) (m t : Marks) : Type 0 where
  pub size : length t.flags ≡ length m.flags
  pub keeps : (i : ℕ) → flagged m.flags i ≡ true → flagged t.flags i ≡ true
  pub waits : (i : ℕ) → In i m.worklist → In i t.worklist
  pub fresh :
      (i : ℕ) → flagged t.flags i ≡ true → (flagged m.flags i ≡ true) ⊎ (In i js × In i t.worklist)
  pub balance : unmarked t.flags + length t.worklist ≡ unmarked m.flags + length m.worklist
  pub waiting :
      ((i : ℕ) → In i m.worklist → flagged m.flags i ≡ true)
      → (i : ℕ) → In i t.worklist
      → flagged t.flags i ≡ true

mark_one-Grows : (j : ℕ) (m : Marks) → j < length m.flags → Grows (j ∷ []) m (mark_one j m)
unfolding mark_one
mark_one-Grows j m l = elim (Bool-cases (flagged m.flags j)) [
  | inl h ↦ rw (h) (record {
    size = refl;
    keeps = λ i k. k;
    waits = λ i k. k;
    fresh = λ i k. inl k;
    balance = refl;
    waiting = λ w. w;
  })
  | inr h ↦ rw (h) (record {
    size = length-set m.flags j true;
    keeps = λ i k. flagged-set_keep m.flags i j k;
    waits = λ i k. inr k;
    fresh =
        λ i k. elim (flagged-set_back m.flags i j k) [ inl e ↦ inr (inl e, inl e) | inr b ↦ inl b ];
    balance = omega (arith, unmarked-set m.flags j l h);
    waiting = λ w i k. elim k [
      | inl e ↦ rw (e) (flagged-set_self m.flags j l)
      | inr b ↦ flagged-set_keep m.flags i j (w i b)
    ];
  })
]

mark_one-flagged : (j : ℕ) (m : Marks) → j < length m.flags → flagged (mark_one j m).flags j ≡ true
unfolding mark_one
mark_one-flagged j m l = elim (Bool-cases (flagged m.flags j)) [
  | inl h ↦ rw (h) h
  | inr h ↦ rw (h) (flagged-set_self m.flags j l)
]

Grows-trans :
    (j : ℕ) (js : List ℕ) (m t u : Marks) → Grows (j ∷ []) m t → Grows js t u → Grows (j ∷ js) m u
Grows-trans j js m t u a b = record {
  size = b.size ∙ a.size;
  keeps = λ i k. b.keeps i (a.keeps i k);
  waits = λ i k. b.waits i (a.waits i k);
  fresh = λ i k. elim (b.fresh i k) [
    | inl h ↦ elim (a.fresh i h) [
      | inl g ↦ inl g
      | inr g ↦ inr (elim g.0 [ inl e ↦ inl e | inr n ↦ absurd n ], b.waits i g.1)
    ]
    | inr h ↦ inr (inr h.0, h.1)
  ];
  balance = b.balance ∙ a.balance;
  waiting = λ w. b.waiting (a.waiting w);
}

pub mark-Grows :
    (js : List ℕ) (m : Marks) → All (λ j. j < length m.flags) js → Grows js m (mark js m)
unfolding mark
mark-Grows [] m l = record {
  size = refl;
  keeps = λ i k. k;
  waits = λ i k. k;
  fresh = λ i k. inl k;
  balance = refl;
  waiting = λ w. w;
}
mark-Grows (j ∷ js) m l =
    let first = mark_one-Grows j m l.0 in
    Grows-trans j js m (mark_one j m) (mark js (mark_one j m)) first
      (mark-Grows js (mark_one j m) (subst (λ n. All (λ i. i < n) js) (sym first.size) l.1))

pub mark-flagged :
    (js : List ℕ) (m : Marks) (i : ℕ)
    → All (λ j. j < length m.flags) js
    → In i js
    → flagged (mark js m).flags i ≡ true
unfolding mark
mark-flagged [] m i l h = absurd h
mark-flagged (j ∷ js) m i l h =
    let size = (mark_one-Grows j m l.0).size in
    let later = subst (λ n. All (λ i. i < n) js) (sym size) l.1 in
    elim h [
      | inl e ↦ (mark-Grows js (mark_one j m) later).keeps i (rw (e) (mark_one-flagged j m l.0))
      | inr k ↦ mark-flagged js (mark_one j m) i later k
    ]
