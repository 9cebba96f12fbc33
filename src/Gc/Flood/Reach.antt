-- ===== src/Gc/Flood/Reach.antt =====
-- The loop of `phase3_findGarbage` (src/gc/CycleCollector.cpp) empties its worklist, and then
-- exactly what can be reached from the seeds is flagged.
use ez_language.Prelude.{
  ℕ, zero, suc, ◌+◌, ◌≤◌, ◌<◌, ◌≡◌, refl, sym, subst, ◌∙◌, ◌↔◌, ◌⊎◌, inl, inr, Bool, true, List, [],
  ◌∷◌, arith, length, All,
}
use ez_language.Gc.Flood.{flagged, Marks, mark, flood}
use ez_language.Gc.Flood.Steps.{In, unmarked, mark-Grows, mark-flagged}

-- What can be reached along references from a seed.
pub data Reach (edges : ℕ → List ℕ) (Seed : ℕ → Type 0) : ℕ → Type 0 where
  start : {i : ℕ} → Seed i → Reach edges Seed i
  step : {i j : ℕ} → Reach edges Seed i → In j (edges i) → Reach edges Seed j

module _ (n : ℕ) (edges : ℕ → List ℕ) (Seed : ℕ → Type 0)
    (bound : (i : ℕ) → All (λ j. j < n) (edges i)) where
  pub record Inv (m : Marks) : Type 0 where
    pub size : length m.flags ≡ n
    pub sound : (i : ℕ) → flagged m.flags i ≡ true → Reach edges Seed i
    pub waiting : (i : ℕ) → In i m.worklist → flagged m.flags i ≡ true
    pub closed :
        (i : ℕ)
        → flagged m.flags i ≡ true
        → In i m.worklist ⊎ ((j : ℕ) → In j (edges i) → flagged m.flags j ≡ true)
    pub seeds : (i : ℕ) → Seed i → flagged m.flags i ≡ true

  round-Inv :
      (i : ℕ) (rest : List ℕ) (flags : List Bool)
      → Inv (record { flags = flags; worklist = i ∷ rest })
      → Inv (mark (edges i) (record { flags = flags; worklist = rest }))
  round-Inv i rest flags v =
      let within = subst (λ l. All (λ j. j < l) (edges i)) (sym v.size) (bound i) in
      let grown = mark-Grows (edges i) (record { flags = flags; worklist = rest }) within in
      let reached = v.sound i (v.waiting i (inl refl)) in
      record {
        size = grown.size ∙ v.size;
        sound = λ k h. elim (grown.fresh k h) [
          | inl old ↦ v.sound k old
          | inr new ↦ step reached new.0
        ];
        waiting = grown.waiting (λ k h. v.waiting k (inr h));
        closed = λ k h. elim (grown.fresh k h) [
          | inl old ↦ elim (v.closed k old) [
            | inl front ↦ elim front [
              | inl e ↦
                  inr (λ j g. mark-flagged (edges i) _ j within (subst (λ x. In j (edges x)) e g))
              | inr behind ↦ inl (grown.waits k behind)
            ]
            | inr done ↦ inr (λ j g. grown.keeps j (done j g))
          ]
          | inr new ↦ inl new.1
        ];
        seeds = λ k h. grown.keeps k (v.seeds k h);
      }

  pub flood-Inv_at :
      (fuel : ℕ) (flags : List Bool) (worklist : List ℕ)
      → Inv (record { flags = flags; worklist = worklist })
      → Inv (flood edges fuel (record { flags = flags; worklist = worklist }))
  unfolding flood
  flood-Inv_at zero flags worklist v = v
  flood-Inv_at (suc fuel) flags [] v = v
  flood-Inv_at (suc fuel) flags (i ∷ rest) v =
      let next = mark (edges i) (record { flags = flags; worklist = rest }) in
      flood-Inv_at fuel next.flags next.worklist (round-Inv i rest flags v)

  flood_empty_at :
      (fuel : ℕ) (flags : List Bool) (worklist : List ℕ)
      → length flags ≡ n
      → unmarked flags + length worklist ≤ fuel
      → (flood edges fuel (record { flags = flags; worklist = worklist })).worklist ≡ []
  unfolding flood
  flood_empty_at zero flags [] z h = refl
  flood_empty_at zero flags (i ∷ rest) z h = absurd (omega arith)
  flood_empty_at (suc fuel) flags [] z h = refl
  flood_empty_at (suc fuel) flags (i ∷ rest) z h =
      let m : Marks = record { flags = flags; worklist = rest } in
      let grown =
        mark-Grows (edges i) m (subst (λ l. All (λ j. j < l) (edges i)) (sym z) (bound i)) in
      flood_empty_at fuel (mark (edges i) m).flags (mark (edges i) m).worklist (grown.size ∙ z)
        (omega (arith, grown.balance))

  -- With fuel for every candidate that is not flagged, and every one that waits, exactly what can
  -- be reached is flagged in the end.
  pub flood-Reach :
      (fuel : ℕ) (m : Marks)
      → Inv m
      → unmarked m.flags + length m.worklist ≤ fuel
      → (i : ℕ) → ((flagged (flood edges fuel m).flags i ≡ true) ↔ Reach edges Seed i)
  flood-Reach fuel m v h i = (last.sound i, reached)
    where
      last : Inv (flood edges fuel m)
      last = flood-Inv_at fuel m.flags m.worklist v

      reached : {k : ℕ} → Reach edges Seed k → flagged (flood edges fuel m).flags k ≡ true
      reached (start seed) = last.seeds _ seed
      reached (step {i} {j} r edge) = elim (last.closed i (reached r)) [
        | inl waits ↦ absurd (subst (In i) (flood_empty_at fuel m.flags m.worklist v.size h) waits)
        | inr done ↦ done j edge
      ]
