-- ===== src/Utils/Levenshtein.antt =====
-- That `nameDistance` (src/utils/StringHelpers.h) computes the distance of Levenshtein up to its
-- limit.
use Prim.Native.Nat.{min}
use ez_language.Prelude.{
  ℕ, suc, ◌+◌, ◌≤◌, ◌<◌, ◌≡◌, refl, sym, ap, ◌∙◌, arith, true, ◌||◌, List, [], ◌∷◌, ltb, length,
  Bool-cases, inl, inr, ltb→lt,
}
use ez_language.Bytecode.Types.{Text}
use ez_language.Bytecode.Pool.{text_eq}
use ez_language.Bytecode.Pool.Reuse.{text_eq-eq}
use ez_language.Utils.Distance.{cost, next_row, least, last_cell, rows, first_row, name_distance}

-- The distance of two texts that are read from their ends: the least number of letters to insert,
-- delete or replace, where the case of a letter does not count.
unfoldable pub levenshtein : Text → Text → ℕ
levenshtein [] b = length b
levenshtein (x ∷ a) [] = suc (length a)
levenshtein (x ∷ a) (y ∷ b) =
    min (min (levenshtein a (y ∷ b) + 1) (levenshtein (x ∷ a) b + 1)) (levenshtein a b + cost x y)

-- The letters of a text in front of those of another, in reverse.
unfoldable pub backwards : Text → Text → Text
backwards [] done = done
backwards (x ∷ a) done = backwards a (x ∷ done)

-- The true cells of a row: `a` is read, `b` is read before the columns.
unfoldable cells : Text → Text → Text → List ℕ
unfolding levenshtein
cells a b [] = []
cells a b (y ∷ ys) = levenshtein a (y ∷ b) ∷ cells a (y ∷ b) ys

next_row-cells :
    (x : ℕ) (a b ys : Text)
    → next_row x (levenshtein (x ∷ a) b) (levenshtein a b) (cells a b ys) ys ≡ cells (x ∷ a) b ys
unfolding next_row cells levenshtein
next_row-cells x a b [] = refl
next_row-cells x a b (y ∷ ys) =
    ap (λ r. levenshtein (x ∷ a) (y ∷ b) ∷ r) (next_row-cells x a (y ∷ b) ys)

first_row-cells : (j : ℕ) (b ys : Text) → j ≡ suc (length b) → first_row j ys ≡ cells [] b ys
unfolding first_row cells levenshtein
first_row-cells j b [] h = refl
first_row-cells j b (y ∷ ys) h =
    let ih = first_row-cells (j + 1) (y ∷ b) ys (omega (arith, h)) in λ i. h i ∷ ih i

last_cell-cells :
    (a b ys : Text) → last_cell (levenshtein a b) (cells a b ys) ≡ levenshtein a (backwards ys b)
unfolding last_cell cells backwards
last_cell-cells a b [] = refl
last_cell-cells a b (y ∷ ys) = last_cell-cells a (y ∷ b) ys

-- All cells of a row are above a limit.
abbrev Above : ℕ → Text → Text → Text → Type 0
Above k a b [] = k < levenshtein a b
Above k a b (y ∷ ys) = (k < levenshtein a b) × Above k a (y ∷ b) ys

least_le : (best : ℕ) (row : List ℕ) → least best row ≤ best
unfolding least
least_le best [] = omega arith
least_le best (cell ∷ row) = omega (arith, least_le (min best cell) row)

least-Above :
    (k best : ℕ) (a b ys : Text)
    → k < least best (cells a b ys)
    → k < levenshtein a b
    → Above k a b ys
unfolding least cells
least-Above k best a b [] h first = first
least-Above k best a b (y ∷ ys) h first =
    let le = least_le (min best (levenshtein a (y ∷ b))) (cells a (y ∷ b) ys) in
    (first, least-Above k (min best (levenshtein a (y ∷ b))) a (y ∷ b) ys h (omega arith))

head-Above : (k : ℕ) (a b ys : Text) → Above k a b ys → k < levenshtein a b
head-Above k a b [] h = h
head-Above k a b (y ∷ ys) h = h.0

Above-empty : (k : ℕ) (a b : Text) → Above k a [] b → k < length a
unfolding levenshtein
Above-empty k [] b h = head-Above k [] [] b h
Above-empty k (x ∷ a) b h = head-Above k (x ∷ a) [] b h

next_cell :
    (k x y : ℕ) (a b : Text)
    → k < levenshtein a b
    → k < levenshtein a (y ∷ b)
    → k < levenshtein (x ∷ a) b
    → k < levenshtein (x ∷ a) (y ∷ b)
unfolding levenshtein
next_cell k x y a b diagonal up left = omega arith

-- No cell of the next row can be lower.
next-Above :
    (k x : ℕ) (a b ys : Text) → Above k a b ys → k < levenshtein (x ∷ a) b → Above k (x ∷ a) b ys
next-Above k x a b [] h first = first
next-Above k x a b (y ∷ ys) h first =
    let up = head-Above k a (y ∷ b) ys h.1 in
    let left : k < levenshtein (x ∷ a) (y ∷ b) = next_cell k x y a b h.0 up first in
    (first, next-Above k x a (y ∷ b) ys h.1 left)

last-Above : (k : ℕ) (a b ys : Text) → Above k a b ys → k < levenshtein a (backwards ys b)
unfolding backwards
last-Above k a b [] h = h
last-Above k a b (y ∷ ys) h = last-Above k a (y ∷ b) ys h.1

rows-Above :
    (k : ℕ) (rest a b : Text) → Above k a [] b → k < levenshtein (backwards rest a) (backwards b [])
unfolding backwards levenshtein
rows-Above k [] a b h = last-Above k a [] b h
rows-Above k (x ∷ rest) a b h =
    rows-Above k rest (x ∷ a) b (next-Above k x a [] b h (omega (arith, Above-empty k a b h)))

-- The same number, or two numbers above the limit.
pub data Agree (k r d : ℕ) : Type 0 where
  same : r ≡ d → Agree k r d
  both_above : k < r → k < d → Agree k r d

cut_off :
    (k best : ℕ) (rest a b : Text)
    → Above k a [] b
    → Agree k (k + 1) (levenshtein (backwards rest a) (backwards b []))
cut_off k best rest a b h = both_above (omega arith) (rows-Above k rest a b h)

rows_lem :
    (k i first : ℕ) (rest a b : Text)
    → i ≡ suc (length a)
    → first ≡ levenshtein a []
    → Agree k
        (rows k i first (cells a [] b) rest b)
        (levenshtein (backwards rest a) (backwards b []))
unfolding rows backwards levenshtein
rows_lem k i first [] a b hi hf =
    same (ap (λ f. last_cell f (cells a [] b)) hf ∙ last_cell-cells a [] b)
rows_lem k i first (x ∷ rest) a b hi hf =
    let e : next_row x i first (cells a [] b) b ≡ cells (x ∷ a) [] b =
      rw (hi, hf) (next_row-cells x a [] b) in
    rw e (elim (Bool-cases (ltb k (least i (cells (x ∷ a) [] b)))) [
      | inl above ↦ rw above (
          cut_off k i rest (x ∷ a) b (
            least-Above k i (x ∷ a) [] b (ltb→lt k _ above)
              (omega (arith, hi, least_le i (cells (x ∷ a) [] b), ltb→lt k _ above))))
      | inr below ↦ rw below (rows_lem k (i + 1) i rest (x ∷ a) b (omega (arith, hi)) hi)
    ])

cost_self : (x : ℕ) → cost x x ≡ 0
unfolding cost
cost_self x = ground arith

levenshtein_self : (a : Text) → levenshtein a a ≡ 0
unfolding levenshtein
levenshtein_self [] = refl
levenshtein_self (x ∷ a) = omega (arith, levenshtein_self a, cost_self x)

shorter_by : (a b : Text) → length a ≤ length b + levenshtein a b
unfolding levenshtein
shorter_by [] b = omega arith
shorter_by (x ∷ a) [] = omega arith
shorter_by (x ∷ a) (y ∷ b) =
    omega (arith, shorter_by a (y ∷ b), shorter_by (x ∷ a) b, shorter_by a b)

longer_by : (a b : Text) → length b ≤ length a + levenshtein a b
unfolding levenshtein
longer_by [] b = omega arith
longer_by (x ∷ a) [] = omega arith
longer_by (x ∷ a) (y ∷ b) = omega (arith, longer_by a (y ∷ b), longer_by (x ∷ a) b, longer_by a b)

length-backwards : (a done : Text) → length (backwards a done) ≡ length a + length done
unfolding backwards
length-backwards [] done = omega arith
length-backwards (x ∷ a) done = omega (arith, length-backwards a (x ∷ done))

too_far :
    (limit : ℕ) (a b : Text)
    → (ltb (length b + limit) (length a) || ltb (length a + limit) (length b)) ≡ true
    → limit < levenshtein (backwards a []) (backwards b [])
too_far limit a b h =
    let p = backwards a [] in
    let q = backwards b [] in
    let la = length-backwards a [] in
    let lb = length-backwards b [] in
    elim (Bool-cases (ltb (length b + limit) (length a))) [
      | inl far ↦ omega (arith, la, lb, shorter_by p q, ltb→lt _ _ far)
      | inr near ↦ omega (arith, la, lb, longer_by p q, ltb→lt _ _ (rw near at h))
    ]

equal_names : (a b : Text) → a ≡ b → 0 ≡ levenshtein (backwards a []) (backwards b [])
equal_names a b e =
    sym (levenshtein_self (backwards a []))
    ∙ ap (λ c. levenshtein (backwards a []) (backwards c [])) e

-- What `nameDistance` gives is the distance of Levenshtein of the two names, read from their
-- ends and without regard to case, or else both that distance and what it gives are above the limit.
pub name_distance-levenshtein :
    (a b : Text) (limit : ℕ)
    → Agree limit (name_distance a b limit) (levenshtein (backwards a []) (backwards b []))
unfolding name_distance
name_distance-levenshtein a b limit = elim (Bool-cases (text_eq a b)) [
  | inl eq ↦ rw eq (same (equal_names a b (text_eq-eq a b eq)))
  | inr ne ↦
      rw ne
        (elim (Bool-cases
          (ltb (length b + limit) (length a) || ltb (length a + limit) (length b))) [
            | inl far ↦ rw far (both_above (omega arith) (too_far limit a b far))
            | inr near ↦
                rw (near, first_row-cells 1 [] b refl)
                  (rows_lem limit 1 0 a [] b refl (unfold levenshtein in refl))
          ])
]
