-- ===== src/Utils/Distance.antt =====
-- How far a name is from another one (src/utils/StringHelpers.h), which the parser and the type
-- checker ask for their suggestions. The two rows of the table are lists; the columns behind the
-- current one stand for an index.
use Prim.Native.Nat.{min}
use ez_language.Prelude.{ℕ, ◌+◌, ◌&&◌, ◌||◌, List, [], ◌∷◌, ltb, leb, ◌==◌, if◌then◌else◌, length}
use ez_language.Bytecode.Types.{Text}
use ez_language.Bytecode.Pool.{text_eq}

-- `std::tolower` for the letters of ASCII.
unfoldable pub to_lower : ℕ → ℕ
to_lower c = if leb b'A' c && leb c b'Z' then c + 32 else c

unfoldable pub cost : ℕ → ℕ → ℕ
unfolding to_lower
cost x y = if to_lower x == to_lower y then 0 else 1

-- `current` from a column on: `left` is the cell before, `diagonal` the cell before in the
-- previous row.
unfoldable pub next_row : ℕ → ℕ → ℕ → List ℕ → Text → List ℕ
unfolding cost
next_row x left diagonal (up ∷ ups) (y ∷ ys) =
    let cell = min (min (up + 1) (left + 1)) (diagonal + cost x y) in
    cell ∷ next_row x cell up ups ys
next_row x left diagonal _ _ = []

-- `best`
unfoldable pub least : ℕ → List ℕ → ℕ
least best [] = best
least best (cell ∷ cells) = least (min best cell) cells

unfoldable pub last_cell : ℕ → List ℕ → ℕ
last_cell first [] = first
last_cell first (cell ∷ cells) = last_cell cell cells

-- The loop over the rows, from row `i` on. The first column of the previous row stands apart.
unfoldable pub rows : ℕ → ℕ → ℕ → List ℕ → Text → Text → ℕ
unfolding next_row least last_cell
rows limit i first previous [] b = last_cell first previous
rows limit i first previous (x ∷ a) b =
    let current = next_row x i first previous b in
    let rest = rows limit (i + 1) i current a b in
    if ltb limit (least i current) then limit + 1 else rest

unfoldable pub first_row : ℕ → Text → List ℕ
first_row j [] = []
first_row j (y ∷ ys) = j ∷ first_row (j + 1) ys

unfoldable pub name_distance : Text → Text → ℕ → ℕ
unfolding text_eq rows first_row
name_distance a b limit =
    if text_eq a b
    then 0
    else if ltb (length b + limit) (length a) || ltb (length a + limit) (length b)
    then limit + 1
    else rows limit 1 0 (first_row 1 b) a b
