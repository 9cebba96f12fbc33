-- ===== src/Bytecode/Pool.antt =====
-- The constant pool of a chunk: `Chunk::addConstant`, `getConstant` and `resolveConstants`.
pub mod Reuse
use ez_language.Prelude.{
  ℕ, suc, ◌/◌, ◌%◌, ◌^◌, ◌≡◌, Bool, true, false, not, ◌&&◌, ◌||◌, Option, none, some, List, [], ◌∷◌,
  ◌++◌, map, ◌==◌, if◌then◌else◌, length, get_elem?,
}
use ez_language.Bytecode.Types.{Text, Constant, nil, bool, int, double, string, Chunk, Value}

unfoldable pub text_eq : Text → Text → Bool
text_eq [] [] = true
text_eq (a ∷ s) (b ∷ t) = a == b && text_eq s t
text_eq _ _ = false

unfoldable pub bool_eq : Bool → Bool → Bool
bool_eq true b = b
bool_eq false b = not b

-- A pattern whose exponent bits are all set and whose fraction is not zero.
unfoldable pub is_nan : ℕ → Bool
is_nan d = d / 2 ^ 52 % 2 ^ 11 == 2047 && not (d % 2 ^ 52 == 0)

-- `==` on doubles, on their IEEE 754 patterns: a NaN equals nothing, and 0.0 equals -0.0.
unfoldable pub double_eq : ℕ → ℕ → Bool
unfolding is_nan
double_eq a b =
    not (is_nan a) && (not (is_nan b) && (a == b || (a % 2 ^ 63 == 0 && b % 2 ^ 63 == 0)))

-- The test of the loop in `addConstant`: `c` is the entry of the pool.
unfoldable pub same_constant : Constant → Constant → Bool
unfolding double_eq text_eq bool_eq
same_constant nil nil = true
same_constant (bool a) (bool b) = bool_eq a b
same_constant (int a) (int b) = a == b
same_constant (double a) (double b) = double_eq a b
same_constant (string a) (string b) = text_eq a b
same_constant _ _ = false

abbrev pub next_index : Option ℕ → Option ℕ
next_index none = none
next_index (some i) = some (suc i)

-- The first index at which the pool holds the constant.
unfoldable pub find_constant : Constant → List Constant → Option ℕ
unfolding same_constant
find_constant c [] = none
find_constant c (d ∷ cs) = if same_constant d c then some 0 else next_index (find_constant c cs)

-- The index of the constant and the pool that holds it, from the result of the search.
unfoldable pub place : Constant → List Constant → Option ℕ → ℕ × List Constant
place c cs (some i) = (i, cs)
place c cs none = (length cs, cs ++ c ∷ [])

unfoldable pub pool_add : Constant → List Constant → ℕ × List Constant
unfolding find_constant place
pool_add c cs = place c cs (find_constant c cs)

unfoldable pub add_constant : Constant → Chunk → ℕ × Chunk
unfolding pool_add
add_constant c chunk =
    let (i, cs) = pool_add c chunk.constants in (i, record chunk { constants = cs })

unfoldable pub or_nil : Option Constant → Constant
or_nil (some c) = c
or_nil none = nil

-- Out of range the source reports an error and returns a nil constant.
unfoldable pub get_constant : Chunk → ℕ → Constant
unfolding or_nil
get_constant chunk i = or_nil (get_elem? chunk.constants i)

unfoldable pub resolve : Constant → Value
resolve (bool b) = Value.boolean b
resolve (int n) = Value.integer n
resolve (double d) = Value.number d
resolve (string s) = Value.text s
resolve _ = Value.nil

unfoldable pub resolve_constants : Chunk → Chunk
unfolding resolve
resolve_constants chunk = elim chunk.resolved_constants [
  | [] ↦ record chunk { resolved_constants = map resolve chunk.constants }
  | _ ↦ chunk
]

-- No constant of the list stands earlier in it, or in `seen`, by the test of `addConstant`.
abbrev pub IsDistinctFrom : List Constant → List Constant → Type 0
IsDistinctFrom seen [] = Unit
IsDistinctFrom seen (c ∷ cs) = (find_constant c seen ≡ none) × IsDistinctFrom (seen ++ c ∷ []) cs

abbrev pub IsDistinct : List Constant → Type 0
IsDistinct = IsDistinctFrom []
