-- ===== src/Bytecode/Pool/Reuse.antt =====
-- What `addConstant` promises: the index it returns finds the constant again, the pool keeps what
-- it held, and no constant of the kinds that it compares stands in it twice.
use ez_language.Prelude.{
  ℕ, ◌<◌, ◌≡◌, refl, ap, Bool, true, false, Option, none, some, List, [], ◌∷◌, ◌++◌, append_assoc,
  append-nil, arith, ==_iff, if◌then◌else◌, length, get_elem?, get_elem?-append_left,
  get_elem?-append_self, sym, ◌∙◌, zero, suc, Bool-cases, ◌⊎◌, inl, inr,
}
use mathlib.Core.Option.{none-ne-some, some_inj}
use ez_language.Bytecode.Types.{Text, Constant, nil, bool, int, double, string, Chunk}
use ez_language.Bytecode.Pool.{
  text_eq, bool_eq, double_eq, is_nan, same_constant, next_index, find_constant, place, pool_add,
  add_constant, or_nil, get_constant, IsDistinct, IsDistinctFrom,
}

pub text_eq-eq : (s t : Text) → text_eq s t ≡ true → s ≡ t
unfolding text_eq
text_eq-eq [] [] h = refl
text_eq-eq [] (b ∷ t) h = cc
text_eq-eq (a ∷ s) [] h = cc
text_eq-eq (a ∷ s) (b ∷ t) h = ground (arith, text_eq-eq s t)

bool_eq-eq : (a b : Bool) → bool_eq a b ≡ true → a ≡ b
unfolding bool_eq
bool_eq-eq a b h = ground arith

-- Two constants that the pool takes for one: equal, or two doubles that `==` takes for one.
pub data Same : Constant → Constant → Type 0 where
  equal : (c : Constant) → Same c c
  doubles : (a b : ℕ) → double_eq a b ≡ true → Same (double a) (double b)

Same-of_eq : {c d : Constant} → c ≡ d → Same c d
Same-of_eq {c} e = rw (← e) (equal c)

same_constant-Same : (c d : Constant) → same_constant c d ≡ true → Same c d
unfolding same_constant
same_constant-Same nil nil h = equal nil
same_constant-Same (bool a) (bool b) h = Same-of_eq (ap bool (bool_eq-eq a b h))
same_constant-Same (int a) (int b) h = Same-of_eq (ap int ((==_iff a b).0 h))
same_constant-Same (double a) (double b) h = doubles a b h
same_constant-Same (string a) (string b) h = Same-of_eq (ap string (text_eq-eq a b h))
same_constant-Same _ _ h = cc

-- An index that the search gives holds a constant that is the same.
abbrev pub Found : Constant → List Constant → Option ℕ → Type 0
Found c cs none = Unit
Found c cs (some i) = (d : Constant) × (get_elem? cs i ≡ some d) × Same d c

Found-cons :
    (c d : Constant) (cs : List Constant) (b : Bool) (o : Option ℕ)
    → same_constant d c ≡ b
    → Found c cs o
    → Found c (d ∷ cs) (if b then some 0 else next_index o)
Found-cons c d cs true o e h = (d, refl, same_constant-Same d c e)
Found-cons c d cs false none e h = tt
Found-cons c d cs false (some i) e h = h

pub find_constant-Found : (c : Constant) (cs : List Constant) → Found c cs (find_constant c cs)
unfolding find_constant
find_constant-Found c [] = tt
find_constant-Found c (d ∷ cs) =
    Found-cons c d cs (same_constant d c) (find_constant c cs) refl (find_constant-Found c cs)

-- After `addConstant` the returned index finds the constant again: the very constant, or for a
-- double one that `==` takes for it; and no index that was handed out before changes its constant.
pub get_constant-add_constant :
    (c : Constant) (chunk : Chunk)
    → Same (get_constant (add_constant c chunk).1 (add_constant c chunk).0) c
      × ((i : ℕ)
          → i < length chunk.constants
          → get_constant (add_constant c chunk).1 i ≡ get_constant chunk i)
unfolding get_constant add_constant
get_constant-add_constant c chunk =
    placed (find_constant c chunk.constants) (find_constant-Found c chunk.constants)
  where
    placed :
        (o : Option ℕ)
        → Found c chunk.constants o
        → let (k, cs) = place c chunk.constants o in
          let after = record chunk { constants = cs } in
          Same (get_constant after k) c
          × ((i : ℕ) → i < length chunk.constants → get_constant after i ≡ get_constant chunk i)
    placed none h = (
      rw (get_elem?-append_self chunk.constants [] c, or_nil) (equal c),
      λ i lt. rw (get_elem?-append_left chunk.constants (c ∷ []) i lt, or_nil),
    )
    placed (some k) (d, at_k, s) = (rw (at_k, or_nil) s, λ i lt. refl)

IsDistinctFrom-append :
    (seen cs : List Constant) (c : Constant)
    → IsDistinctFrom seen cs
    → find_constant c (seen ++ cs) ≡ none
    → IsDistinctFrom seen (cs ++ c ∷ [])
IsDistinctFrom-append seen [] c h e = (rw append-nil at e, tt)
IsDistinctFrom-append seen (d ∷ cs) c (fresh, h) e =
    (fresh, IsDistinctFrom-append (seen ++ d ∷ []) cs c h (rw (append_assoc seen (d ∷ []) cs) e))

pub pool_add-IsDistinct :
    (c : Constant) (cs : List Constant) → IsDistinct cs → IsDistinct (pool_add c cs).1
unfolding pool_add
pool_add-IsDistinct c cs h = placed (find_constant c cs) refl
  where
    placed : (o : Option ℕ) → find_constant c cs ≡ o → IsDistinct (place c cs o).1
    placed none e = IsDistinctFrom-append [] cs c h e
    placed (some i) e = h

-- The constants that a pool can hold once only: nil, Booleans, integers, texts, and doubles that are
-- numbers.
abbrev pub IsComparable : Constant → Type 0
IsComparable nil = Unit
IsComparable (bool b) = Unit
IsComparable (int n) = Unit
IsComparable (string s) = Unit
IsComparable (double d) = is_nan d ≡ false
IsComparable _ = ⊥

-- No such constant stands at two places.
abbrev pub StandsOnce : List Constant → Type 0
StandsOnce cs =
    (c : Constant) (i j : ℕ)
    → IsComparable c
    → get_elem? cs i ≡ some c
    → get_elem? cs j ≡ some c
    → i ≡ j

text_eq_refl : (s : Text) → text_eq s s ≡ true
unfolding text_eq
text_eq_refl [] = refl
text_eq_refl (a ∷ s) = rw ((==_iff a a).1 refl) (text_eq_refl s)

same_constant_refl : (c : Constant) → IsComparable c → same_constant c c ≡ true
unfolding same_constant double_eq bool_eq
same_constant_refl nil h = refl
same_constant_refl (bool true) h = refl
same_constant_refl (bool false) h = refl
same_constant_refl (int n) h = (==_iff n n).1 refl
same_constant_refl (double d) h = rw (h, (==_iff d d).1 refl) refl
same_constant_refl (string s) h = text_eq_refl s
same_constant_refl _ h = elim h [ ]

next_index-none : (o : Option ℕ) → next_index o ≡ none → o ≡ none
next_index-none none h = refl
next_index-none (some i) h = absurd (none-ne-some (suc i) (sym h))

-- A search that finds nothing has not passed the constant.
find_constant-at :
    (c : Constant) (cs : List Constant) (i : ℕ)
    → IsComparable c
    → find_constant c cs ≡ none
    → get_elem? cs i ≡ some c
    → ⊥
unfolding find_constant
find_constant-at c [] i k h e = none-ne-some c e
find_constant-at c (d ∷ cs) zero k h e =
    none-ne-some 0 (sym (rw (some_inj.0 e, same_constant_refl c k) refl ∙ h))
find_constant-at c (d ∷ cs) (suc i) k h e = elim (Bool-cases (same_constant d c)) [
  | inl t ↦ none-ne-some 0 (sym (rw t at h))
  | inr f ↦ find_constant-at c cs i k (next_index-none (find_constant c cs) (rw f at h)) e
]

in_append :
    (cs : List Constant) (c d : Constant) (i : ℕ)
    → get_elem? (cs ++ c ∷ []) i ≡ some d
    → (get_elem? cs i ≡ some d) ⊎ ((i ≡ length cs) × (c ≡ d))
in_append [] c d zero e = inr (refl, some_inj.0 e)
in_append [] c d (suc i) e = absurd (none-ne-some d e)
in_append (x ∷ cs) c d zero e = inl e
in_append (x ∷ cs) c d (suc i) e = elim (in_append cs c d i e) [
  | inl f ↦ inl f
  | inr (f, g) ↦ inr (ap suc f, g)
]

-- A pool in which no constant stands twice (where nil, Booleans, integers, texts and doubles that
-- are not NaN are compared, and no others) stays so when `addConstant` adds any constant.
pub pool_add-StandsOnce :
    (c : Constant) (cs : List Constant) → StandsOnce cs → StandsOnce (pool_add c cs).1
unfolding pool_add
pool_add-StandsOnce c cs h = placed (find_constant c cs) refl
  where
    new_twice :
        find_constant c cs ≡ none
        → (d : Constant) (i : ℕ) → IsComparable d
        → c ≡ d
        → get_elem? cs i ≡ some d
        → ⊥
    new_twice e d i k f g = find_constant-at d cs i k (ap (λ x. find_constant x cs) (sym f) ∙ e) g

    placed : (o : Option ℕ) → find_constant c cs ≡ o → StandsOnce (place c cs o).1
    placed (some n) e d i j k at_i at_j = h d i j k at_i at_j
    placed none e d i j k at_i at_j = elim (in_append cs c d i at_i) [
      | inl f ↦ elim (in_append cs c d j at_j) [
        | inl g ↦ h d i j k f g
        | inr (g, same) ↦ absurd (new_twice e d i k same f)
      ]
      | inr (f, same) ↦ elim (in_append cs c d j at_j) [
        | inl g ↦ absurd (new_twice e d j k same g)
        | inr (g, _) ↦ f ∙ sym g
      ]
    ]
