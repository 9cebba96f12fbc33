-- ===== src/Compiler/Upvalues/Captures.antt =====
-- The meaning of upvalue indices: which variable of which enclosing function one stands for.
use ez_language.Prelude.{
  ℕ, zero, suc, ◌≤◌, ◌<◌, ◌≡◌, refl, ap, subst, ◌∙◌, inl, inr, Bool, true, false, Option, none,
  some, List, [], ◌∷◌, ◌++◌, arith, ◌==◌, ==_iff, leb, leb→le, if◌then◌else◌, length, get_elem?,
  get_elem?-append_left, get_elem?-append_self, lt-of_get_elem?, Bool-cases,
}
use mathlib.Core.Option.{none-ne-some, some_inj}
use ez_language.Bytecode.Types.{Text, Upvalue, UpvalueType, local, upvalue, other}
use ez_language.Bytecode.Pool.{text_eq}
use ez_language.Compiler.State.{Local, Compiler, Result, ok, thrown, error_at, last_named}
use ez_language.Compiler.Upvalues.{
  same_type, same_upvalue, later, find_upvalue, push_upvalue, reuse_or_push, add_upvalue, capture,
}

-- A variable: how many functions further out it is, and its slot there.
abbrev pub Variable : Type 0
Variable = ℕ × ℕ

abbrev pub outward : Option Variable → Option Variable
outward none = none
outward (some (k, i)) = some (suc k, i)

abbrev pub by_type : UpvalueType → ℕ → Option Variable → Option Variable
by_type local i outer = some (0, i)
by_type upvalue i outer = outward outer
by_type (other t) i outer = none

abbrev pub target : Option Upvalue → (ℕ → Option Variable) → Option Variable
target none outer = none
target (some v) outer = by_type v.type v.index (outer v.index)

-- What the virtual machine captures for the upvalue `u`, by the types and indices of the upvalues
-- of the function and of the enclosing ones.
unfoldable pub variable_of : List Upvalue → List Compiler → ℕ → Option Variable
variable_of us [] u = none
variable_of us (d ∷ ds) u = target (get_elem? us u) (λ i. variable_of d.upvalues ds i)

abbrev pub nearest : Option ℕ → Option Variable → Option Variable
nearest none outer = outward outer
nearest (some i) outer = some (0, i)

-- The innermost variable of a name in the functions around.
unfoldable pub binding : Text → List Compiler → Option Variable
binding name [] = none
binding name (d ∷ ds) = nearest (last_named name d.locals) (binding name ds)

unfoldable pub captured_slot : ℕ → List Local → Bool
captured_slot i [] = false
captured_slot i (l ∷ ls) =
    let rest = captured_slot i ls in if length ls == i then l.is_captured else rest

unfoldable pub captured : List Compiler → Variable → Bool
captured [] b = false
captured (d ∷ ds) (zero, i) = captured_slot i d.locals
captured (d ∷ ds) (suc k, i) = captured ds (k, i)

-- All upvalues of the first list stay where they are in the second.
abbrev pub Extends : List Upvalue → List Upvalue → Type 0
Extends us vs = (j : ℕ) (u : Upvalue) → get_elem? us j ≡ some u → get_elem? vs j ≡ some u

-- What `addUpvalue` may do: give the index of the capture and keep all earlier ones, or throw
-- when there is no room.
abbrev pub Adds : Bool → Upvalue → List Upvalue → Result (ℕ × Compiler) → Type 0
Adds had_error v us (ok (i, d)) = (get_elem? d.upvalues i ≡ some v) × Extends us d.upvalues
Adds had_error v us (thrown e) = (had_error ≡ false) × (255 ≤ length us)

same_type-eq : (s t : UpvalueType) → same_type s t ≡ true → s ≡ t
unfolding same_type
same_type-eq local local h = refl
same_type-eq upvalue upvalue h = refl
same_type-eq (other a) (other b) h = ap other ((==_iff a b).0 h)
same_type-eq _ _ h = cc

same_upvalue-eq : (u v : Upvalue) → same_upvalue u v ≡ true → u ≡ v
unfolding same_upvalue
same_upvalue-eq u v h =
    let index : u.index ≡ v.index = ground arith in
    let type : u.type ≡ v.type = same_type-eq u.type v.type (ground arith) in
    ap (λ i. record { type = u.type; index = i }) index
    ∙ ap (λ t. record { type = t; index = v.index }) type

abbrev At : Upvalue → List Upvalue → Option ℕ → Type 0
At v us none = Unit
At v us (some i) = get_elem? us i ≡ some v

At-later : (v u : Upvalue) (us : List Upvalue) (o : Option ℕ) → At v us o → At v (u ∷ us) (later o)
At-later v u us none a = tt
At-later v u us (some i) a = a

find_upvalue-At : (v : Upvalue) (us : List Upvalue) → At v us (find_upvalue v us)
unfolding find_upvalue
find_upvalue-At v [] = tt
find_upvalue-At v (u ∷ us) = elim (Bool-cases (same_upvalue u v)) [
  | inl e ↦ rw (e) (ap (λ x. some x) (same_upvalue-eq u v e))
  | inr e ↦ rw (e) (At-later v u us (find_upvalue v us) (find_upvalue-At v us))
]

extends : (us : List Upvalue) (v : Upvalue) → Extends us (us ++ v ∷ [])
extends us v j u h = get_elem?-append_left us (v ∷ []) j (lt-of_get_elem? us j u h) ∙ h

reuse_or_push-Adds :
    (o : Option ℕ) (had_error : Bool) (v : Upvalue) (c : Compiler)
    → At v c.upvalues o
    → Adds had_error v c.upvalues (reuse_or_push o had_error v c)
unfolding reuse_or_push push_upvalue error_at
reuse_or_push-Adds (some i) had_error v c a = (a, λ j u h. h)
reuse_or_push-Adds none had_error v c a = elim (Bool-cases (leb 255 (length c.upvalues))) [
  | inl full ↦ rw (full) (elim (Bool-cases had_error) [
    | inl t ↦ rw (t) (get_elem?-append_self c.upvalues [] v, extends c.upvalues v)
    | inr f ↦ rw (f) (refl, leb→le 255 (length c.upvalues) full)
  ])
  | inr room ↦ rw (room) (get_elem?-append_self c.upvalues [] v, extends c.upvalues v)
]

pub add_upvalue-Adds :
    (had_error : Bool) (v : Upvalue) (c : Compiler)
    → Adds had_error v c.upvalues (add_upvalue had_error v c)
unfolding add_upvalue
add_upvalue-Adds had_error v c =
    reuse_or_push-Adds (find_upvalue v c.upvalues) had_error v c (find_upvalue-At v c.upvalues)

length-capture : (i : ℕ) (ls : List Local) → length (capture i ls) ≡ length ls
unfolding capture
length-capture i [] = refl
length-capture i (l ∷ ls) = elim (Bool-cases (length ls == i)) [
  | inl e ↦ rw (e) refl
  | inr e ↦ rw (e) (ap suc (length-capture i ls))
]

pub last_named-lt :
    (name : Text) (i : ℕ) (ls : List Local) → last_named name ls ≡ some i → i < length ls
unfolding last_named
last_named-lt name i [] h = absurd (none-ne-some i h)
last_named-lt name i (l ∷ ls) h = elim (Bool-cases (text_eq l.name name)) [
  | inl e ↦ omega (
    arith,
    some_inj.0 (subst (λ t. (if t then some (length ls) else last_named name ls) ≡ some i) e h),
  )
  | inr e ↦ omega (
    arith,
    last_named-lt name i ls
        (subst (λ t. (if t then some (length ls) else last_named name ls) ≡ some i) e h),
  )
]

pub captured_slot-capture :
    (i : ℕ) (ls : List Local) → i < length ls → captured_slot i (capture i ls) ≡ true
unfolding captured_slot capture
captured_slot-capture i [] h = absurd (omega arith)
captured_slot-capture i (l ∷ ls) h = elim (Bool-cases (length ls == i)) [
  | inl e ↦ rw (e) (rw (e) refl)
  | inr e ↦ rw (e) (rw (length-capture i ls) (rw (e) (captured_slot-capture i ls (other_slot e))))
]
  where
    other_slot : (length ls == i) ≡ false → i < length ls
    other_slot e = ground arith
