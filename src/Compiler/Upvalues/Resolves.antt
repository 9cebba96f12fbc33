-- ===== src/Compiler/Upvalues/Resolves.antt =====
-- `resolveUpvalue` (src/compiler/BytecodeCompilerStmt.cpp) finds the innermost variable of a name.
use ez_language.Prelude.{
  ℕ, suc, ◌≤◌, ◌≡◌, refl, sym, ap, subst, ◌∙◌, ◌⊎◌, inl, inr, Bool, true, false, Option, none, some,
  List, [], ◌∷◌, length, get_elem?, Option-cases,
}
use mathlib.Core.Option.{none-ne-some}
use ez_language.Bytecode.Types.{Text, Upvalue, UpvalueType, local, upvalue, other}
use ez_language.Compiler.State.{Compiler, Result, ok, thrown, and_then, last_named}
use ez_language.Compiler.Upvalues.{
  add_upvalue, capture, Resolved, linked, pass_on, resolve_in, resolve_upvalue,
}
use ez_language.Compiler.Upvalues.Captures.{
  Variable, outward, by_type, target, variable_of, nearest, binding, captured, Extends, Adds,
  add_upvalue-Adds, last_named-lt, captured_slot-capture,
}

-- The answer for a name, in the compilers after the search.
abbrev pub Answers : Text → List Compiler → Compiler → List Compiler → Option ℕ → Type 0
Answers name before c after none = binding name before ≡ none
Answers name before c after (some u) =
    (b : Variable) × ((binding name before ≡ some b)
      × ((variable_of c.upvalues after u ≡ some b) × (captured after b ≡ true)))

-- Each upvalue stands for the variable that it stood for.
abbrev pub Keeps : Compiler → List Compiler → Compiler → List Compiler → Type 0
Keeps c before d after =
    (u : ℕ) (b : Variable)
    → variable_of c.upvalues before u ≡ some b
    → variable_of d.upvalues after u ≡ some b

-- Some function that has an enclosing one has no room for an upvalue.
abbrev pub IsFull : Compiler → List Compiler → Type 0
IsFull c [] = ⊥
IsFull c (d ∷ ds) = (255 ≤ length c.upvalues) ⊎ IsFull d ds

abbrev pub Resolves : Bool → Text → Compiler → List Compiler → Result Resolved → Type 0
Resolves had_error name c before (ok (r, (d, after))) =
    Answers name before d after r × Keeps c before d after
Resolves had_error name c before (thrown e) = (had_error ≡ false) × IsFull c before

by_type_mono :
    (t : UpvalueType) (i : ℕ) (o p : Option Variable) (b : Variable)
    → ((x : Variable) → o ≡ some x → p ≡ some x)
    → by_type t i o ≡ some b
    → by_type t i p ≡ some b
by_type_mono local i o p b f h = h
by_type_mono upvalue i none p b f h = absurd (none-ne-some b h)
by_type_mono upvalue i (some x) p b f h = ap outward (f x refl) ∙ h
by_type_mono (other t) i o p b f h = h

target_mono :
    (us vs : List Upvalue) (f g : ℕ → Option Variable) (u : ℕ) (b : Variable)
    → Extends us vs
    → ((i : ℕ) (x : Variable) → f i ≡ some x → g i ≡ some x)
    → target (get_elem? us u) f ≡ some b
    → target (get_elem? vs u) g ≡ some b
target_mono us vs f g u b x m h = elim (Option-cases (get_elem? us u)) [
  | inl e ↦ absurd (none-ne-some b (subst (λ o. target o f ≡ some b) e h))
  | inr (v, e) ↦
      subst (λ o. target o g ≡ some b) (sym (x u v e))
        (by_type_mono v.type v.index (f v.index) (g v.index) b (m v.index)
          (subst (λ o. target o f ≡ some b) e h))
]

linked-Resolves :
    (had_error : Bool) (name : Text) (c d e : Compiler) (before after : List Compiler) (v : Upvalue)
    (b : Variable) (r : Result (ℕ × Compiler))
    → Adds had_error v c.upvalues r
    → binding name (d ∷ before) ≡ some b
    → by_type v.type v.index (variable_of e.upvalues after v.index) ≡ some b
    → captured (e ∷ after) b ≡ true
    → Keeps d before e after
    → Resolves had_error name c (d ∷ before) (linked e after r)
unfolding and_then variable_of
linked-Resolves had_error name c d e before after v b (ok (i, f)) (at, x) bound reads marked keeps =
    (
      (b, (bound, (ap (λ o. target o (λ j. variable_of e.upvalues after j)) at ∙ reads, marked))),
      λ u y h.
          target_mono c.upvalues f.upvalues (λ j. variable_of d.upvalues before j)
            (λ j. variable_of e.upvalues after j) u y x keeps h,
    )
linked-Resolves had_error name c d e before after v b (thrown k) (f, full) bound reads marked
      keeps =
    (f, inl full)

pass_on-Resolves :
    (had_error : Bool) (name : Text) (c d : Compiler) (before : List Compiler)
    (outer : Result Resolved)
    → last_named name d.locals ≡ none
    → Resolves had_error name d before outer
    → Resolves had_error name c (d ∷ before) (and_then outer (pass_on had_error c))
unfolding and_then pass_on binding variable_of captured
pass_on-Resolves had_error name c d before (thrown k) e (f, full) = (f, inr full)
pass_on-Resolves had_error name c d before (ok (none, (d2, after))) e (answer, keeps) = (
  ap (λ o. nearest o (binding name before)) e ∙ ap outward answer,
  λ u y h.
      target_mono c.upvalues c.upvalues (λ j. variable_of d.upvalues before j)
        (λ j. variable_of d2.upvalues after j) u y (λ j v g. g) keeps h,
)
pass_on-Resolves had_error name c d before (ok (some i, (d2, after))) e
      (((k, j), (bound, (reads, marked))), keeps) =
    linked-Resolves had_error name c d d2 before after _ (suc k, j) (add_upvalue had_error _ c)
      (add_upvalue-Adds had_error _ c)
      (ap (λ o. nearest o (binding name before)) e ∙ ap outward bound) (ap outward reads) marked
      keeps

resolve_in-Resolves :
    (had_error : Bool) (name : Text) (c d : Compiler) (before : List Compiler)
    (outer : Result Resolved) (o : Option ℕ)
    → last_named name d.locals ≡ o
    → Resolves had_error name d before outer
    → Resolves had_error name c (d ∷ before) (resolve_in had_error c d before outer o)
unfolding resolve_in binding captured
resolve_in-Resolves had_error name c d before outer none e a =
    pass_on-Resolves had_error name c d before outer e a
resolve_in-Resolves had_error name c d before outer (some i) e a =
    linked-Resolves had_error name c d (record d { locals = capture i d.locals }) before before
      (record { type = local; index = i }) (0, i)
      (add_upvalue had_error (record { type = local; index = i }) c)
      (add_upvalue-Adds had_error (record { type = local; index = i }) c)
      (ap (λ o. nearest o (binding name before)) e) refl
      (captured_slot-capture i d.locals (last_named-lt name i d.locals e)) (λ u y h. h)

-- Whatever the enclosing functions are, `resolveUpvalue` either gives no index, and then no function
-- around has a variable of that name; or gives an index that stands, in the compilers that it
-- leaves, for the innermost variable of that name, which is then marked as captured; or throws, and
-- then there was no error before and some function on the way has 255 upvalues. All upvalues that
-- were there stand for the variables that they stood for.
pub resolve_upvalue-Resolves :
    (had_error : Bool) (name : Text) (c : Compiler) (enclosing : List Compiler)
    → Resolves had_error name c enclosing (resolve_upvalue had_error name c enclosing)
unfolding resolve_upvalue binding
resolve_upvalue-Resolves had_error name c [] = (refl, λ u b h. h)
resolve_upvalue-Resolves had_error name c (d ∷ ds) =
    resolve_in-Resolves had_error name c d ds (resolve_upvalue had_error name d ds)
      (last_named name d.locals) refl (resolve_upvalue-Resolves had_error name d ds)
