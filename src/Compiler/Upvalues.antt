-- ===== src/Compiler/Upvalues.antt =====
-- How a captured variable is found (`resolveUpvalue` and `addUpvalue` of
-- src/compiler/BytecodeCompilerStmt.cpp). A compiler stands with its enclosing ones, the nearest
-- first.
pub mod Captures
pub mod Resolves
use ez_language.Prelude.{
  ℕ, zero, suc, Bool, true, false, ◌&&◌, Option, none, some, List, [], ◌∷◌, ◌++◌, ◌==◌, leb,
  if◌then◌else◌, length,
}
use ez_language.Bytecode.Types.{Text, Upvalue, UpvalueType, local, upvalue, other}
use ez_language.Compiler.State.{
  Local, Compiler, too_many_captured, Result, ok, and_then, error_at, last_named,
}

unfoldable pub same_type : UpvalueType → UpvalueType → Bool
same_type local local = true
same_type upvalue upvalue = true
same_type (other a) (other b) = a == b
same_type _ _ = false

unfoldable pub same_upvalue : Upvalue → Upvalue → Bool
unfolding same_type
same_upvalue u v = u.index == v.index && same_type u.type v.type

abbrev pub later : Option ℕ → Option ℕ
later none = none
later (some i) = some (suc i)

-- The search of `addUpvalue`: the first entry that is the same capture.
unfoldable pub find_upvalue : Upvalue → List Upvalue → Option ℕ
unfolding same_upvalue
find_upvalue v [] = none
find_upvalue v (u ∷ us) =
    let rest = find_upvalue v us in if same_upvalue u v then some 0 else later rest

-- The three assignments at the end of `addUpvalue`.
unfoldable pub push_upvalue : Upvalue → Compiler → Compiler
push_upvalue v c = record c {
  upvalues = c.upvalues ++ v ∷ [];
  function = record c.function {
    upvalues = c.function.upvalues ++ v ∷ [];
    upvalue_count = suc (length c.upvalues);
  };
}

-- The rest of `addUpvalue`, after the search.
unfoldable pub reuse_or_push : Option ℕ → Bool → Upvalue → Compiler → Result (ℕ × Compiler)
unfolding push_upvalue error_at
reuse_or_push (some i) had_error v c = ok (i, c)
reuse_or_push none had_error v c =
    let added = ok (length c.upvalues, push_upvalue v c) in
    if leb 255 (length c.upvalues) then error_at too_many_captured had_error added else added

unfoldable pub add_upvalue : Bool → Upvalue → Compiler → Result (ℕ × Compiler)
unfolding find_upvalue reuse_or_push
add_upvalue had_error v c = reuse_or_push (find_upvalue v c.upvalues) had_error v c

-- `locals[i].isCaptured = true`
unfoldable pub capture : ℕ → List Local → List Local
capture i [] = []
capture i (l ∷ ls) =
    let rest = capture i ls in
    if length ls == i then record l { is_captured = true } ∷ ls else l ∷ rest

-- The index, if there is one, with the compiler and the enclosing ones.
abbrev pub Resolved : Type 0
Resolved = Option ℕ × (Compiler × List Compiler)

abbrev pub linked : Compiler → List Compiler → Result (ℕ × Compiler) → Result Resolved
linked d ds r = and_then r (λ (i, c). ok (some i, (c, d ∷ ds)))

-- What `resolveUpvalue` does with the answer of the enclosing function.
unfoldable pub pass_on : Bool → Compiler → Resolved → Result Resolved
unfolding add_upvalue and_then
pass_on had_error c (none, (d, ds)) = ok (none, (c, d ∷ ds))
pass_on had_error c (some i, (d, ds)) =
    linked d ds (add_upvalue had_error (record { type = upvalue; index = i }) c)

-- With what the search of the enclosing function's locals gives, and what the call on the enclosing
-- functions gives.
unfoldable pub resolve_in :
    Bool → Compiler → Compiler → List Compiler → Result Resolved → Option ℕ → Result Resolved
unfolding add_upvalue and_then pass_on capture
resolve_in had_error c d ds outer (some i) =
    linked (record d { locals = capture i d.locals }) ds
      (add_upvalue had_error (record { type = local; index = i }) c)
resolve_in had_error c d ds outer none = and_then outer (pass_on had_error c)

unfoldable pub resolve_upvalue : Bool → Text → Compiler → List Compiler → Result Resolved
unfolding last_named resolve_in
resolve_upvalue had_error name c [] = ok (none, (c, []))
resolve_upvalue had_error name c (d ∷ ds) =
    resolve_in had_error c d ds (resolve_upvalue had_error name d ds) (last_named name d.locals)
