-- ===== src/Compiler/Scopes/Closing.antt =====
-- What `endScope` takes away and emits, and what names mean around `addLocal`
-- (src/compiler/BytecodeCompilerStmt.cpp).
use ez_language.Prelude.{
  ℕ, suc, ◌+◌, ◌%◌, ◌≤◌, ◌<◌, ◌≡◌, refl, sym, ap, ◌∙◌, ◌⊎◌, ltb_false→le, inl, inr, Bool, true,
  false, some, get_elem?, get_elem?-append_self, ◌^◌, ◌-◌, ==_iff, ltb→lt, List, [], ◌∷◌, ◌++◌,
  append_assoc, append-nil, arith, ltb, lt→ltb, le→ltb_false, if◌then◌else◌, length, length-append,
  All, Bool-cases,
}
use ez_language.Bytes.{Byte}
use ez_language.Bytecode.Types.{Text, FunctionInfo}
use ez_language.Bytecode.OpCodes.{OpCode, opcode_byte}
use ez_language.Bytecode.Emit.{write_byte, write_op}
use ez_language.Bytecode.Pool.{text_eq}
use ez_language.Compiler.State.{
  Local, Compiler, Result, ok, thrown, error_at, last_named, resolve_local,
}
use ez_language.Compiler.Scopes.{emit_end, end_locals, end_scope, push_local, add_local}

-- Code that ends one local in the slot `slot`.
abbrev pub end_one : Local → ℕ → List Byte
end_one l slot =
    (if l.is_captured then opcode_byte OpCode.close_upvalue ∷ slot % 256 ∷ [] else [])
    ++ (if l.is_stack_resident then opcode_byte OpCode.pop ∷ [] else [])

-- Code that ends the locals of a scope, with `below` locals of other scopes under them.
abbrev pub end_all : List Local → ℕ → List Byte
end_all [] below = []
end_all (l ∷ ls) below = end_one l (length ls + below) ++ end_all ls below

-- The nearest of the remaining locals is not deeper than `depth`.
abbrev pub IsOutside : ℕ → List Local → Type 0
IsOutside depth [] = Unit
IsOutside depth (l ∷ ls) = l.depth ≤ depth

emit_end-code :
    (line : ℕ) (l : Local) (slot : ℕ) (f : FunctionInfo)
    → (emit_end line l slot f).chunk.code ≡ f.chunk.code ++ end_one l slot
unfolding emit_end write_op write_byte
emit_end-code line l slot f = elim (Bool-cases l.is_captured) [
  | inl c ↦ elim (Bool-cases l.is_stack_resident) [
    | inl s ↦ rw (c) (rw (s) three)
    | inr s ↦ rw (c) (rw (s) two)
  ]
  | inr c ↦ elim (Bool-cases l.is_stack_resident) [
    | inl s ↦ rw (c) (rw (s) refl)
    | inr s ↦ rw (c) (rw (s) (sym (append-nil f.chunk.code)))
  ]
]
  where
    code : List Byte
    code = f.chunk.code

    close : Byte
    close = opcode_byte OpCode.close_upvalue

    two : (code ++ close ∷ []) ++ slot % 256 ∷ [] ≡ code ++ close ∷ slot % 256 ∷ []
    two = append_assoc code (close ∷ []) (slot % 256 ∷ [])

    three :
        ((code ++ close ∷ []) ++ slot % 256 ∷ []) ++ opcode_byte OpCode.pop ∷ []
        ≡ code ++ close ∷ slot % 256 ∷ opcode_byte OpCode.pop ∷ []
    three = rw (two) (append_assoc code (close ∷ slot % 256 ∷ []) (opcode_byte OpCode.pop ∷ []))

end_locals_lem :
    (line depth : ℕ) (inner outer : List Local) (f : FunctionInfo)
    → All (λ l. depth < l.depth) inner
    → IsOutside depth outer
    → ((end_locals line depth (inner ++ outer) f).0 ≡ outer)
      × ((end_locals line depth (inner ++ outer) f).1.chunk.code
          ≡ f.chunk.code ++ end_all inner (length outer))
unfolding end_locals
end_locals_lem line depth [] [] f a o = (refl, sym (append-nil f.chunk.code))
end_locals_lem line depth [] (l ∷ ls) f a o =
    rw (le→ltb_false depth l.depth o) (refl, sym (append-nil f.chunk.code))
end_locals_lem line depth (l ∷ inner) outer f (h, a) o =
    let slot = length (inner ++ outer) in
    let (left, code) = end_locals_lem line depth inner outer (emit_end line l slot f) a o in
    rw (lt→ltb depth l.depth h) (
      left,
      code
          ∙ ap (λ c. c ++ end_all inner (length outer)) (emit_end-code line l slot f)
          ∙ append_assoc f.chunk.code (end_one l slot) (end_all inner (length outer))
          ∙ ap (λ n. f.chunk.code ++ (end_one l n ++ end_all inner (length outer)))
              (length-append inner outer),
    )

-- Where the locals at the back are those of the innermost scope, `endScope` takes away these and no
-- others, leaves the scope, and appends for each of them, from the back, a CLOSE_UPVALUE with the
-- low byte of its slot if it was captured, and a POP if it has a place on the stack.
pub end_scope_lem :
    (line depth : ℕ) (inner outer : List Local) (c : Compiler)
    → c.locals ≡ inner ++ outer
    → c.scope_depth ≡ suc depth
    → All (λ l. depth < l.depth) inner
    → IsOutside depth outer
    → ((end_scope line c).locals ≡ outer)
      × (((end_scope line c).scope_depth ≡ depth)
          × ((end_scope line c).function.chunk.code
              ≡ c.function.chunk.code ++ end_all inner (length outer)))
unfolding end_scope
end_scope_lem line depth inner outer c e d a o = rw (d) (
    rw (e) (
      let (left, code) = end_locals_lem line depth inner outer c.function a o in
      (left, (refl, code))))

-- What `addLocal` may do: give the slot that the name then stands for, with every other name
-- standing for what it did, and the entry for the debugger, when there are fewer than 65,535 locals
-- or an error was there before; or throw, when neither is so.
abbrev pub IsDeclared : Text → Compiler → ℕ → Compiler → Type 0
IsDeclared name c slot d =
    (resolve_local name d ≡ some slot)
    × (((other : Text) → text_eq name other ≡ false → resolve_local other d ≡ resolve_local other c)
        × (get_elem? d.function.local_vars (length c.function.local_vars)
            ≡ some (record {
              name = name;
              slot = slot;
              start_pc = length c.function.chunk.code;
              end_pc = 2 ^ 64 - 1;
            })))

abbrev pub Declares : Text → Bool → Compiler → Result (ℕ × Compiler) → Type 0
Declares name had_error c (ok (slot, d)) =
    ((had_error ≡ true) ⊎ (length c.locals < 65535)) × IsDeclared name c slot d
Declares name had_error c (thrown e) = (had_error ≡ false) × (65535 ≤ length c.locals)

pub text_eq_self : (t : Text) → text_eq t t ≡ true
unfolding text_eq
text_eq_self [] = refl
text_eq_self (a ∷ t) = rw ((==_iff a a).1 refl) (text_eq_self t)

-- `addLocal` declares the name: it then stands for the slot that is returned, every other name
-- stands for what it did, and the debugger's entry says so. It throws exactly when there are 65,535
-- locals already and no error was there before.
pub add_local-Declares :
    (name : Text) (is_const had_error : Bool) (c : Compiler)
    → Declares name had_error c (add_local name is_const had_error c)
unfolding add_local push_local error_at resolve_local last_named
add_local-Declares name is_const had_error c =
    elim (Bool-cases (ltb 65535 (suc (length c.locals)))) [
      | inl full ↦ rw (full) (elim (Bool-cases had_error) [
        | inl t ↦ rw (t) (inl refl, declared)
        | inr f ↦ rw (f) (refl, omega (arith, ltb→lt 65535 (suc (length c.locals)) full))
      ])
      | inr room ↦
          rw (room) (inr (omega (arith, ltb_false→le 65535 (suc (length c.locals)) room)), declared)
    ]
  where
    declared : IsDeclared name c (length c.locals) (push_local name is_const c)
    declared = (
      rw (text_eq_self name) refl,
      (λ other h. rw (h) refl, get_elem?-append_self c.function.local_vars [] _),
    )
