-- ===== src/Compiler/Code/Constants.antt =====
-- The virtual machine pushes the constants that the compiler emitted
-- (src/compiler/BytecodeCompilerStmt.cpp, src/vm/BytecodeVMExecute.cpp).
use ez_language.Prelude.{
  ℕ, zero, suc, ◌+◌, ◌*◌, ◌/◌, ◌%◌, ◌≤◌, ◌≡◌, refl, sym, ap, ◌∙◌, ◌⊎◌, inl, inr, true, false,
  Option, none, some, List, [], ◌∷◌, ◌++◌, map, append_assoc, arith, ltb, ltb→lt, ltb_false→le,
  if◌then◌else◌, length, length-append, get_elem?, get_elem?-append_self, Bool-cases,
  lt-of_get_elem?,
}
use mathlib.Core.Option.{none-ne-some, some_inj}
use ez_language.Bytes.{Byte}
use ez_language.Bytecode.Types.{
  Constant, int, double, string, Chunk, Value, nil, boolean, integer, number, text,
}
use ez_language.Bytecode.OpCodes.{
  OpCode, opcode_byte, load_const, load_nil, load_true, load_false, load_zero, load_one,
}
use ez_language.Bytecode.OpCodes.Coding.{opcode_of-opcode_byte}
use ez_language.Bytecode.Emit.{write_op, write_byte, write_bytes}
use ez_language.Bytecode.Pool.{
  double_eq, find_constant, place, pool_add, add_constant, resolve, resolve_constants,
}
use ez_language.Bytecode.Pool.Reuse.{Same, equal, doubles, Found, find_constant-Found}
use ez_language.Compiler.State.{CompileError, Result, ok, thrown, error_at}
use ez_language.Compiler.Code.{emit_constant, emit_value}
use ez_language.Compiler.Code.Loads.{read_short-append}
use ez_language.Vm.Loads.{on_some, pushed, push_at}

-- The value itself, or a double that `==` takes for it.
abbrev pub Stands : Value → Value → Type 0
Stands w v =
    (w ≡ v) ⊎ ((a : ℕ) × ((b : ℕ) × ((w ≡ number a) × ((v ≡ number b) × (double_eq a b ≡ true)))))

-- What emitting `v` behind the code of `chunk` may do: the machine, with the constants resolved,
-- pushes the value there and goes on behind the new code; or the pool is full.
abbrev pub Pushes : Value → Chunk → Result Chunk → Type 0
Pushes v chunk (ok after) =
    (w : Value) × (Stands w v
      × (push_at (resolve_constants after).resolved_constants after.code (length chunk.code)
          ≡ some (w, length after.code)))
Pushes v chunk (thrown e) = 65536 ≤ length chunk.constants

push_at-append :
    (op : OpCode) (constants : List Value) (c rest : List Byte)
    → push_at constants (c ++ opcode_byte op ∷ rest) (length c)
      ≡ pushed op constants (c ++ opcode_byte op ∷ rest) (length c + 1)
unfolding push_at
push_at-append op constants c rest =
    rw (get_elem?-append_self c rest (opcode_byte op)) (rw ((opcode_of-opcode_byte op).0) refl)

short-Pushes :
    (op : OpCode) (v : Value) (line : ℕ) (chunk : Chunk)
    → ((constants : List Value) (code : List Byte) (ip : ℕ)
        → pushed op constants code ip ≡ some (v, ip))
    → Pushes v chunk (ok (write_op op line chunk))
unfolding write_op write_byte
short-Pushes op v line chunk h = (
  v,
  (
    inl refl,
    push_at-append op _ chunk.code []
        ∙ h _ _ _
        ∙ ap (λ n. some (v, n)) (sym (length-append chunk.code (opcode_byte op ∷ []))),
  ),
)

get_elem?-map :
    (cs : List Constant) (i : ℕ) (k : Constant)
    → get_elem? cs i ≡ some k
    → get_elem? (map resolve cs) i ≡ some (resolve k)
get_elem?-map [] i k h = absurd (none-ne-some k h)
get_elem?-map (c ∷ cs) zero k h = ap (λ x. some (resolve x)) (some_inj.0 h)
get_elem?-map (c ∷ cs) (suc i) k h = get_elem?-map cs i k h

-- Where a constant is after `addConstant`.
abbrev Placed : Constant → List Constant → ℕ × List Constant → Type 0
Placed c before (i, after) =
    (i ≤ length before) × ((k : Constant) × ((get_elem? after i ≡ some k) × Same k c))

place-Placed :
    (c : Constant) (cs : List Constant) (o : Option ℕ) → Found c cs o → Placed c cs (place c cs o)
unfolding place
place-Placed c cs none f = (omega arith, (c, (get_elem?-append_self cs [] c, equal c)))
place-Placed c cs (some i) (k, at, s) = (omega (arith, lt-of_get_elem? cs i k at), (k, (at, s)))

Stands-of_Same : {k c : Constant} → Same k c → Stands (resolve k) (resolve c)
unfolding resolve
Stands-of_Same (equal c) = inl refl
Stands-of_Same (doubles a b e) = inr (a, (b, (refl, (refl, e))))

-- The end of `emitConstant`, with the result of `makeConstant`.
abbrev emitted : ℕ → Chunk → ℕ × Chunk → Result Chunk
emitted line chunk (i, placed) =
    if ltb 65535 i
    then error_at CompileError.too_many_constants false (ok placed)
    else ok (write_bytes (i / 256 % 256 ∷ i % 256 ∷ []) line (write_op load_const line placed))

resolved :
    (chunk : Chunk)
    → chunk.resolved_constants ≡ []
    → (resolve_constants chunk).resolved_constants ≡ map resolve chunk.constants
unfolding resolve_constants
resolved chunk h = rw (h) refl

-- The instruction with the index `i`, where the pool holds `k` there.
push_at-load_const :
    (c : List Byte) (cs : List Constant) (i : ℕ) (k : Constant)
    → i ≤ 65535
    → get_elem? cs i ≡ some k
    → push_at
        (map resolve cs)
        (c ++ opcode_byte load_const ∷ i / 256 % 256 ∷ i % 256 ∷ [])
        (length c)
      ≡ some (resolve k, length (c ++ opcode_byte load_const ∷ i / 256 % 256 ∷ i % 256 ∷ []))
unfolding pushed
push_at-load_const c cs i k h at =
    push_at-append load_const (map resolve cs) c (i / 256 % 256 ∷ i % 256 ∷ [])
    ∙ ap (λ o. on_some o at_index)
        (read_short-append c (opcode_byte load_const) (i / 256 % 256) (i % 256))
    ∙ ap at_index index
    ∙ ap (λ o. on_some o (λ v. some (v, length c + 1 + 2))) (get_elem?-map cs i k at)
    ∙ ap (λ n. some (resolve k, n))
        (omega (arith, length-append c (opcode_byte load_const ∷ i / 256 % 256 ∷ i % 256 ∷ [])))
  where
    at_index : ℕ → Option (Value × ℕ)
    at_index j = on_some (get_elem? (map resolve cs) j) (λ v. some (v, length c + 1 + 2))

    index : i / 256 % 256 * 256 + i % 256 ≡ i
    index = omega arith

placed-Pushes :
    (line : ℕ) (c k : Constant) (chunk : Chunk) (i : ℕ) (after : List Constant)
    → chunk.resolved_constants ≡ []
    → i ≤ 65535
    → get_elem? after i ≡ some k
    → Same k c
    → Pushes (resolve c) chunk (
        ok (
          write_bytes
            (i / 256 % 256 ∷ i % 256 ∷ [])
            line
            (write_op load_const line (record chunk { constants = after }))))
unfolding write_op write_bytes write_byte
placed-Pushes line c k chunk i after fresh l at s = (
  resolve k,
  (
    Stands-of_Same s,
    ap (λ r. push_at r code (length chunk.code)) (resolved _ fresh)
        ∙ ap (λ b. push_at (map resolve after) b (length chunk.code)) together
        ∙ push_at-load_const chunk.code after i k l at
        ∙ ap (λ b. some (resolve k, length b)) (sym together),
  ),
)
  where
    code : List Byte
    code = ((chunk.code ++ opcode_byte load_const ∷ []) ++ i / 256 % 256 ∷ []) ++ i % 256 ∷ []

    together : code ≡ chunk.code ++ opcode_byte load_const ∷ i / 256 % 256 ∷ i % 256 ∷ []
    together =
        ap (λ b. b ++ i % 256 ∷ [])
          (append_assoc chunk.code (opcode_byte load_const ∷ []) (i / 256 % 256 ∷ []))
        ∙ append_assoc chunk.code (opcode_byte load_const ∷ i / 256 % 256 ∷ []) (i % 256 ∷ [])

emitted-Pushes :
    (line : ℕ) (c : Constant) (chunk : Chunk) (i : ℕ) (after : List Constant)
    → chunk.resolved_constants ≡ []
    → Placed c chunk.constants (i, after)
    → Pushes (resolve c) chunk (emitted line chunk (i, record chunk { constants = after }))
unfolding error_at
emitted-Pushes line c chunk i after fresh (l, (k, (at, s))) = elim (Bool-cases (ltb 65535 i)) [
  | inl e ↦ rw (e) (omega (arith, ltb→lt 65535 i e, l))
  | inr e ↦ rw (e) (placed-Pushes line c k chunk i after fresh (ltb_false→le 65535 i e) at s)
]

emit_constant-Pushes :
    (line : ℕ) (c : Constant) (chunk : Chunk)
    → chunk.resolved_constants ≡ []
    → Pushes (resolve c) chunk (emit_constant line false c chunk)
unfolding emit_constant add_constant pool_add
emit_constant-Pushes line c chunk fresh =
    let placed =
      place-Placed c chunk.constants (find_constant c chunk.constants)
        (find_constant-Found c chunk.constants) in
    emitted-Pushes line c chunk _ _ fresh placed

-- For a function that has not run yet, and with no error before, `emitConstant` on a nil, Boolean,
-- number or text value throws only when the pool has 65,536 constants, and otherwise appends one
-- instruction, at which the machine pushes that value (or, for a double, one that `==` takes for
-- it) and goes on right behind it.
pub emit_value-Pushes :
    (line : ℕ) (v : Value) (chunk : Chunk)
    → chunk.resolved_constants ≡ []
    → Pushes v chunk (emit_value line false v chunk)
unfolding emit_value pushed resolve
emit_value-Pushes line nil chunk h = short-Pushes load_nil nil line chunk (λ k c i. refl)
emit_value-Pushes line (boolean true) chunk h =
    short-Pushes load_true (boolean true) line chunk (λ k c i. refl)
emit_value-Pushes line (boolean false) chunk h =
    short-Pushes load_false (boolean false) line chunk (λ k c i. refl)
emit_value-Pushes line (integer zero) chunk h =
    short-Pushes load_zero (integer 0) line chunk (λ k c i. refl)
emit_value-Pushes line (integer (suc zero)) chunk h =
    short-Pushes load_one (integer 1) line chunk (λ k c i. refl)
emit_value-Pushes line (integer (suc (suc n))) chunk h =
    emit_constant-Pushes line (int (suc (suc n))) chunk h
emit_value-Pushes line (number d) chunk h = emit_constant-Pushes line (double d) chunk h
emit_value-Pushes line (text t) chunk h = emit_constant-Pushes line (string t) chunk h
