-- ===== src/Compiler/Code/Loads.antt =====
-- The virtual machine reads what the compiler emitted for a local or a constant
-- (src/compiler/BytecodeCompilerStmt.cpp, src/vm/BytecodeVMExecute.cpp).
use ez_language.Prelude.{
  ℕ, ◌+◌, ◌*◌, ◌/◌, ◌%◌, ◌≤◌, ◌≡◌, refl, ap, ◌∙◌, inl, inr, some, List, [], ◌∷◌, ◌++◌, append_assoc,
  arith, leb, leb→le, length, length-append, get_elem?, get_elem?-append_self,
  get_elem?-append_right, Bool-cases,
}
use ez_language.Bytes.{Byte}
use ez_language.Bytecode.Types.{Chunk}
use ez_language.Bytecode.OpCodes.{
  OpCode, opcode_byte, load_local, load_local_w, store_local, store_local_w,
}
use ez_language.Bytecode.OpCodes.Coding.{opcode_of-opcode_byte}
use ez_language.Bytecode.Emit.{write_op, write_byte}
use ez_language.Bytecode.Emit.Jumps.{code-write_bytes}
use ez_language.Compiler.Code.{emit_access, emit_load_local, emit_store_local}
use ez_language.Vm.Loads.{on_some, read_short, LocalAccess, load, store, local_access, access_at}

second :
    (c : List Byte) (a b : Byte) (rest : List Byte)
    → get_elem? (c ++ a ∷ b ∷ rest) (length c + 1) ≡ some b
second c a b rest = get_elem?-append_right c (a ∷ b ∷ rest) 1

pub read_short-append :
    (c : List Byte) (op high low : Byte)
    → read_short (c ++ op ∷ high ∷ low ∷ []) (length c + 1) ≡ some (high * 256 + low)
unfolding read_short
read_short-append c op high low = rw (second c op high (low ∷ [])) (
    rw
      (ap (get_elem? (c ++ op ∷ high ∷ low ∷ [])) index
        ∙ get_elem?-append_right c (op ∷ high ∷ low ∷ []) 2)
      refl)
  where
    index : length c + 1 + 1 ≡ length c + 2
    index = omega arith

access_at-append :
    (op : OpCode) (c rest : List Byte)
    → access_at (c ++ opcode_byte op ∷ rest) (length c)
      ≡ local_access op (c ++ opcode_byte op ∷ rest) (length c + 1)
unfolding access_at
access_at-append op c rest =
    rw (get_elem?-append_self c rest (opcode_byte op)) (rw ((opcode_of-opcode_byte op).0) refl)

-- The machine takes an instruction at the end of `c`, with the bytes `bs` added, for an access.
abbrev Reads : List Byte → List Byte → LocalAccess → Type 0
Reads c bs access = access_at (c ++ bs) (length c) ≡ some (access, length (c ++ bs))

narrow-Reads :
    (op : OpCode) (make : ℕ → LocalAccess) (c : List Byte) (slot : ℕ)
    → ((code : List Byte) (ip : ℕ)
        → local_access op code ip ≡ on_some (get_elem? code ip) (λ s. some (make s, ip + 1)))
    → slot ≤ 255
    → Reads c (opcode_byte op ∷ slot % 256 ∷ []) (make slot)
narrow-Reads op make c slot reads h =
    access_at-append op c (slot % 256 ∷ [])
    ∙ reads _ _
    ∙ ap (λ o. on_some o (λ s. some (make s, length c + 1 + 1)))
        (second c (opcode_byte op) (slot % 256) [])
    ∙ ap (λ s. some (make s, length c + 1 + 1)) (omega arith)
    ∙ ap (λ n. some (make slot, n))
        (omega (arith, length-append c (opcode_byte op ∷ slot % 256 ∷ [])))

wide-Reads :
    (op : OpCode) (make : ℕ → LocalAccess) (c : List Byte) (slot : ℕ)
    → ((code : List Byte) (ip : ℕ)
        → local_access op code ip ≡ on_some (read_short code ip) (λ s. some (make s, ip + 2)))
    → slot ≤ 65535
    → Reads c (opcode_byte op ∷ slot / 256 % 256 ∷ slot % 256 ∷ []) (make slot)
wide-Reads op make c slot reads h =
    access_at-append op c (slot / 256 % 256 ∷ slot % 256 ∷ [])
    ∙ reads _ _
    ∙ ap (λ o. on_some o (λ s. some (make s, length c + 1 + 2)))
        (read_short-append c (opcode_byte op) (slot / 256 % 256) (slot % 256))
    ∙ ap (λ s. some (make s, length c + 1 + 2)) (omega arith)
    ∙ ap (λ n. some (make slot, n))
        (omega (arith, length-append c (opcode_byte op ∷ slot / 256 % 256 ∷ slot % 256 ∷ [])))

abbrev Emitted : Chunk → Chunk → LocalAccess → Type 0
Emitted before after access =
    access_at after.code (length before.code) ≡ some (access, length after.code)

emit_access-Emitted :
    (narrow wide : OpCode) (make : ℕ → LocalAccess) (line slot : ℕ) (chunk : Chunk)
    → ((code : List Byte) (ip : ℕ)
        → local_access narrow code ip ≡ on_some (get_elem? code ip) (λ s. some (make s, ip + 1)))
    → ((code : List Byte) (ip : ℕ)
        → local_access wide code ip ≡ on_some (read_short code ip) (λ s. some (make s, ip + 2)))
    → slot ≤ 65535
    → Emitted chunk (emit_access narrow wide line slot chunk) (make slot)
unfolding emit_access write_op write_byte
emit_access-Emitted narrow wide make line slot chunk reads reads_wide h =
    elim (Bool-cases (leb slot 0xFF)) [
      | inl e ↦ rw (e) (
          rw (code-write_bytes (opcode_byte narrow ∷ slot % 256 ∷ []) line chunk)
            (narrow-Reads narrow make chunk.code slot reads (leb→le slot 255 e)))
      | inr e ↦ rw (e) (
          rw
            (code-write_bytes (slot / 256 % 256 ∷ slot % 256 ∷ []) line
                (write_byte (opcode_byte wide) line chunk)
              ∙ append_assoc chunk.code (opcode_byte wide ∷ [])
                  (slot / 256 % 256 ∷ slot % 256 ∷ []))
            (wide-Reads wide make chunk.code slot reads_wide h))
    ]

-- For a slot of at most 65,535, the machine takes what `emitLoadLocal` appends for a load of that
-- slot, and what `emitStoreLocal` appends for a store to it, narrow or wide, and goes on right
-- behind it.
pub access_at-emit_local :
    (line slot : ℕ) (chunk : Chunk)
    → slot ≤ 65535
    → (access_at (emit_load_local line slot chunk).code (length chunk.code)
        ≡ some (load slot, length (emit_load_local line slot chunk).code))
      × (access_at (emit_store_local line slot chunk).code (length chunk.code)
          ≡ some (store slot, length (emit_store_local line slot chunk).code))
unfolding emit_load_local emit_store_local local_access
access_at-emit_local line slot chunk h = (
  emit_access-Emitted load_local load_local_w load line slot chunk (λ c i. refl) (λ c i. refl) h,
  emit_access-Emitted store_local store_local_w store line slot chunk (λ c i. refl) (λ c i. refl) h,
)
