-- ===== src/Vm/Loads.antt =====
-- How the dispatch loop reads the instructions that push a local or a constant
-- (src/vm/BytecodeVMExecute.cpp). `none` is a read outside the code or the constants.
use ez_language.Prelude.{ℕ, ◌+◌, ◌*◌, true, false, Option, none, some, List, get_elem?}
use ez_language.Bytes.{Byte}
use ez_language.Bytecode.Types.{Value, nil, boolean, integer}
use ez_language.Bytecode.OpCodes.{
  OpCode, opcode_of, load_local, load_local_w, store_local, store_local_w, load_const, load_nil,
  load_true, load_false, load_zero, load_one,
}

abbrev pub on_some {ℓ κ} : {A : Type ℓ} {B : Type κ} → Option A → (A → Option B) → Option B
on_some none f = none
on_some (some a) f = f a

-- `READ_SHORT` at the index `ip`.
unfoldable pub read_short : List Byte → ℕ → Option ℕ
read_short code ip =
    on_some (get_elem? code ip)
      (λ high. on_some (get_elem? code (ip + 1)) (λ low. some (high * 256 + low)))

-- A copy of a slot to the top of the stack, or of the top to a slot.
pub data LocalAccess : Type 0 where
  load store : ℕ → LocalAccess

-- The access, and the index of the next instruction; `ip` is behind the instruction byte.
unfoldable pub local_access : OpCode → List Byte → ℕ → Option (LocalAccess × ℕ)
unfolding read_short
local_access load_local code ip = on_some (get_elem? code ip) (λ slot. some (load slot, ip + 1))
local_access store_local code ip = on_some (get_elem? code ip) (λ slot. some (store slot, ip + 1))
local_access load_local_w code ip = on_some (read_short code ip) (λ slot. some (load slot, ip + 2))
local_access store_local_w code ip =
    on_some (read_short code ip) (λ slot. some (store slot, ip + 2))
local_access _ code ip = none

unfoldable pub access_at : List Byte → ℕ → Option (LocalAccess × ℕ)
unfolding opcode_of local_access
access_at code ip =
    on_some (get_elem? code ip) (λ b. on_some (opcode_of b) (λ op. local_access op code (ip + 1)))

-- The value that is pushed, and the index of the next instruction.
unfoldable pub pushed : OpCode → List Value → List Byte → ℕ → Option (Value × ℕ)
unfolding read_short
pushed load_nil constants code ip = some (nil, ip)
pushed load_true constants code ip = some (boolean true, ip)
pushed load_false constants code ip = some (boolean false, ip)
pushed load_zero constants code ip = some (integer 0, ip)
pushed load_one constants code ip = some (integer 1, ip)
pushed load_const constants code ip =
    on_some (read_short code ip) (λ i. on_some (get_elem? constants i) (λ v. some (v, ip + 2)))
pushed _ constants code ip = none

unfoldable pub push_at : List Value → List Byte → ℕ → Option (Value × ℕ)
unfolding opcode_of pushed
push_at constants code ip =
    on_some (get_elem? code ip)
      (λ b. on_some (opcode_of b) (λ op. pushed op constants code (ip + 1)))
