-- ===== src/Serializer/Stable/Files.antt =====
-- The readers of the format are stable, so a file that is cut short is refused.
use mathlib.Core.List.{append-eq-nil_iff}
use ez_language.Prelude.{
  ℕ, zero, suc, String, ◌+◌, ◌≤◌, ◌≡◌, ◌≢◌, refl, List, [], ◌++◌, append-nil, ◌==◌, All,
}
use ez_language.Bytes.{Byte}
use ez_language.Bytecode.Types.{Text, Constant, nil, BytecodeFunction, depth}
use ez_language.Bytecode.Pool.{pool_add}
use ez_language.Serializer.Reader.{
  Error, Reader, Result, ok, err, ◌>>=◌, ezc_max_nest_depth, read_exact, read_count, read_many,
}
use ez_language.Serializer.Write.{serialize}
use ez_language.Serializer.Read.{
  read_bool, read_string, read_payload, read_constant, read_constants, read_chunk, read_upvalue,
  read_local_var, read_call_site, read_info, read_functions, read_body, read_function, or_too_short,
  read_magic, check_magic, deserialize,
}
use ez_language.Serializer.Writable.{FitsCount, IsWritable}
use ez_language.Serializer.RoundTrip.{deserialize-serialize}
use ez_language.Serializer.Stable.{
  Stable, Stable-pure, Stable-throw, Stable-bind, Stable-if, Stable-many, Stable-exact, Stable-pod,
  Stable-count,
}

bool-Stable : (what : String) → Stable (read_bool what)
unfolding read_bool
bool-Stable what = Stable-bind (Stable-pod 1 what) λ b. Stable-pure _

string-Stable : Stable read_string
unfolding read_string
string-Stable = Stable-bind (Stable-count _) λ n. Stable-exact n _

payload-Stable : (t : Byte) → Stable (read_payload t)
unfolding read_payload
payload-Stable t = Stable-if (t == 0) (Stable-pure nil) (
    Stable-if (t == 1) (Stable-bind (bool-Stable _) λ b. Stable-pure _) (
      Stable-if (t == 2) (Stable-bind (Stable-pod 8 _) λ n. Stable-pure _) (
        Stable-if (t == 3) (Stable-bind (Stable-pod 8 _) λ n. Stable-pure _) (
          Stable-if (t == 4) (Stable-bind string-Stable λ s. Stable-pure _) (
            Stable-if (t == 5) (Stable-pure _) (
              Stable-if (t == 6) (Stable-pure _) (
                Stable-if (t == 7)
                  (Stable-bind (Stable-count _)
                    λ n. Stable-bind (Stable-many n (Stable-pod 8 _)) λ l. Stable-pure _)
                  (Stable-throw _))))))))

constants-Stable : (n : ℕ) (cs : List Constant) → Stable (read_constants n cs)
unfolding read_constants read_constant
constants-Stable zero cs = Stable-pure cs
constants-Stable (suc n) cs =
    Stable-bind (Stable-bind (Stable-pod 1 _) payload-Stable)
      λ c. constants-Stable n (pool_add c cs).1

chunk-Stable : Stable read_chunk
unfolding read_chunk
chunk-Stable = Stable-bind (Stable-count _) λ size. Stable-bind (Stable-exact size _) λ code.
    Stable-bind (Stable-many size (Stable-pod 8 _)) λ lines.
      Stable-bind (Stable-count _)
        λ n. Stable-bind (constants-Stable n []) λ constants. Stable-pure _

upvalue-Stable : Stable read_upvalue
unfolding read_upvalue
upvalue-Stable = Stable-bind (Stable-pod 1 _) λ t. Stable-bind (Stable-pod 4 _) λ i. Stable-pure _

local_var-Stable : Stable read_local_var
unfolding read_local_var
local_var-Stable = Stable-bind string-Stable λ name.
    Stable-bind (Stable-pod 4 _) λ slot.
      Stable-bind (Stable-pod 4 _) λ start. Stable-bind (Stable-pod 4 _) λ end. Stable-pure _

call_site-Stable : Stable read_call_site
unfolding read_call_site
call_site-Stable = Stable-bind (Stable-pod 4 _) λ o. Stable-bind string-Stable λ n. Stable-pure _

-- A counted table.
table-Stable {ℓ κ} :
    {A : Type ℓ} {B : Type κ} (what : String) {p : Reader A} {f : List A → Reader B}
    → Stable p
    → ((l : List A) → Stable (f l))
    → Stable (read_count what >>= λ n. read_many n p >>= f)
table-Stable what s t = Stable-bind (Stable-count _) λ n. Stable-bind (Stable-many n s) t

info-Stable : Stable read_info
unfolding read_info
info-Stable = Stable-bind string-Stable λ name. Stable-bind string-Stable λ filename.
    Stable-bind (Stable-pod 4 _) λ arity. Stable-bind (bool-Stable _) λ variadic.
      Stable-bind (bool-Stable _) λ async. Stable-bind (bool-Stable _) λ method.
        Stable-bind (Stable-pod 4 _) λ ups. Stable-bind (Stable-pod 4 _) λ locals.
          table-Stable _ upvalue-Stable λ u. table-Stable _ local_var-Stable λ l.
            table-Stable _ string-Stable λ p.
              table-Stable _ call_site-Stable λ c. Stable-bind chunk-Stable λ chunk. Stable-pure _

functions-Stable : (n : ℕ) {p : Reader BytecodeFunction} → Stable p → Stable (read_functions n p)
unfolding read_functions
functions-Stable zero s = Stable-pure _
functions-Stable (suc n) s =
    Stable-bind s λ f. Stable-bind (functions-Stable n s) λ fs. Stable-pure _

body-Stable : {p : Reader BytecodeFunction} → Stable p → Stable (read_body p)
unfolding read_body
body-Stable s =
    Stable-bind info-Stable
      λ i. Stable-bind (Stable-count _) λ n. Stable-bind (functions-Stable n s) λ fs. Stable-pure _

function-Stable : (levels : ℕ) → Stable (read_function levels)
unfolding read_function
function-Stable zero = record { extend = (Stable-throw _).extend }
function-Stable (suc levels) = record { extend = (body-Stable (function-Stable levels)).extend }

pub or_too_short-eq-ok :
    (m : Result (List Byte × List Byte)) {a : List Byte × List Byte}
    → or_too_short m ≡ ok a
    → m ≡ ok a
unfolding or_too_short
or_too_short-eq-ok (ok a) h = h
or_too_short-eq-ok (err e) h = cc

magic-Stable : Stable read_magic
unfolding read_magic or_too_short
magic-Stable = record {
  extend = λ xs ys h.
      rw ((Stable-exact 4 "magic").extend xs ys (or_too_short-eq-ok (read_exact 4 "magic" xs) h));
}

check_magic-Stable : (tag : List Byte) → Stable (check_magic tag)
unfolding check_magic
check_magic-Stable tag =
    Stable-if _ (Stable-throw _) (Stable-if _ (Stable-pure tt) (Stable-throw _))

deserialize-Stable : Stable deserialize
unfolding deserialize
deserialize-Stable = Stable-bind magic-Stable λ tag. Stable-bind (check_magic-Stable tag) λ _.
    table-Stable _ string-Stable
      λ slots. Stable-bind (function-Stable (ezc_max_nest_depth + 1)) λ f. Stable-pure (f, slots)

rest_nil {ℓ} :
    {A : Type ℓ} (m : Result (A × List Byte)) (r : List Byte) {a b : A}
    → m ≡ ok (a, [])
    → m ≡ ok (b, r)
    → r ≡ []
rest_nil m r h k = cc

-- A file that is cut short anywhere is refused with an error, never taken for a shorter program:
-- for a program within the limits of the format, every proper prefix of its bytes is an error.
pub deserialize-truncated :
    (f : BytecodeFunction) (slots : List Text) (xs ys : List Byte)
    → IsWritable f
    → depth f ≤ ezc_max_nest_depth
    → FitsCount slots
    → All FitsCount slots
    → serialize f slots ≡ xs ++ ys
    → ys ≢ []
    → (e : Error) × (deserialize xs ≡ err e)
deserialize-truncated f slots xs ys w d n ws cut proper = go (deserialize xs) refl
  where
    go :
        (r : Result ((BytecodeFunction × List Text) × List Byte))
        → deserialize xs ≡ r
        → (e : Error) × (deserialize xs ≡ err e)
    go (err e) h = (e, h)
    go (ok (a, rest)) h =
        let whole = deserialize-serialize f slots [] w d n ws in
        let more = deserialize-Stable.extend xs ys h in
        absurd
          (proper ((append-eq-nil_iff).0 (rest_nil _ _ (rw (append-nil, cut) at whole) more)).1)
