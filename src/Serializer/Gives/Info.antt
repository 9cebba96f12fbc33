-- ===== src/Serializer/Gives/Info.antt =====
-- The tables of a function as the reader gives them.
use ez_language.Prelude.{
  ℕ, zero, suc, ◌+◌, ◌<◌, ◌≤◌, ◌≡◌, refl, sym, ◌∙◌, String, Option, List, [], ◌∷◌, arith, ◌==◌,
  length, length-append, All, All-append,
}
use ez_language.Bytes.{Byte}
use ez_language.Bytecode.Types.{
  Constant, nil, bool, int, double, string, function, model, array_const, Chunk, empty_chunk,
  FunctionInfo,
}
use ez_language.Bytecode.Pool.{pool_add, place, find_constant, IsDistinct, resolve_constants}
use ez_language.Bytecode.Pool.Reuse.{pool_add-IsDistinct}
use ez_language.Serializer.Reader.{Reader, ◌>>=◌, read_count, read_many}
use ez_language.Serializer.Read.{
  read_bool, read_string, read_payload, read_constant, read_constants, read_chunk, upvalue_type,
  read_upvalue, read_local_var, read_call_site, read_info,
}
use ez_language.Serializer.Writable.{
  FitsCount, IsWritableConstant, IsWritableChunk, IsWritableUpvalue, IsWritableType,
  IsWritableLocal, IsWritableSite, IsWritableInfo, reloaded_chunk, reloaded_info,
}
use ez_language.Serializer.Gives.Rules.{
  Gives, Gives-pure, Gives-throw, Gives-bind, Gives-if, Gives-many, Gives-exact, Gives-pod,
  Gives-count, weaken,
}

-- Any value at all.
abbrev Any {ℓ} : {A : Type ℓ} → A → Type 0
Any a = Unit

bool-Gives : (what : String) → Gives Any (read_bool what)
unfolding read_bool
bool-Gives what = Gives-bind (Gives-pod 1 what) λ b _. Gives-pure _ tt

-- A string of bounded length. (The last step of `read_string` is the read itself.)
pub string-Gives : Gives FitsCount read_string
unfolding read_string
string-Gives = Gives-bind (Gives-count _) λ n le. weaken (Gives-exact n _) λ s (h, e). omega arith

payload-Gives : (t : Byte) → Gives IsWritableConstant (read_payload t)
unfolding read_payload
payload-Gives t =
    Gives-if (t == 0) (λ _. Gives-pure nil tt)
      λ _.
        Gives-if (t == 1) (λ _. Gives-bind (bool-Gives _) λ b _. Gives-pure (bool b) tt)
          λ _.
            Gives-if (t == 2) (λ _. Gives-bind (Gives-pod 8 _) λ n h. Gives-pure (int n) h)
              λ _.
                Gives-if (t == 3) (λ _. Gives-bind (Gives-pod 8 _) λ n h. Gives-pure (double n) h)
                  λ _.
                    Gives-if (t == 4) (λ _. Gives-bind string-Gives λ s h. Gives-pure (string s) h)
                      λ _.
                        Gives-if (t == 5) (λ _. Gives-pure (function Option.none) refl)
                          λ _.
                            Gives-if (t == 6) (λ _. Gives-pure (model Option.none) refl)
                              λ _.
                                Gives-if (t == 7)
                                  (λ _. Gives-bind (Gives-count _) λ n le.
                                    Gives-bind (Gives-many n (Gives-pod 8 _))
                                      λ l (h, e). Gives-pure (array_const l) (rw e le, h))
                                  λ _. Gives-throw _

-- What holds of the pool after each round of the loop, `n` rounds after it held `m` constants.
abbrev IsPool : ℕ → List Constant → Type 0
IsPool m cs = (length cs ≤ m) × All IsWritableConstant cs × IsDistinct cs

pool_add-IsPool :
    (m : ℕ) (c : Constant) (cs : List Constant)
    → IsWritableConstant c
    → IsPool m cs
    → IsPool (suc m) (pool_add c cs).1
unfolding pool_add
pool_add-IsPool m c cs w (le, ws, d) =
    (bound (find_constant c cs), all (find_constant c cs), pool_add-IsDistinct c cs d)
  where
    bound : (o : Option ℕ) → length (place c cs o).1 ≤ suc m
    bound Option.none = omega (arith, length-append cs (c ∷ []))
    bound (Option.some i) = omega arith

    all : (o : Option ℕ) → All IsWritableConstant (place c cs o).1
    all Option.none = All-append IsWritableConstant cs (c ∷ []) ws (w, tt)
    all (Option.some i) = ws

constants-Gives :
    (n m k : ℕ) (cs : List Constant)
    → n + m ≡ k
    → IsPool m cs
    → Gives (IsPool k) (read_constants n cs)
unfolding read_constants read_constant
constants-Gives zero m k cs e h = Gives-pure cs (omega arith, h.1, h.2)
constants-Gives (suc n) m k cs e h =
    Gives-bind (Gives-bind (Gives-pod 1 _) λ t _. payload-Gives t)
      λ c w. constants-Gives n (suc m) k _ (omega arith) (pool_add-IsPool m c cs w h)

-- A chunk just read: within the limits, with no resolved constants and no inline caches.
pub data IsFresh : Chunk → Type 0 where
  fresh :
      (code : List Byte) (lines : List ℕ) (constants : List Constant)
      → IsWritableChunk (record empty_chunk { code = code; lines = lines; constants = constants })
      → IsFresh (record empty_chunk { code = code; lines = lines; constants = constants })

chunk-Gives : Gives IsFresh read_chunk
unfolding read_chunk
chunk-Gives = Gives-bind (Gives-count _) λ size le. Gives-bind (Gives-exact size _) λ code (hc, ec).
    Gives-bind (Gives-many size (Gives-pod 8 _)) λ lines (hl, el).
      Gives-bind (Gives-count _) λ n ln.
        Gives-bind (constants-Gives n 0 n [] (omega arith) (omega arith, tt, tt))
          λ constants (bound, ws, d). Gives-pure _ (
            fresh code lines constants (record {
              code_fits = omega arith;
              lines_match = el ∙ sym ec;
              lines_fit = hl;
              constants_fit = omega arith;
              constants_writable = ws;
              constants_distinct = d;
            }))

resolved-IsWritable :
    {c : Chunk}
    → IsFresh c
    → IsWritableChunk (resolve_constants c)
      × (reloaded_chunk (resolve_constants c) ≡ resolve_constants c)
unfolding resolve_constants reloaded_chunk
resolved-IsWritable (fresh code lines constants w) = (
  record {
    code_fits = w.code_fits;
    lines_match = w.lines_match;
    lines_fit = w.lines_fit;
    constants_fit = w.constants_fit;
    constants_writable = w.constants_writable;
    constants_distinct = w.constants_distinct;
  },
  refl,
)

upvalue_type-IsWritable : (t : ℕ) → t < 256 → IsWritableType (upvalue_type t)
unfolding upvalue_type
upvalue_type-IsWritable t h = ground arith

upvalue-Gives : Gives IsWritableUpvalue read_upvalue
unfolding read_upvalue
upvalue-Gives =
    Gives-bind (Gives-pod 1 _)
      λ t ht. Gives-bind (Gives-pod 4 _) λ i hi. Gives-pure _ (upvalue_type-IsWritable t ht, hi)

local_var-Gives : Gives IsWritableLocal read_local_var
unfolding read_local_var
local_var-Gives = Gives-bind string-Gives λ name hn. Gives-bind (Gives-pod 4 _) λ slot hs.
    Gives-bind (Gives-pod 4 _)
      λ start hb. Gives-bind (Gives-pod 4 _) λ end he. Gives-pure _ (hn, hs, hb, he)

call_site-Gives : Gives IsWritableSite read_call_site
unfolding read_call_site
call_site-Gives =
    Gives-bind (Gives-pod 4 _) λ o ho. Gives-bind string-Gives λ n hn. Gives-pure _ (ho, hn)

-- A counted table: no longer than the limit, and each entry as `P` says.
pub table-Gives {ℓ κ} :
    {A : Type ℓ} {B : Type κ} {P : A → Type 0} {Q : B → Type 0} (what : String) {p : Reader A}
    {f : List A → Reader B}
    → Gives P p
    → ((l : List A) → FitsCount l → All P l → Gives Q (f l))
    → Gives Q (read_count what >>= λ n. read_many n p >>= f)
table-Gives what s k =
    Gives-bind (Gives-count what) λ n le. Gives-bind (Gives-many n s) λ l (h, e). k l (rw e le) h

-- What reading leaves as it is: within the limits, and no field set that the format lacks.
abbrev pub IsLoaded : FunctionInfo → Type 0
IsLoaded i = IsWritableInfo i × (reloaded_info i ≡ i)

pub info-Gives : Gives IsLoaded read_info
unfolding read_info reloaded_info
info-Gives = Gives-bind string-Gives λ name hname. Gives-bind string-Gives λ filename hfile.
    Gives-bind (Gives-pod 4 _) λ arity harity. Gives-bind (bool-Gives _) λ variadic _.
      Gives-bind (bool-Gives _) λ async _. Gives-bind (bool-Gives _) λ method _.
        Gives-bind (Gives-pod 4 _) λ ups hups. Gives-bind (Gives-pod 4 _) λ locals hlocals.
          table-Gives _ upvalue-Gives λ u nu hu. table-Gives _ local_var-Gives λ l nl hl.
            table-Gives _ string-Gives λ p np hp. table-Gives _ call_site-Gives λ c nc hc.
              Gives-bind chunk-Gives λ chunk hchunk.
                let (w, same) = resolved-IsWritable hchunk in
                Gives-pure _ (
                  record {
                    name_fits = hname;
                    filename_fits = hfile;
                    arity_fits = harity;
                    upvalue_count_fits = hups;
                    local_count_fits = hlocals;
                    upvalues_fit = nu;
                    upvalues_writable = hu;
                    locals_fit = nl;
                    locals_writable = hl;
                    params_fit = np;
                    params_writable = hp;
                    sites_fit = nc;
                    sites_writable = hc;
                    chunk_writable = w;
                  },
                  rw same,
                )
