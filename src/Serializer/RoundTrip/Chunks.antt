-- ===== src/Serializer/RoundTrip/Chunks.antt =====
-- Strings, constants and chunks.
use native.Mathlib.Nat.{mod-eq_of_lt}
use ez_language.Prelude.{
  ℕ, ◌^◌, ◌<◌, ◌≤◌, ◌≡◌, refl, String, Bool, true, false, none, List, [], ◌∷◌, ◌++◌, append_assoc,
  append-nil, arith, length, take, take_all, All,
}
use ez_language.Bytecode.Types.{
  Text, Constant, nil, bool, int, double, string, function, model, array_const, Chunk, empty_chunk,
}
use ez_language.Bytecode.Pool.{place, pool_add, IsDistinctFrom}
use ez_language.Serializer.Reader.{ezc_max_count, read_pod, read_many}
use ez_language.Serializer.Write.{
  u32, write_u64, write_bool, write_all, write_string, constant_tag, write_payload, write_constant,
  write_chunk,
}
use ez_language.Serializer.Read.{
  bool_of_byte, read_bool, read_string, read_payload, read_constant, read_constants, read_chunk,
}
use ez_language.Serializer.Reads.{
  Reads, Reads-pure, Reads-bind, Reads-map, Reads-many, Reads-exact, Reads-u64, Reads-byte,
  Reads-count,
}
use ez_language.Serializer.Writable.{Fits64, FitsCount, IsWritableConstant, IsWritableChunk}

-- Below the limit of the reader the casts of the writer cut nothing.
take_size {ℓ} :
    {A : Type ℓ} (n : ℕ) (l : List A) → length l ≡ n → n ≤ ezc_max_count → take (u32 n) l ≡ l
take_size n l e h = rw (mod-eq_of_lt {n = n} {m = 2 ^ 32} (omega arith), ← e) (take_all l)

pub write_bool-Reads : (b : Bool) (what : String) → Reads (read_bool what) (write_bool b) b
unfolding read_bool write_bool bool_of_byte
write_bool-Reads true what = Reads-map bool_of_byte (Reads-byte 1 what (omega arith))
write_bool-Reads false what = Reads-map bool_of_byte (Reads-byte 0 what (omega arith))

pub write_string-Reads : (s : Text) → FitsCount s → Reads read_string (write_string s) s
unfolding read_string write_string
write_string-Reads s h =
    rw (take_size (length s) s refl h)
      (Reads-bind _ (Reads-count (length s) "string length" h) (Reads-exact s "string data"))

write_payload-Reads :
    (c : Constant)
    → IsWritableConstant c
    → Reads (read_payload (constant_tag c)) (write_payload c) c
unfolding read_payload constant_tag write_payload
write_payload-Reads nil h = Reads-pure nil
write_payload-Reads (bool b) h = Reads-map bool (write_bool-Reads b "bool constant")
write_payload-Reads (int n) h = Reads-map int (Reads-u64 n _ h)
write_payload-Reads (double d) h = Reads-map double (Reads-u64 d _ h)
write_payload-Reads (string s) h = Reads-map string (write_string-Reads s h)
write_payload-Reads (function p) h = rw h (Reads-pure (function none))
write_payload-Reads (model p) h = rw h (Reads-pure (model none))
write_payload-Reads (array_const l) (h, hs) = rw (take_size (length l) l refl h) (
    Reads-bind _ (Reads-count (length l) _ h)
      (Reads-map array_const (Reads-many _ write_u64 Fits64 (λ n. Reads-u64 n _) l hs)))

constant_tag-lt : (c : Constant) → constant_tag c < 256
unfolding constant_tag
constant_tag-lt nil = omega arith
constant_tag-lt _ = omega arith

write_constant-Reads :
    (c : Constant) → IsWritableConstant c → Reads read_constant (write_constant c) c
unfolding read_constant write_constant
write_constant-Reads c h =
    Reads-bind _ (Reads-byte (constant_tag c) _ (constant_tag-lt c)) (write_payload-Reads c h)

-- The reader puts each constant into the pool: a distinct pool comes back as it was.
write_constants-Reads :
    (seen cs : List Constant)
    → All IsWritableConstant cs
    → IsDistinctFrom seen cs
    → Reads (read_constants (length cs) seen) (write_all write_constant cs) (seen ++ cs)
unfolding read_constants write_all pool_add
write_constants-Reads seen [] h d = rw append-nil (Reads-pure seen)
write_constants-Reads seen (c ∷ cs) (h, hs) (fresh, d) = Reads-bind _ (write_constant-Reads c h) (
    rw (fresh, place, ← append_assoc seen (c ∷ []) cs)
      (write_constants-Reads (seen ++ c ∷ []) cs hs d))

write_lines-Reads :
    (c : Chunk)
    → IsWritableChunk c
    → Reads
        (read_many (length c.code) (read_pod 8 "line table"))
        (write_all write_u64 c.lines)
        c.lines
write_lines-Reads c w =
    rw w.lines_match at (
      Reads-many (read_pod 8 "line table") write_u64 Fits64 (λ n. Reads-u64 n _) c.lines
        w.lines_fit)

pub write_chunk-Reads :
    (c : Chunk)
    → IsWritableChunk c
    → Reads read_chunk
        (write_chunk c)
        (record empty_chunk { code = c.code; lines = c.lines; constants = c.constants })
unfolding read_chunk write_chunk
write_chunk-Reads c w =
    rw (take_size _ c.code refl w.code_fits, take_size _ c.lines w.lines_match w.code_fits)
      (Reads-bind _ (Reads-count _ _ w.code_fits) (
        Reads-bind _ (Reads-exact c.code _) (
          Reads-bind _ (write_lines-Reads c w) (
            Reads-bind _ (Reads-count _ _ w.constants_fit) (
              Reads-map _ (
                write_constants-Reads [] c.constants w.constants_writable w.constants_distinct))))))
