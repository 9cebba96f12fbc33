-- ===== src/Serializer/RoundTrip/Files.antt =====
-- Whole .ezc files.
use ez_language.Prelude.{◌+◌, ◌≤◌, ◌≡◌, refl, List, ◌++◌, arith, length, All}
use ez_language.Bytes.{Byte}
use ez_language.Bytecode.Types.{Text, BytecodeFunction, depth}
use ez_language.Serializer.Reader.{ok, pure, ◌>>=◌, ezc_max_nest_depth, read_exact}
use ez_language.Serializer.Write.{write_string, magic, serialize}
use ez_language.Serializer.Read.{
  read_string, or_too_short, read_magic, is_old, check_magic, deserialize,
}
use ez_language.Serializer.Reads.{Reads, Reads-bind, Reads-then, Reads-map, Reads-many, Reads-count}
use ez_language.Serializer.Writable.{FitsCount, IsWritable, reloaded}
use ez_language.Serializer.RoundTrip.Chunks.{write_string-Reads}
use ez_language.Serializer.RoundTrip.Functions.{function-Reads}

magic-Reads : Reads read_magic magic magic
unfolding read_magic or_too_short read_exact ◌>>=◌ pure
magic-Reads = record { on = λ rest. refl }

check_magic-Reads : Reads (check_magic magic) List.[] tt
unfolding check_magic is_old pure
check_magic-Reads = record { on = λ rest. refl }

pub serialize-Reads :
    (f : BytecodeFunction) (slots : List Text)
    → IsWritable f
    → depth f ≤ ezc_max_nest_depth
    → FitsCount slots
    → All FitsCount slots
    → Reads deserialize (serialize f slots) (reloaded f, slots)
unfolding deserialize serialize
serialize-Reads f slots w d n ws = Reads-bind _ magic-Reads (
    Reads-then _ check_magic-Reads (
      Reads-bind _ (Reads-count (length slots) _ n) (
        Reads-bind _ (Reads-many read_string write_string FitsCount write_string-Reads slots ws) (
          Reads-map (λ g. (g, slots))
            (function-Reads (ezc_max_nest_depth + 1) f w (omega arith))))))

-- A program within the limits of the format, written by `serialize` and read by `deserialize`
-- from a stream that may hold more, comes back as `reloaded` says, with the same global slot
-- names, and the rest of the stream is left: names, tables, code, lines and constants are kept at
-- every nesting level.
pub deserialize-serialize :
    (f : BytecodeFunction) (slots : List Text) (rest : List Byte)
    → IsWritable f
    → depth f ≤ ezc_max_nest_depth
    → FitsCount slots
    → All FitsCount slots
    → deserialize (serialize f slots ++ rest) ≡ ok ((reloaded f, slots), rest)
deserialize-serialize f slots rest w d n ws = (serialize-Reads f slots w d n ws).on rest
