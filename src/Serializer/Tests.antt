-- ===== src/Serializer/Tests.antt =====
-- A sample program, runs of the reader and the writer on it, and the theorems at it.
use ez_language.Prelude.{
  ◌≡◌, ◌≢◌, ◌≤◌, refl, true, false, List, [], ◌∷◌, ◌++◌, arith, All, take, drop, take-append-drop,
  sym,
}
use ez_language.Bytes.{Byte, le_bytes, of_le}
use ez_language.Bytecode.Types.{
  Text, Constant, local, FunctionInfo, BytecodeFunction, Functions, compiled, depth, count_all,
}
use ez_language.Bytecode.Pool.{pool_add, resolve_constants, find_constant}
use ez_language.Serializer.Reader.{
  ok, err, Error, pure, throw, ◌>>=◌, ezc_max_nest_depth, read_exact, read_pod, check_count,
  read_count, read_many,
}
use ez_language.Serializer.Write.{write_u64, write_u32, serialize}
use ez_language.Serializer.Read.{
  bool_of_byte, read_bool, read_string, read_payload, read_constant, read_constants, read_chunk,
  upvalue_type, read_upvalue, read_local_var, read_call_site, read_info, read_functions, read_body,
  read_function, or_too_short, read_magic, is_old, check_magic, deserialize,
}
use ez_language.Serializer.Writable.{IsWritable, IsWritableInfo, FitsCount, reloaded, reloaded_info}
use ez_language.Serializer.RoundTrip.{deserialize-serialize}
use ez_language.Serializer.Stable.Files.{deserialize-truncated}
use ez_language.Serializer.Gives.Rules.{IsByte}
use ez_language.Serializer.Gives.Files.{deserialize-IsWritable, deserialize-serialize_again}

abbrev info : List Byte → FunctionInfo
info name = record {
  name = name;
  filename = b'm' ∷ [];
  class_name = b'C' ∷ [];
  param_names = (b'a' ∷ []) ∷ (b'b' ∷ []) ∷ [];
  arity = 2;
  is_variadic = false;
  is_async = true;
  is_method = false;
  has_cached = true;
  chunk = record {
    code = 0 ∷ 0 ∷ 1 ∷ 53 ∷ [];
    constants =
        Constant.int 300
        ∷ Constant.string (b'x' ∷ b'y' ∷ [])
        ∷ Constant.bool true
        ∷ Constant.array_const (1 ∷ 2 ∷ [])
        ∷ [];
    resolved_constants = [];
    lines = 1 ∷ 1 ∷ 1 ∷ 700 ∷ [];
    ic_entries = [];
  };
  upvalues = record { type = local; index = 3 } ∷ [];
  upvalue_count = 1;
  local_count = 4;
  local_vars = record { name = b'v' ∷ []; slot = 1; start_pc = 0; end_pc = 4 } ∷ [];
  call_sites = record { offset = 3; name = b'f' ∷ [] } ∷ [];
  default_param_count = 1;
  global_slot_count = 2;
}

-- A main function with one nested function.
abbrev sample : BytecodeFunction
sample =
    compiled (info (b'm' ∷ []))
      (Functions.more (compiled (info (b'k' ∷ [])) Functions.none) Functions.none)

abbrev slot_names : List Text
slot_names = (b'g' ∷ []) ∷ []

info-IsWritable : (b : Byte) → IsWritableInfo (info (b ∷ []))
unfolding find_constant
info-IsWritable b = record {
  name_fits = omega arith;
  filename_fits = omega arith;
  arity_fits = omega arith;
  upvalue_count_fits = omega arith;
  local_count_fits = omega arith;
  upvalues_fit = omega arith;
  upvalues_writable = omega arith;
  locals_fit = omega arith;
  locals_writable = omega arith;
  params_fit = omega arith;
  params_writable = omega arith;
  sites_fit = omega arith;
  sites_writable = omega arith;
  chunk_writable = record {
    code_fits = omega arith;
    lines_match = refl;
    lines_fit = omega arith;
    constants_fit = omega arith;
    constants_writable = omega arith;
    constants_distinct = (refl, (refl, (refl, (refl, tt))));
  };
}

sample-IsWritable : IsWritable sample
unfolding count_all
sample-IsWritable =
    (info-IsWritable b'm', omega arith, ((info-IsWritable b'k', omega arith, tt), tt))

depth-sample : depth sample ≤ ezc_max_nest_depth
unfolding depth
depth-sample = omega arith

abbrev bytes : List Byte
bytes = serialize sample slot_names

read_sample : deserialize bytes ≡ ok ((reloaded sample, slot_names), [])
unfolding deserialize serialize read_magic or_too_short check_magic is_old read_function read_body
    read_info read_functions read_string read_bool bool_of_byte read_payload read_constant
    read_constants read_chunk read_upvalue upvalue_type read_local_var read_call_site read_count
    check_count read_pod read_exact read_many pure throw ◌>>=◌ of_le le_bytes write_u64 write_u32
    pool_add resolve_constants reloaded reloaded_info
read_sample = refl

old_version :
    (rest : List Byte) → deserialize (b'E' ∷ b'Z' ∷ b'C' ∷ b'2' ∷ rest) ≡ err Error.old_format
unfolding deserialize read_magic or_too_short check_magic is_old read_exact pure throw ◌>>=◌
old_version rest = refl

deserialize-serialize_example :
    deserialize (bytes ++ 7 ∷ []) ≡ ok ((reloaded sample, slot_names), 7 ∷ [])
deserialize-serialize_example =
    deserialize-serialize sample slot_names (7 ∷ []) sample-IsWritable depth-sample (omega arith)
      (omega arith)

bytes-IsByte : All IsByte bytes
unfolding serialize le_bytes write_u64
bytes-IsByte = omega arith

rest_not_empty : drop 40 bytes ≢ []
unfolding serialize le_bytes write_u64
rest_not_empty e = cc

deserialize-truncated_example : (e : Error) × (deserialize (take 40 bytes) ≡ err e)
deserialize-truncated_example =
    deserialize-truncated sample slot_names (take 40 bytes) (drop 40 bytes) sample-IsWritable
      depth-sample (omega arith) (omega arith) (sym (take-append-drop 40 bytes)) rest_not_empty

deserialize-IsWritable_example :
    IsWritable (reloaded sample)
    × (depth (reloaded sample) ≤ ezc_max_nest_depth)
    × FitsCount slot_names
    × All FitsCount slot_names
deserialize-IsWritable_example = deserialize-IsWritable bytes bytes-IsByte read_sample

deserialize-serialize_again_example :
    deserialize (serialize (reloaded sample) slot_names ++ 9 ∷ [])
    ≡ ok ((reloaded sample, slot_names), 9 ∷ [])
deserialize-serialize_again_example =
    deserialize-serialize_again bytes bytes-IsByte read_sample (9 ∷ [])
