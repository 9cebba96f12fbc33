-- ===== src/Serializer/Read.antt =====
-- The reading half of BytecodeSerializer.cpp.
use ez_language.Prelude.{
  ℕ, zero, suc, ◌+◌, ◌||◌, String, Bool, false, not, Option, List, [], ◌∷◌, ◌==◌, if◌then◌else◌,
}
use ez_language.Bytes.{Byte}
use ez_language.Bytecode.Types.{
  Text, Constant, nil, bool, int, double, string, function, model, array_const, Chunk, empty_chunk,
  UpvalueType, local, upvalue, other, Upvalue, LocalVarInfo, CallSiteInfo, FunctionInfo,
  BytecodeFunction, Functions, compiled,
}
use ez_language.Bytecode.Pool.{pool_add, resolve_constants, text_eq}
use ez_language.Serializer.Reader.{
  Reader, Result, ok, err, unknown_tag, too_deep, too_short, old_format, not_ezc, pure, throw,
  ◌>>=◌, ◌>>◌, ezc_max_nest_depth, read_exact, read_pod, read_count, read_many,
}
use ez_language.Serializer.Write.{magic}

-- `readPod<bool>`, and the bytes of `flags`: any byte but 0 is true.
unfoldable pub bool_of_byte : Byte → Bool
bool_of_byte b = not (b == 0)

unfoldable pub read_bool : String → Reader Bool
read_bool what = do b ← read_pod 1 what; pure (bool_of_byte b)

unfoldable pub read_string : Reader Text
read_string = do n ← read_count "string length"; read_exact n "string data"

-- The switch of `readChunk` on the tag `t`.
unfoldable pub read_payload : Byte → Reader Constant
read_payload t =
    if t == 0
    then pure nil
    else if t == 1
    then (do b ← read_bool "bool constant"; pure (bool b))
    else if t == 2
    then (do n ← read_pod 8 "int constant"; pure (int n))
    else if t == 3
    then (do d ← read_pod 8 "double constant"; pure (double d))
    else if t == 4
    then (do s ← read_string; pure (string s))
    else if t == 5
    then pure (function Option.none)
    else if t == 6
    then pure (model Option.none)
    else if t == 7
    then (do
      n ← read_count "array constant length"
      l ← read_many n (read_pod 8 "array constant")
      pure (array_const l))
    else throw unknown_tag

unfoldable pub read_constant : Reader Constant
read_constant = do t ← read_pod 1 "constant tag"; read_payload t

-- The loop over the constants: each is put into the pool by `addConstant`.
unfoldable pub read_constants : ℕ → List Constant → Reader (List Constant)
read_constants zero cs = pure cs
read_constants (suc n) cs = do c ← read_constant; read_constants n (pool_add c cs).1

-- `readChunk`, into the empty chunk of a new function.
unfoldable pub read_chunk : Reader Chunk
read_chunk = do
  size ← read_count "code size"
  code ← read_exact size "code"
  lines ← read_many size (read_pod 8 "line table")
  n ← read_count "constant count"
  constants ← read_constants n []
  pure (record empty_chunk { code = code; lines = lines; constants = constants })

-- `static_cast<Upvalue::Type>(t)`
unfoldable pub upvalue_type : Byte → UpvalueType
upvalue_type t = if t == 0 then local else if t == 1 then upvalue else other t

unfoldable pub read_upvalue : Reader Upvalue
read_upvalue = do
  t ← read_pod 1 "upvalue kind"
  idx ← read_pod 4 "upvalue index"
  pure (record { type = upvalue_type t; index = idx })

unfoldable pub read_local_var : Reader LocalVarInfo
read_local_var = do
  name ← read_string
  slot ← read_pod 4 "local slot"
  start_pc ← read_pod 4 "local startPC"
  end_pc ← read_pod 4 "local endPC"
  pure (record { name = name; slot = slot; start_pc = start_pc; end_pc = end_pc })

unfoldable pub read_call_site : Reader CallSiteInfo
read_call_site = do
  offset ← read_pod 4 "call-site offset"
  name ← read_string
  pure (record { offset = offset; name = name })

-- `readFunction` down to `resolveConstants`. What it does not read keeps the value that the
-- constructor of `BytecodeFunction` gives it.
unfoldable pub read_info : Reader FunctionInfo
read_info = do
  name ← read_string
  filename ← read_string
  arity ← read_pod 4 "arity"
  variadic ← read_bool "function flags"
  async ← read_bool "function flags"
  method ← read_bool "function flags"
  upvalue_count ← read_pod 4 "upvalue count"
  local_count ← read_pod 4 "local count"
  up_size ← read_count "upvalue table size"
  upvalues ← read_many up_size read_upvalue
  loc_size ← read_count "local-var table size"
  local_vars ← read_many loc_size read_local_var
  param_count ← read_count "parameter-name count"
  param_names ← read_many param_count read_string
  site_count ← read_count "call-site table size"
  call_sites ← read_many site_count read_call_site
  chunk ← read_chunk
  pure (record {
    name = name;
    filename = filename;
    class_name = [];
    param_names = param_names;
    arity = arity;
    is_variadic = variadic;
    is_async = async;
    is_method = method;
    has_cached = false;
    chunk = resolve_constants chunk;
    upvalues = upvalues;
    upvalue_count = upvalue_count;
    local_count = local_count;
    local_vars = local_vars;
    call_sites = call_sites;
    default_param_count = 0;
    global_slot_count = 0;
  })

-- The loop over the nested functions, which `p` reads.
unfoldable pub read_functions : ℕ → Reader BytecodeFunction → Reader Functions
read_functions zero p = pure Functions.none
read_functions (suc n) p = do f ← p; fs ← read_functions n p; pure (Functions.more f fs)

-- The body of `readFunction`; `p` is its recursive call.
unfoldable pub read_body : Reader BytecodeFunction → Reader BytecodeFunction
read_body p = do
  i ← read_info
  n ← read_count "nested-function count"
  fs ← read_functions n p
  pure (compiled i fs)

-- `readFunction` with `levels` levels of nesting left, that is, at a depth of
-- `ezc_max_nest_depth + 1 - levels`.
unfoldable pub read_function : ℕ → Reader BytecodeFunction
read_function zero ts = throw too_deep ts
read_function (suc levels) ts = read_body (read_function levels) ts

unfoldable pub or_too_short : Result (List Byte × List Byte) → Result (List Byte × List Byte)
or_too_short (ok r) = ok r
or_too_short (err _) = err too_short

unfoldable pub read_magic : Reader (List Byte)
read_magic ts = or_too_short (read_exact 4 "magic" ts)

-- "EZC1" or "EZC2"
unfoldable pub is_old : List Byte → Bool
unfolding text_eq
is_old tag =
    text_eq tag (b'E' ∷ b'Z' ∷ b'C' ∷ b'1' ∷ []) || text_eq tag (b'E' ∷ b'Z' ∷ b'C' ∷ b'2' ∷ [])

-- The tests on the header: the two older versions have an error of their own.
unfoldable pub check_magic : List Byte → Reader (Unit {0})
check_magic tag =
    if is_old tag then throw old_format else if text_eq tag magic then pure tt else throw not_ezc

unfoldable pub deserialize : Reader (BytecodeFunction × List Text)
deserialize = do
  tag ← read_magic
  check_magic tag
  count ← read_count "global slot count"
  slots ← read_many count read_string
  f ← read_function (ezc_max_nest_depth + 1)
  pure (f, slots)
