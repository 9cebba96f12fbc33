-- ===== src/Serializer/Write.antt =====
-- The writing half of BytecodeSerializer.cpp: each function gives the bytes that its original
-- appends to the stream. A size is cut to 32 bits, as the casts to `uint32_t` do.
use ez_language.Prelude.{ℕ, ◌%◌, ◌^◌, Bool, true, false, List, [], ◌∷◌, ◌++◌, length, take}
use ez_language.Bytes.{Byte, le_bytes}
use ez_language.Bytecode.Types.{
  Text, Constant, nil, bool, int, double, string, function, model, array_const, Chunk, UpvalueType,
  local, upvalue, other, Upvalue, LocalVarInfo, CallSiteInfo, FunctionInfo, BytecodeFunction,
  Functions, compiled, count_all,
}

abbrev pub u32 : ℕ → ℕ
u32 n = n % 2 ^ 32

unfoldable pub write_u32 : ℕ → List Byte
write_u32 n = le_bytes 4 (u32 n)

unfoldable pub write_u64 : ℕ → List Byte
write_u64 n = le_bytes 8 n

-- The byte that stands for a `bool` in memory.
abbrev pub bool_byte : Bool → Byte
bool_byte true = 1
bool_byte false = 0

unfoldable pub write_bool : Bool → List Byte
write_bool b = bool_byte b ∷ []

unfoldable pub write_all {ℓ} : {A : Type ℓ} → (A → List Byte) → List A → List Byte
write_all w [] = []
write_all w (a ∷ l) = w a ++ write_all w l

unfoldable pub write_string : Text → List Byte
unfolding write_u32
write_string s = write_u32 (length s) ++ take (u32 (length s)) s

-- `static_cast<uint8_t>(c.type)`
unfoldable pub constant_tag : Constant → Byte
constant_tag nil = 0
constant_tag (bool b) = 1
constant_tag (int n) = 2
constant_tag (double d) = 3
constant_tag (string s) = 4
constant_tag (function p) = 5
constant_tag (model p) = 6
constant_tag (array_const l) = 7

-- The switch of `writeChunk`.
unfoldable pub write_payload : Constant → List Byte
unfolding write_bool write_u64 write_string write_u32 write_all
write_payload (bool b) = write_bool b
write_payload (int n) = write_u64 n
write_payload (double d) = write_u64 d
write_payload (string s) = write_string s
write_payload (array_const l) =
    write_u32 (length l) ++ write_all write_u64 (take (u32 (length l)) l)
write_payload _ = []

unfoldable pub write_constant : Constant → List Byte
unfolding constant_tag write_payload
write_constant c = constant_tag c ∷ write_payload c

-- `writeChunk`
unfoldable pub write_chunk : Chunk → List Byte
unfolding write_constant
write_chunk chunk =
    let size = u32 (length chunk.code) in
    write_u32 (length chunk.code)
    ++ (take size chunk.code
        ++ (write_all write_u64 (take size chunk.lines)
            ++ (write_u32 (length chunk.constants) ++ write_all write_constant chunk.constants)))

-- `static_cast<uint8_t>(uv.type)`
unfoldable pub upvalue_tag : UpvalueType → Byte
upvalue_tag local = 0
upvalue_tag upvalue = 1
upvalue_tag (other n) = n % 256

unfoldable pub write_upvalue : Upvalue → List Byte
unfolding upvalue_tag write_u32
write_upvalue uv = (upvalue_tag uv.type ∷ []) ++ write_u32 uv.index

unfoldable pub write_local_var : LocalVarInfo → List Byte
unfolding write_string write_u32
write_local_var lv =
    write_string lv.name ++ (write_u32 lv.slot ++ (write_u32 lv.start_pc ++ write_u32 lv.end_pc))

unfoldable pub write_call_site : CallSiteInfo → List Byte
unfolding write_string write_u32
write_call_site cs = write_u32 cs.offset ++ write_string cs.name

-- `writeFunction` down to the count of nested functions.
unfoldable pub write_info : FunctionInfo → List Byte
unfolding write_string write_u32 write_bool write_all write_upvalue write_local_var write_call_site
    write_chunk
write_info i =
    write_string i.name
    ++ (write_string i.filename
        ++ (write_u32 i.arity
            ++ (write_bool i.is_variadic
                ++ (write_bool i.is_async
                    ++ (write_bool i.is_method
                        ++ (write_u32 i.upvalue_count
                            ++ (write_u32 i.local_count
                                ++ (write_u32 (length i.upvalues)
                                    ++ (write_all write_upvalue i.upvalues
                                        ++ (write_u32 (length i.local_vars)
                                            ++ (write_all write_local_var i.local_vars
                                                ++ (write_u32 (length i.param_names)
                                                    ++ (write_all write_string i.param_names
                                                        ++ (write_u32 (length i.call_sites)
                                                            ++ (write_all write_call_site
                                                            i.call_sites
                                                            ++ write_chunk i.chunk)))))))))))))))

-- `writeFunction`, and its loop over the nested functions.
unfoldable mutual
  pub write_function : BytecodeFunction → List Byte
  write_function (compiled i fs) = write_info i ++ (write_u32 (count_all fs) ++ write_functions fs)

  pub write_functions : Functions → List Byte
  write_functions Functions.none = []
  write_functions (Functions.more f fs) = write_function f ++ write_functions fs

-- "EZC3"
abbrev pub magic : List Byte
magic = b'E' ∷ b'Z' ∷ b'C' ∷ b'3' ∷ []

-- `serialize`
unfoldable pub serialize : BytecodeFunction → List Text → List Byte
unfolding write_function write_info count_all
serialize f slots =
    magic ++ (write_u32 (length slots) ++ (write_all write_string slots ++ write_function f))
