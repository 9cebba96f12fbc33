-- ===== src/Serializer/Writable.antt =====
-- What the format can carry: the limits that the reader enforces and the widths of the words.
use ez_language.Prelude.{ℕ, ◌≤◌, ◌<◌, ◌^◌, ◌≡◌, List, Option, length, All, false, []}
use ez_language.Bytecode.Types.{
  Constant, nil, bool, int, double, string, function, model, array_const, Chunk, UpvalueType, other,
  Upvalue, LocalVarInfo, CallSiteInfo, FunctionInfo, BytecodeFunction, Functions, compiled,
  count_all,
}
use ez_language.Bytecode.Pool.{IsDistinct, resolve_constants}
use ez_language.Serializer.Reader.{ezc_max_count}

abbrev pub Fits32 : ℕ → Type 0
Fits32 n = n < 2 ^ 32

abbrev pub Fits64 : ℕ → Type 0
Fits64 n = n < 2 ^ 64

abbrev pub FitsCount {ℓ} : {A : Type ℓ} → List A → Type 0
FitsCount l = length l ≤ ezc_max_count

-- A function or model constant is written without its payload, and so must be null.
abbrev pub IsWritableConstant : Constant → Type 0
IsWritableConstant nil = Unit
IsWritableConstant (bool b) = Unit
IsWritableConstant (int n) = Fits64 n
IsWritableConstant (double d) = Fits64 d
IsWritableConstant (string s) = FitsCount s
IsWritableConstant (function p) = p ≡ Option.none
IsWritableConstant (model p) = p ≡ Option.none
IsWritableConstant (array_const l) = FitsCount l × All Fits64 l

pub record IsWritableChunk (c : Chunk) : Type 0 where
  pub code_fits : FitsCount c.code
  pub lines_match : length c.lines ≡ length c.code
  pub lines_fit : All Fits64 c.lines
  pub constants_fit : FitsCount c.constants
  pub constants_writable : All IsWritableConstant c.constants
  pub constants_distinct : IsDistinct c.constants

abbrev pub IsWritableType : UpvalueType → Type 0
IsWritableType (other n) = (2 ≤ n) × (n < 256)
IsWritableType _ = Unit

abbrev pub IsWritableUpvalue : Upvalue → Type 0
IsWritableUpvalue uv = IsWritableType uv.type × Fits32 uv.index

abbrev pub IsWritableLocal : LocalVarInfo → Type 0
IsWritableLocal lv = FitsCount lv.name × Fits32 lv.slot × Fits32 lv.start_pc × Fits32 lv.end_pc

abbrev pub IsWritableSite : CallSiteInfo → Type 0
IsWritableSite cs = Fits32 cs.offset × FitsCount cs.name

pub record IsWritableInfo (i : FunctionInfo) : Type 0 where
  pub name_fits : FitsCount i.name
  pub filename_fits : FitsCount i.filename
  pub arity_fits : Fits32 i.arity
  pub upvalue_count_fits : Fits32 i.upvalue_count
  pub local_count_fits : Fits32 i.local_count
  pub upvalues_fit : FitsCount i.upvalues
  pub upvalues_writable : All IsWritableUpvalue i.upvalues
  pub locals_fit : FitsCount i.local_vars
  pub locals_writable : All IsWritableLocal i.local_vars
  pub params_fit : FitsCount i.param_names
  pub params_writable : All FitsCount i.param_names
  pub sites_fit : FitsCount i.call_sites
  pub sites_writable : All IsWritableSite i.call_sites
  pub chunk_writable : IsWritableChunk i.chunk

abbrev mutual
  pub IsWritable : BytecodeFunction → Type 0
  IsWritable (compiled i fs) = IsWritableInfo i × (count_all fs ≤ ezc_max_count) × AreWritable fs

  pub AreWritable : Functions → Type 0
  AreWritable Functions.none = Unit
  AreWritable (Functions.more f fs) = IsWritable f × AreWritable fs

-- What a function becomes when it is written and read: the format does not carry the class name,
-- the `hasCached` mark, the count of default parameters, the count of global slots and the inline
-- caches, and the constants are resolved.
unfoldable pub reloaded_chunk : Chunk → Chunk
unfolding resolve_constants
reloaded_chunk c = resolve_constants (record c { resolved_constants = []; ic_entries = [] })

unfoldable pub reloaded_info : FunctionInfo → FunctionInfo
unfolding reloaded_chunk
reloaded_info i = record i {
  class_name = [];
  has_cached = false;
  default_param_count = 0;
  global_slot_count = 0;
  chunk = reloaded_chunk i.chunk;
}

unfoldable mutual
  pub reloaded : BytecodeFunction → BytecodeFunction
  reloaded (compiled i fs) = compiled (reloaded_info i) (reloaded_all fs)

  pub reloaded_all : Functions → Functions
  reloaded_all Functions.none = Functions.none
  reloaded_all (Functions.more f fs) = Functions.more (reloaded f) (reloaded_all fs)
