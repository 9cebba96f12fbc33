-- ===== src/Bytecode/Types.antt =====
-- The data of src/bytecode/Bytecode.h.
use ez_language.Prelude.{ℕ, suc, Bool, List, Option}
use Prim.Native.Nat.{max}
use ez_language.Bytes.{Byte}

abbrev pub Text : Type 0
Text = List Byte

-- `struct Constant`: its `type` tag with the variant that the tag selects. The last two pointers
-- are `none` for a null pointer.
pub data Constant : Type 0 where
  nil : Constant
  bool : Bool → Constant
  int double : ℕ → Constant
  string : Text → Constant
  function model : Option ℕ → Constant
  array_const : List ℕ → Constant

-- The part of `Value` that `resolveConstants` builds.
pub data Value : Type 0 where
  nil : Value
  boolean : Bool → Value
  integer number : ℕ → Value
  text : Text → Value

-- An entry of the inline caches; the pointers are `none` when null.
pub record IcCacheEntry : Type 0 where
  pub shape : Option ℕ
  pub klass : Option ℕ
  pub offset : ℕ
  pub method_value : Value

pub record Chunk : Type 0 where
  pub code : List Byte
  pub constants : List Constant
  pub resolved_constants : List Value
  pub lines : List ℕ
  pub ic_entries : List IcCacheEntry

abbrev pub empty_chunk : Chunk
empty_chunk = record {
  code = List.[];
  constants = List.[];
  resolved_constants = List.[];
  lines = List.[];
  ic_entries = List.[];
}

-- `Upvalue::Type`, with the values that a cast from an arbitrary byte can give.
pub data UpvalueType : Type 0 where
  local upvalue : UpvalueType
  other : ℕ → UpvalueType

pub record Upvalue : Type 0 where
  pub type : UpvalueType
  pub index : ℕ

pub record LocalVarInfo : Type 0 where
  pub name : Text
  pub slot : ℕ
  pub start_pc : ℕ
  pub end_pc : ℕ

pub record CallSiteInfo : Type 0 where
  pub offset : ℕ
  pub name : Text

-- The fields of `struct BytecodeFunction` but the last, `nestedFunctions`.
pub record FunctionInfo : Type 0 where
  pub name : Text
  pub filename : Text
  pub class_name : Text
  pub param_names : List Text
  pub arity : ℕ
  pub is_variadic : Bool
  pub is_async : Bool
  pub is_method : Bool
  pub has_cached : Bool
  pub chunk : Chunk
  pub upvalues : List Upvalue
  pub upvalue_count : ℕ
  pub local_count : ℕ
  pub local_vars : List LocalVarInfo
  pub call_sites : List CallSiteInfo
  pub default_param_count : ℕ
  pub global_slot_count : ℕ

mutual
  pub data BytecodeFunction : Type 0 where
    compiled : FunctionInfo → Functions → BytecodeFunction

  -- `nestedFunctions`
  pub data Functions : Type 0 where
    none : Functions
    more : BytecodeFunction → Functions → Functions

-- How deep functions nest below one.
unfoldable mutual
  pub depth : BytecodeFunction → ℕ
  depth (compiled i fs) = depth_all fs

  pub depth_all : Functions → ℕ
  depth_all none = 0
  depth_all (more f fs) = max (suc (depth f)) (depth_all fs)

unfoldable pub count_all : Functions → ℕ
count_all none = 0
count_all (more f fs) = suc (count_all fs)
