-- ===== src/Vm/Bundled.antt =====
-- What a function loses when it is bundled: the fields that BytecodeSerializer.cpp does not carry.
use ez_language.Prelude.{
  ℕ, zero, suc, false, ◌≤◌, ◌<◌, ◌≡◌, refl, ap, Option, some, List, [], ◌∷◌, ◌++◌, All, arith, ◌∙◌,
}
use ez_language.Bytes.{Byte}
use ez_language.Bytecode.Types.{Text, FunctionInfo, BytecodeFunction, compiled, Functions, depth}
use ez_language.Serializer.Reader.{ok, ezc_max_nest_depth}
use ez_language.Serializer.Write.{serialize}
use ez_language.Serializer.Read.{deserialize}
use ez_language.Serializer.Writable.{FitsCount, IsWritable, reloaded_info, reloaded, reloaded_all}
use ez_language.Serializer.RoundTrip.{deserialize-serialize}
use ez_language.Vm.Arity.{min_arity, accepted, needs, reported, check_arity}

abbrev child : ℕ → Functions → Option BytecodeFunction
child n Functions.none = Option.none
child zero (Functions.more f fs) = some f
child (suc n) (Functions.more f fs) = child n fs

-- The function that the path of indices into `nestedFunctions` leads to.
abbrev pub function_at : List ℕ → Option BytecodeFunction → Option FunctionInfo
function_at path Option.none = Option.none
function_at [] (some (compiled i fs)) = some i
function_at (n ∷ path) (some (compiled i fs)) = function_at path (child n fs)

abbrev reloaded_option : Option BytecodeFunction → Option BytecodeFunction
reloaded_option Option.none = Option.none
reloaded_option (some f) = some (reloaded f)

child-reloaded_all :
    (n : ℕ) (fs : Functions) → child n (reloaded_all fs) ≡ reloaded_option (child n fs)
unfolding reloaded_all reloaded
child-reloaded_all n Functions.none = refl
child-reloaded_all zero (Functions.more f fs) = refl
child-reloaded_all (suc n) (Functions.more f fs) = child-reloaded_all n fs

abbrev reloaded_info_option : Option FunctionInfo → Option FunctionInfo
reloaded_info_option Option.none = Option.none
reloaded_info_option (some i) = some (reloaded_info i)

function_at-reloaded :
    (path : List ℕ) (o : Option BytecodeFunction)
    → function_at path (reloaded_option o) ≡ reloaded_info_option (function_at path o)
unfolding reloaded
function_at-reloaded path Option.none = refl
function_at-reloaded [] (some (compiled i fs)) = refl
function_at-reloaded (n ∷ path) (some (compiled i fs)) =
    ap (λ o. function_at path o) (child-reloaded_all n fs) ∙ function_at-reloaded path (child n fs)

lost :
    (i : FunctionInfo) (arg_count : ℕ)
    → i.is_variadic ≡ false
    → min_arity i ≤ arg_count
    → arg_count < i.arity
    → (check_arity i arg_count ≡ accepted)
      × (check_arity (reloaded_info i) arg_count
          ≡ needs (reported i i.arity) (reported i arg_count))
unfolding check_arity reloaded_info
lost i n v h k = (ground arith, ground arith)

-- For a function at any place of a program within the limits of the format, which is not variadic:
-- a call with at least the required and fewer than all parameters is accepted; but when the program
-- is written to an .ezc file and read back, the same call of the function that then stands at that
-- place is a TypeError that asks for every parameter.
pub bundled_default_lost :
    (f : BytecodeFunction) (slots : List Text) (rest : List Byte)
    → IsWritable f
    → depth f ≤ ezc_max_nest_depth
    → FitsCount slots
    → All FitsCount slots
    → (path : List ℕ) (i : FunctionInfo) → function_at path (some f) ≡ some i
    → (arg_count : ℕ) → i.is_variadic ≡ false
    → min_arity i ≤ arg_count
    → arg_count < i.arity
    → (check_arity i arg_count ≡ accepted)
      × ((g : BytecodeFunction) × (deserialize (serialize f slots ++ rest) ≡ ok ((g, slots), rest))
          × ((j : FunctionInfo) × (function_at path (some g) ≡ some j)
              × (check_arity j arg_count ≡ needs (reported i i.arity) (reported i arg_count))))
bundled_default_lost f slots rest w d n ws path i e arg_count v h k =
    let (before, after) = lost i arg_count v h k in
    (
      before,
      (
        reloaded f,
        deserialize-serialize f slots rest w d n ws,
        (reloaded_info i, function_at-reloaded path (some f) ∙ ap reloaded_info_option e, after),
      ),
    )
