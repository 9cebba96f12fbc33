-- ===== src/Vm/Tests.antt =====
-- A function with a default parameter, before and after bundling.
use ez_language.Vm.Upvalues.{
  at_slot, at_closed, Captured, put, capture_upvalue, close_upvalues, read_upvalue,
}
use ez_language.Vm.Upvalues.Closing.{IsOpen, HasClosed, all_below, close_upvalues_lem}
use ez_language.Vm.Upvalues.Sharing.{IsOpenFor, capture_upvalue_lem}
use ez_language.Prelude.{ℕ, ◌*◌, ◌≤◌, ◌≡◌, refl, false, some, [], ◌∷◌, ◌++◌, arith}
use ez_language.Bytecode.Types.{
  empty_chunk, FunctionInfo, BytecodeFunction, compiled, Functions, depth, count_all,
}
use ez_language.Serializer.Reader.{ok, ezc_max_nest_depth}
use ez_language.Serializer.Write.{serialize}
use ez_language.Serializer.Read.{deserialize}
use ez_language.Serializer.Writable.{IsWritable, IsWritableInfo}
use ez_language.Vm.Arity.{accepted, needs, takes_at_most, min_arity, reported, check_arity}
use ez_language.Vm.Bundled.{function_at, bundled_default_lost}

-- task connect(host, port = 80)
abbrev connect : FunctionInfo
connect = record {
  name = b'c' ∷ [];
  filename = [];
  class_name = [];
  param_names = (b'h' ∷ []) ∷ (b'p' ∷ []) ∷ [];
  arity = 2;
  is_variadic = false;
  is_async = false;
  is_method = false;
  has_cached = false;
  chunk = empty_chunk;
  upvalues = [];
  upvalue_count = 0;
  local_count = 2;
  local_vars = [];
  call_sites = [];
  default_param_count = 1;
  global_slot_count = 0;
}

too_many : check_arity connect 3 ≡ takes_at_most 2 3
unfolding check_arity
too_many = refl

-- A script that declares the task.
abbrev script : BytecodeFunction
script = compiled connect (Functions.more (compiled connect Functions.none) Functions.none)

connect-IsWritable : IsWritableInfo connect
connect-IsWritable = record {
  name_fits = omega arith;
  filename_fits = omega arith;
  arity_fits = omega arith;
  upvalue_count_fits = omega arith;
  local_count_fits = omega arith;
  upvalues_fit = omega arith;
  upvalues_writable = tt;
  locals_fit = omega arith;
  locals_writable = tt;
  params_fit = omega arith;
  params_writable = omega arith;
  sites_fit = omega arith;
  sites_writable = tt;
  chunk_writable = record {
    code_fits = omega arith;
    lines_match = refl;
    lines_fit = tt;
    constants_fit = omega arith;
    constants_writable = tt;
    constants_distinct = tt;
  };
}

script-IsWritable : IsWritable script
unfolding count_all
script-IsWritable = (connect-IsWritable, omega arith, ((connect-IsWritable, omega arith, tt), tt))

depth-script : depth script ≤ ezc_max_nest_depth
unfolding depth
depth-script = omega arith

bundled_default_lost_example :
    (check_arity connect 1 ≡ accepted)
    × ((g : BytecodeFunction) × (deserialize (serialize script [] ++ []) ≡ ok ((g, []), []))
        × ((j : FunctionInfo) × (function_at (0 ∷ []) (some g) ≡ some j)
            × (check_arity j 1 ≡ needs 2 1)))
unfolding min_arity reported
bundled_default_lost_example =
    bundled_default_lost script [] [] script-IsWritable depth-script (omega arith) tt (0 ∷ [])
      connect refl 1 refl (omega arith) (omega arith)

-- Slot 3 is captured, then slot 1.
abbrev no_upvalues : Captured ℕ
no_upvalues = record {
  stack = λ slot. slot * 10;
  objects = λ i. at_closed 0;
  next_object = 0;
  open_upvalues = [];
}

abbrev two_upvalues : Captured ℕ
two_upvalues = record {
  stack = λ slot. slot * 10;
  objects = put (put (λ i. at_closed 0) 0 (at_slot 3)) 1 (at_slot 1);
  next_object = 2;
  open_upvalues = (0, 3) ∷ (1, 1) ∷ [];
}

two_captures :
    (capture_upvalue 1 (capture_upvalue 3 no_upvalues).1).1.open_upvalues ≡ (0, 3) ∷ (1, 1) ∷ []
unfolding capture_upvalue
two_captures = refl

close_upvalues_lem_example :
    ((i : ℕ) → read_upvalue (close_upvalues 2 two_upvalues) i ≡ read_upvalue two_upvalues i)
    × (IsOpen 2
          (close_upvalues 2 two_upvalues).objects
          (close_upvalues 2 two_upvalues).open_upvalues
        × (HasClosed 2 two_upvalues.stack
              (close_upvalues 2 two_upvalues).objects
              two_upvalues.open_upvalues
            × ((close_upvalues 2 two_upvalues).open_upvalues
                ≡ all_below 2 two_upvalues.open_upvalues)))
close_upvalues_lem_example =
    close_upvalues_lem 2 two_upvalues
      (omega arith, (refl, ((omega arith, tt), (omega arith, (refl, (tt, tt))))))

capture_upvalue_lem_example :
    ((capture_upvalue 2 two_upvalues).1.objects (capture_upvalue 2 two_upvalues).0 ≡ at_slot 2)
    × (IsOpen
          (capture_upvalue 2 two_upvalues).1.next_object
          (capture_upvalue 2 two_upvalues).1.objects
          (capture_upvalue 2 two_upvalues).1.open_upvalues
        × (((capture_upvalue 2 (capture_upvalue 2 two_upvalues).1).0
              ≡ (capture_upvalue 2 two_upvalues).0)
            × ((i slot : ℕ)
                → IsOpenFor i slot two_upvalues.open_upvalues
                → (capture_upvalue slot (capture_upvalue 2 two_upvalues).1).0 ≡ i)))
capture_upvalue_lem_example =
    capture_upvalue_lem 2 two_upvalues
      (omega arith, (refl, ((omega arith, tt), (omega arith, (refl, (tt, tt))))))
