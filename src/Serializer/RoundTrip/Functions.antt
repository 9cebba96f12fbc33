-- ===== src/Serializer/RoundTrip/Functions.antt =====
-- Functions with their tables and their nested functions, and whole files.
use native.Mathlib.Nat.{mod-eq_of_lt}
use ez_language.Prelude.{ℕ, zero, suc, ◌<◌, ◌≤◌, ◌≡◌, refl, arith, length}
use ez_language.Bytecode.Types.{
  UpvalueType, local, upvalue, other, Upvalue, LocalVarInfo, CallSiteInfo, FunctionInfo,
  BytecodeFunction, Functions, compiled, depth, depth_all, count_all,
}
use ez_language.Serializer.Write.{
  write_string, upvalue_tag, write_upvalue, write_local_var, write_call_site, write_info,
  write_function, write_functions,
}
use ez_language.Serializer.Read.{
  read_string, upvalue_type, read_upvalue, read_local_var, read_call_site, read_info,
  read_functions, read_body, read_function,
}
use ez_language.Serializer.Reads.{
  Reads, Reads-pure, Reads-bind, Reads-map, Reads-many, Reads-u32, Reads-byte, Reads-count,
}
use ez_language.Serializer.Writable.{
  FitsCount, IsWritableType, IsWritableUpvalue, IsWritableLocal, IsWritableSite, IsWritableInfo,
  IsWritable, AreWritable, reloaded_info, reloaded, reloaded_all,
}
use ez_language.Serializer.RoundTrip.Chunks.{
  write_bool-Reads, write_string-Reads, write_chunk-Reads,
}

upvalue_type_lem :
    (t : UpvalueType)
    → IsWritableType t
    → (upvalue_type (upvalue_tag t) ≡ t) × (upvalue_tag t < 256)
unfolding upvalue_type upvalue_tag
upvalue_type_lem local h = (refl, omega arith)
upvalue_type_lem upvalue h = (refl, omega arith)
upvalue_type_lem (other n) (h, k) = rw (mod-eq_of_lt k) (ground arith, k)

write_upvalue-Reads :
    (uv : Upvalue) → IsWritableUpvalue uv → Reads read_upvalue (write_upvalue uv) uv
unfolding read_upvalue write_upvalue
write_upvalue-Reads uv (h, k) =
    let (e, fits) = upvalue_type_lem uv.type h in
    let back : Reads read_upvalue (write_upvalue uv)
        (record uv { type = upvalue_type (upvalue_tag uv.type) }) =
      Reads-bind _ (Reads-byte (upvalue_tag uv.type) "upvalue kind" fits)
        (Reads-map _ (Reads-u32 uv.index "upvalue index" k)) in
    rw e at back

write_local_var-Reads :
    (lv : LocalVarInfo) → IsWritableLocal lv → Reads read_local_var (write_local_var lv) lv
unfolding read_local_var write_local_var
write_local_var-Reads lv (h, slot, start, end) = Reads-bind _ (write_string-Reads lv.name h) (
    Reads-bind _ (Reads-u32 lv.slot _ slot)
      (Reads-bind _ (Reads-u32 lv.start_pc _ start) (Reads-map _ (Reads-u32 lv.end_pc _ end))))

write_call_site-Reads :
    (cs : CallSiteInfo) → IsWritableSite cs → Reads read_call_site (write_call_site cs) cs
unfolding read_call_site write_call_site
write_call_site-Reads cs (offset, h) =
    Reads-bind _ (Reads-u32 cs.offset _ offset) (Reads-map _ (write_string-Reads cs.name h))

-- The four tables and the chunk.
write_info-Reads :
    (i : FunctionInfo) → IsWritableInfo i → Reads read_info (write_info i) (reloaded_info i)
unfolding read_info write_info reloaded_info
write_info-Reads i w = Reads-bind _ (write_string-Reads i.name w.name_fits) (
    Reads-bind _ (write_string-Reads i.filename w.filename_fits) (
      Reads-bind _ (Reads-u32 i.arity _ w.arity_fits) (
        Reads-bind _ (write_bool-Reads i.is_variadic _) (
          Reads-bind _ (write_bool-Reads i.is_async _) (
            Reads-bind _ (write_bool-Reads i.is_method _) (
              Reads-bind _ (Reads-u32 i.upvalue_count _ w.upvalue_count_fits) (
                Reads-bind _ (Reads-u32 i.local_count _ w.local_count_fits) (
                  Reads-bind _ (Reads-count (length i.upvalues) _ w.upvalues_fit) (
                    Reads-bind _
                      (Reads-many read_upvalue write_upvalue IsWritableUpvalue write_upvalue-Reads
                        i.upvalues w.upvalues_writable)
                      (Reads-bind _ (Reads-count (length i.local_vars) _ w.locals_fit) (
                        Reads-bind _
                          (Reads-many read_local_var write_local_var IsWritableLocal
                            write_local_var-Reads i.local_vars w.locals_writable)
                          (Reads-bind _ (Reads-count (length i.param_names) _ w.params_fit) (
                            Reads-bind _
                              (Reads-many read_string write_string FitsCount write_string-Reads
                                i.param_names w.params_writable)
                              (Reads-bind _ (Reads-count (length i.call_sites) _ w.sites_fit) (
                                Reads-bind _
                                  (Reads-many read_call_site write_call_site IsWritableSite
                                    write_call_site-Reads i.call_sites w.sites_writable)
                                  (Reads-map _
                                    (write_chunk-Reads i.chunk w.chunk_writable)))))))))))))))))

read_function-suc : (levels : ℕ) → read_function (suc levels) ≡ read_body (read_function levels)
unfolding read_function
read_function-suc levels = refl

mutual
  unfolding read_body read_functions write_function reloaded depth count_all

  pub function-Reads :
      (levels : ℕ) (f : BytecodeFunction)
      → IsWritable f
      → depth f < levels
      → Reads (read_function levels) (write_function f) (reloaded f)
  function-Reads zero (compiled i fs) w h = absurd (omega arith)
  function-Reads (suc levels) (compiled i fs) (w, n, ws) h = rw (read_function-suc levels) (
      Reads-bind _ (write_info-Reads i w) (
        Reads-bind _ (Reads-count (count_all fs) _ n)
          (Reads-map _ (functions-Reads levels fs ws (omega arith)))))

  functions-Reads :
      (levels : ℕ) (fs : Functions)
      → AreWritable fs
      → depth_all fs ≤ levels
      → Reads
          (read_functions (count_all fs) (read_function levels))
          (write_functions fs)
          (reloaded_all fs)
  functions-Reads levels Functions.none w h = Reads-pure Functions.none
  functions-Reads levels (Functions.more f fs) (w, ws) h =
      Reads-bind _ (function-Reads levels f w (omega arith))
        (Reads-map (Functions.more (reloaded f)) (functions-Reads levels fs ws (omega arith)))
