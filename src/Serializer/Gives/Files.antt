-- ===== src/Serializer/Gives/Files.antt =====
-- Functions and files as the reader gives them, and what follows for a second trip.
use ez_language.Prelude.{ℕ, zero, suc, ◌+◌, ◌<◌, ◌≤◌, ◌≡◌, refl, ap, ◌∙◌, List, ◌++◌, arith, All}
use ez_language.Bytes.{Byte}
use ez_language.Bytecode.Types.{
  Text, FunctionInfo, BytecodeFunction, Functions, compiled, depth, depth_all, count_all,
}
use ez_language.Bytecode.Pool.{text_eq}
use ez_language.Serializer.Reader.{Reader, ok, too_deep, read_exact, ezc_max_nest_depth}
use ez_language.Serializer.Write.{magic, serialize}
use ez_language.Serializer.Read.{
  read_functions, read_body, read_function, read_magic, is_old, check_magic, deserialize,
}
use ez_language.Serializer.Writable.{FitsCount, IsWritable, AreWritable, reloaded, reloaded_all}
use ez_language.Serializer.Stable.Files.{or_too_short-eq-ok}
use ez_language.Serializer.RoundTrip.{deserialize-serialize}
use ez_language.Serializer.Gives.Rules.{
  IsByte, Gives, Gives-pure, Gives-throw, Gives-bind, Gives-if, Gives-exact, Gives-count,
}
use ez_language.Serializer.Gives.Info.{string-Gives, table-Gives, info-Gives}

abbrev info_of : BytecodeFunction → FunctionInfo
info_of (compiled i fs) = i

-- What holds of a function read with `levels` levels of nesting left.
abbrev IsLoadedAt : ℕ → BytecodeFunction → Type 0
IsLoadedAt levels f = IsWritable f × (depth f < levels) × (reloaded f ≡ f)

abbrev AreLoadedAt : ℕ → ℕ → Functions → Type 0
AreLoadedAt levels n fs =
    AreWritable fs × (depth_all fs ≤ levels) × (reloaded_all fs ≡ fs) × (count_all fs ≡ n)

functions-Gives :
    (levels n : ℕ) {p : Reader BytecodeFunction}
    → Gives (IsLoadedAt levels) p
    → Gives (AreLoadedAt levels n) (read_functions n p)
unfolding read_functions depth reloaded count_all
functions-Gives levels zero s = Gives-pure Functions.none (tt, omega arith, refl, refl)
functions-Gives levels (suc n) s = Gives-bind s λ f (w, d, e).
    Gives-bind (functions-Gives levels n s) λ fs (ws, ds, es, c).
      Gives-pure (Functions.more f fs) ((w, ws), omega arith, rw (e, es), ap suc c)

body-Gives :
    (levels : ℕ) {p : Reader BytecodeFunction}
    → Gives (IsLoadedAt levels) p
    → Gives (IsLoadedAt (suc levels)) (read_body p)
unfolding read_body depth reloaded
body-Gives levels s = Gives-bind info-Gives λ i (w, e). Gives-bind (Gives-count _) λ n le.
    Gives-bind (functions-Gives levels n s)
      λ fs (ws, ds, es, c). Gives-pure (compiled i fs) ((w, rw c le, ws), omega arith, rw (e, es))

function-Gives : (levels : ℕ) → Gives (IsLoadedAt levels) (read_function levels)
unfolding read_function
function-Gives zero = record { on = (Gives-throw too_deep).on }
function-Gives (suc levels) = record { on = (body-Gives levels (function-Gives levels)).on }

abbrev Any {ℓ} : {A : Type ℓ} → A → Type 0
Any a = Unit

magic-Gives : Gives Any read_magic
unfolding read_magic
magic-Gives = record {
  on = λ xs bs h.
      (tt, ((Gives-exact 4 "magic").on xs bs (or_too_short-eq-ok (read_exact 4 "magic" xs) h)).1);
}

check_magic-Gives : (tag : List Byte) → Gives Any (check_magic tag)
unfolding check_magic
check_magic-Gives tag =
    Gives-if (is_old tag) (λ _. Gives-throw _)
      λ _. Gives-if (text_eq tag magic) (λ _. Gives-pure tt tt) λ _. Gives-throw _

-- What holds of a file that the reader accepts.
abbrev IsLoadedFile : BytecodeFunction × List Text → Type 0
IsLoadedFile (f, slots) =
    IsLoadedAt (ezc_max_nest_depth + 1) f × FitsCount slots × All FitsCount slots

deserialize-Gives : Gives IsLoadedFile deserialize
unfolding deserialize
deserialize-Gives = Gives-bind magic-Gives λ tag _. Gives-bind (check_magic-Gives tag) λ _ _.
    table-Gives _ string-Gives λ slots n ws.
      Gives-bind (function-Gives (ezc_max_nest_depth + 1)) λ f h. Gives-pure (f, slots) (h, n, ws)

-- Whatever bytes the reader accepts, the program it gives respects the hardening limits: every
-- count is at most 64M and nesting is at most 512 deep, every word has its width, each chunk has
-- one line for each byte of code, and in no pool does `addConstant` take a constant for one that
-- stands before it (which it never does for NaN, arrays, functions and models).
pub deserialize-IsWritable :
    (bytes : List Byte) {f : BytecodeFunction} {slots : List Text} {rest : List Byte}
    → All IsByte bytes
    → deserialize bytes ≡ ok ((f, slots), rest)
    → IsWritable f × (depth f ≤ ezc_max_nest_depth) × FitsCount slots × All FitsCount slots
deserialize-IsWritable bytes bs h =
    let ((w, d, e), n, ws) = (deserialize-Gives.on bytes bs h).0 in (w, omega arith, n, ws)

-- A program that was read from bytes survives a second trip unchanged: written again and read, it
-- is the same program with the same global slot names, and what follows on the stream is left.
pub deserialize-serialize_again :
    (bytes : List Byte) {f : BytecodeFunction} {slots : List Text} {rest : List Byte}
    → All IsByte bytes
    → deserialize bytes ≡ ok ((f, slots), rest)
    → (more : List Byte) → deserialize (serialize f slots ++ more) ≡ ok ((f, slots), more)
deserialize-serialize_again bytes {f} {slots} bs h more =
    let ((w, d, e), n, ws) = (deserialize-Gives.on bytes bs h).0 in
    deserialize-serialize f slots more w (omega arith) n ws ∙ ap (λ g. ok ((g, slots), more)) e
