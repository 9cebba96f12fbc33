-- ===== src/Bytecode/CallSites.antt =====
-- `BytecodeFunction::calleeNameAt` of src/bytecode/Bytecode.h: a binary search in the table of the
-- calls of a function. `none` is the null pointer.
pub mod Search
use ez_language.Prelude.{
  ℕ, zero, suc, ◌+◌, ◌-◌, ◌/◌, Bool, true, false, Option, none, some, List, [], ◌∷◌, ◌==◌, ltb,
  if◌then◌else◌, length, get_elem?,
}
use ez_language.Bytecode.Types.{Text, CallSiteInfo}

-- `callSites[mid].offset < offset`; the search does not leave the table.
abbrev pub is_before : ℕ → Option CallSiteInfo → Bool
is_before offset none = false
is_before offset (some c) = ltb c.offset offset

-- The loop: the distance from `low` to `high` shrinks in each round, so the size of the table is
-- enough fuel.
unfoldable pub search : ℕ → List CallSiteInfo → ℕ → ℕ → ℕ → ℕ
search offset sites zero low high = low
search offset sites (suc fuel) low high =
    let mid = low + (high - low) / 2 in
    let above = search offset sites fuel (mid + 1) high in
    let below = search offset sites fuel low mid in
    if ltb low high then (if is_before offset (get_elem? sites mid) then above else below) else low

abbrev pub name_if : ℕ → Option CallSiteInfo → Option Text
name_if offset none = none
name_if offset (some c) = if c.offset == offset then some c.name else none

unfoldable pub callee_name_at : ℕ → List CallSiteInfo → Option Text
unfolding search
callee_name_at offset sites =
    name_if offset (get_elem? sites (search offset sites (length sites) 0 (length sites)))
