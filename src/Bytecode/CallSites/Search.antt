-- ===== src/Bytecode/CallSites/Search.antt =====
-- The binary search finds what a search from the front finds (src/bytecode/Bytecode.h).
use ez_language.Prelude.{
  ℕ, zero, suc, ◌+◌, ◌-◌, ◌/◌, ◌≤◌, ◌<◌, ◌≡◌, refl, sym, inl, inr, false, Option, none, some, List,
  [], ◌∷◌, arith, ◌==◌, ltb, ltb→lt, ltb_false→le, if◌then◌else◌, length, get_elem?,
  get_elem?-of_lt, lt-of_get_elem?, Bool-cases,
}
use ez_language.Bytecode.Types.{Text, CallSiteInfo}
use ez_language.Bytecode.CallSites.{search, name_if, callee_name_at}

-- The name of the first call at the offset.
unfoldable pub first_at : ℕ → List CallSiteInfo → Option Text
first_at offset [] = none
first_at offset (c ∷ sites) =
    let rest = first_at offset sites in if c.offset == offset then some c.name else rest

-- The calls stand in the order of their offsets.
abbrev pub IsSorted : List CallSiteInfo → Type 0
IsSorted sites =
    (i j : ℕ) (a b : CallSiteInfo)
    → i ≤ j
    → get_elem? sites i ≡ some a
    → get_elem? sites j ≡ some b
    → a.offset ≤ b.offset

-- The calls before `l` are those at smaller offsets.
abbrev Splits : ℕ → List CallSiteInfo → ℕ → ℕ → Type 0
Splits offset sites low high =
    ((i : ℕ) (c : CallSiteInfo) → i < low → get_elem? sites i ≡ some c → c.offset < offset)
    × ((i : ℕ) (c : CallSiteInfo) → high ≤ i → get_elem? sites i ≡ some c → offset ≤ c.offset)

module _ (offset : ℕ) (sites : List CallSiteInfo) (sorted : IsSorted sites) where
  search-Splits :
      (fuel low high : ℕ)
      → high ≤ low + fuel
      → low ≤ high
      → high ≤ length sites
      → Splits offset sites low high
      → Splits offset sites (search offset sites fuel low high) (search offset sites fuel low high)
  unfolding search
  search-Splits zero low high f o l (a, b) = (a, λ i c h. b i c (omega arith))
  search-Splits (suc fuel) low high f o l (a, b) = elim (Bool-cases (ltb low high)) [
    | inr e ↦ rw (e) (a, λ i c h. b i c (omega (arith, ltb_false→le low high e)))
    | inl e ↦
        let more = ltb→lt low high e in
        let (m, at) = get_elem?-of_lt sites (low + (high - low) / 2) (omega arith) in
        rw (e) (
          rw (at) (elim (Bool-cases (ltb m.offset offset)) [
            | inl before ↦ rw (before) (
                search-Splits fuel (low + (high - low) / 2 + 1) high (omega arith) (omega arith) l (
                  λ i c h g. omega (
                    arith,
                    sorted i (low + (high - low) / 2) c m (omega arith) g at,
                    ltb→lt m.offset offset before,
                  ),
                  b,
                ))
            | inr after ↦ rw (after) (
                search-Splits fuel low (low + (high - low) / 2) (omega arith) (omega arith)
                  (omega arith)
                  (
                    a,
                    λ i c h g. omega (
                      arith,
                      sorted (low + (high - low) / 2) i m c h at g,
                      ltb_false→le m.offset offset after,
                    ),
                  ))
          ]))
  ]

first_at-none :
    (offset : ℕ) (sites : List CallSiteInfo)
    → ((i : ℕ) (c : CallSiteInfo) → get_elem? sites i ≡ some c → offset < c.offset)
    → first_at offset sites ≡ none
unfolding first_at
first_at-none offset [] h = refl
first_at-none offset (c ∷ sites) h =
    rw (differs) (first_at-none offset sites (λ i d g. h (suc i) d g))
  where
    above : offset < c.offset
    above = h 0 c refl

    differs : (c.offset == offset) ≡ false
    differs = ground (arith, above)

name_if-first_at :
    (offset l : ℕ) (sites : List CallSiteInfo)
    → IsSorted sites
    → Splits offset sites l l
    → name_if offset (get_elem? sites l) ≡ first_at offset sites
unfolding first_at
name_if-first_at offset l [] sorted h = refl
name_if-first_at offset zero (c ∷ sites) sorted (a, b) = elim (Bool-cases (c.offset == offset)) [
  | inl e ↦ rw (e) refl
  | inr e ↦ rw (e) (
      sym (
        first_at-none offset sites
          (λ i d g. higher e d (sorted 0 (suc i) c d (omega arith) refl g))))
]
  where
    higher :
        (c.offset == offset) ≡ false → (d : CallSiteInfo) → c.offset ≤ d.offset → offset < d.offset
    higher e d k = let at = b 0 c (omega arith) refl in ground (arith, at)
name_if-first_at offset (suc l) (c ∷ sites) sorted (a, b) = rw (differs) (
    name_if-first_at offset l sites (λ i j x y k g h. sorted (suc i) (suc j) x y (omega arith) g h)
      (λ i d k h. a (suc i) d (omega arith) h, λ i d k h. b (suc i) d (omega arith) h))
  where
    lower : c.offset < offset
    lower = a 0 c (omega arith) refl

    differs : (c.offset == offset) ≡ false
    differs = ground (arith, lower)

-- In a table in the order of its offsets, `calleeNameAt` ends, and gives the name of the first call
-- at the offset, or null when there is none.
pub callee_name_at-first_at :
    (offset : ℕ) (sites : List CallSiteInfo)
    → IsSorted sites
    → callee_name_at offset sites ≡ first_at offset sites
unfolding callee_name_at
callee_name_at-first_at offset sites sorted = name_if-first_at offset _ sites sorted (
    search-Splits offset sites sorted (length sites) 0 (length sites) (omega arith) (omega arith)
      (omega arith)
      (
        λ i c k h. absurd (omega arith),
        λ i c k h. absurd (omega (arith, lt-of_get_elem? sites i c h)),
      ))
