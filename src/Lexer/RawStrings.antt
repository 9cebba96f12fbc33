-- ===== src/Lexer/RawStrings.antt =====
-- What `scanRawString` of src/lexer/Lexer.cpp makes of a raw string.
use ez_language.Prelude.{
  ℕ, zero, suc, ◌+◌, ◌*◌, ◌≤◌, ◌≡◌, refl, ap, ◌∙◌, false, List, [], ◌∷◌, ◌++◌, append_assoc,
  append-nil, arith, length, length-append, All, if◌then◌else◌, ◌==◌, ==_iff, inl, inr, Bool-cases,
}
use ez_language.Bytes.{Byte}
use ez_language.Lexer.Kinds.{TokenKind}
use ez_language.Lexer.State.{
  Lexer, Token, text, advance, advance_from, take_byte, add_token, is_at_end, peek, is_empty, front,
  int_sub,
}
use ez_language.Lexer.Strings.{count_newline, raw_loop, end_raw, scan_raw_string}

abbrev pub newlines : List Byte → ℕ
newlines [] = 0
newlines (c ∷ s) = (if c == b'\n' then 1 else 0) + newlines s

-- What a round of the loop changes, at a byte `c`.
abbrev Round : Byte → List Byte → Lexer → Lexer → Type 0
Round c r s t =
    (t.rest ≡ r)
    × ((t.tokens ≡ s.tokens)
        × ((t.reports ≡ s.reports) × (t.line ≡ s.line + 2 * (if c == b'\n' then 1 else 0))))

advance_from-Round :
    (c : Byte) (r : List Byte) (s : Lexer)
    → s.rest ≡ c ∷ r
    → Round c r s (advance (count_newline s))
unfolding advance count_newline peek advance_from take_byte
advance_from-Round c r s e = elim (Bool-cases (c == b'\n')) [
  | inl h ↦ rw (e, h, h) (refl, (refl, (refl, omega arith)))
  | inr h ↦ rw (e, h, h) (refl, (refl, (refl, omega arith)))
]

pub advance-plain :
    (c : Byte) (r : List Byte) (s : Lexer)
    → s.rest ≡ c ∷ r
    → (c == b'\n') ≡ false
    → ((advance s).rest ≡ r)
      × (((advance s).tokens ≡ s.tokens)
          × (((advance s).reports ≡ s.reports) × ((advance s).line ≡ s.line)))
unfolding advance advance_from take_byte
advance-plain c r s e h = rw (e, h) (refl, (refl, (refl, refl)))

pub is_at_end-cons : (c : Byte) (r : List Byte) (s : Lexer) → s.rest ≡ c ∷ r → is_at_end s ≡ false
unfolding is_at_end
is_at_end-cons c r s e = ap is_empty e

pub peek-cons : (c : Byte) (r : List Byte) (s : Lexer) → s.rest ≡ c ∷ r → peek s ≡ c
unfolding peek
peek-cons c r s e = ap front e

raw_loop-cons :
    (fuel : ℕ) (q : Byte) (v : List Byte) (c : Byte) (r : List Byte) (s : Lexer)
    → s.rest ≡ c ∷ r
    → (c == q) ≡ false
    → raw_loop (suc fuel) q v s ≡ raw_loop fuel q (v ++ c ∷ []) (advance (count_newline s))
unfolding raw_loop
raw_loop-cons fuel q v c r s e n = rw (is_at_end-cons c r s e, peek-cons c r s e, n)

raw_loop-stop :
    (fuel : ℕ) (q : Byte) (v r : List Byte) (s : Lexer)
    → s.rest ≡ q ∷ r
    → raw_loop fuel q v s ≡ (v, s)
unfolding raw_loop
raw_loop-stop zero q v r s e = refl
raw_loop-stop (suc fuel) q v r s e =
    rw (is_at_end-cons q r s e, peek-cons q r s e, (==_iff q q).1 refl)

raw_loop_lem :
    (fuel : ℕ) (q : Byte) (v value rest : List Byte) (s : Lexer)
    → length value ≤ fuel
    → s.rest ≡ value ++ q ∷ rest
    → All (λ b. (b == q) ≡ false) value
    → ((raw_loop fuel q v s).0 ≡ v ++ value)
      × (((raw_loop fuel q v s).1.rest ≡ q ∷ rest)
          × (((raw_loop fuel q v s).1.tokens ≡ s.tokens)
              × (((raw_loop fuel q v s).1.reports ≡ s.reports)
                  × ((raw_loop fuel q v s).1.line ≡ s.line + 2 * newlines value))))
raw_loop_lem fuel q v [] rest s l e a =
    rw (raw_loop-stop fuel q v rest s e, append-nil v) (refl, (e, (refl, (refl, omega arith))))
raw_loop_lem zero q v (c ∷ value) rest s l e a = absurd (omega arith)
raw_loop_lem (suc fuel) q v (c ∷ value) rest s l e a =
    let t = advance (count_newline s) in
    let (er, (et, (ep, el))) = advance_from-Round c (value ++ q ∷ rest) s e in
    let (f, (fr, (ft, (fp, fl)))) =
      raw_loop_lem fuel q (v ++ c ∷ []) value rest t (omega arith) er a.1 in
    rw (raw_loop-cons fuel q v c (value ++ q ∷ rest) s e a.0)
      (f ∙ append_assoc v (c ∷ []) value, (fr, (ft ∙ et, (fp ∙ ep, omega arith))))

-- From an opening quote q on, which is not a line end, with a text without q and a closing q before
-- the rest of the source, scanRawString reports nothing, takes both quotes and the text, and adds
-- one string token whose value is the text, unescaped. A line end in the text is counted twice: the
-- token stands, and the lexer goes on, two lines further down for each.
pub scan_raw_string_lem :
    (q : Byte) (value rest : List Byte) (s : Lexer)
    → s.rest ≡ q ∷ (value ++ q ∷ rest)
    → (q == b'\n') ≡ false
    → All (λ b. (b == q) ≡ false) value
    → (t : Token) × ((t.kind ≡ TokenKind.string)
        × ((t.literal ≡ text value)
            × ((t.line ≡ s.line + 2 * newlines value)
                × (((scan_raw_string s).tokens ≡ s.tokens ++ t ∷ [])
                    × (((scan_raw_string s).rest ≡ rest)
                        × (((scan_raw_string s).reports ≡ s.reports)
                            × ((scan_raw_string s).line ≡ s.line + 2 * newlines value)))))))
unfolding scan_raw_string end_raw add_token
scan_raw_string_lem q value rest s e n a =
    let (r1, (t1, (p1, l1))) = advance-plain q (value ++ q ∷ rest) s e n in
    let (f, (fr, (ft, (fp, fl)))) =
      raw_loop_lem (length s.rest) q [] value rest (advance s)
        (omega (arith, ap length e, length-append value (q ∷ rest))) r1 a in
    let u = (raw_loop (length s.rest) q [] (advance s)).1 in
    let (r2, (t2, (p2, l2))) = advance-plain q rest u fr n in
    let token : Token = record {
      kind = TokenKind.string;
      lexeme = (advance u).lexeme;
      literal = text (raw_loop (length s.rest) q [] (advance s)).0;
      line = (advance u).line;
      column = int_sub (advance u).column (length (advance u).lexeme);
    } in
    rw (peek-cons q (value ++ q ∷ rest) s e, is_at_end-cons q rest u fr)
      (
        token,
        (
          refl,
          (
            ap text f,
            (
              omega arith,
              (ap (λ ts. ts ++ token ∷ []) (t2 ∙ ft ∙ t1), (r2, (p2 ∙ fp ∙ p1, omega arith))),
            ),
          ),
        ),
      )
