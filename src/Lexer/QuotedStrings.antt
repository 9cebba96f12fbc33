-- ===== src/Lexer/QuotedStrings.antt =====
-- What `scanString` of src/lexer/Lexer.cpp makes of a text that is quoted with escapes.
use ez_language.Prelude.{
  ℕ, zero, suc, ◌≤◌, ◌≡◌, refl, sym, ap, ◌∙◌, true, false, ◌||◌, ◌&&◌, List, [], ◌∷◌, ◌++◌,
  append_assoc, append-nil, arith, length, if◌then◌else◌, ◌==◌, ==_iff, inl, inr, Bool-cases,
}
use ez_language.Bytes.{Byte}
use ez_language.Lexer.Kinds.{TokenKind}
use ez_language.Lexer.State.{
  Lexer, Token, text, advance, add_token, is_at_end, peek, peek_next, front, int_sub,
  unless_returned,
}
use ez_language.Lexer.Strings.{
  simple_escape, escaped, at_close, string_step, string_round, string_loop, end_string, scan_quoted,
  scan_string,
}
use ez_language.Lexer.RawStrings.{is_at_end-cons, peek-cons, advance-plain}

-- A byte as it may stand between double quotes.
abbrev pub quote_byte : Byte → List Byte
quote_byte c =
    if c == b'\n'
    then b'\\' ∷ b'n' ∷ []
    else if c == b'\\'
    then b'\\' ∷ b'\\' ∷ []
    else if c == b'"'
    then b'\\' ∷ b'"' ∷ []
    else c ∷ []

abbrev pub quote_text : List Byte → List Byte
quote_text [] = []
quote_text (c ∷ s) = quote_byte c ++ quote_text s

-- What the rounds of the loop leave as it was.
abbrev Moved : List Byte → Lexer → Lexer → Type 0
Moved r s t = (t.rest ≡ r) × ((t.tokens ≡ s.tokens) × ((t.reports ≡ s.reports) × (t.line ≡ s.line)))

Moved-trans : (q r : List Byte) (s t u : Lexer) → Moved q s t → Moved r t u → Moved r s u
Moved-trans q r s t u (a, (b, (c, d))) (e, (f, (g, h))) = (e, (f ∙ b, (g ∙ c, h ∙ d)))

module _ (line column : ℕ) (v : List Byte) (s : Lexer) where
  round_plain :
      (c : Byte) (r : List Byte)
      → s.rest ≡ c ∷ r
      → (c == b'\\') ≡ false
      → (c == b'\n') ≡ false
      → string_round false line column v s ≡ inr (v ++ c ∷ [], advance s)
  unfolding string_round string_step
  round_plain c r e h n = rw (peek-cons c r s e, n, h)

  round_escape :
      (c : Byte) (r : List Byte)
      → s.rest ≡ b'\\' ∷ c ∷ r
      → (c == b'x') ≡ false
      → (c == b'u') ≡ false
      → string_round false line column v s ≡ inr (v ++ simple_escape c ∷ [], advance (advance s))
  unfolding string_round string_step escaped
  round_escape c r e hx hu =
      let f = (advance-plain b'\\' (c ∷ r) s e refl).0 in
      rw (
        peek-cons b'\\' (c ∷ r) s e,
        is_at_end-cons c r (advance s) f,
        peek-cons c r (advance s) f,
        hx,
        hu,
      )

  two-Moved :
      (c : Byte) (r : List Byte)
      → s.rest ≡ b'\\' ∷ c ∷ r
      → (c == b'\n') ≡ false
      → Moved r s (advance (advance s))
  two-Moved c r e n =
      let f = advance-plain b'\\' (c ∷ r) s e refl in
      Moved-trans (c ∷ r) r s (advance s) (advance (advance s)) f
        (advance-plain c r (advance s) f.0 n)

  escape_case :
      (x c : Byte) (r : List Byte)
      → s.rest ≡ b'\\' ∷ x ∷ r
      → (x == b'x') ≡ false
      → (x == b'u') ≡ false
      → (x == b'\n') ≡ false
      → simple_escape x ≡ c
      → (t : Lexer) × ((string_round false line column v s ≡ inr (v ++ c ∷ [], t)) × Moved r s t)
  escape_case x c r e hx hu hn hc =
      (advance (advance s), (rw (round_escape x r e hx hu, hc), two-Moved x r e hn))

  round_lem :
      (c : Byte) (r : List Byte)
      → s.rest ≡ quote_byte c ++ r
      → (t : Lexer) × ((string_round false line column v s ≡ inr (v ++ c ∷ [], t)) × Moved r s t)
  unfolding simple_escape
  round_lem c r e = elim (Bool-cases (c == b'\n')) [
    | inl h ↦ escape_case b'n' c r (e ∙ rw (h)) refl refl refl (sym ((==_iff _ _).0 h))
    | inr h ↦ elim (Bool-cases (c == b'\\')) [
      | inl k ↦ escape_case b'\\' c r (e ∙ rw (h, k)) refl refl refl (sym ((==_iff _ _).0 k))
      | inr k ↦ elim (Bool-cases (c == b'"')) [
        | inl l ↦ escape_case b'"' c r (e ∙ rw (h, k, l)) refl refl refl (sym ((==_iff _ _).0 l))
        | inr l ↦ (
          advance s,
          (round_plain c r (e ∙ rw (h, k, l)) k h, advance-plain c r s (e ∙ rw (h, k, l)) h),
        )
      ]
    ]
  ]

-- The front of a quoted text and the closing quote behind it.
front_quoted : (c : Byte) (s : List Byte) → (front (quote_byte c ++ s) == b'"') ≡ false
front_quoted c s = ground arith

at_close-more :
    (c : Byte) (r : List Byte) (s : Lexer)
    → s.rest ≡ quote_byte c ++ r
    → (is_at_end s || at_close false b'"' s) ≡ false
unfolding is_at_end at_close peek
at_close-more c r s e = rw (e) (ground arith)

at_close-stop :
    (r : List Byte) (s : Lexer) → s.rest ≡ b'"' ∷ r → (is_at_end s || at_close false b'"' s) ≡ true
unfolding at_close
at_close-stop r s e = rw (is_at_end-cons b'"' r s e, peek-cons b'"' r s e)

string_loop_lem :
    (fuel line column : ℕ) (v value rest : List Byte) (s : Lexer)
    → length value ≤ fuel
    → s.rest ≡ quote_text value ++ b'"' ∷ rest
    → (t : Lexer) × ((string_loop fuel false b'"' line column (v, s) ≡ inr (v ++ value, t))
        × Moved (b'"' ∷ rest) s t)
unfolding string_loop unless_returned
string_loop_lem zero line column v [] rest s l e =
    (s, (rw (append-nil v), (e, (refl, (refl, refl)))))
string_loop_lem zero line column v (c ∷ value) rest s l e = absurd (omega arith)
string_loop_lem (suc fuel) line column v [] rest s l e =
    (s, (rw (at_close-stop rest s e, append-nil v), (e, (refl, (refl, refl)))))
string_loop_lem (suc fuel) line column v (c ∷ value) rest s l e =
    let e1 : s.rest ≡ quote_byte c ++ (quote_text value ++ b'"' ∷ rest) =
      e ∙ append_assoc (quote_byte c) (quote_text value) (b'"' ∷ rest) in
    let (t, (f, m)) = round_lem line column v s c (quote_text value ++ b'"' ∷ rest) e1 in
    let (u, (g, k)) =
      string_loop_lem fuel line column (v ++ c ∷ []) value rest t (omega arith) m.0 in
    (
      u,
      (rw (at_close-more c _ s e1, f, g, append_assoc v (c ∷ []) value), Moved-trans _ _ s t u m k),
    )

not_triple :
    (value rest : List Byte) (s : Lexer)
    → s.rest ≡ quote_text value ++ b'"' ∷ rest
    → (front rest == b'"') ≡ false
    → (peek s == b'"' && peek_next s == b'"') ≡ false
unfolding peek peek_next
not_triple [] rest s e n = rw (e, n)
not_triple (c ∷ value) rest s e n = rw (
  e,
  append_assoc (quote_byte c) (quote_text value) (b'"' ∷ rest),
  front_quoted c (quote_text value ++ b'"' ∷ rest),
)

length_quoted : (value rest : List Byte) → length value ≤ length (quote_text value ++ rest)
length_quoted [] rest = omega arith
length_quoted (c ∷ value) rest =
    rw (append_assoc (quote_byte c) (quote_text value) rest)
      (ground (arith, length_quoted value rest))

-- From behind an opening double quote, with a text whose line ends, backslashes and double quotes
-- are escaped, and a closing quote that no further quote follows, scanString reports nothing, takes
-- the text and the closing quote, and adds one string token whose value is the text as it was
-- before quoting.
pub scan_string-quote_text :
    (value rest : List Byte) (s : Lexer)
    → s.lexeme ≡ b'"' ∷ []
    → s.rest ≡ quote_text value ++ b'"' ∷ rest
    → (front rest == b'"') ≡ false
    → (t : Token) × ((t.kind ≡ TokenKind.string)
        × ((t.literal ≡ text value)
            × (((scan_string s).tokens ≡ s.tokens ++ t ∷ [])
                × (((scan_string s).rest ≡ rest)
                    × (((scan_string s).reports ≡ s.reports) × ((scan_string s).line ≡ s.line))))))
unfolding scan_string scan_quoted end_string add_token
scan_string-quote_text value rest s el e n =
    let (u, (g, m)) =
      string_loop_lem (length s.rest) s.line s.column [] value rest s
        (omega (arith, ap length e, length_quoted value (b'"' ∷ rest))) e in
    let (r, (ts, (ps, l))) =
      Moved-trans (b'"' ∷ rest) rest s u (advance u) m (advance-plain b'"' rest u m.0 refl) in
    let token : Token = record {
      kind = TokenKind.string;
      lexeme = (advance u).lexeme;
      literal = text value;
      line = (advance u).line;
      column = int_sub (advance u).column (length (advance u).lexeme);
    } in
    rw (ap front el, not_triple value rest s e n, g, is_at_end-cons b'"' rest u m.0)
      (token, (refl, (refl, (ap (λ z. z ++ token ∷ []) ts, (r, (ps, l))))))
