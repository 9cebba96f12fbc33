-- ===== src/Lexer/Progress/Strings.antt =====
-- The scanners of strings and identifiers give no byte back.
use ez_language.Prelude.{
  ℕ, zero, suc, ◌≤◌, ◌≡◌, refl, Bool, true, false, List, [], ◌∷◌, arith, length, take, ◌++◌,
  length-drop, ◌⊎◌, inl, inr, Option, none, some,
}
use ez_language.Bytes.{Byte}
use ez_language.Lexer.Kinds.{TokenKind}
use ez_language.Lexer.State.{
  Lexer, advance, add_token, error_at, error, advance_while, peek, unless_returned,
}
use ez_language.Lexer.Numbers.{is_alpha_numeric}
use ez_language.Lexer.Keywords.{keywords, find_keyword}
use ez_language.Lexer.Strings.{
  jump_over, hex_escape_value, hex_escape, unicode_escape_value, unicode_escape, escaped, sto_hex,
  count_newline, string_step, string_round, string_loop, end_string, scan_quoted, scan_string,
  raw_loop, end_raw, scan_raw_string, add_keyword, add_word, end_word, scan_identifier,
}
use ez_language.Lexer.Progress.{left, advance-left, advance_while-left}

jump_over-left : (n : ℕ) (s : Lexer) → left (jump_over n s) ≤ left s
unfolding jump_over
jump_over-left n s = omega (arith, length-drop n s.rest)

hex_escape_value-left :
    (o : Option ℕ) (v : List Byte) (s : Lexer) → left (hex_escape_value o v s).1 ≡ left s
unfolding hex_escape_value error error_at
hex_escape_value-left none v s = refl
hex_escape_value-left (some n) v s = refl

unicode_escape_value-left :
    (o : Option ℕ) (v : List Byte) (s : Lexer) → left (unicode_escape_value o v s).1 ≡ left s
unfolding unicode_escape_value error error_at
unicode_escape_value-left none v s = refl
unicode_escape_value-left (some n) v s = refl

hex_escape-left : (v : List Byte) (s : Lexer) → left (hex_escape v s).1 ≤ left s
unfolding hex_escape error error_at
hex_escape-left v s =
    ground
      (arith, hex_escape_value-left (sto_hex (take 2 s.rest)) v (jump_over 2 s), jump_over-left 2 s)

unicode_escape-left : (v : List Byte) (s : Lexer) → left (unicode_escape v s).1 ≤ left s
unfolding unicode_escape error error_at
unicode_escape-left v s = ground (
  arith,
  unicode_escape_value-left (sto_hex (take 4 s.rest)) v (jump_over 4 s),
  jump_over-left 4 s,
)

escaped-left : (c : Byte) (v : List Byte) (s : Lexer) → left (escaped c v s).1 ≤ left s
unfolding escaped
escaped-left c v s = ground (arith, hex_escape-left v s, unicode_escape-left v s)

-- For a loop that may return early.
abbrev pub Within {ℓ} : {A : Type ℓ} → (A → Lexer) → ℕ → Lexer ⊎ A → Type 0
Within f n (inl s) = left s ≤ n
Within f n (inr a) = left (f a) ≤ n

pub Within-mono {ℓ} :
    {A : Type ℓ} (f : A → Lexer) (m n : ℕ) (o : Lexer ⊎ A) → m ≤ n → Within f m o → Within f n o
Within-mono f m n (inl s) h w = omega arith
Within-mono f m n (inr a) h w = omega arith

pub unless_returned-Within {ℓ} :
    {A : Type ℓ} (f : A → Lexer) (n : ℕ) (o : Lexer ⊎ A) (k : A → Lexer ⊎ A)
    → Within f n o
    → ((a : A) → Within f (left (f a)) (k a))
    → Within f n (unless_returned o k)
unfolding unless_returned
unless_returned-Within f n (inl s) k w h = w
unless_returned-Within f n (inr a) k w h = Within-mono f (left (f a)) n (k a) w (h a)

abbrev state : List Byte × Lexer → Lexer
state t = t.1

count_newline-left : (s : Lexer) → left (count_newline s) ≡ left s
unfolding count_newline
count_newline-left s = ground arith

string_step-left :
    (line column : ℕ) (v : List Byte) (s : Lexer)
    → Within state (left s) (string_step line column v s)
unfolding string_step error_at
string_step-left line column v s = ground (
  arith,
  escaped-left (peek (advance s)) v (advance (advance s)),
  advance-left s,
  advance-left (advance s),
)

string_round-left :
    (m : Bool) (line column : ℕ) (v : List Byte) (s : Lexer)
    → Within state (left s) (string_round m line column v s)
unfolding string_round error error_at
string_round-left m line column v s = ground (
  arith,
  string_step-left line column v s,
  string_step-left line column v (count_newline s),
  count_newline-left s,
)

string_loop-left :
    (fuel : ℕ) (m : Bool) (q : Byte) (line column : ℕ) (t : List Byte × Lexer)
    → Within state (left t.1) (string_loop fuel m q line column t)
unfolding string_loop
string_loop-left zero m q line column t = omega arith
string_loop-left (suc fuel) m q line column t = ground (
  arith,
  unless_returned-Within state (left t.1) (string_round m line column t.0 t.1)
      (string_loop fuel m q line column) (string_round-left m line column t.0 t.1)
      (string_loop-left fuel m q line column),
)

end_string-left :
    (m : Bool) (line column n : ℕ) (o : Lexer ⊎ (List Byte × Lexer))
    → Within state n o
    → left (end_string m line column o) ≤ n
unfolding end_string error_at add_token
end_string-left m line column n (inl s) w = w
end_string-left m line column n (inr (v, s)) w =
    ground (arith, advance-left s, advance-left (advance s), advance-left (advance (advance s)))

scan_quoted-left :
    (m : Bool) (s : Lexer) (line column : ℕ) → left (scan_quoted m s line column) ≤ left s
unfolding scan_quoted
scan_quoted-left m s line column =
    end_string-left m line column (left s) _
      (string_loop-left (length s.rest) m _ line column ([], s))

pub scan_string-left : (s : Lexer) → left (scan_string s) ≤ left s
unfolding scan_string
scan_string-left s = ground (
  arith,
  scan_quoted-left true (advance (advance s)) s.line s.column,
  scan_quoted-left false s s.line s.column,
  advance-left s,
  advance-left (advance s),
)

raw_loop-left :
    (fuel : ℕ) (q : Byte) (v : List Byte) (s : Lexer) → left (raw_loop fuel q v s).1 ≤ left s
unfolding raw_loop
raw_loop-left zero q v s = omega arith
raw_loop-left (suc fuel) q v s = ground (
  arith,
  raw_loop-left fuel q (v ++ peek s ∷ []) (advance (count_newline s)),
  advance-left (count_newline s),
  count_newline-left s,
)

scan_raw_string-left : (s : Lexer) → left (scan_raw_string s) ≤ left s
unfolding scan_raw_string end_raw error_at add_token
scan_raw_string-left s = ground (
  arith,
  raw_loop-left (length s.rest) (peek s) [] (advance s),
  advance-left s,
  advance-left (raw_loop (length s.rest) (peek s) [] (advance s)).1,
)

add_keyword-left : (k : TokenKind) (s : Lexer) → left (add_keyword k s) ≡ left s
unfolding add_keyword add_token
add_keyword-left k s = ground arith

add_word-left : (o : Option TokenKind) (s : Lexer) → left (add_word o s) ≤ left s
unfolding add_word add_token
add_word-left none s = ground (arith, scan_raw_string-left (record s { lexeme = [] }))
add_word-left (some k) s = omega (arith, add_keyword-left k s)

pub scan_identifier-left : (s : Lexer) → left (scan_identifier s) ≤ left s
unfolding scan_identifier end_word
scan_identifier-left s = omega (
  arith,
  add_word-left (find_keyword keywords (advance_while is_alpha_numeric (length s.rest) s).lexeme)
      (advance_while is_alpha_numeric (length s.rest) s),
  advance_while-left is_alpha_numeric (length s.rest) s,
)
