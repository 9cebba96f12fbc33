-- ===== src/Parser/Recovery.antt =====
-- What the parser does about a mistake: it goes on behind the statement (`synchronize` of
-- src/parser/Parser.cpp), and it suggests a keyword for a misspelled name
-- (`suggestStatementKeyword` of src/parser/ParserStmt.cpp).
use ez_language.Prelude.{
  ℕ, ◌+◌, ◌-◌, ◌≤◌, ◌<◌, ◌≡◌, arith, Bool, true, false, ◌&&◌, List, [], ◌∷◌, ◌==◌, ltb,
  if◌then◌else◌, length, Bool-cases, inl, inr,
}
use mathlib.Core.Bool.{true≢false}
use ez_language.Bytecode.Types.{Text}
use ez_language.Lexer.Kinds.{TokenKind}
use ez_language.Lexer.State.{Token}
use ez_language.Utils.Distance.{name_distance}
use ez_language.Parser.KindTests.{same_kind, is_one_of}
use ez_language.Parser.Tokens.{is_at_end}

abbrev pub openers : List TokenKind
openers = TokenKind.lbrace ∷ TokenKind.lparen ∷ TokenKind.lbracket ∷ []

abbrev pub closers : List TokenKind
closers = TokenKind.rbrace ∷ TokenKind.rparen ∷ TokenKind.rbracket ∷ []

-- The keywords at which a statement may begin.
abbrev pub starters : List TokenKind
starters =
    TokenKind.task ∷ TokenKind.when ∷ TokenKind.while ∷ TokenKind.repeat ∷ TokenKind.get
    ∷ TokenKind.out ∷ TokenKind.give ∷ TokenKind.escape ∷ TokenKind.skip ∷ []

-- `depth` behind a token; at 0 it stays.
unfoldable pub depth_behind : ℕ → TokenKind → ℕ
unfolding is_one_of
depth_behind depth k =
    if is_one_of openers k then depth + 1 else if is_one_of closers k then depth - 1 else depth

-- The loop returns before a token.
unfoldable pub stops_at : ℕ → TokenKind → TokenKind → Bool
unfolding same_kind is_one_of
stops_at depth previous k =
    if same_kind k TokenKind.end_of_file
    then true
    else if same_kind previous TokenKind.newline && (depth == 0)
    then true
    else is_one_of starters k && (depth == 0)

unfoldable pub sync_loop : ℕ → TokenKind → List Token → List Token
unfolding stops_at depth_behind
sync_loop depth previous [] = []
sync_loop depth previous (t ∷ ts) =
    let rest = sync_loop (depth_behind depth t.kind) t.kind ts in
    if stops_at depth previous t.kind then t ∷ ts else rest

unfoldable pub synchronize : List Token → List Token
unfolding is_at_end sync_loop same_kind
synchronize [] = []
synchronize (t ∷ ts) =
    if same_kind t.kind TokenKind.end_of_file then t ∷ ts else sync_loop 0 t.kind ts

length-sync_loop :
    (depth : ℕ) (previous : TokenKind) (ts : List Token)
    → length (sync_loop depth previous ts) ≤ length ts
unfolding sync_loop
length-sync_loop depth previous [] = omega arith
length-sync_loop depth previous (t ∷ ts) =
    let ih = length-sync_loop (depth_behind depth t.kind) t.kind ts in
    elim (Bool-cases (stops_at depth previous t.kind)) [
      | inl e ↦ rw e (omega arith)
      | inr e ↦ rw e (omega arith)
    ]

-- Wherever it is not at the end of the file, it takes a token at least.
pub length-synchronize :
    (ts : List Token) → is_at_end ts ≡ false → length (synchronize ts) < length ts
unfolding synchronize is_at_end
length-synchronize [] h = absurd (true≢false h)
length-synchronize (t ∷ ts) h = rw h (omega (arith, length-sync_loop 0 t.kind ts))

abbrev pub statement_keywords : List Text
statement_keywords =
    (b'w' ∷ b'h' ∷ b'e' ∷ b'n' ∷ [])
    ∷ (b'o' ∷ b't' ∷ b'h' ∷ b'e' ∷ b'r' ∷ [])
    ∷ (b'w' ∷ b'h' ∷ b'i' ∷ b'l' ∷ b'e' ∷ [])
    ∷ (b'r' ∷ b'e' ∷ b'p' ∷ b'e' ∷ b'a' ∷ b't' ∷ [])
    ∷ (b't' ∷ b'a' ∷ b's' ∷ b'k' ∷ [])
    ∷ (b'm' ∷ b'o' ∷ b'd' ∷ b'e' ∷ b'l' ∷ [])
    ∷ (b's' ∷ b't' ∷ b'r' ∷ b'u' ∷ b'c' ∷ b't' ∷ [])
    ∷ (b'e' ∷ b'n' ∷ b'u' ∷ b'm' ∷ [])
    ∷ (b't' ∷ b'r' ∷ b'y' ∷ [])
    ∷ (b'c' ∷ b'a' ∷ b't' ∷ b'c' ∷ b'h' ∷ [])
    ∷ (b'f' ∷ b'i' ∷ b'n' ∷ b'a' ∷ b'l' ∷ b'l' ∷ b'y' ∷ [])
    ∷ (b't' ∷ b'h' ∷ b'r' ∷ b'o' ∷ b'w' ∷ [])
    ∷ (b'm' ∷ b'a' ∷ b't' ∷ b'c' ∷ b'h' ∷ [])
    ∷ (b's' ∷ b't' ∷ b'a' ∷ b't' ∷ b'i' ∷ b'c' ∷ [])
    ∷ (b'i' ∷ b'n' ∷ b't' ∷ b'e' ∷ b'r' ∷ b'f' ∷ b'a' ∷ b'c' ∷ b'e' ∷ [])
    ∷ (b'g' ∷ b'e' ∷ b't' ∷ [])
    ∷ (b't' ∷ b'e' ∷ b's' ∷ b't' ∷ [])
    ∷ (b'u' ∷ b's' ∷ b'e' ∷ [])
    ∷ (b'e' ∷ b'x' ∷ b'p' ∷ b'o' ∷ b'r' ∷ b't' ∷ [])
    ∷ (b'g' ∷ b'i' ∷ b'v' ∷ b'e' ∷ [])
    ∷ (b'e' ∷ b's' ∷ b'c' ∷ b'a' ∷ b'p' ∷ b'e' ∷ [])
    ∷ (b's' ∷ b'k' ∷ b'i' ∷ b'p' ∷ [])
    ∷ (b'o' ∷ b'u' ∷ b't' ∷ [])
    ∷ []

unfoldable pub closest : Text → Text → ℕ → List Text → Text
unfolding name_distance
closest name best best_distance [] = best
closest name best best_distance (k ∷ ks) =
    let d = name_distance name k 2 in
    closest name (if ltb d best_distance then k else best)
      (if ltb d best_distance then d else best_distance) ks

-- The keyword that is closest to a name, where one is less than 2 from it; else the empty text.
unfoldable pub suggest_statement_keyword : Text → Text
unfolding closest
suggest_statement_keyword name = closest name [] 2 statement_keywords
