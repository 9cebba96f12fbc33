-- ===== src/Parser/Tokens.antt =====
-- How the parser goes over the tokens (src/parser/Parser.cpp). The tokens from `current` on stand for
-- the vector and the index; the lexer puts the end of the file behind the others, and the parser
-- does not go past it.
use ez_language.Prelude.{
  ℕ, zero, suc, String, Bool, true, not, ◌&&◌, Option, none, some, List, [], ◌∷◌, if◌then◌else◌,
}
use ez_language.Bytecode.Types.{Text}
use ez_language.Lexer.Kinds.{TokenKind}
use ez_language.Lexer.State.{Token}
use ez_language.Parser.KindTests.{same_kind, is_one_of, is_keyword_token}

-- The messages of a `ParseError`: a plain one, the hint on a misplaced keyword, and the two that have
-- a lexeme in them.
pub data Message : Type 0 where
  plain misplaced : String → Message
  property_expected : Text → Message
  reserved_word : String → Text → Message

-- What a parsing function gives: its result with the tokens from the new `current` on, or a
-- `ParseError` with its line.
pub data Result {ℓ} (A : Type ℓ) : Type ℓ where
  ok : A → List Token → Result A
  failed : Message → ℕ → Result A
  out_of_fuel : Result A

abbrev pub Parser {ℓ} : Type ℓ → Type ℓ
Parser A = List Token → Result A

unfoldable pub and_then {ℓ κ} : {A : Type ℓ} {B : Type κ} → Result A → (A → Parser B) → Result B
and_then (ok a rest) f = f a rest
and_then (failed m line) f = failed m line
and_then out_of_fuel f = out_of_fuel

abbrev pub kind_at : List Token → TokenKind
kind_at [] = TokenKind.end_of_file
kind_at (t ∷ ts) = t.kind

abbrev pub line_at : List Token → ℕ
line_at [] = 0
line_at (t ∷ ts) = t.line

unfoldable pub is_at_end : List Token → Bool
unfolding same_kind
is_at_end ts = same_kind (kind_at ts) TokenKind.end_of_file

-- `check`
unfoldable pub check : TokenKind → List Token → Bool
unfolding is_at_end same_kind
check k ts = not (is_at_end ts) && same_kind (kind_at ts) k

abbrev pub take_if : Bool → List Token → Option (Token × List Token)
take_if true (t ∷ ts) = some (t, ts)
take_if _ _ = none

-- Both forms of `match`: the token that `previous` then gives, and what is behind it.
unfoldable pub match_any : List TokenKind → List Token → Option (Token × List Token)
unfolding is_at_end is_one_of
match_any ks ts = take_if (not (is_at_end ts) && is_one_of ks (kind_at ts)) ts

abbrev pub consumed : Message → List Token → Option (Token × List Token) → Result Token
consumed m ts (some (t, rest)) = ok t rest
consumed m ts none = failed m (line_at ts)

abbrev pub lexeme_at : List Token → Text
lexeme_at [] = []
lexeme_at (t ∷ ts) = t.lexeme

unfoldable pub refusal : TokenKind → String → List Token → Message
unfolding same_kind is_keyword_token
refusal k m ts =
    if same_kind k TokenKind.identifier && is_keyword_token (kind_at ts)
    then reserved_word m (lexeme_at ts)
    else plain m

unfoldable pub consume : TokenKind → String → Parser Token
unfolding refusal match_any
consume k m ts = consumed (refusal k m ts) ts (match_any (k ∷ []) ts)

unfoldable pub skip_newlines : List Token → List Token
unfolding same_kind
skip_newlines [] = []
skip_newlines (t ∷ ts) =
    let rest = skip_newlines ts in if same_kind t.kind TokenKind.newline then rest else t ∷ ts

-- `do ... while (match(COMMA))`. Each round takes a token at least.
unfoldable pub comma_list {ℓ} : {A : Type ℓ} → ℕ → Parser A → Parser (List A)
unfolding and_then match_any
comma_list zero item ts = out_of_fuel
comma_list (suc n) item ts = and_then (item ts) (λ a rest.
    elim (match_any (TokenKind.comma ∷ []) rest) [
      | none ↦ ok (a ∷ []) rest
      | some taken ↦ and_then (comma_list n item taken.1) (λ more rest. ok (a ∷ more) rest)
    ])
