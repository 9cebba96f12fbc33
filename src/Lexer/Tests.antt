-- ===== src/Lexer/Tests.antt =====
-- Small programs in the language.
use ez_language.Prelude.{
  arith, ℕ, ◌≡◌, refl, Bool, true, false, Option, none, some, List, [], ◌∷◌, ◌++◌, map, inr,
}
use ez_language.Bytes.{Byte}
use ez_language.Lexer.Kinds.{TokenKind}
use ez_language.Lexer.State.{Lexer, Token}
use ez_language.Lexer.Scan.{tokenize_at, tokenize}
use ez_language.Lexer.State.{new_lexer, text}
use ez_language.Lexer.Strings.{scan_raw_string, scan_string}
use ez_language.Lexer.RawStrings.{scan_raw_string_lem}
use ez_language.Lexer.QuotedStrings.{scan_string-quote_text}
use ez_language.Lexer.Templates.{Scanned, plain, expr, end_template}
use ez_language.Lexer.TemplateErrors.{inner_reports, end_template-had_error}
use ez_language.Lexer.Progress.Depth.{tokenize_at-tokenize}
use ez_language.Lexer.Progress.Total.{Complete, or_number, tokenize_total}

abbrev no_fractions : List Byte → Option ℕ
no_fractions s = none

abbrev kinds : Option Lexer → List TokenKind
kinds none = []
kinds (some s) = map (λ t. t.kind) s.tokens

abbrev failed : Option Lexer → Bool
failed none = true
failed (some s) = s.had_error

assignment :
    kinds (
      tokenize no_fractions
        (b'a' ∷ b'=' ∷ b'0' ∷ b'x' ∷ b'1' ∷ b'F' ∷ b'+' ∷ b'\n' ∷ b'b' ∷ b'\n' ∷ []))
    ≡ TokenKind.identifier ∷ TokenKind.equal ∷ TokenKind.number ∷ TokenKind.plus
      ∷ TokenKind.identifier ∷ TokenKind.newline ∷ TokenKind.end_of_file ∷ []
unfolding tokenize
assignment = refl

template :
    kinds (tokenize no_fractions (b'`' ∷ b'a' ∷ b'{' ∷ b'b' ∷ b'}' ∷ b'`' ∷ []))
    ≡ TokenKind.lparen ∷ TokenKind.string ∷ TokenKind.plus ∷ TokenKind.identifier ∷ TokenKind.lparen
      ∷ TokenKind.identifier ∷ TokenKind.rparen ∷ TokenKind.plus ∷ TokenKind.string
      ∷ TokenKind.rparen ∷ TokenKind.end_of_file ∷ []
unfolding tokenize
template = refl

template_error : failed (tokenize no_fractions (b'`' ∷ b'{' ∷ b'$' ∷ b'}' ∷ b'`' ∷ [])) ≡ false
unfolding tokenize
template_error = refl

-- A reading of fractions that never throws.
-- Refuses each text of four bytes.
abbrev short_only : List Byte → Option ℕ
short_only (a ∷ b ∷ c ∷ d ∷ []) = none
short_only s = some 0

abbrev with_template : List Byte
with_template = b'1' ∷ b'.' ∷ b'2' ∷ b'5' ∷ b'`' ∷ b'{' ∷ b'b' ∷ b'}' ∷ b'`' ∷ []

tokenize_total_example :
    Complete (tokenize (λ t. or_number 7 (short_only t)) with_template)
    × ((s : Lexer) → tokenize short_only with_template ≡ some s → Complete (some s))
tokenize_total_example = tokenize_total short_only 7 with_template

tokenize_at-tokenize_example :
    tokenize_at no_fractions 9 (b'`' ∷ b'{' ∷ b'a' ∷ b'}' ∷ b'`' ∷ [])
    ≡ tokenize no_fractions (b'`' ∷ b'{' ∷ b'a' ∷ b'}' ∷ b'`' ∷ [])
tokenize_at-tokenize_example =
    tokenize_at-tokenize no_fractions 9 (b'`' ∷ b'{' ∷ b'a' ∷ b'}' ∷ b'`' ∷ []) (omega arith)

-- r"a" with a line end in place of the letter, from behind the r.
abbrev raw_start : Lexer
raw_start = record (new_lexer (b'"' ∷ b'\n' ∷ b'"' ∷ b';' ∷ [])) { line = 7 }

scan_raw_string_lem_example :
    (t : Token) × ((t.kind ≡ TokenKind.string)
      × ((t.literal ≡ text (b'\n' ∷ []))
          × ((t.line ≡ 9)
              × (((scan_raw_string raw_start).tokens ≡ t ∷ [])
                  × (((scan_raw_string raw_start).rest ≡ b';' ∷ [])
                      × (((scan_raw_string raw_start).reports ≡ [])
                          × ((scan_raw_string raw_start).line ≡ 9)))))))
unfolding new_lexer
scan_raw_string_lem_example =
    scan_raw_string_lem b'"' (b'\n' ∷ []) (b';' ∷ []) raw_start refl refl (refl, tt)

-- "\"\n" behind its opening quote.
abbrev quoted_start : Lexer
quoted_start = record (new_lexer (b'\\' ∷ b'"' ∷ b'\\' ∷ b'n' ∷ b'"' ∷ b';' ∷ [])) {
  lexeme = b'"' ∷ [];
}

scan_string-quote_text_example :
    (t : Token) × ((t.kind ≡ TokenKind.string)
      × ((t.literal ≡ text (b'"' ∷ b'\n' ∷ []))
          × (((scan_string quoted_start).tokens ≡ t ∷ [])
              × (((scan_string quoted_start).rest ≡ b';' ∷ [])
                  × (((scan_string quoted_start).reports ≡ [])
                      × ((scan_string quoted_start).line ≡ 1))))))
unfolding new_lexer
scan_string-quote_text_example =
    scan_string-quote_text (b'"' ∷ b'\n' ∷ []) (b';' ∷ []) quoted_start refl refl refl

-- The template {$} at its closing backtick; the inner lexer reports the dollar.
abbrev template_state : Scanned
template_state = record {
  parts = plain [] ∷ expr (b'$' ∷ []) ∷ [];
  current = [];
  lexer = new_lexer (b'`' ∷ []);
}

abbrev template_result : Lexer
template_result = elim (end_template (tokenize no_fractions) 1 2 (inr template_state)) [
  | none ↦ new_lexer []
  | some s ↦ s
]

end_template-had_error_example :
    (template_result.had_error ≡ template_state.lexer.had_error)
    × (template_result.reports
        ≡ template_state.lexer.reports
          ++ inner_reports
              (tokenize no_fractions)
              (template_state.parts ++ plain template_state.current ∷ []))
unfolding end_template new_lexer tokenize
end_template-had_error_example =
    end_template-had_error (tokenize no_fractions) 1 2 template_state template_result refl refl
