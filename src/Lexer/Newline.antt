-- ===== src/Lexer/Newline.antt =====
-- The case of a line end in `Lexer::scanToken` of src/lexer/Lexer.cpp.
use ez_language.Prelude.{Bool, true, false, ◌||◌, List, [], ◌∷◌, ltb, if◌then◌else◌}
use ez_language.Lexer.Kinds.{TokenKind}
use ez_language.Lexer.State.{Lexer, Token, nullptr, add_token}

-- The kinds after which a line goes on.
unfoldable pub is_continued : TokenKind → Bool
is_continued TokenKind.plus = true
is_continued TokenKind.minus = true
is_continued TokenKind.star = true
is_continued TokenKind.star_star = true
is_continued TokenKind.slash = true
is_continued TokenKind.percent = true
is_continued TokenKind.equal_equal = true
is_continued TokenKind.bang_equal = true
is_continued TokenKind.less = true
is_continued TokenKind.less_equal = true
is_continued TokenKind.greater = true
is_continued TokenKind.greater_equal = true
is_continued TokenKind.and = true
is_continued TokenKind.or = true
is_continued TokenKind.comma = true
is_continued TokenKind.dot = true
is_continued TokenKind.equal = true
is_continued TokenKind.plus_equal = true
is_continued TokenKind.minus_equal = true
is_continued TokenKind.star_equal = true
is_continued TokenKind.star_star_equal = true
is_continued TokenKind.slash_equal = true
is_continued TokenKind.ampersand = true
is_continued TokenKind.pipe = true
is_continued TokenKind.caret = true
is_continued TokenKind.lshift = true
is_continued TokenKind.rshift = true
is_continued TokenKind.arrow = true
is_continued kind = false

-- The test on `tokens.back()`.
unfoldable pub last_continues : List Token → Bool
unfolding is_continued
last_continues [] = false
last_continues (t ∷ []) = is_continued t.kind
last_continues (t ∷ u ∷ ts) = last_continues (u ∷ ts)

unfoldable pub scan_newline : Lexer → Lexer
unfolding last_continues add_token
scan_newline s =
    if ltb 0 s.open_parens || ltb 0 s.open_brackets
    then s
    else if last_continues s.tokens
    then s
    else add_token TokenKind.newline nullptr s
