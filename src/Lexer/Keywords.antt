-- ===== src/Lexer/Keywords.antt =====
-- The table `Lexer::keywords` of src/lexer/Lexer.cpp.
use ez_language.Prelude.{Bool, true, false, ◌==◌, if◌then◌else◌, Option, none, some, List, [], ◌∷◌}
use ez_language.Bytes.{Byte}
use ez_language.Lexer.Kinds.{TokenKind}

-- In the order of the source, which has `async` and `await` twice.
unfoldable pub keywords : List (List Byte × TokenKind)
keywords =
    (b'o' ∷ b'u' ∷ b't' ∷ [], TokenKind.out)
    ∷ (b'i' ∷ b'n' ∷ [], TokenKind.in_kw)
    ∷ (b'w' ∷ b'h' ∷ b'e' ∷ b'n' ∷ [], TokenKind.when)
    ∷ (b'o' ∷ b't' ∷ b'h' ∷ b'e' ∷ b'r' ∷ [], TokenKind.other)
    ∷ (b'r' ∷ b'e' ∷ b'p' ∷ b'e' ∷ b'a' ∷ b't' ∷ [], TokenKind.repeat)
    ∷ (b't' ∷ b'o' ∷ [], TokenKind.to)
    ∷ (b's' ∷ b't' ∷ b'e' ∷ b'p' ∷ [], TokenKind.step)
    ∷ (b'w' ∷ b'h' ∷ b'i' ∷ b'l' ∷ b'e' ∷ [], TokenKind.while)
    ∷ (b'u' ∷ b's' ∷ b'e' ∷ [], TokenKind.use_kw)
    ∷ (b't' ∷ b'a' ∷ b's' ∷ b'k' ∷ [], TokenKind.task)
    ∷ (b'd' ∷ b'e' ∷ b'c' ∷ b'o' ∷ b'r' ∷ b'a' ∷ b't' ∷ b'o' ∷ b'r' ∷ [], TokenKind.decorator_kw)
    ∷ (b'g' ∷ b'i' ∷ b'v' ∷ b'e' ∷ [], TokenKind.give)
    ∷ (b'e' ∷ b's' ∷ b'c' ∷ b'a' ∷ b'p' ∷ b'e' ∷ [], TokenKind.escape)
    ∷ (b's' ∷ b'k' ∷ b'i' ∷ b'p' ∷ [], TokenKind.skip)
    ∷ (b'g' ∷ b'e' ∷ b't' ∷ [], TokenKind.get)
    ∷ (b'm' ∷ b'a' ∷ b't' ∷ b'c' ∷ b'h' ∷ [], TokenKind.match_kw)
    ∷ (b'a' ∷ b's' ∷ b'y' ∷ b'n' ∷ b'c' ∷ [], TokenKind.async)
    ∷ (b'a' ∷ b'w' ∷ b'a' ∷ b'i' ∷ b't' ∷ [], TokenKind.await)
    ∷ (b't' ∷ b'e' ∷ b's' ∷ b't' ∷ [], TokenKind.test)
    ∷ (b'a' ∷ b'n' ∷ b'd' ∷ [], TokenKind.and)
    ∷ (b'o' ∷ b'r' ∷ [], TokenKind.or)
    ∷ (b'n' ∷ b'o' ∷ b't' ∷ [], TokenKind.not_kw)
    ∷ (b't' ∷ b'r' ∷ b'u' ∷ b'e' ∷ [], TokenKind.true_kw)
    ∷ (b'f' ∷ b'a' ∷ b'l' ∷ b's' ∷ b'e' ∷ [], TokenKind.false_kw)
    ∷ (b'y' ∷ b'e' ∷ b's' ∷ [], TokenKind.true_kw)
    ∷ (b'n' ∷ b'o' ∷ [], TokenKind.false_kw)
    ∷ (b'n' ∷ b'i' ∷ b'l' ∷ [], TokenKind.nil)
    ∷ (b'a' ∷ b's' ∷ b'y' ∷ b'n' ∷ b'c' ∷ [], TokenKind.async)
    ∷ (b'a' ∷ b'w' ∷ b'a' ∷ b'i' ∷ b't' ∷ [], TokenKind.await)
    ∷ (b'm' ∷ b'o' ∷ b'd' ∷ b'e' ∷ b'l' ∷ [], TokenKind.model)
    ∷ (b'i' ∷ b'n' ∷ b'i' ∷ b't' ∷ [], TokenKind.init)
    ∷ (b's' ∷ b'e' ∷ b'l' ∷ b'f' ∷ [], TokenKind.self_kw)
    ∷ (b'h' ∷ b'i' ∷ b'd' ∷ b'd' ∷ b'e' ∷ b'n' ∷ [], TokenKind.hidden)
    ∷ (b's' ∷ b'h' ∷ b'o' ∷ b'w' ∷ b'n' ∷ [], TokenKind.shown)
    ∷ (b'e' ∷ b'x' ∷ b't' ∷ b'e' ∷ b'n' ∷ b'd' ∷ b's' ∷ [], TokenKind.extends)
    ∷ (b's' ∷ b't' ∷ b'r' ∷ b'u' ∷ b'c' ∷ b't' ∷ [], TokenKind.struct)
    ∷ (b'e' ∷ b'n' ∷ b'u' ∷ b'm' ∷ [], TokenKind.enum)
    ∷ (b'n' ∷ b'e' ∷ b'w' ∷ [], TokenKind.new)
    ∷ (b's' ∷ b'u' ∷ b'p' ∷ b'e' ∷ b'r' ∷ [], TokenKind.super_kw)
    ∷ (b's' ∷ b't' ∷ b'a' ∷ b't' ∷ b'i' ∷ b'c' ∷ [], TokenKind.static)
    ∷ (b'i' ∷ b'n' ∷ b't' ∷ b'e' ∷ b'r' ∷ b'f' ∷ b'a' ∷ b'c' ∷ b'e' ∷ [], TokenKind.interface)
    ∷ (
      b'i' ∷ b'm' ∷ b'p' ∷ b'l' ∷ b'e' ∷ b'm' ∷ b'e' ∷ b'n' ∷ b't' ∷ b's' ∷ [],
      TokenKind.implements,
    )
    ∷ (b't' ∷ b'r' ∷ b'y' ∷ [], TokenKind.try_kw)
    ∷ (b'c' ∷ b'a' ∷ b't' ∷ b'c' ∷ b'h' ∷ [], TokenKind.catch_kw)
    ∷ (b't' ∷ b'h' ∷ b'r' ∷ b'o' ∷ b'w' ∷ [], TokenKind.throw)
    ∷ (b'f' ∷ b'i' ∷ b'n' ∷ b'a' ∷ b'l' ∷ b'l' ∷ b'y' ∷ [], TokenKind.finally)
    ∷ (b'e' ∷ b'x' ∷ b'p' ∷ b'o' ∷ b'r' ∷ b't' ∷ [], TokenKind.export)
    ∷ (b'r' ∷ b'e' ∷ b'q' ∷ b'u' ∷ b'i' ∷ b'r' ∷ b'e' ∷ b's' ∷ [], TokenKind.requires)
    ∷ (b'e' ∷ b'n' ∷ b's' ∷ b'u' ∷ b'r' ∷ b'e' ∷ b's' ∷ [], TokenKind.ensures)
    ∷ []

abbrev pub same_text : List Byte → List Byte → Bool
same_text [] [] = true
same_text [] (b ∷ t) = false
same_text (a ∷ s) [] = false
same_text (a ∷ s) (b ∷ t) = if a == b then same_text s t else false

unfoldable pub find_keyword : List (List Byte × TokenKind) → List Byte → Option TokenKind
find_keyword [] text = none
find_keyword ((word, kind) ∷ table) text =
    if same_text word text then some kind else find_keyword table text
