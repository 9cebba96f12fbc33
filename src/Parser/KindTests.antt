-- ===== src/Parser/KindTests.antt =====
-- The numbers that `static_cast<int>` gives to the kinds of tokens (src/lexer/Token.h), and the tests
-- on them in src/parser/ParserExpr.cpp.
use ez_language.Prelude.{
  ℕ, String, Bool, false, ◌||◌, ◌&&◌, Option, none, some, List, [], ◌∷◌, ◌==◌, leb,
}
use ez_language.Lexer.Kinds.{TokenKind}

unfoldable pub kind_number : TokenKind → ℕ
kind_number TokenKind.number = 0
kind_number TokenKind.string = 1
kind_number TokenKind.identifier = 2
kind_number TokenKind.true_kw = 3
kind_number TokenKind.false_kw = 4
kind_number TokenKind.nil = 5
kind_number TokenKind.out = 6
kind_number TokenKind.in_kw = 7
kind_number TokenKind.when = 8
kind_number TokenKind.other = 9
kind_number TokenKind.repeat = 10
kind_number TokenKind.to = 11
kind_number TokenKind.step = 12
kind_number TokenKind.while = 13
kind_number TokenKind.use_kw = 14
kind_number TokenKind.task = 15
kind_number TokenKind.give = 16
kind_number TokenKind.escape = 17
kind_number TokenKind.skip = 18
kind_number TokenKind.get = 19
kind_number TokenKind.match_kw = 20
kind_number TokenKind.and = 21
kind_number TokenKind.or = 22
kind_number TokenKind.not_kw = 23
kind_number TokenKind.async = 24
kind_number TokenKind.await = 25
kind_number TokenKind.test = 26
kind_number TokenKind.decorator_kw = 27
kind_number TokenKind.model = 28
kind_number TokenKind.init = 29
kind_number TokenKind.self_kw = 30
kind_number TokenKind.hidden = 31
kind_number TokenKind.shown = 32
kind_number TokenKind.extends = 33
kind_number TokenKind.struct = 34
kind_number TokenKind.enum = 35
kind_number TokenKind.new = 36
kind_number TokenKind.super_kw = 37
kind_number TokenKind.static = 38
kind_number TokenKind.interface = 39
kind_number TokenKind.implements = 40
kind_number TokenKind.try_kw = 41
kind_number TokenKind.catch_kw = 42
kind_number TokenKind.throw = 43
kind_number TokenKind.finally = 44
kind_number TokenKind.export = 45
kind_number TokenKind.requires = 46
kind_number TokenKind.ensures = 47
kind_number TokenKind.at = 48
kind_number TokenKind.plus = 49
kind_number TokenKind.minus = 50
kind_number TokenKind.star = 51
kind_number TokenKind.star_star = 52
kind_number TokenKind.slash = 53
kind_number TokenKind.percent = 54
kind_number TokenKind.equal = 55
kind_number TokenKind.equal_equal = 56
kind_number TokenKind.bang = 57
kind_number TokenKind.bang_equal = 58
kind_number TokenKind.less = 59
kind_number TokenKind.less_equal = 60
kind_number TokenKind.greater = 61
kind_number TokenKind.greater_equal = 62
kind_number TokenKind.plus_equal = 63
kind_number TokenKind.minus_equal = 64
kind_number TokenKind.star_equal = 65
kind_number TokenKind.star_star_equal = 66
kind_number TokenKind.slash_equal = 67
kind_number TokenKind.ampersand = 68
kind_number TokenKind.caret = 69
kind_number TokenKind.tilde = 70
kind_number TokenKind.lshift = 71
kind_number TokenKind.rshift = 72
kind_number TokenKind.lparen = 73
kind_number TokenKind.rparen = 74
kind_number TokenKind.lbracket = 75
kind_number TokenKind.rbracket = 76
kind_number TokenKind.lbrace = 77
kind_number TokenKind.rbrace = 78
kind_number TokenKind.comma = 79
kind_number TokenKind.dot = 80
kind_number TokenKind.colon = 81
kind_number TokenKind.question_mark = 82
kind_number TokenKind.question_question = 83
kind_number TokenKind.question_dot = 84
kind_number TokenKind.pipe = 85
kind_number TokenKind.arrow = 86
kind_number TokenKind.newline = 87
kind_number TokenKind.ellipsis = 88
kind_number TokenKind.end_of_file = 89
kind_number TokenKind.error = 90

unfoldable pub same_kind : TokenKind → TokenKind → Bool
unfolding kind_number
same_kind a b = kind_number a == kind_number b

unfoldable pub is_one_of : List TokenKind → TokenKind → Bool
unfolding same_kind
is_one_of [] k = false
is_one_of (x ∷ xs) k = same_kind k x || is_one_of xs k

unfoldable pub is_keyword_token : TokenKind → Bool
unfolding kind_number
is_keyword_token k =
    leb (kind_number TokenKind.out) (kind_number k)
    && leb (kind_number k) (kind_number TokenKind.ensures)

unfoldable pub is_property_name_token : TokenKind → Bool
unfolding is_one_of is_keyword_token
is_property_name_token k =
    is_one_of (TokenKind.identifier ∷ TokenKind.true_kw ∷ TokenKind.false_kw ∷ TokenKind.nil ∷ []) k
    || is_keyword_token k

unfoldable pub describe_misplaced_keyword : TokenKind → Option String
describe_misplaced_keyword TokenKind.finally =
    some "'finally' can only appear after a 'try' block (and any 'catch' blocks), not on its own"
describe_misplaced_keyword TokenKind.catch_kw =
    some "'catch' can only appear directly after a 'try' block, not on its own"
describe_misplaced_keyword TokenKind.other =
    some "'other' can only appear as a branch inside a 'when' statement"
describe_misplaced_keyword TokenKind.to =
    some "'to' is only valid inside a 'repeat <var> = <start> to <end>' loop"
describe_misplaced_keyword TokenKind.step =
    some "'step' is only valid inside a 'repeat ... to ... step ...' loop"
describe_misplaced_keyword TokenKind.implements =
    some
      "'implements' can only appear right after a model's name (and optional 'extends') in a 'model' declaration"
describe_misplaced_keyword TokenKind.extends =
    some "'extends' can only appear right after a model's name in a 'model' declaration"
describe_misplaced_keyword TokenKind.requires =
    some "'requires' can only appear as a task precondition, directly after the task signature"
describe_misplaced_keyword TokenKind.ensures =
    some "'ensures' can only appear as a task postcondition, directly after the task signature"
describe_misplaced_keyword TokenKind.hidden =
    some "'hidden' is a field-visibility modifier and can only appear inside a 'model' body"
describe_misplaced_keyword TokenKind.shown =
    some "'shown' is a field-visibility modifier and can only appear inside a 'model' body"
describe_misplaced_keyword TokenKind.init =
    some "'init' can only be used to define a model's constructor, inside a 'model' body"
describe_misplaced_keyword _ = none
