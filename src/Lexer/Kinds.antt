-- ===== src/Lexer/Kinds.antt =====
-- src/lexer/Token.h: the kinds of tokens and their names. A kind whose name is a word of the
-- notation has `_kw` behind it.
use ez_language.Prelude.{String}

pub data TokenKind : Type 0 where
  number string identifier true_kw false_kw nil out in_kw when other repeat to step : TokenKind
  while use_kw task give escape skip get match_kw and or not_kw async await test : TokenKind
  decorator_kw model init self_kw hidden shown extends struct enum new super_kw : TokenKind
  static interface implements try_kw catch_kw throw finally export requires ensures : TokenKind
  at plus minus star star_star slash percent equal equal_equal bang bang_equal less : TokenKind
  less_equal greater greater_equal plus_equal minus_equal star_equal star_star_equal : TokenKind
  slash_equal ampersand caret tilde lshift rshift lparen rparen lbracket rbracket : TokenKind
  lbrace rbrace comma dot colon question_mark question_question question_dot pipe : TokenKind
  arrow newline ellipsis end_of_file error : TokenKind

-- `tokenTypeToString`. 8 kinds have no case and get the default.
unfoldable pub token_type_to_string : TokenKind → String
token_type_to_string number = "NUMBER"
token_type_to_string string = "STRING"
token_type_to_string identifier = "IDENTIFIER"
token_type_to_string true_kw = "TRUE"
token_type_to_string false_kw = "FALSE"
token_type_to_string nil = "NIL"
token_type_to_string out = "OUT"
token_type_to_string in_kw = "IN"
token_type_to_string when = "WHEN"
token_type_to_string other = "OTHER"
token_type_to_string repeat = "REPEAT"
token_type_to_string to = "TO"
token_type_to_string step = "STEP"
token_type_to_string while = "WHILE"
token_type_to_string use_kw = "USE"
token_type_to_string task = "TASK"
token_type_to_string give = "GIVE"
token_type_to_string escape = "ESCAPE"
token_type_to_string skip = "SKIP"
token_type_to_string get = "GET"
token_type_to_string match_kw = "MATCH"
token_type_to_string and = "AND"
token_type_to_string or = "OR"
token_type_to_string not_kw = "NOT"
token_type_to_string model = "MODEL"
token_type_to_string init = "INIT"
token_type_to_string self_kw = "SELF"
token_type_to_string hidden = "HIDDEN"
token_type_to_string shown = "SHOWN"
token_type_to_string extends = "EXTENDS"
token_type_to_string try_kw = "TRY"
token_type_to_string catch_kw = "CATCH"
token_type_to_string throw = "THROW"
token_type_to_string export = "EXPORT"
token_type_to_string requires = "REQUIRES"
token_type_to_string ensures = "ENSURES"
token_type_to_string decorator_kw = "DECORATOR_KW"
token_type_to_string at = "AT"
token_type_to_string struct = "STRUCT"
token_type_to_string enum = "ENUM"
token_type_to_string new = "NEW"
token_type_to_string plus = "PLUS"
token_type_to_string minus = "MINUS"
token_type_to_string star = "STAR"
token_type_to_string star_star = "STAR_STAR"
token_type_to_string slash = "SLASH"
token_type_to_string percent = "PERCENT"
token_type_to_string equal = "EQUAL"
token_type_to_string equal_equal = "EQUAL_EQUAL"
token_type_to_string bang = "BANG"
token_type_to_string bang_equal = "BANG_EQUAL"
token_type_to_string less = "LESS"
token_type_to_string less_equal = "LESS_EQUAL"
token_type_to_string greater = "GREATER"
token_type_to_string greater_equal = "GREATER_EQUAL"
token_type_to_string plus_equal = "PLUS_EQUAL"
token_type_to_string minus_equal = "MINUS_EQUAL"
token_type_to_string star_equal = "STAR_EQUAL"
token_type_to_string star_star_equal = "STAR_STAR_EQUAL"
token_type_to_string slash_equal = "SLASH_EQUAL"
token_type_to_string ampersand = "AMPERSAND"
token_type_to_string caret = "CARET"
token_type_to_string tilde = "TILDE"
token_type_to_string lshift = "LSHIFT"
token_type_to_string rshift = "RSHIFT"
token_type_to_string lparen = "LPAREN"
token_type_to_string rparen = "RPAREN"
token_type_to_string lbracket = "LBRACKET"
token_type_to_string rbracket = "RBRACKET"
token_type_to_string lbrace = "LBRACE"
token_type_to_string rbrace = "RBRACE"
token_type_to_string comma = "COMMA"
token_type_to_string dot = "DOT"
token_type_to_string colon = "COLON"
token_type_to_string question_mark = "QUESTION_MARK"
token_type_to_string question_question = "QUESTION_QUESTION"
token_type_to_string question_dot = "QUESTION_DOT"
token_type_to_string pipe = "PIPE"
token_type_to_string arrow = "ARROW"
token_type_to_string newline = "NEWLINE"
token_type_to_string ellipsis = "ELLIPSIS"
token_type_to_string end_of_file = "EOF"
token_type_to_string error = "ERROR"
token_type_to_string async = "UNKNOWN"
token_type_to_string await = "UNKNOWN"
token_type_to_string test = "UNKNOWN"
token_type_to_string super_kw = "UNKNOWN"
token_type_to_string static = "UNKNOWN"
token_type_to_string interface = "UNKNOWN"
token_type_to_string implements = "UNKNOWN"
token_type_to_string finally = "UNKNOWN"
