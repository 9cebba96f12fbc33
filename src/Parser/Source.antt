-- ===== src/Parser/Source.antt =====
-- Expressions as a reader sees them, the tokens that are written for each with the parentheses that
-- it needs and no others, and the node that is meant. This is what the functions `call` to
-- `ternary` of src/parser/ParserExpr.cpp are measured against.
use Prim.Native.Nat.{max}
use ez_language.Prelude.{ℕ, suc, Bool, true, false, List, [], ◌∷◌, ltb}
use ez_language.Prelude.Int.{pos}
use ez_language.Bytecode.Types.{Text}
use ez_language.Lexer.Kinds.{TokenKind}
use ez_language.Lexer.State.{Token, Literal}
use ez_language.Parser.Syntax.{
  Expr, literal, identifier, binary, logical, unary, await, index, property, ternary,
}

-- The operators between two operands that group to the left.
pub data Infix : Type 0 where
  star slash percent plus minus lshift rshift greater greater_equal less less_equal : Infix
  in_kw equal_equal bang_equal ampersand caret pipe and or question_question : Infix

pub data Prefix : Type 0 where
  bang minus not_kw tilde : Prefix

pub data Source : Type 0 where
  name : Text → Source
  number text : Literal → Source
  item : Source → Source → Source
  member : Source → Bool → Text → Source
  prefixed : Prefix → Source → Source
  awaited : Source → Source
  raised : Source → Source → Source
  infixed : Infix → Source → Source → Source
  conditional : Source → Source → Source → Source

abbrev pub infix_kind : Infix → TokenKind
infix_kind Infix.star = TokenKind.star
infix_kind Infix.slash = TokenKind.slash
infix_kind Infix.percent = TokenKind.percent
infix_kind Infix.plus = TokenKind.plus
infix_kind Infix.minus = TokenKind.minus
infix_kind Infix.lshift = TokenKind.lshift
infix_kind Infix.rshift = TokenKind.rshift
infix_kind Infix.greater = TokenKind.greater
infix_kind Infix.greater_equal = TokenKind.greater_equal
infix_kind Infix.less = TokenKind.less
infix_kind Infix.less_equal = TokenKind.less_equal
infix_kind Infix.in_kw = TokenKind.in_kw
infix_kind Infix.equal_equal = TokenKind.equal_equal
infix_kind Infix.bang_equal = TokenKind.bang_equal
infix_kind Infix.ampersand = TokenKind.ampersand
infix_kind Infix.caret = TokenKind.caret
infix_kind Infix.pipe = TokenKind.pipe
infix_kind Infix.and = TokenKind.and
infix_kind Infix.or = TokenKind.or
infix_kind Infix.question_question = TokenKind.question_question

-- How loosely an operator binds, from 0.
abbrev pub looseness : Infix → ℕ
looseness Infix.star = 0
looseness Infix.slash = 0
looseness Infix.percent = 0
looseness Infix.plus = 1
looseness Infix.minus = 1
looseness Infix.lshift = 2
looseness Infix.rshift = 2
looseness Infix.greater = 3
looseness Infix.greater_equal = 3
looseness Infix.less = 3
looseness Infix.less_equal = 3
looseness Infix.in_kw = 3
looseness Infix.equal_equal = 4
looseness Infix.bang_equal = 4
looseness Infix.ampersand = 5
looseness Infix.caret = 6
looseness Infix.pipe = 7
looseness Infix.and = 8
looseness Infix.or = 9
looseness Infix.question_question = 10

abbrev pub prefix_kind : Prefix → TokenKind
prefix_kind Prefix.bang = TokenKind.bang
prefix_kind Prefix.minus = TokenKind.minus
prefix_kind Prefix.not_kw = TokenKind.not_kw
prefix_kind Prefix.tilde = TokenKind.tilde

abbrev pub infix_node : Infix → Expr → Expr → Expr
infix_node Infix.and l r = logical l TokenKind.and r
infix_node Infix.or l r = logical l TokenKind.or r
infix_node Infix.question_question l r = logical l TokenKind.question_question r
infix_node o l r = binary l (infix_kind o) r

abbrev pub tree : Source → Expr
tree (name n) = identifier n
tree (number l) = literal l
tree (text l) = literal l
tree (item s i) = index (tree s) (tree i)
tree (member s optional n) = property (tree s) n optional
tree (prefixed o s) = unary (prefix_kind o) (tree s)
tree (awaited s) = await (tree s)
tree (raised s t) = binary (tree s) TokenKind.star_star (tree t)
tree (infixed o s t) = infix_node o (tree s) (tree t)
tree (conditional c s t) = ternary (tree c) (tree s) (tree t)

-- 0 is for what `call` reads, 1 for `unary`, 2 for `power`, 3 to 13 for the operators and 14 for
-- `ternary`.
abbrev pub rank : Source → ℕ
rank (name n) = 0
rank (number l) = 0
rank (text l) = 0
rank (item s i) = 0
rank (member s optional n) = 0
rank (prefixed o s) = 1
rank (awaited s) = 1
rank (raised s t) = 2
rank (infixed o s t) = suc (suc (suc (looseness o)))
rank (conditional c s t) = 14

abbrev pub token : TokenKind → Text → Literal → Token
token k lexeme l = record { kind = k; lexeme = lexeme; literal = l; line = 1; column = pos 1 }

abbrev pub mark : TokenKind → Token
mark k = token k [] Literal.nullptr

abbrev pub dot_kind : Bool → TokenKind
dot_kind true = TokenKind.question_dot
dot_kind false = TokenKind.dot

abbrev pub wrap : Bool → (List Token → List Token) → List Token → List Token
wrap true p rest = mark TokenKind.lparen ∷ p (mark TokenKind.rparen ∷ rest)
wrap false p rest = p rest

-- The tokens of an expression with those that follow it.
unfoldable pub written : Source → List Token → List Token
written (name n) rest = token TokenKind.identifier n Literal.nullptr ∷ rest
written (number l) rest = token TokenKind.number [] l ∷ rest
written (text l) rest = token TokenKind.string [] l ∷ rest
written (item s i) rest =
    wrap (ltb 0 (rank s)) (written s)
      (mark TokenKind.lbracket ∷ written i (mark TokenKind.rbracket ∷ rest))
written (member s optional n) rest =
    wrap (ltb 0 (rank s)) (written s)
      (mark (dot_kind optional) ∷ token TokenKind.identifier n Literal.nullptr ∷ rest)
written (prefixed o s) rest = mark (prefix_kind o) ∷ wrap (ltb 1 (rank s)) (written s) rest
written (awaited s) rest = mark TokenKind.await ∷ wrap (ltb 1 (rank s)) (written s) rest
written (raised s t) rest =
    wrap (ltb 1 (rank s)) (written s)
      (mark TokenKind.star_star ∷ wrap (ltb 2 (rank t)) (written t) rest)
written (infixed o s t) rest =
    wrap (ltb (suc (suc (suc (looseness o)))) (rank s)) (written s)
      (mark (infix_kind o) ∷ wrap (ltb (suc (suc (looseness o))) (rank t)) (written t) rest)
written (conditional c s t) rest =
    wrap (ltb 13 (rank c)) (written c)
      (mark TokenKind.question_mark ∷ written s (mark TokenKind.colon ∷ written t rest))

abbrev pub deeper : Bool → ℕ → ℕ
deeper true n = suc n
deeper false n = n

-- How deep parentheses, brackets and the middle parts of `ternary` are nested.
unfoldable pub nesting : Source → ℕ
nesting (name n) = 0
nesting (number l) = 0
nesting (text l) = 0
nesting (item s i) = max (deeper (ltb 0 (rank s)) (nesting s)) (suc (nesting i))
nesting (member s optional n) = deeper (ltb 0 (rank s)) (nesting s)
nesting (prefixed o s) = deeper (ltb 1 (rank s)) (nesting s)
nesting (awaited s) = deeper (ltb 1 (rank s)) (nesting s)
nesting (raised s t) =
    max (deeper (ltb 1 (rank s)) (nesting s)) (deeper (ltb 2 (rank t)) (nesting t))
nesting (infixed o s t) =
    max (deeper (ltb (suc (suc (suc (looseness o)))) (rank s)) (nesting s))
      (deeper (ltb (suc (suc (looseness o))) (rank t)) (nesting t))
nesting (conditional c s t) =
    max (deeper (ltb 13 (rank c)) (nesting c)) (max (suc (nesting s)) (nesting t))
