-- ===== src/Parser/ReadBack.antt =====
-- That `expression` (src/parser/ParserExpr.cpp) reads back what is written for an expression: `Parts`
-- is about the tokens, `Cases` and `Operators` about the forms of expressions.
mod Parts
mod Cases
mod Operators
use ez_language.Prelude.{ℕ, suc, ◌≤◌, ◌+◌, arith, Option, List, ◌≡◌, length}
use ez_language.Lexer.State.{Token}
use ez_language.Parser.Tokens.{Parser, ok}
use ez_language.Parser.Expressions.{calls, parse_expression, max_depth}
use ez_language.Parser.Source.{
  Source, name, number, text, item, member, prefixed, awaited, raised, infixed, conditional, tree,
  written, nesting,
}
use ez_language.Parser.Quiet.{Quiet, all_continuing}
use ez_language.Parser.Climb.{expression-Full}
use ez_language.Parser.ReadBack.Parts.{ReadsBack, length-written}
use ez_language.Parser.ReadBack.Cases.{
  ReadsBack-name, ReadsBack-number, ReadsBack-text, ReadsBack-member, ReadsBack-item,
  ReadsBack-prefixed, ReadsBack-awaited,
}
use ez_language.Parser.ReadBack.Operators.{
  ReadsBack-raised, ReadsBack-infixed, ReadsBack-conditional,
}

reads_back : (declaration : ℕ → Parser (Option ℕ)) (s : Source) → ReadsBack declaration s
reads_back f (name n) = ReadsBack-name f n
reads_back f (number l) = ReadsBack-number f l
reads_back f (text l) = ReadsBack-text f l
reads_back f (item s i) = ReadsBack-item f s i (reads_back f s) (reads_back f i)
reads_back f (member s optional n) = ReadsBack-member f s optional n (reads_back f s)
reads_back f (prefixed o s) = ReadsBack-prefixed f o s (reads_back f s)
reads_back f (awaited s) = ReadsBack-awaited f s (reads_back f s)
reads_back f (raised s t) = ReadsBack-raised f s t (reads_back f s) (reads_back f t)
reads_back f (infixed o s t) = ReadsBack-infixed f o s t (reads_back f s) (reads_back f t)
reads_back f (conditional c s t) =
    ReadsBack-conditional f c s t (reads_back f c) (reads_back f s) (reads_back f t)

-- Let an expression of names, numbers, texts, indices, properties, prefix operators, `await`, `**`, the
-- operators that group to the left and the conditional be written with parentheses exactly
-- where an operand binds more loosely than its place allows (the left operand of an operator may be of
-- its own level, the right one not; of `**` it is the other way round; a prefix operator, `not`
-- included, binds more tightly than all operators between operands). If the depth so far, one
-- for the expression and its nesting are 100 together at most, and the token behind cannot go on with
-- an expression, then `expression` gives the node that is meant and leaves what is behind.
pub parse_expression-written :
    (declaration : ℕ → Parser (Option ℕ)) (d : ℕ) (s : Source) (rest : List Token)
    → suc d + nesting s ≤ max_depth
    → Quiet all_continuing rest
    → parse_expression declaration d (written s rest) ≡ ok (tree s) rest
unfolding parse_expression calls
parse_expression-written f d s rest depth quiet =
    let n = length (written s rest) in
    expression-Full (calls f n) d (written s) (tree s)
      (reads_back f s n (suc d) (omega (arith, length-written s rest)) depth).1 (omega arith) rest
      quiet
