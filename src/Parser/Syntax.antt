-- ===== src/Parser/Syntax.antt =====
-- The syntax trees of expressions (src/ast/AST_Expr.h). Where in the source a node stands,
-- and the mark of tail calls, which no function for expressions sets, are left out.
-- A statement is the number of its object.
use ez_language.Prelude.{ℕ, Bool, Option, List, [], ◌∷◌}
use ez_language.Bytecode.Types.{Text}
use ez_language.Lexer.Kinds.{TokenKind}
use ez_language.Lexer.State.{Literal}

-- `TypeAST`: a name with type arguments.
mutual
  pub data TypeAst : Type 0 where
    named : Text → TypeAsts → TypeAst

  pub data TypeAsts : Type 0 where
    no_types : TypeAsts
    types : TypeAst → TypeAsts → TypeAsts

-- The three forms of `AssignExpr` and `SetExpr` carry the compound operator, if there is one; an
-- assignment to a name does not. A lambda's flags are `isVariadic` and `isAsync`.
mutual
  pub data Expr : Type 0 where
    literal : Literal → Expr
    identifier : Text → Expr
    binary logical : Expr → TokenKind → Expr → Expr
    unary : TokenKind → Expr → Expr
    await spread : Expr → Expr
    call : Expr → Exprs → List Text → Expr
    index : Expr → Expr → Expr
    array tuple : Exprs → Expr
    dictionary : Pairs → Expr
    property : Expr → Text → Bool → Expr
    assign : Text → Expr → Expr
    assign_index : Expr → Expr → Expr → Option TokenKind → Expr
    set : Expr → Text → Expr → Option TokenKind → Expr
    destructure_assign : Exprs → Expr → Expr
    lambda : List Text → Expr → Bool → Bool → Expr
    lambda_block : List Text → List ℕ → Bool → Bool → Expr
    self super : Expr
    new : Text → Exprs → TypeAsts → Expr
    ternary : Expr → Expr → Expr → Expr

  pub data Exprs : Type 0 where
    no_exprs : Exprs
    exprs : Expr → Exprs → Exprs

  pub data Pairs : Type 0 where
    no_pairs : Pairs
    pairs : Expr → Expr → Pairs → Pairs

abbrev pub all_exprs : List Expr → Exprs
all_exprs [] = no_exprs
all_exprs (e ∷ es) = exprs e (all_exprs es)

abbrev pub all_types : List TypeAst → TypeAsts
all_types [] = no_types
all_types (t ∷ ts) = types t (all_types ts)

abbrev pub all_pairs : List (Expr × Expr) → Pairs
all_pairs [] = no_pairs
all_pairs ((k, v) ∷ ps) = pairs k v (all_pairs ps)
