-- ===== src/Syntactical/Ends/Trees/Expressions.antt =====
-- Where the nodes of expressions of src/syntactical.hpp may stand.
use egel.Prelude.{refl, true, false}
use egel.Reader.{Position}
use egel.Syntax.{
  Ast, Asts, empty, expr_match, expr_block, expr_lambda, expr_let, expr_try, expr_throw, expr_if,
  expr_statement, expr_do,
}
use egel.Syntax.Desugar.Every.{Every, EveryOf, fits}
use egel.Syntax.Desugar.Patterns.{patterns-Every}
use egel.Semantical.Identify.Formed.{in_expression, in_pattern, Formed, IsExpression}
use egel.Syntactical.Ends.Trees.{Tree, Trees, tree, trees}

-- A pattern is well formed as an expression's tree.
pub EveryOf-pattern : (aa : Asts) → EveryOf true (λ t. true) aa → EveryOf false (λ t. true) aa
unfolding fits
EveryOf-pattern aa h = patterns-Every (λ t. true) (λ t. true) (λ t _. refl) aa h

abbrev pub IsExpr : Ast → Type 0
IsExpr a = Tree in_expression false a

abbrev pub AreExprs : Asts → Type 0
AreExprs aa = Trees in_expression false aa

module _ (p : Position) where
  pub match-Tree :
      (mm : Asts) (x : Ast) → Trees in_pattern true mm → IsExpr x → IsExpr (expr_match p mm empty x)
  unfolding Formed Every IsExpression fits
  match-Tree mm x (trees f e) (tree g h) = tree (tt, f, tt, g) (refl, EveryOf-pattern mm e, refl, h)

  pub let-Tree :
      (mm : Asts) (x y : Ast)
      → Trees in_pattern true mm
      → IsExpr x
      → IsExpr y
      → IsExpr (expr_let p mm x y)
  unfolding Formed Every IsExpression fits
  let-Tree mm x y (trees f e) (tree g h) (tree i j) = tree (tt, f, g, i) (refl, e, h, j)

  pub block-Tree : (aa : Asts) → AreExprs aa → IsExpr (expr_block p aa)
  unfolding Formed Every fits
  block-Tree aa (trees f e) = tree f (refl, e)

  pub lambda-Tree : (aa : Asts) → AreExprs aa → IsExpr (expr_lambda p aa)
  unfolding Formed Every fits
  lambda-Tree aa (trees f e) = tree f (refl, e)

  pub if-Tree : (x y z : Ast) → IsExpr x → IsExpr y → IsExpr z → IsExpr (expr_if p x y z)
  unfolding Formed Every fits
  if-Tree x y z (tree f e) (tree g h) (tree i j) = tree (f, g, i) (refl, e, h, j)

  pub try-Tree : (x y : Ast) → IsExpr x → IsExpr y → IsExpr (expr_try p x y)
  unfolding Formed Every fits
  try-Tree x y (tree f e) (tree g h) = tree (f, g) (refl, e, h)

  pub throw-Tree : (x : Ast) → IsExpr x → IsExpr (expr_throw p x)
  unfolding Formed Every fits
  throw-Tree x (tree f e) = tree f (refl, e)

  pub do-Tree : (x : Ast) → IsExpr x → IsExpr (expr_do p x)
  unfolding Formed Every fits
  do-Tree x (tree f e) = tree f (refl, e)

  pub statement-Tree : (x y : Ast) → IsExpr x → IsExpr y → IsExpr (expr_statement p x y)
  unfolding Formed Every fits
  statement-Tree x y (tree f e) (tree g h) = tree (f, g) (refl, e, h)
