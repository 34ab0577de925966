-- ===== src/Syntactical/Ends/Trees/Declarations.antt =====
-- Where the nodes of directives and declarations of src/syntactical.hpp may stand.
use egel.Prelude.{refl, Bool, true, false, List}
use egel.Prelude.Text.{Text}
use egel.Reader.{Position}
use egel.Syntax.{
  Ast, Asts, nil, cons, ast_path, ast_alias, ast_rename, direct_import, direct_using,
  decl_namespace, decl_data, decl_definition, decl_value, decl_operator, ast_wrapper,
}
use egel.Syntax.Desugar.Every.{Every, EveryOf, fits, is_inert}
use egel.Semantical.Identify.Formed.{
  Mode, in_expression, in_module, Formed, IsLabel, AreLabels, IsHead, IsModule,
}
use egel.Syntactical.Ends.Trees.{IsDoc, IsName, Leaf, Tree, Trees, tree, trees}
use egel.Syntactical.Ends.Trees.Expressions.{AreExprs, IsExpr}

abbrev pub IsDecl : Ast → Type 0
IsDecl a = Tree in_module false a

abbrev pub AreDecls : Asts → Type 0
AreDecls aa = Trees in_module false aa

-- What a rename is of: a path or two, and names with other names.
pub data IsTarget (a : Ast) : Type 0 where
  target : IsHead a → Every false (λ t. true) a → IsTarget a

pub data AreRenamed (aa : Asts) : Type 0 where
  renamed : AreLabels aa → EveryOf false (λ t. true) aa → AreRenamed aa

pub data IsRenamed (a : Ast) : Type 0 where
  one_renamed :
      ((aa : Asts) → AreLabels aa → AreLabels (cons a aa)) → Every false (λ t. true) a → IsRenamed a

pub path-IsTarget : (p : Position) (nn : List Text) → IsTarget (ast_path p nn)
unfolding IsHead Every fits
path-IsTarget p nn = target tt refl

pub alias-IsTarget :
    (p q r : Position) (mm nn : List Text) → IsTarget (ast_alias p (ast_path q mm) (ast_path r nn))
unfolding IsHead Every fits is_inert
alias-IsTarget p q r mm nn = target tt (refl, refl, refl)

pub nil-AreRenamed : AreRenamed nil
unfolding AreLabels EveryOf
nil-AreRenamed = renamed tt tt

pub cons-AreRenamed : (a : Ast) (aa : Asts) → IsRenamed a → AreRenamed aa → AreRenamed (cons a aa)
unfolding EveryOf
cons-AreRenamed a aa (one_renamed f e) (renamed g h) = renamed (f aa g) (e, h)

label-AreLabels : (a : Ast) → IsLabel a → (aa : Asts) → AreLabels aa → AreLabels (cons a aa)
unfolding IsLabel AreLabels
label-AreLabels (ast_alias p x y) h aa g = elim h [ ]
label-AreLabels a h aa g = (h, g)

pub Tree-Every : {m : Mode} {b : Bool} {a : Ast} → Tree m b a → Every b (λ t. true) a
Tree-Every (tree f e) = e

pub name-IsRenamed : (a : Ast) → IsName a → IsRenamed a
unfolding IsName Leaf
name-IsRenamed a (_, l, f) = one_renamed (label-AreLabels a l) (Tree-Every (f in_module false))

pub alias-IsRenamed : (p : Position) (x y : Ast) → IsName x → IsName y → IsRenamed (ast_alias p x y)
unfolding IsName AreLabels Every fits
alias-IsRenamed p x y (i, l, _) (j, m, _) = one_renamed (λ aa g. ((l, m), g)) (refl, i, j)

three_parts :
    {n d x : Ast}
    → IsExpr n
    → IsExpr d
    → IsExpr x
    → (Formed in_expression n × Formed in_expression x)
      × (Every false (λ t. true) n × Every false (λ t. true) d × Every false (λ t. true) x)
three_parts (tree f e) (tree g h) (tree i j) = ((f, i), (e, h, j))

module _ (p : Position) where
  pub rename-Tree : (x : Ast) (aa : Asts) → IsTarget x → AreRenamed aa → IsDecl (ast_rename p x aa)
  unfolding Formed Every IsModule fits
  rename-Tree x aa (target f e) (renamed g h) = tree (tt, f, g) (refl, e, h)

  pub using-Tree : (aa : Asts) → AreDecls aa → IsDecl (direct_using p aa)
  unfolding Formed Every fits
  using-Tree aa (trees f e) = tree f (refl, e)

  pub import-Tree : (s : Text) → IsDecl (direct_import p s)
  unfolding Formed Every fits
  import-Tree s = tree tt refl

  pub namespace-Tree : (nn : List Text) (aa : Asts) → AreDecls aa → IsDecl (decl_namespace p nn aa)
  unfolding Formed Every IsModule fits
  namespace-Tree nn aa (trees f e) = tree (tt, f) (refl, e)

  pub data-Tree : (x : Ast) (aa : Asts) → IsDoc x → AreExprs aa → IsDecl (decl_data p x aa)
  unfolding IsDoc Formed Every IsModule fits
  data-Tree x aa (i, _, _) (trees f e) = tree (tt, f) (refl, i, e)

  module _ (n d x : Ast) (hn : IsName n) (hd : IsDoc d) where
    definition_parts :
        IsExpr x
        → (Formed in_expression n × Formed in_expression x)
          × (Every false (λ t. true) n × Every false (λ t. true) d × Every false (λ t. true) x)
    unfolding IsName IsDoc Leaf
    definition_parts h = three_parts (hn.2 in_expression false) (hd.1 in_expression false) h

    pub definition-Tree : IsExpr x → IsDecl (decl_definition p n d x)
    unfolding Formed Every IsModule fits
    definition-Tree h =
        let ((f, g), (i, j, k)) = definition_parts h in tree (tt, f, g) (refl, i, j, k)

    pub operator-Tree : IsExpr x → IsDecl (decl_operator p n d x)
    unfolding Formed Every IsModule fits
    operator-Tree h =
        let ((f, g), (i, j, k)) = definition_parts h in tree (tt, f, g) (refl, i, j, k)

    pub value-Tree : IsExpr x → IsDecl (decl_value p n d x)
    unfolding Formed Every IsModule fits
    value-Tree h = let ((f, g), (i, j, k)) = definition_parts h in tree (tt, f, g) (refl, i, j, k)

  pub wrapper-Tree : (aa : Asts) → AreDecls aa → IsDecl (ast_wrapper p aa)
  unfolding Formed Every fits
  wrapper-Tree aa (trees f e) = tree f (refl, e)
