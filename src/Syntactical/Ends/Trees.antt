-- ===== src/Syntactical/Ends/Trees.antt =====
-- The trees that the parser of src/syntactical.hpp makes: where each node may stand.
pub mod Expressions
pub mod Declarations
use egel.Prelude.{◌≡◌, refl, Bool, true, false, List, [], ◌∷◌}
use egel.Prelude.Text.{Text}
use egel.Reader.{Position}
use egel.Syntax.{
  Ast, Asts, nil, cons, empty, docstring, expr_integer, expr_hexinteger, expr_float, expr_complex,
  expr_character, expr_text, expr_variable, expr_wildcard, expr_combinator, expr_tag, expr_list,
  expr_list_tail, expr_tuple, expr_application, expr_match, expr_block, expr_lambda, expr_let,
  expr_try, expr_throw, expr_if, expr_statement, expr_do, ast_path, ast_alias, ast_rename,
  direct_import, direct_using, decl_namespace, decl_data, decl_definition, decl_value,
  decl_operator, ast_wrapper,
}
use egel.Syntax.{Tag as TreeTag}
use egel.Syntax.Desugar.{one, two, three}
use egel.Syntax.Desugar.Every.{flat-fits, Every, EveryOf, fits, flat, is_inert, is_nil}
use egel.Syntax.Desugar.Patterns.{pattern-Every, patterns-Every}
use egel.Semantical.Identify.Formed.{
  Mode, in_expression, in_pattern, in_module, Formed, FormedOf, IsLabel, AreLabels, IsHead,
  IsModule, IsExpression, IsPattern,
}

-- A tree is well formed where it stands, and its nodes are those of a source; the Boolean tells
-- whether it is in a pattern of a let.
pub data Tree (m : Mode) (b : Bool) (a : Ast) : Type 0 where
  tree : Formed m a → Every b (λ t. true) a → Tree m b a

pub data Trees (m : Mode) (b : Bool) (aa : Asts) : Type 0 where
  trees : FormedOf m aa → EveryOf b (λ t. true) aa → Trees m b aa

-- It may stand anywhere.
unfoldable pub Leaf : Ast → Type 0
Leaf a = (m : Mode) (b : Bool) → Tree m b a

unfoldable pub IsDocstring : Ast → Type 0
IsDocstring (docstring p v) = Unit
IsDocstring _ = ⊥

unfoldable pub IsDoc : Ast → Type 0
IsDoc a = (is_inert a ≡ true) × Leaf a × IsDocstring a

unfoldable pub IsName : Ast → Type 0
IsName a = (is_inert a ≡ true) × IsLabel a × Leaf a

pub integer-Leaf : (p : Position) (s : Text) → Leaf (expr_integer p s)
unfolding Leaf Formed Every flat
integer-Leaf p s m b = tree tt (flat-fits b _ refl)

pub hexinteger-Leaf : (p : Position) (s : Text) → Leaf (expr_hexinteger p s)
unfolding Leaf Formed Every flat
hexinteger-Leaf p s m b = tree tt (flat-fits b _ refl)

pub float-Leaf : (p : Position) (s : Text) → Leaf (expr_float p s)
unfolding Leaf Formed Every flat
float-Leaf p s m b = tree tt (flat-fits b _ refl)

pub complex-Leaf : (p : Position) (s : Text) → Leaf (expr_complex p s)
unfolding Leaf Formed Every flat
complex-Leaf p s m b = tree tt (flat-fits b _ refl)

pub character-Leaf : (p : Position) (s : Text) → Leaf (expr_character p s)
unfolding Leaf Formed Every flat
character-Leaf p s m b = tree tt (flat-fits b _ refl)

pub text-Leaf : (p : Position) (s : Text) → Leaf (expr_text p s)
unfolding Leaf Formed Every flat
text-Leaf p s m b = tree tt (flat-fits b _ refl)

pub variable-Leaf : (p : Position) (s : Text) → Leaf (expr_variable p s)
unfolding Leaf Formed Every flat
variable-Leaf p s m b = tree tt (flat-fits b _ refl)

pub wildcard-Leaf : (p : Position) (s : Text) → Leaf (expr_wildcard p s)
unfolding Leaf Formed Every flat
wildcard-Leaf p s m b = tree tt (flat-fits b _ refl)

pub docstring-IsDoc : (p : Position) (s : Text) → IsDoc (docstring p s)
unfolding IsDoc IsDocstring is_inert Leaf Formed Every flat
docstring-IsDoc p s = (refl, (λ m b. tree tt (flat-fits b _ refl)), tt)

pub combinator-IsName : (p : Position) (nn : List Text) (s : Text) → IsName (expr_combinator p nn s)
unfolding IsName IsLabel is_inert Leaf Formed Every flat
combinator-IsName p nn s = (refl, tt, λ m b. tree tt (flat-fits b _ refl))

module _ {m : Mode} {b : Bool} where
  pub nil-Trees : Trees m b nil
  unfolding FormedOf EveryOf
  nil-Trees = trees tt tt

  pub cons-Trees : (a : Ast) (aa : Asts) → Tree m b a → Trees m b aa → Trees m b (cons a aa)
  unfolding FormedOf EveryOf
  cons-Trees a aa (tree f e) (trees g h) = trees (f, g) (e, h)

  pub application-Tree :
      (p : Position) (a : Ast) (aa : Asts)
      → Trees m b (cons a aa)
      → Tree m b (expr_application p (cons a aa))
  unfolding Formed Every is_nil flat
  application-Tree p a aa (trees g h) = tree g (flat-fits b _ refl, h, refl)

  pub tuple-Tree : (p : Position) (aa : Asts) → Trees m b aa → Tree m b (expr_tuple p aa)
  unfolding Formed Every flat
  tuple-Tree p aa (trees g h) = tree g (flat-fits b _ refl, h)

  pub list-Tree : (p : Position) (aa : Asts) → Trees m b aa → Tree m b (expr_list p aa)
  unfolding Formed Every flat
  list-Tree p aa (trees g h) = tree g (flat-fits b _ refl, h)

  pub list_tail-Tree :
      (p : Position) (aa : Asts) (a : Ast)
      → Trees m b aa
      → Tree m b a
      → Tree m b (expr_list_tail p aa a)
  unfolding Formed Every flat
  list_tail-Tree p aa a (trees g h) (tree f e) = tree (g, f) (flat-fits b _ refl, h, e)

joined :
    {p : Position} {x y : Ast}
    → Tree in_pattern true x
    → Tree in_expression true y
    → Tree in_pattern true y
    → Tree in_pattern true (expr_tag p x y)
unfolding Formed Every IsPattern flat
joined (tree f e) (tree g h) (tree i j) = tree (tt, f, g) (flat-fits true _ refl, e, j)

pub tag-Tree : (p : Position) (x y : Ast) → Leaf x → Leaf y → Tree in_pattern true (expr_tag p x y)
unfolding Leaf
tag-Tree p x y lx ly = joined (lx in_pattern true) (ly in_expression true) (ly in_pattern true)
