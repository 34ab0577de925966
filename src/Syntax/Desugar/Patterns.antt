-- ===== src/Syntax/Desugar/Patterns.antt =====
-- What the methods of a class of src/transform.hpp make of the nodes, `rewrite` makes of the trees.
use egel.Prelude.{Bool, true, false, ◌≡◌, refl, arith}
use egel.Syntax.{
  Ast, Asts, nil, cons, Tag, empty, docstring, expr_integer, expr_hexinteger, expr_float,
  expr_complex, expr_character, expr_text, expr_variable, expr_wildcard, expr_combinator,
  expr_operator, ast_path, ast_alias, ast_rename, expr_tag, expr_list, expr_list_tail, expr_tuple,
  expr_application, expr_match, expr_block, expr_lambda, expr_let, expr_try, expr_throw, expr_if,
  expr_statement, expr_do, direct_import, direct_using, decl_namespace, decl_data, decl_definition,
  decl_value, decl_operator, ast_wrapper,
}
use egel.Syntax.{
  tag_expr_wildcard, tag_expr_list, tag_expr_tuple, tag_expr_try, tag_expr_throw, tag_expr_lambda,
  tag_expr_let, tag_expr_if, tag_expr_statement, tag_expr_do,
}
use egel.Syntax.Rewrite.{}
use egel.Syntax.Desugar.Every.{Every, EveryOf, fits, is_inert, flat}

-- The tags of the core language.
unfoldable pub core : Tag → Bool
core tag_expr_wildcard = false
core tag_expr_list = false
core tag_expr_tuple = false
core tag_expr_try = false
core tag_expr_throw = false
core tag_expr_lambda = false
core tag_expr_let = false
core tag_expr_if = false
core tag_expr_statement = false
core tag_expr_do = false
core t = true

unfoldable pub HasCore : (Tag → Bool) → Type 0
HasCore f = (t : Tag) → core t ≡ true → f t ≡ true

pub fits-core :
    (f : Tag → Bool) → HasCore f → (b : Bool) (t : Tag) → core t ≡ true → fits b f t ≡ true
unfolding HasCore fits flat core
fits-core f h false t e = h t e
fits-core f h true tag_expr_let e = absurd cc
fits-core f h true tag_expr_statement e = absurd cc
fits-core f h true t e = rw (h t e) refl

module _ (f : Tag → Bool) (c : HasCore f) (b : Bool) where
  pub inert-Every : (a : Ast) → is_inert a ≡ true → Every b f a
  unfolding is_inert Every core
  inert-Every empty h = fits-core f c b _ refl
  inert-Every (docstring p v) h = fits-core f c b _ refl
  inert-Every (ast_path p v) h = fits-core f c b _ refl
  inert-Every (expr_combinator p nn v) h = fits-core f c b _ refl
  inert-Every (expr_operator p nn v) h = fits-core f c b _ refl
  inert-Every (ast_alias p x y) h = (fits-core f c b _ refl, ground arith, ground arith)
  inert-Every _ h = absurd cc

no_let : (f : Tag → Bool) → fits true f tag_expr_let ≡ true → ⊥
unfolding fits flat
no_let f h = ground arith

-- A tree in the pattern of a let has no let.
mutual
  unfolding Every

  pub pattern-Every :
      (f g : Tag → Bool) (s : (t : Tag) → fits true f t ≡ true → fits false g t ≡ true) (a : Ast)
      → Every true f a
      → Every false g a
  pattern-Every f g s empty h = s _ h
  pattern-Every f g s (docstring p v) h = s _ h
  pattern-Every f g s (expr_integer p v) h = s _ h
  pattern-Every f g s (expr_hexinteger p v) h = s _ h
  pattern-Every f g s (expr_float p v) h = s _ h
  pattern-Every f g s (expr_complex p v) h = s _ h
  pattern-Every f g s (expr_character p v) h = s _ h
  pattern-Every f g s (expr_text p v) h = s _ h
  pattern-Every f g s (expr_variable p v) h = s _ h
  pattern-Every f g s (expr_wildcard p v) h = s _ h
  pattern-Every f g s (expr_combinator p nn v) h = s _ h
  pattern-Every f g s (expr_operator p nn v) h = s _ h
  pattern-Every f g s (ast_path p nn) h = s _ h
  pattern-Every f g s (ast_alias p x y) (h, ix, iy) = (s _ h, ix, iy)
  pattern-Every f g s (ast_rename p x ss) (h, qx, qs) =
      (s _ h, pattern-Every f g s x qx, patterns-Every f g s ss qs)
  pattern-Every f g s (expr_tag p x y) (h, qx, qy) =
      (s _ h, pattern-Every f g s x qx, pattern-Every f g s y qy)
  pattern-Every f g s (expr_list p ss) (h, qs) = (s _ h, patterns-Every f g s ss qs)
  pattern-Every f g s (expr_list_tail p ss x) (h, qs, qx) =
      (s _ h, patterns-Every f g s ss qs, pattern-Every f g s x qx)
  pattern-Every f g s (expr_tuple p ss) (h, qs) = (s _ h, patterns-Every f g s ss qs)
  pattern-Every f g s (expr_application p ss) (h, qs, e) = (s _ h, patterns-Every f g s ss qs, e)
  pattern-Every f g s (expr_match p ss x y) (h, qs, qx, qy) =
      (s _ h, patterns-Every f g s ss qs, pattern-Every f g s x qx, pattern-Every f g s y qy)
  pattern-Every f g s (expr_block p ss) (h, qs) = (s _ h, patterns-Every f g s ss qs)
  pattern-Every f g s (expr_lambda p ss) (h, qs) = (s _ h, patterns-Every f g s ss qs)
  pattern-Every f g s (expr_let p ss x y) (h, _, _, _) = absurd (no_let f h)
  pattern-Every f g s (expr_try p x y) (h, qx, qy) =
      (s _ h, pattern-Every f g s x qx, pattern-Every f g s y qy)
  pattern-Every f g s (expr_throw p x) (h, qx) = (s _ h, pattern-Every f g s x qx)
  pattern-Every f g s (expr_if p x y z) (h, qx, qy, qz) =
      (s _ h, pattern-Every f g s x qx, pattern-Every f g s y qy, pattern-Every f g s z qz)
  pattern-Every f g s (expr_statement p x y) (h, qx, qy) =
      (s _ h, pattern-Every f g s x qx, pattern-Every f g s y qy)
  pattern-Every f g s (expr_do p x) (h, qx) = (s _ h, pattern-Every f g s x qx)
  pattern-Every f g s (direct_import p v) h = s _ h
  pattern-Every f g s (direct_using p ss) (h, qs) = (s _ h, patterns-Every f g s ss qs)
  pattern-Every f g s (decl_namespace p nn ss) (h, qs) = (s _ h, patterns-Every f g s ss qs)
  pattern-Every f g s (decl_data p x ss) (h, ix, qs) = (s _ h, ix, patterns-Every f g s ss qs)
  pattern-Every f g s (decl_definition p x y z) (h, qx, qy, qz) =
      (s _ h, pattern-Every f g s x qx, pattern-Every f g s y qy, pattern-Every f g s z qz)
  pattern-Every f g s (decl_value p x y z) (h, qx, qy, qz) =
      (s _ h, pattern-Every f g s x qx, pattern-Every f g s y qy, pattern-Every f g s z qz)
  pattern-Every f g s (decl_operator p x y z) (h, qx, qy, qz) =
      (s _ h, pattern-Every f g s x qx, pattern-Every f g s y qy, pattern-Every f g s z qz)
  pattern-Every f g s (ast_wrapper p ss) (h, qs) = (s _ h, patterns-Every f g s ss qs)

  pub patterns-Every :
      (f g : Tag → Bool) (s : (t : Tag) → fits true f t ≡ true → fits false g t ≡ true) (aa : Asts)
      → EveryOf true f aa
      → EveryOf false g aa
  patterns-Every f g s nil h = tt
  patterns-Every f g s (cons a aa) (h, hs) = (pattern-Every f g s a h, patterns-Every f g s aa hs)
