-- ===== src/Syntax/Desugar/Induction.antt =====
-- What the methods of a class of src/transform.hpp make of the nodes, `rewrite` makes of the trees.
use egel.Prelude.{Bool, true, ◌≡◌, refl, ◌∙◌}
use egel.Syntax.{
  Ast, Asts, nil, cons, Tag, empty, docstring, expr_integer, expr_hexinteger, expr_float,
  expr_complex, expr_character, expr_text, expr_variable, expr_wildcard, expr_combinator,
  expr_operator, ast_path, ast_alias, ast_rename, expr_tag, expr_list, expr_list_tail, expr_tuple,
  expr_application, expr_match, expr_block, expr_lambda, expr_let, expr_try, expr_throw, expr_if,
  expr_statement, expr_do, direct_import, direct_using, decl_namespace, decl_data, decl_definition,
  decl_value, decl_operator, ast_wrapper,
}
use egel.Syntax.Rewrite.{
  Rewriting, Node, on_empty, on_docstring, on_expr_integer, on_expr_hexinteger, on_expr_float,
  on_expr_complex, on_expr_character, on_expr_text, on_expr_variable, on_expr_wildcard,
  on_expr_combinator, on_expr_operator, on_ast_path, on_ast_alias, on_ast_rename, on_expr_tag,
  on_expr_list, on_expr_list_tail, on_expr_tuple, on_expr_application, on_expr_match, on_expr_block,
  on_expr_lambda, on_expr_let, on_expr_try, on_expr_throw, on_expr_if, on_expr_statement,
  on_expr_do, on_direct_import, on_direct_using, on_decl_namespace, on_decl_data,
  on_decl_definition, on_decl_value, on_decl_operator, on_ast_wrapper, rewrite, children, sources,
}
use egel.Syntax.Desugar.Every.{Every, EveryOf, fits, is_nil}
use egel.Syntax.Desugar.Makes.{Makes, MakesOf, is_none, node_tag, Ready}
use egel.Syntax.Desugar.Patterns.{HasCore, inert-Every}

sources-children : (m : Node → Rewriting Ast) (aa : Asts) → sources (children m aa) ≡ aa
unfolding sources rewrite
sources-children m nil = refl
sources-children m (cons a aa) = rw (sources-children m aa) refl

is_none-children : (m : Node → Rewriting Ast) (aa : Asts) → is_none (children m aa) ≡ is_nil aa
unfolding is_none is_nil rewrite
is_none-children m nil = refl
is_none-children m (cons a aa) = refl

module _ (f g : Tag → Bool) (c : HasCore f) (m : Node → Rewriting Ast)
    (h : (b : Bool) (n : Node)
      → fits b f (node_tag n) ≡ true
      → Ready b f g n
      → Makes (Every b g) (m n)) where
  mutual
    unfolding rewrite Every Ready node_tag MakesOf

    pub rewrite-Makes : (b : Bool) (a : Ast) → Every b f a → Makes (Every b g) (rewrite m a)
    rewrite-Makes b empty e = h b on_empty e tt
    rewrite-Makes b (docstring p v) e = h b (on_docstring p v) e tt
    rewrite-Makes b (expr_integer p v) e = h b (on_expr_integer p v) e tt
    rewrite-Makes b (expr_hexinteger p v) e = h b (on_expr_hexinteger p v) e tt
    rewrite-Makes b (expr_float p v) e = h b (on_expr_float p v) e tt
    rewrite-Makes b (expr_complex p v) e = h b (on_expr_complex p v) e tt
    rewrite-Makes b (expr_character p v) e = h b (on_expr_character p v) e tt
    rewrite-Makes b (expr_text p v) e = h b (on_expr_text p v) e tt
    rewrite-Makes b (expr_variable p v) e = h b (on_expr_variable p v) e tt
    rewrite-Makes b (expr_wildcard p v) e = h b (on_expr_wildcard p v) e tt
    rewrite-Makes b (expr_combinator p nn v) e = h b (on_expr_combinator p nn v) e tt
    rewrite-Makes b (expr_operator p nn v) e = h b (on_expr_operator p nn v) e tt
    rewrite-Makes b (ast_path p nn) e = h b (on_ast_path p nn) e tt
    rewrite-Makes b (ast_alias p x y) (e, ix, iy) =
        h b (on_ast_alias p (x, rewrite m x) (y, rewrite m y)) e (
          ix,
          iy,
          rewrite-Makes b x (inert-Every f c b x ix),
          rewrite-Makes b y (inert-Every f c b y iy),
        )
    rewrite-Makes b (ast_rename p x ss) (e, qx, qs) =
        h b (on_ast_rename p (x, rewrite m x) (children m ss)) e
          (rewrite-Makes b x qx, children-Makes b ss qs)
    rewrite-Makes b (expr_tag p x y) (e, qx, qy) =
        h b (on_expr_tag p (x, rewrite m x) (y, rewrite m y)) e
          (rewrite-Makes b x qx, rewrite-Makes b y qy)
    rewrite-Makes b (expr_list p ss) (e, qs) =
        h b (on_expr_list p (children m ss)) e (children-Makes b ss qs)
    rewrite-Makes b (expr_list_tail p ss x) (e, qs, qx) =
        h b (on_expr_list_tail p (children m ss) (x, rewrite m x)) e
          (children-Makes b ss qs, rewrite-Makes b x qx)
    rewrite-Makes b (expr_tuple p ss) (e, qs) =
        h b (on_expr_tuple p (children m ss)) e (children-Makes b ss qs)
    rewrite-Makes b (expr_application p ss) (e, qs, i) =
        h b (on_expr_application p (children m ss)) e
          (children-Makes b ss qs, is_none-children m ss ∙ i)
    rewrite-Makes b (expr_match p ss x y) (e, qs, qx, qy) =
        h b (on_expr_match p (children m ss) (x, rewrite m x) (y, rewrite m y)) e
          (children-Makes b ss qs, rewrite-Makes b x qx, rewrite-Makes b y qy)
    rewrite-Makes b (expr_block p ss) (e, qs) =
        h b (on_expr_block p (children m ss)) e (children-Makes b ss qs)
    rewrite-Makes b (expr_lambda p ss) (e, qs) =
        h b (on_expr_lambda p (children m ss)) e (children-Makes b ss qs)
    rewrite-Makes b (expr_let p ss x y) (e, qs, qx, qy) =
        h b (on_expr_let p (children m ss) (x, rewrite m x) (y, rewrite m y)) e (
          rw (sources-children m ss) qs,
          children-Makes true ss qs,
          rewrite-Makes b x qx,
          rewrite-Makes b y qy,
        )
    rewrite-Makes b (expr_try p x y) (e, qx, qy) =
        h b (on_expr_try p (x, rewrite m x) (y, rewrite m y)) e
          (rewrite-Makes b x qx, rewrite-Makes b y qy)
    rewrite-Makes b (expr_throw p x) (e, qx) =
        h b (on_expr_throw p (x, rewrite m x)) e (rewrite-Makes b x qx)
    rewrite-Makes b (expr_if p x y z) (e, qx, qy, qz) =
        h b (on_expr_if p (x, rewrite m x) (y, rewrite m y) (z, rewrite m z)) e
          (rewrite-Makes b x qx, rewrite-Makes b y qy, rewrite-Makes b z qz)
    rewrite-Makes b (expr_statement p x y) (e, qx, qy) =
        h b (on_expr_statement p (x, rewrite m x) (y, rewrite m y)) e
          (rewrite-Makes b x qx, rewrite-Makes b y qy)
    rewrite-Makes b (expr_do p x) (e, qx) =
        h b (on_expr_do p (x, rewrite m x)) e (rewrite-Makes b x qx)
    rewrite-Makes b (direct_import p v) e = h b (on_direct_import p v) e tt
    rewrite-Makes b (direct_using p ss) (e, qs) =
        h b (on_direct_using p (children m ss)) e (children-Makes b ss qs)
    rewrite-Makes b (decl_namespace p nn ss) (e, qs) =
        h b (on_decl_namespace p nn (children m ss)) e (children-Makes b ss qs)
    rewrite-Makes b (decl_data p x ss) (e, ix, qs) =
        h b (on_decl_data p (x, rewrite m x) (children m ss)) e
          (ix, rewrite-Makes b x (inert-Every f c b x ix), children-Makes b ss qs)
    rewrite-Makes b (decl_definition p x y z) (e, qx, qy, qz) =
        h b (on_decl_definition p (x, rewrite m x) (y, rewrite m y) (z, rewrite m z)) e
          (rewrite-Makes b x qx, rewrite-Makes b y qy, rewrite-Makes b z qz)
    rewrite-Makes b (decl_value p x y z) (e, qx, qy, qz) =
        h b (on_decl_value p (x, rewrite m x) (y, rewrite m y) (z, rewrite m z)) e
          (rewrite-Makes b x qx, rewrite-Makes b y qy, rewrite-Makes b z qz)
    rewrite-Makes b (decl_operator p x y z) (e, qx, qy, qz) =
        h b (on_decl_operator p (x, rewrite m x) (y, rewrite m y) (z, rewrite m z)) e
          (rewrite-Makes b x qx, rewrite-Makes b y qy, rewrite-Makes b z qz)
    rewrite-Makes b (ast_wrapper p ss) (e, qs) =
        h b (on_ast_wrapper p (children m ss)) e (children-Makes b ss qs)

    children-Makes : (b : Bool) (aa : Asts) → EveryOf b f aa → MakesOf b g (children m aa)
    children-Makes b nil e = tt
    children-Makes b (cons a aa) (e, es) = (rewrite-Makes b a e, children-Makes b aa es)
