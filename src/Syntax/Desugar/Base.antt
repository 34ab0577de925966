-- ===== src/Syntax/Desugar/Base.antt =====
-- The methods of `Rewrite` in src/transform.hpp keep every node as it is, up to its members.
use egel.Prelude.{Bool, true, ◌≡◌, refl, ◌∙◌, List, [], ◌∷◌}
use egel.Syntax.{Tag}
use egel.Syntax.Rewrite.{
  Child, Node, on_empty, on_docstring, on_expr_integer, on_expr_hexinteger, on_expr_float,
  on_expr_complex, on_expr_character, on_expr_text, on_expr_variable, on_expr_wildcard,
  on_expr_combinator, on_expr_operator, on_ast_path, on_ast_alias, on_ast_rename, on_expr_tag,
  on_expr_list, on_expr_list_tail, on_expr_tuple, on_expr_application, on_expr_match, on_expr_block,
  on_expr_lambda, on_expr_let, on_expr_try, on_expr_throw, on_expr_if, on_expr_statement,
  on_expr_do, on_direct_import, on_direct_using, on_decl_namespace, on_decl_data,
  on_decl_definition, on_decl_value, on_decl_operator, on_ast_wrapper, base, rewrites,
}
use egel.Syntax.Desugar.Every.{Every, EveryOf, fits, is_nil}
use egel.Syntax.Desugar.Makes.{Makes, Makes-ret, Makes-bind, MakesOf, is_none, node_tag, Ready}

module _ (g : Tag → Bool) (b : Bool) where
  pub rewrites-Makes :
      (cs : List Child)
      → MakesOf b g cs
      → Makes (λ aa. EveryOf b g aa × (is_nil aa ≡ is_none cs)) (rewrites cs)
  unfolding rewrites MakesOf EveryOf is_nil is_none
  rewrites-Makes [] h = Makes-ret (tt, refl)
  rewrites-Makes ((a, m) ∷ cs) (h, hs) =
      Makes-bind h (λ x q. Makes-bind (rewrites-Makes cs hs) (λ xs qs. Makes-ret ((q, qs.0), refl)))

module _ (f g : Tag → Bool) (b : Bool) where
  pub base-Makes :
      (n : Node) → fits b g (node_tag n) ≡ true → Ready b f g n → Makes (Every b g) (base n)
  unfolding base Ready node_tag Every
  base-Makes on_empty h r = Makes-ret h
  base-Makes (on_docstring p v) h r = Makes-ret h
  base-Makes (on_expr_integer p v) h r = Makes-ret h
  base-Makes (on_expr_hexinteger p v) h r = Makes-ret h
  base-Makes (on_expr_float p v) h r = Makes-ret h
  base-Makes (on_expr_complex p v) h r = Makes-ret h
  base-Makes (on_expr_character p v) h r = Makes-ret h
  base-Makes (on_expr_text p v) h r = Makes-ret h
  base-Makes (on_expr_variable p v) h r = Makes-ret h
  base-Makes (on_expr_wildcard p v) h r = Makes-ret h
  base-Makes (on_expr_combinator p nn v) h r = Makes-ret h
  base-Makes (on_expr_operator p nn v) h r = Makes-ret h
  base-Makes (on_ast_path p nn) h r = Makes-ret h
  base-Makes (on_ast_alias p x y) h (ix, iy, hx, hy) =
      Makes-bind hx (λ _ _. Makes-bind hy (λ _ _. Makes-ret (h, ix, iy)))
  base-Makes (on_ast_rename p x ss) h (hx, hs) =
      Makes-bind hx
        (λ _ qx. Makes-bind (rewrites-Makes g b ss hs) (λ _ qs. Makes-ret (h, qx, qs.0)))
  base-Makes (on_expr_tag p x y) h (hx, hy) =
      Makes-bind hx (λ _ qx. Makes-bind hy (λ _ qy. Makes-ret (h, qx, qy)))
  base-Makes (on_expr_list p ss) h hs =
      Makes-bind (rewrites-Makes g b ss hs) (λ _ qs. Makes-ret (h, qs.0))
  base-Makes (on_expr_list_tail p ss x) h (hs, hx) =
      Makes-bind (rewrites-Makes g b ss hs)
        (λ _ qs. Makes-bind hx (λ _ qx. Makes-ret (h, qs.0, qx)))
  base-Makes (on_expr_tuple p ss) h hs =
      Makes-bind (rewrites-Makes g b ss hs) (λ _ qs. Makes-ret (h, qs.0))
  base-Makes (on_expr_application p ss) h (hs, e) =
      Makes-bind (rewrites-Makes g b ss hs) (λ _ qs. Makes-ret (h, qs.0, qs.1 ∙ e))
  base-Makes (on_expr_match p ss x y) h (hs, hx, hy) =
      Makes-bind (rewrites-Makes g b ss hs)
        (λ _ qs. Makes-bind hx (λ _ qx. Makes-bind hy (λ _ qy. Makes-ret (h, qs.0, qx, qy))))
  base-Makes (on_expr_block p ss) h hs =
      Makes-bind (rewrites-Makes g b ss hs) (λ _ qs. Makes-ret (h, qs.0))
  base-Makes (on_expr_lambda p ss) h hs =
      Makes-bind (rewrites-Makes g b ss hs) (λ _ qs. Makes-ret (h, qs.0))
  base-Makes (on_expr_let p ss x y) h (_, hs, hx, hy) =
      Makes-bind (rewrites-Makes g true ss hs)
        (λ _ qs. Makes-bind hx (λ _ qx. Makes-bind hy (λ _ qy. Makes-ret (h, qs.0, qx, qy))))
  base-Makes (on_expr_try p x y) h (hx, hy) =
      Makes-bind hx (λ _ qx. Makes-bind hy (λ _ qy. Makes-ret (h, qx, qy)))
  base-Makes (on_expr_throw p x) h hx = Makes-bind hx (λ _ qx. Makes-ret (h, qx))
  base-Makes (on_expr_if p x y z) h (hx, hy, hz) =
      Makes-bind hx
        (λ _ qx. Makes-bind hy (λ _ qy. Makes-bind hz (λ _ qz. Makes-ret (h, qx, qy, qz))))
  base-Makes (on_expr_statement p x y) h (hx, hy) =
      Makes-bind hx (λ _ qx. Makes-bind hy (λ _ qy. Makes-ret (h, qx, qy)))
  base-Makes (on_expr_do p x) h hx = Makes-bind hx (λ _ qx. Makes-ret (h, qx))
  base-Makes (on_direct_import p v) h r = Makes-ret h
  base-Makes (on_direct_using p ss) h hs =
      Makes-bind (rewrites-Makes g b ss hs) (λ _ qs. Makes-ret (h, qs.0))
  base-Makes (on_decl_namespace p nn ss) h hs =
      Makes-bind (rewrites-Makes g b ss hs) (λ _ qs. Makes-ret (h, qs.0))
  base-Makes (on_decl_data p x ss) h (ix, hx, hs) =
      Makes-bind hx (λ _ _. Makes-bind (rewrites-Makes g b ss hs) (λ _ q. Makes-ret (h, ix, q.0)))
  base-Makes (on_decl_definition p x y z) h (hx, hy, hz) =
      Makes-bind hx
        (λ _ qx. Makes-bind hy (λ _ qy. Makes-bind hz (λ _ qz. Makes-ret (h, qx, qy, qz))))
  base-Makes (on_decl_value p x y z) h (hx, hy, hz) =
      Makes-bind hx
        (λ _ qx. Makes-bind hy (λ _ qy. Makes-bind hz (λ _ qz. Makes-ret (h, qx, qy, qz))))
  base-Makes (on_decl_operator p x y z) h (hx, hy, hz) =
      Makes-bind hx
        (λ _ qx. Makes-bind hy (λ _ qy. Makes-bind hz (λ _ qz. Makes-ret (h, qx, qy, qz))))
  base-Makes (on_ast_wrapper p ss) h hs =
      Makes-bind (rewrites-Makes g b ss hs) (λ _ qs. Makes-ret (h, qs.0))
