-- ===== src/Syntax/Desugar/Colons.antt =====
-- In src/desugar.hpp the passes for the lazy operators and for negative numbers look for texts with
-- one colon, and a combinator whose text has none of these is left as it is.
use egel.Prelude.{ℕ, Bool, true, false, not, ◌||◌, ◌≡◌, refl, ◌∙◌, List, [], ◌∷◌, arith}
use egel.Prelude.Text.{Text, codes, text_eq}
use egel.Prelude.Outcome.{ok}
use egel.Syntax.{
  Ast, Asts, nil, cons, combinator_text, empty, docstring, expr_integer, expr_hexinteger,
  expr_float, expr_complex, expr_character, expr_text, expr_variable, expr_wildcard,
  expr_combinator, expr_operator, ast_path, ast_alias, ast_rename, expr_tag, expr_list,
  expr_list_tail, expr_tuple, expr_application, expr_match, expr_block, expr_lambda, expr_let,
  expr_try, expr_throw, expr_if, expr_statement, expr_do, direct_import, direct_using,
  decl_namespace, decl_data, decl_definition, decl_value, decl_operator, ast_wrapper,
}
use egel.Syntax.Rewrite.{
  Rewriting, Node, on_empty, on_docstring, on_expr_integer, on_expr_hexinteger, on_expr_float,
  on_expr_complex, on_expr_character, on_expr_text, on_expr_variable, on_expr_wildcard,
  on_expr_combinator, on_expr_operator, on_ast_path, on_ast_alias, on_ast_rename, on_expr_tag,
  on_expr_list, on_expr_list_tail, on_expr_tuple, on_expr_application, on_expr_match, on_expr_block,
  on_expr_lambda, on_expr_let, on_expr_try, on_expr_throw, on_expr_if, on_expr_statement,
  on_expr_do, on_direct_import, on_direct_using, on_decl_namespace, on_decl_data,
  on_decl_definition, on_decl_value, on_decl_operator, on_ast_wrapper, sources, rewrites, base,
  rewrite, children,
}
use egel.Syntax.Desugar.{lazyop_method, monmin_method, run_pass}

-- Every combinator of a tree is as told.
unfoldable mutual
  pub Calls : (List Text → Text → Bool) → Ast → Type 0
  Calls q empty = Unit
  Calls q (docstring p v) = Unit
  Calls q (expr_integer p v) = Unit
  Calls q (expr_hexinteger p v) = Unit
  Calls q (expr_float p v) = Unit
  Calls q (expr_complex p v) = Unit
  Calls q (expr_character p v) = Unit
  Calls q (expr_text p v) = Unit
  Calls q (expr_variable p v) = Unit
  Calls q (expr_wildcard p v) = Unit
  Calls q (expr_combinator p nn v) = q nn v ≡ true
  Calls q (expr_operator p nn v) = Unit
  Calls q (ast_path p nn) = Unit
  Calls q (ast_alias p x y) = Calls q x × Calls q y
  Calls q (ast_rename p x ss) = Calls q x × CallsOf q ss
  Calls q (expr_tag p x y) = Calls q x × Calls q y
  Calls q (expr_list p ss) = CallsOf q ss
  Calls q (expr_list_tail p ss x) = CallsOf q ss × Calls q x
  Calls q (expr_tuple p ss) = CallsOf q ss
  Calls q (expr_application p ss) = CallsOf q ss
  Calls q (expr_match p ss x y) = CallsOf q ss × Calls q x × Calls q y
  Calls q (expr_block p ss) = CallsOf q ss
  Calls q (expr_lambda p ss) = CallsOf q ss
  Calls q (expr_let p ss x y) = CallsOf q ss × Calls q x × Calls q y
  Calls q (expr_try p x y) = Calls q x × Calls q y
  Calls q (expr_throw p x) = Calls q x
  Calls q (expr_if p x y z) = Calls q x × Calls q y × Calls q z
  Calls q (expr_statement p x y) = Calls q x × Calls q y
  Calls q (expr_do p x) = Calls q x
  Calls q (direct_import p v) = Unit
  Calls q (direct_using p ss) = CallsOf q ss
  Calls q (decl_namespace p nn ss) = CallsOf q ss
  Calls q (decl_data p x ss) = Calls q x × CallsOf q ss
  Calls q (decl_definition p x y z) = Calls q x × Calls q y × Calls q z
  Calls q (decl_value p x y z) = Calls q x × Calls q y × Calls q z
  Calls q (decl_operator p x y z) = Calls q x × Calls q y × Calls q z
  Calls q (ast_wrapper p ss) = CallsOf q ss

  pub CallsOf : (List Text → Text → Bool) → Asts → Type 0
  CallsOf q nil = Unit
  CallsOf q (cons a aa) = Calls q a × CallsOf q aa

unfoldable Applies : (List Text → Text → Bool) → Node → Type 0
Applies q (on_expr_application p cs) = CallsOf q (sources cs)
Applies q n = Unit

sources-children : (m : Node → Rewriting Ast) (aa : Asts) → sources (children m aa) ≡ aa
unfolding sources rewrite
sources-children m nil = refl
sources-children m (cons a aa) = rw (sources-children m aa) refl

-- A class that does with the nodes what `Rewrite` does leaves every tree as it is.
module _ (q : List Text → Text → Bool) (m : Node → Rewriting Ast)
    (h : (n : Node) → Applies q n → (k : ℕ) → m n k ≡ base n k) where
  mutual
    unfolding rewrite Calls base Applies rewrites

    rewrite-same : (a : Ast) → Calls q a → (k : ℕ) → rewrite m a k ≡ ok (a, k)
    rewrite-same empty c k = h on_empty tt k
    rewrite-same (docstring p v) c k = h (on_docstring p v) tt k
    rewrite-same (expr_integer p v) c k = h (on_expr_integer p v) tt k
    rewrite-same (expr_hexinteger p v) c k = h (on_expr_hexinteger p v) tt k
    rewrite-same (expr_float p v) c k = h (on_expr_float p v) tt k
    rewrite-same (expr_complex p v) c k = h (on_expr_complex p v) tt k
    rewrite-same (expr_character p v) c k = h (on_expr_character p v) tt k
    rewrite-same (expr_text p v) c k = h (on_expr_text p v) tt k
    rewrite-same (expr_variable p v) c k = h (on_expr_variable p v) tt k
    rewrite-same (expr_wildcard p v) c k = h (on_expr_wildcard p v) tt k
    rewrite-same (expr_combinator p nn v) c k = h (on_expr_combinator p nn v) tt k
    rewrite-same (expr_operator p nn v) c k = h (on_expr_operator p nn v) tt k
    rewrite-same (ast_path p nn) c k = h (on_ast_path p nn) tt k
    rewrite-same (ast_alias p x y) (cx, cy) k =
        h (on_ast_alias p (x, rewrite m x) (y, rewrite m y)) tt k
        ∙ rw (rewrite-same x cx k, rewrite-same y cy k) refl
    rewrite-same (ast_rename p x ss) (cx, cs) k =
        h (on_ast_rename p (x, rewrite m x) (children m ss)) tt k
        ∙ rw (rewrite-same x cx k, rewrites-same ss cs k) refl
    rewrite-same (expr_tag p x y) (cx, cy) k =
        h (on_expr_tag p (x, rewrite m x) (y, rewrite m y)) tt k
        ∙ rw (rewrite-same x cx k, rewrite-same y cy k) refl
    rewrite-same (expr_list p ss) cs k =
        h (on_expr_list p (children m ss)) tt k ∙ rw (rewrites-same ss cs k) refl
    rewrite-same (expr_list_tail p ss x) (cs, cx) k =
        h (on_expr_list_tail p (children m ss) (x, rewrite m x)) tt k
        ∙ rw (rewrites-same ss cs k, rewrite-same x cx k) refl
    rewrite-same (expr_tuple p ss) cs k =
        h (on_expr_tuple p (children m ss)) tt k ∙ rw (rewrites-same ss cs k) refl
    rewrite-same (expr_application p ss) cs k =
        h (on_expr_application p (children m ss)) (rw (sources-children m ss) cs) k
        ∙ rw (rewrites-same ss cs k) refl
    rewrite-same (expr_match p ss x y) (cs, cx, cy) k =
        h (on_expr_match p (children m ss) (x, rewrite m x) (y, rewrite m y)) tt k
        ∙ rw (rewrites-same ss cs k, rewrite-same x cx k, rewrite-same y cy k) refl
    rewrite-same (expr_block p ss) cs k =
        h (on_expr_block p (children m ss)) tt k ∙ rw (rewrites-same ss cs k) refl
    rewrite-same (expr_lambda p ss) cs k =
        h (on_expr_lambda p (children m ss)) tt k ∙ rw (rewrites-same ss cs k) refl
    rewrite-same (expr_let p ss x y) (cs, cx, cy) k =
        h (on_expr_let p (children m ss) (x, rewrite m x) (y, rewrite m y)) tt k
        ∙ rw (rewrites-same ss cs k, rewrite-same x cx k, rewrite-same y cy k) refl
    rewrite-same (expr_try p x y) (cx, cy) k =
        h (on_expr_try p (x, rewrite m x) (y, rewrite m y)) tt k
        ∙ rw (rewrite-same x cx k, rewrite-same y cy k) refl
    rewrite-same (expr_throw p x) cx k =
        h (on_expr_throw p (x, rewrite m x)) tt k ∙ rw (rewrite-same x cx k) refl
    rewrite-same (expr_if p x y z) (cx, cy, cz) k =
        h (on_expr_if p (x, rewrite m x) (y, rewrite m y) (z, rewrite m z)) tt k
        ∙ rw (rewrite-same x cx k, rewrite-same y cy k, rewrite-same z cz k) refl
    rewrite-same (expr_statement p x y) (cx, cy) k =
        h (on_expr_statement p (x, rewrite m x) (y, rewrite m y)) tt k
        ∙ rw (rewrite-same x cx k, rewrite-same y cy k) refl
    rewrite-same (expr_do p x) cx k =
        h (on_expr_do p (x, rewrite m x)) tt k ∙ rw (rewrite-same x cx k) refl
    rewrite-same (direct_import p v) c k = h (on_direct_import p v) tt k
    rewrite-same (direct_using p ss) cs k =
        h (on_direct_using p (children m ss)) tt k ∙ rw (rewrites-same ss cs k) refl
    rewrite-same (decl_namespace p nn ss) cs k =
        h (on_decl_namespace p nn (children m ss)) tt k ∙ rw (rewrites-same ss cs k) refl
    rewrite-same (decl_data p x ss) (cx, cs) k =
        h (on_decl_data p (x, rewrite m x) (children m ss)) tt k
        ∙ rw (rewrite-same x cx k, rewrites-same ss cs k) refl
    rewrite-same (decl_definition p x y z) (cx, cy, cz) k =
        h (on_decl_definition p (x, rewrite m x) (y, rewrite m y) (z, rewrite m z)) tt k
        ∙ rw (rewrite-same x cx k, rewrite-same y cy k, rewrite-same z cz k) refl
    rewrite-same (decl_value p x y z) (cx, cy, cz) k =
        h (on_decl_value p (x, rewrite m x) (y, rewrite m y) (z, rewrite m z)) tt k
        ∙ rw (rewrite-same x cx k, rewrite-same y cy k, rewrite-same z cz k) refl
    rewrite-same (decl_operator p x y z) (cx, cy, cz) k =
        h (on_decl_operator p (x, rewrite m x) (y, rewrite m y) (z, rewrite m z)) tt k
        ∙ rw (rewrite-same x cx k, rewrite-same y cy k, rewrite-same z cz k) refl
    rewrite-same (ast_wrapper p ss) cs k =
        h (on_ast_wrapper p (children m ss)) tt k ∙ rw (rewrites-same ss cs k) refl

    rewrites-same : (aa : Asts) → CallsOf q aa → (k : ℕ) → rewrites (children m aa) k ≡ ok (aa, k)
    rewrites-same nil c k = refl
    rewrites-same (cons a aa) (c, cs) k = rw (rewrite-same a c k, rewrites-same aa cs k) refl

-- The text is none of those that the passes look for.
unfoldable pub is_other : List Text → Text → Bool
is_other nn v =
    let t : Text = combinator_text nn v in
    not (
      text_eq t (codes "System:&&")
      || text_eq t (codes "System:||")
      || text_eq t (codes "System:!-"))

lazyop-base : (n : Node) → Applies is_other n → (k : ℕ) → lazyop_method n k ≡ base n k
unfolding lazyop_method Applies Calls is_other sources
lazyop-base (on_expr_application p ((expr_combinator q nn v, m) ∷ x ∷ y ∷ [])) (c, _) k =
    rw
      (neither (text_eq (combinator_text nn v) (codes "System:&&"))
        (text_eq (combinator_text nn v) (codes "System:||")) _ c)
      refl
  where
    neither : (x y z : Bool) → not (x || y || z) ≡ true → (x || y) ≡ false
    neither x y z h = ground arith
lazyop-base n c k = refl

monmin-base : (n : Node) → Applies is_other n → (k : ℕ) → monmin_method n k ≡ base n k
unfolding monmin_method Applies Calls is_other sources
monmin-base (on_expr_application p ((expr_combinator q nn v, m) ∷ (expr_integer r i, l) ∷ []))
      (c, _) k =
    rw
      (last (text_eq (combinator_text nn v) (codes "System:&&"))
        (text_eq (combinator_text nn v) (codes "System:||"))
        (text_eq (combinator_text nn v) (codes "System:!-")) c)
      refl
  where
    last : (x y z : Bool) → not (x || y || z) ≡ true → z ≡ false
    last x y z h = ground arith
monmin-base n c k = refl

-- The passes for the lazy operators and for negative numbers give every tree back as it is, where no
-- combinator has one of the texts with one colon that they look for.
pub operator_passes-same :
    (a : Ast)
    → Calls is_other a
    → (run_pass (rewrite lazyop_method) a ≡ ok a) × (run_pass (rewrite monmin_method) a ≡ ok a)
unfolding run_pass
operator_passes-same a c = (
  rw (rewrite-same is_other lazyop_method lazyop-base a c 0) refl,
  rw (rewrite-same is_other monmin_method monmin-base a c 0) refl,
)
