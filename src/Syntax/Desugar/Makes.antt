-- ===== src/Syntax/Desugar/Makes.antt =====
-- Total correctness of rewritings, and what a method of src/transform.hpp may rely on.
use egel.Prelude.{ℕ, Bool, true, false, ◌≡◌, refl, List, [], ◌∷◌}
use egel.Prelude.Outcome.{ok}
use egel.Syntax.{
  Tag, tag_empty, tag_docstring, tag_expr_integer, tag_expr_hexinteger, tag_expr_float,
  tag_expr_complex, tag_expr_character, tag_expr_text, tag_expr_variable, tag_expr_wildcard,
  tag_expr_combinator, tag_expr_operator, tag_path, tag_alias, tag_rename, tag_expr_tag,
  tag_expr_list, tag_expr_tuple, tag_expr_application, tag_expr_block, tag_expr_match, tag_expr_try,
  tag_expr_throw, tag_expr_lambda, tag_expr_let, tag_expr_if, tag_expr_statement, tag_expr_do,
  tag_direct_import, tag_direct_using, tag_decl_namespace, tag_decl_data, tag_decl_definition,
  tag_decl_operator, tag_wrapper, tag_decl_value,
}
use egel.Syntax.Rewrite.{
  Rewriting, ret, ◌>>=◌, Child, Node, on_empty, on_docstring, on_expr_integer, on_expr_hexinteger,
  on_expr_float, on_expr_complex, on_expr_character, on_expr_text, on_expr_variable,
  on_expr_wildcard, on_expr_combinator, on_expr_operator, on_ast_path, on_ast_alias, on_ast_rename,
  on_expr_tag, on_expr_list, on_expr_list_tail, on_expr_tuple, on_expr_application, on_expr_match,
  on_expr_block, on_expr_lambda, on_expr_let, on_expr_try, on_expr_throw, on_expr_if,
  on_expr_statement, on_expr_do, on_direct_import, on_direct_using, on_decl_namespace, on_decl_data,
  on_decl_definition, on_decl_value, on_decl_operator, on_ast_wrapper, sources,
}
use egel.Syntax.Desugar.Every.{Every, EveryOf, is_inert}

-- From every tick the run has a result, and the result is as told.
pub record Makes {A : Type 0} (P : A → Type 0) (m : Rewriting A) : Type 0 where
  pub run : (n : ℕ) → (a : A) × (k : ℕ) × (m n ≡ ok (a, k)) × P a

pub Makes-ret : {A : Type 0} {P : A → Type 0} {a : A} → P a → Makes P (ret a)
Makes-ret {a} h = record { run = λ n. (a, n, refl, h) }

pub Makes-bind :
    {A B : Type 0} {P : A → Type 0} {Q : B → Type 0} {m : Rewriting A} {f : A → Rewriting B}
    → Makes P m
    → ((a : A) → P a → Makes Q (f a))
    → Makes Q (m >>= f)
Makes-bind {m} {f} h g = record {
  run = λ n.
      let (a, k, e, p) = h.run n in let (b, j, e', q) = (g a p).run k in (b, j, rw (e, e') refl, q);
}

unfoldable pub MakesOf : Bool → (Tag → Bool) → List Child → Type 0
MakesOf b g [] = Unit
MakesOf b g ((a, m) ∷ cs) = Makes (Every b g) m × MakesOf b g cs

unfoldable pub is_none : List Child → Bool
is_none [] = true
is_none (c ∷ cs) = false

unfoldable pub node_tag : Node → Tag
node_tag on_empty = tag_empty
node_tag (on_docstring p v) = tag_docstring
node_tag (on_expr_integer p v) = tag_expr_integer
node_tag (on_expr_hexinteger p v) = tag_expr_hexinteger
node_tag (on_expr_float p v) = tag_expr_float
node_tag (on_expr_complex p v) = tag_expr_complex
node_tag (on_expr_character p v) = tag_expr_character
node_tag (on_expr_text p v) = tag_expr_text
node_tag (on_expr_variable p v) = tag_expr_variable
node_tag (on_expr_wildcard p v) = tag_expr_wildcard
node_tag (on_expr_combinator p nn v) = tag_expr_combinator
node_tag (on_expr_operator p nn v) = tag_expr_operator
node_tag (on_ast_path p nn) = tag_path
node_tag (on_ast_alias p x y) = tag_alias
node_tag (on_ast_rename p x ss) = tag_rename
node_tag (on_expr_tag p x y) = tag_expr_tag
node_tag (on_expr_list p ss) = tag_expr_list
node_tag (on_expr_list_tail p ss x) = tag_expr_list
node_tag (on_expr_tuple p ss) = tag_expr_tuple
node_tag (on_expr_application p ss) = tag_expr_application
node_tag (on_expr_match p ss x y) = tag_expr_match
node_tag (on_expr_block p ss) = tag_expr_block
node_tag (on_expr_lambda p ss) = tag_expr_lambda
node_tag (on_expr_let p ss x y) = tag_expr_let
node_tag (on_expr_try p x y) = tag_expr_try
node_tag (on_expr_throw p x) = tag_expr_throw
node_tag (on_expr_if p x y z) = tag_expr_if
node_tag (on_expr_statement p x y) = tag_expr_statement
node_tag (on_expr_do p x) = tag_expr_do
node_tag (on_direct_import p v) = tag_direct_import
node_tag (on_direct_using p ss) = tag_direct_using
node_tag (on_decl_namespace p nn ss) = tag_decl_namespace
node_tag (on_decl_data p x ss) = tag_decl_data
node_tag (on_decl_definition p x y z) = tag_decl_definition
node_tag (on_decl_value p x y z) = tag_decl_value
node_tag (on_decl_operator p x y z) = tag_decl_operator
node_tag (on_ast_wrapper p ss) = tag_wrapper

-- The members have rewritings that make trees of `g`; the patterns of a let are of `f`.
unfoldable pub Ready : Bool → (Tag → Bool) → (Tag → Bool) → Node → Type 0
Ready b f g on_empty = Unit
Ready b f g (on_docstring p v) = Unit
Ready b f g (on_expr_integer p v) = Unit
Ready b f g (on_expr_hexinteger p v) = Unit
Ready b f g (on_expr_float p v) = Unit
Ready b f g (on_expr_complex p v) = Unit
Ready b f g (on_expr_character p v) = Unit
Ready b f g (on_expr_text p v) = Unit
Ready b f g (on_expr_variable p v) = Unit
Ready b f g (on_expr_wildcard p v) = Unit
Ready b f g (on_expr_combinator p nn v) = Unit
Ready b f g (on_expr_operator p nn v) = Unit
Ready b f g (on_ast_path p nn) = Unit
Ready b f g (on_ast_alias p x y) =
    (is_inert x.0 ≡ true) × (is_inert y.0 ≡ true) × Makes (Every b g) x.1 × Makes (Every b g) y.1
Ready b f g (on_ast_rename p x ss) = Makes (Every b g) x.1 × MakesOf b g ss
Ready b f g (on_expr_tag p x y) = Makes (Every b g) x.1 × Makes (Every b g) y.1
Ready b f g (on_expr_list p ss) = MakesOf b g ss
Ready b f g (on_expr_list_tail p ss x) = MakesOf b g ss × Makes (Every b g) x.1
Ready b f g (on_expr_tuple p ss) = MakesOf b g ss
Ready b f g (on_expr_application p ss) = MakesOf b g ss × (is_none ss ≡ false)
Ready b f g (on_expr_match p ss x y) =
    MakesOf b g ss × Makes (Every b g) x.1 × Makes (Every b g) y.1
Ready b f g (on_expr_block p ss) = MakesOf b g ss
Ready b f g (on_expr_lambda p ss) = MakesOf b g ss
Ready b f g (on_expr_let p ss x y) =
    EveryOf true f (sources ss) × MakesOf true g ss × Makes (Every b g) x.1 × Makes (Every b g) y.1
Ready b f g (on_expr_try p x y) = Makes (Every b g) x.1 × Makes (Every b g) y.1
Ready b f g (on_expr_throw p x) = Makes (Every b g) x.1
Ready b f g (on_expr_if p x y z) =
    Makes (Every b g) x.1 × Makes (Every b g) y.1 × Makes (Every b g) z.1
Ready b f g (on_expr_statement p x y) = Makes (Every b g) x.1 × Makes (Every b g) y.1
Ready b f g (on_expr_do p x) = Makes (Every b g) x.1
Ready b f g (on_direct_import p v) = Unit
Ready b f g (on_direct_using p ss) = MakesOf b g ss
Ready b f g (on_decl_namespace p nn ss) = MakesOf b g ss
Ready b f g (on_decl_data p x ss) = (is_inert x.0 ≡ true) × Makes (Every b g) x.1 × MakesOf b g ss
Ready b f g (on_decl_definition p x y z) =
    Makes (Every b g) x.1 × Makes (Every b g) y.1 × Makes (Every b g) z.1
Ready b f g (on_decl_value p x y z) =
    Makes (Every b g) x.1 × Makes (Every b g) y.1 × Makes (Every b g) z.1
Ready b f g (on_decl_operator p x y z) =
    Makes (Every b g) x.1 × Makes (Every b g) y.1 × Makes (Every b g) z.1
Ready b f g (on_ast_wrapper p ss) = MakesOf b g ss
