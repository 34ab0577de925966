-- ===== src/Syntax/Desugar/Every.antt =====
-- What the trees have to be like for src/desugar.hpp, and what it makes of them.
use egel.Prelude.{Bool, true, false, ◌&&◌, ◌≡◌, refl}
use egel.Syntax.{
  Ast, Asts, nil, cons, empty, docstring, expr_integer, expr_hexinteger, expr_float, expr_complex,
  expr_character, expr_text, expr_variable, expr_wildcard, expr_combinator, expr_operator, ast_path,
  ast_alias, ast_rename, expr_tag, expr_list, expr_list_tail, expr_tuple, expr_application,
  expr_match, expr_block, expr_lambda, expr_let, expr_try, expr_throw, expr_if, expr_statement,
  expr_do, direct_import, direct_using, decl_namespace, decl_data, decl_definition, decl_value,
  decl_operator, ast_wrapper,
}
use egel.Syntax.{
  Tag, tag_empty, tag_docstring, tag_expr_integer, tag_expr_hexinteger, tag_expr_float,
  tag_expr_complex, tag_expr_character, tag_expr_text, tag_expr_variable, tag_expr_wildcard,
  tag_expr_combinator, tag_expr_operator, tag_path, tag_alias, tag_rename, tag_expr_tag,
  tag_expr_list, tag_expr_tuple, tag_expr_application, tag_expr_block, tag_expr_match, tag_expr_try,
  tag_expr_throw, tag_expr_lambda, tag_expr_let, tag_expr_if, tag_expr_statement, tag_expr_do,
  tag_direct_import, tag_direct_using, tag_decl_namespace, tag_decl_data, tag_decl_definition,
  tag_decl_operator, tag_wrapper, tag_decl_value,
}
use egel.Syntax.Rewrite.{}

-- What the parser puts into an alias, and before the members of a data declaration.
unfoldable pub is_inert : Ast → Bool
is_inert empty = true
is_inert (docstring p v) = true
is_inert (ast_path p nn) = true
is_inert (expr_combinator p nn v) = true
is_inert (expr_operator p nn v) = true
is_inert (ast_alias p x y) = is_inert x && is_inert y
is_inert _ = false

unfoldable pub is_nil : Asts → Bool
is_nil nil = true
is_nil (cons a aa) = false

-- A pattern of a let binds no further patterns.
unfoldable pub flat : Tag → Bool
flat tag_expr_let = false
flat tag_expr_statement = false
flat t = true

unfoldable pub fits : Bool → (Tag → Bool) → Tag → Bool
fits false f t = f t
fits true f t = f t && flat t

pub flat-fits : (b : Bool) (t : Tag) → flat t ≡ true → fits b (λ t. true) t ≡ true
unfolding fits
flat-fits true t h = h
flat-fits false t h = refl

-- Every node of a tree has a tag that fits; the sides of an alias and the text of a data declaration
-- are inert, and an application has a member. The Boolean tells whether the tree is in a pattern of a
-- let.
unfoldable mutual
  pub Every : Bool → (Tag → Bool) → Ast → Type 0
  Every b f empty = fits b f tag_empty ≡ true
  Every b f (docstring p v) = (fits b f tag_docstring ≡ true)
  Every b f (expr_integer p v) = (fits b f tag_expr_integer ≡ true)
  Every b f (expr_hexinteger p v) = (fits b f tag_expr_hexinteger ≡ true)
  Every b f (expr_float p v) = (fits b f tag_expr_float ≡ true)
  Every b f (expr_complex p v) = (fits b f tag_expr_complex ≡ true)
  Every b f (expr_character p v) = (fits b f tag_expr_character ≡ true)
  Every b f (expr_text p v) = (fits b f tag_expr_text ≡ true)
  Every b f (expr_variable p v) = (fits b f tag_expr_variable ≡ true)
  Every b f (expr_wildcard p v) = (fits b f tag_expr_wildcard ≡ true)
  Every b f (expr_combinator p nn v) = (fits b f tag_expr_combinator ≡ true)
  Every b f (expr_operator p nn v) = (fits b f tag_expr_operator ≡ true)
  Every b f (ast_path p nn) = (fits b f tag_path ≡ true)
  Every b f (ast_alias p x y) =
      (fits b f tag_alias ≡ true) × (is_inert x ≡ true) × (is_inert y ≡ true)
  Every b f (ast_rename p x ss) = (fits b f tag_rename ≡ true) × Every b f x × EveryOf b f ss
  Every b f (expr_tag p x y) = (fits b f tag_expr_tag ≡ true) × Every b f x × Every b f y
  Every b f (expr_list p ss) = (fits b f tag_expr_list ≡ true) × EveryOf b f ss
  Every b f (expr_list_tail p ss x) = (fits b f tag_expr_list ≡ true) × EveryOf b f ss × Every b f x
  Every b f (expr_tuple p ss) = (fits b f tag_expr_tuple ≡ true) × EveryOf b f ss
  Every b f (expr_application p ss) =
      (fits b f tag_expr_application ≡ true) × EveryOf b f ss × (is_nil ss ≡ false)
  Every b f (expr_match p ss x y) =
      (fits b f tag_expr_match ≡ true) × EveryOf b f ss × Every b f x × Every b f y
  Every b f (expr_block p ss) = (fits b f tag_expr_block ≡ true) × EveryOf b f ss
  Every b f (expr_lambda p ss) = (fits b f tag_expr_lambda ≡ true) × EveryOf b f ss
  Every b f (expr_let p ss x y) =
      (fits b f tag_expr_let ≡ true) × EveryOf true f ss × Every b f x × Every b f y
  Every b f (expr_try p x y) = (fits b f tag_expr_try ≡ true) × Every b f x × Every b f y
  Every b f (expr_throw p x) = (fits b f tag_expr_throw ≡ true) × Every b f x
  Every b f (expr_if p x y z) =
      (fits b f tag_expr_if ≡ true) × Every b f x × Every b f y × Every b f z
  Every b f (expr_statement p x y) =
      (fits b f tag_expr_statement ≡ true) × Every b f x × Every b f y
  Every b f (expr_do p x) = (fits b f tag_expr_do ≡ true) × Every b f x
  Every b f (direct_import p v) = (fits b f tag_direct_import ≡ true)
  Every b f (direct_using p ss) = (fits b f tag_direct_using ≡ true) × EveryOf b f ss
  Every b f (decl_namespace p nn ss) = (fits b f tag_decl_namespace ≡ true) × EveryOf b f ss
  Every b f (decl_data p x ss) =
      (fits b f tag_decl_data ≡ true) × (is_inert x ≡ true) × EveryOf b f ss
  Every b f (decl_definition p x y z) =
      (fits b f tag_decl_definition ≡ true) × Every b f x × Every b f y × Every b f z
  Every b f (decl_value p x y z) =
      (fits b f tag_decl_value ≡ true) × Every b f x × Every b f y × Every b f z
  Every b f (decl_operator p x y z) =
      (fits b f tag_decl_operator ≡ true) × Every b f x × Every b f y × Every b f z
  Every b f (ast_wrapper p ss) = (fits b f tag_wrapper ≡ true) × EveryOf b f ss

  pub EveryOf : Bool → (Tag → Bool) → Asts → Type 0
  EveryOf b f nil = Unit
  EveryOf b f (cons a aa) = Every b f a × EveryOf b f aa
