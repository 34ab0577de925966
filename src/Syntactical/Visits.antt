-- ===== src/Syntactical/Visits.antt =====
-- `Visit` of src/transform.hpp for classes whose methods call no other, and the three of
-- src/syntactical.hpp that derive from it.
pub mod Docstrings
use egel.Prelude.{List, [], ◌∷◌, ◌++◌, Option, none, some}
use egel.Syntax.{
  Ast, Asts, nil, cons, empty, docstring, expr_integer, expr_hexinteger, expr_float, expr_complex,
  expr_character, expr_text, expr_variable, expr_wildcard, expr_combinator, expr_operator, ast_path,
  ast_alias, ast_rename, expr_tag, expr_list, expr_list_tail, expr_tuple, expr_application,
  expr_match, expr_block, expr_lambda, expr_let, expr_try, expr_throw, expr_if, expr_statement,
  expr_do, direct_import, direct_using, decl_namespace, decl_data, decl_definition, decl_value,
  decl_operator, ast_wrapper,
}

-- What the class does with its members at a node in place of visiting the members of the node.
unfoldable pub instead : {S : Type 0} → Option (S → S) → S → S → S
instead none s t = t
instead (some f) s t = f s

module _ {S : Type 0} (method : Ast → Option (S → S)) where
  unfoldable mutual
    pub visit : Ast → S → S
    visit empty s = instead (method empty) s (s)
    visit (docstring p v) s = instead (method (docstring p v)) s (s)
    visit (expr_integer p v) s = instead (method (expr_integer p v)) s (s)
    visit (expr_hexinteger p v) s = instead (method (expr_hexinteger p v)) s (s)
    visit (expr_float p v) s = instead (method (expr_float p v)) s (s)
    visit (expr_complex p v) s = instead (method (expr_complex p v)) s (s)
    visit (expr_character p v) s = instead (method (expr_character p v)) s (s)
    visit (expr_text p v) s = instead (method (expr_text p v)) s (s)
    visit (expr_variable p v) s = instead (method (expr_variable p v)) s (s)
    visit (expr_wildcard p v) s = instead (method (expr_wildcard p v)) s (s)
    visit (expr_combinator p nn v) s = instead (method (expr_combinator p nn v)) s (s)
    visit (expr_operator p nn v) s = instead (method (expr_operator p nn v)) s (s)
    visit (ast_path p nn) s = instead (method (ast_path p nn)) s (s)
    visit (ast_alias p x y) s = instead (method (ast_alias p x y)) s (visit y (visit x s))
    visit (ast_rename p x ss) s = instead (method (ast_rename p x ss)) s (visits ss (visit x s))
    visit (expr_tag p x y) s = instead (method (expr_tag p x y)) s (visit y (visit x s))
    visit (expr_list p ss) s = instead (method (expr_list p ss)) s (visits ss s)
    visit (expr_list_tail p ss x) s =
        instead (method (expr_list_tail p ss x)) s (visit x (visits ss s))
    visit (expr_tuple p ss) s = instead (method (expr_tuple p ss)) s (visits ss s)
    visit (expr_application p ss) s = instead (method (expr_application p ss)) s (visits ss s)
    visit (expr_match p ss x y) s =
        instead (method (expr_match p ss x y)) s (visit y (visit x (visits ss s)))
    visit (expr_block p ss) s = instead (method (expr_block p ss)) s (visits ss s)
    visit (expr_lambda p ss) s = instead (method (expr_lambda p ss)) s (visits ss s)
    visit (expr_let p ss x y) s =
        instead (method (expr_let p ss x y)) s (visit y (visit x (visits ss s)))
    visit (expr_try p x y) s = instead (method (expr_try p x y)) s (visit y (visit x s))
    visit (expr_throw p x) s = instead (method (expr_throw p x)) s (visit x s)
    visit (expr_if p x y z) s = instead (method (expr_if p x y z)) s (visit z (visit y (visit x s)))
    visit (expr_statement p x y) s = instead (method (expr_statement p x y)) s (visit y (visit x s))
    visit (expr_do p x) s = instead (method (expr_do p x)) s (visit x s)
    visit (direct_import p v) s = instead (method (direct_import p v)) s (s)
    visit (direct_using p ss) s = instead (method (direct_using p ss)) s (visits ss s)
    visit (decl_namespace p nn ss) s = instead (method (decl_namespace p nn ss)) s (visits ss s)
    visit (decl_data p x ss) s = instead (method (decl_data p x ss)) s (visits ss (visit x s))
    visit (decl_definition p x y z) s =
        instead (method (decl_definition p x y z)) s (visit z (visit y (visit x s)))
    visit (decl_value p x y z) s =
        instead (method (decl_value p x y z)) s (visit z (visit y (visit x s)))
    visit (decl_operator p x y z) s =
        instead (method (decl_operator p x y z)) s (visit z (visit y (visit x s)))
    visit (ast_wrapper p ss) s = instead (method (ast_wrapper p ss)) s (visits ss s)

    pub visits : Asts → S → S
    visits nil s = s
    visits (cons a aa) s = visits aa (visit a s)

-- `Imports`
unfoldable pub imports_method : Ast → Option (List Ast → List Ast)
imports_method (direct_import p i) = some (λ ii. ii ++ (direct_import p i ∷ []))
imports_method (decl_data p d nn) = some (λ ii. ii)
imports_method (decl_definition p n d e) = some (λ ii. ii)
imports_method (decl_value p n d e) = some (λ ii. ii)
imports_method (decl_operator p c d e) = some (λ ii. ii)
imports_method a = none

unfoldable pub imports : Ast → List Ast
imports a = visit imports_method a []

-- `Values`
unfoldable pub values_method : Ast → Option (List Ast → List Ast)
values_method (decl_value p n d e) = some (λ vv. vv ++ (decl_value p n d e ∷ []))
values_method (decl_data p d nn) = some (λ vv. vv)
values_method (decl_definition p n d e) = some (λ vv. vv)
values_method (decl_operator p c d e) = some (λ vv. vv)
values_method a = none

unfoldable pub values : Ast → List Ast
values a = visit values_method a []

-- `VisitDocstring`; before a docstring is met there is a null pointer.
unfoldable pub docstring_method : Ast → Option (Option Ast → Option Ast)
docstring_method (docstring p doc) = some (λ d. some (docstring p doc))
docstring_method (decl_data p d nn) = some (λ o. o)
docstring_method (decl_definition p n d e) = some (λ o. o)
docstring_method (decl_value p n d e) = some (λ o. o)
docstring_method (decl_operator p c d e) = some (λ o. o)
docstring_method a = none

unfoldable pub visit_docstring : Ast → Option Ast
visit_docstring a = visit docstring_method a none
