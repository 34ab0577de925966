-- ===== src/Syntax.antt =====
-- The syntax trees of src/ast.hpp, with a constructor for each constructor of a class of nodes, and
-- the text of a combinator.
pub mod Rewrite
pub mod FreeVars
pub mod Desugar
use egel.Prelude.{ℕ, Bool, true, false, List, [], ◌∷◌, ◌++◌}
use egel.Prelude.Text.{Text, codes}
use egel.Reader.{Position}

-- `ast_tag_t`.
pub data Tag : Type 0 where
  tag_empty tag_docstring tag_expr_integer tag_expr_hexinteger tag_expr_float : Tag
  tag_expr_complex tag_expr_character tag_expr_text tag_expr_variable tag_expr_wildcard : Tag
  tag_expr_combinator tag_expr_operator tag_path tag_alias tag_rename tag_expr_tag : Tag
  tag_expr_list tag_expr_tuple tag_expr_application tag_expr_block tag_expr_match : Tag
  tag_expr_try tag_expr_throw tag_expr_lambda tag_expr_let tag_expr_if : Tag
  tag_expr_statement tag_expr_do tag_direct_import tag_direct_using tag_decl_namespace : Tag
  tag_decl_data tag_decl_definition tag_decl_operator tag_wrapper tag_decl_value : Tag

-- A vector of trees is a type of its own.
mutual
  pub data Ast : Type 0 where
    empty : Ast
    docstring : Position → Text → Ast
    expr_integer : Position → Text → Ast
    expr_hexinteger : Position → Text → Ast
    expr_float : Position → Text → Ast
    expr_complex : Position → Text → Ast
    expr_character : Position → Text → Ast
    expr_text : Position → Text → Ast
    expr_variable : Position → Text → Ast
    expr_wildcard : Position → Text → Ast
    expr_combinator : Position → List Text → Text → Ast
    expr_operator : Position → List Text → Text → Ast
    ast_path : Position → List Text → Ast
    ast_alias : Position → Ast → Ast → Ast
    ast_rename : Position → Ast → Asts → Ast
    expr_tag : Position → Ast → Ast → Ast
    expr_list : Position → Asts → Ast
    expr_list_tail : Position → Asts → Ast → Ast
    expr_tuple : Position → Asts → Ast
    expr_application : Position → Asts → Ast
    expr_match : Position → Asts → Ast → Ast → Ast
    expr_block : Position → Asts → Ast
    expr_lambda : Position → Asts → Ast
    expr_let : Position → Asts → Ast → Ast → Ast
    expr_try : Position → Ast → Ast → Ast
    expr_throw : Position → Ast → Ast
    expr_if : Position → Ast → Ast → Ast → Ast
    expr_statement : Position → Ast → Ast → Ast
    expr_do : Position → Ast → Ast
    direct_import : Position → Text → Ast
    direct_using : Position → Asts → Ast
    decl_namespace : Position → List Text → Asts → Ast
    decl_data : Position → Ast → Asts → Ast
    decl_definition : Position → Ast → Ast → Ast → Ast
    decl_value : Position → Ast → Ast → Ast → Ast
    decl_operator : Position → Ast → Ast → Ast → Ast
    ast_wrapper : Position → Asts → Ast

  pub data Asts : Type 0 where
    nil : Asts
    cons : Ast → Asts → Asts

unfoldable pub tag : Ast → Tag
tag empty = tag_empty
tag (docstring _ _) = tag_docstring
tag (expr_integer _ _) = tag_expr_integer
tag (expr_hexinteger _ _) = tag_expr_hexinteger
tag (expr_float _ _) = tag_expr_float
tag (expr_complex _ _) = tag_expr_complex
tag (expr_character _ _) = tag_expr_character
tag (expr_text _ _) = tag_expr_text
tag (expr_variable _ _) = tag_expr_variable
tag (expr_wildcard _ _) = tag_expr_wildcard
tag (expr_combinator _ _ _) = tag_expr_combinator
tag (expr_operator _ _ _) = tag_expr_operator
tag (ast_path _ _) = tag_path
tag (ast_alias _ _ _) = tag_alias
tag (ast_rename _ _ _) = tag_rename
tag (expr_tag _ _ _) = tag_expr_tag
tag (expr_list _ _) = tag_expr_list
tag (expr_list_tail _ _ _) = tag_expr_list
tag (expr_tuple _ _) = tag_expr_tuple
tag (expr_application _ _) = tag_expr_application
tag (expr_match _ _ _ _) = tag_expr_match
tag (expr_block _ _) = tag_expr_block
tag (expr_lambda _ _) = tag_expr_lambda
tag (expr_let _ _ _ _) = tag_expr_let
tag (expr_try _ _ _) = tag_expr_try
tag (expr_throw _ _) = tag_expr_throw
tag (expr_if _ _ _ _) = tag_expr_if
tag (expr_statement _ _ _) = tag_expr_statement
tag (expr_do _ _) = tag_expr_do
tag (direct_import _ _) = tag_direct_import
tag (direct_using _ _) = tag_direct_using
tag (decl_namespace _ _ _) = tag_decl_namespace
tag (decl_data _ _ _) = tag_decl_data
tag (decl_definition _ _ _ _) = tag_decl_definition
tag (decl_value _ _ _ _) = tag_decl_value
tag (decl_operator _ _ _ _) = tag_decl_operator
tag (ast_wrapper _ _) = tag_wrapper

unfoldable pub position : Ast → Position
position empty = record { resource = []; row = 0; column = 0 }
position (docstring p _) = p
position (expr_integer p _) = p
position (expr_hexinteger p _) = p
position (expr_float p _) = p
position (expr_complex p _) = p
position (expr_character p _) = p
position (expr_text p _) = p
position (expr_variable p _) = p
position (expr_wildcard p _) = p
position (expr_combinator p _ _) = p
position (expr_operator p _ _) = p
position (ast_path p _) = p
position (ast_alias p _ _) = p
position (ast_rename p _ _) = p
position (expr_tag p _ _) = p
position (expr_list p _) = p
position (expr_list_tail p _ _) = p
position (expr_tuple p _) = p
position (expr_application p _) = p
position (expr_match p _ _ _) = p
position (expr_block p _) = p
position (expr_lambda p _) = p
position (expr_let p _ _ _) = p
position (expr_try p _ _) = p
position (expr_throw p _) = p
position (expr_if p _ _ _) = p
position (expr_statement p _ _) = p
position (expr_do p _) = p
position (direct_import p _) = p
position (direct_using p _) = p
position (decl_namespace p _ _) = p
position (decl_data p _ _) = p
position (decl_definition p _ _ _) = p
position (decl_value p _ _ _) = p
position (decl_operator p _ _ _) = p
position (ast_wrapper p _) = p

-- `to_text` of a combinator.
unfoldable pub combinator_text : List Text → Text → Text
combinator_text [] c = c
combinator_text (p ∷ nn) c = p ++ codes "::" ++ combinator_text nn c
