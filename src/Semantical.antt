-- ===== src/Semantical.antt =====
-- `VisitDeclare` of src/semantical.hpp, with the methods that it takes from `Visit` of
-- src/transform.hpp: it declares what a module defines in the global scope.
pub mod Declared
pub mod Fresh
pub mod Identify
use egel.Prelude.{Bool, true, false, List, [], ◌∷◌, ◌++◌}
use egel.Prelude.Text.{Text, codes}
use egel.Reader.{Position}
use egel.Syntax.{
  Ast, Asts, nil, cons, empty, docstring, expr_integer, expr_hexinteger, expr_float, expr_complex,
  expr_character, expr_text, expr_variable, expr_wildcard, expr_combinator, expr_operator, ast_path,
  ast_alias, ast_rename, expr_tag, expr_list, expr_list_tail, expr_tuple, expr_application,
  expr_match, expr_block, expr_lambda, expr_let, expr_try, expr_throw, expr_if, expr_statement,
  expr_do, direct_import, direct_using, decl_namespace, decl_data, decl_definition, decl_value,
  decl_operator, ast_wrapper,
}
use egel.Environment.{Scope, declare_global}
use egel.Environment

-- The joined parts of a name, `VM::path`.
unfoldable pub path_loop : Text → List Text → Text
path_loop s [] = s
path_loop s (n ∷ nn) = path_loop (s ++ (codes "::" ++ n)) nn

unfoldable pub path : List Text → Text
path [] = []
path (n ∷ nn) = path_loop n nn

unfoldable pub qualified : List Text → Text → Text
qualified nn n = elim (path nn) [ [] ↦ n | c ∷ s ↦ (c ∷ s) ++ (codes "::" ++ n) ]

-- A result, the `ErrorSemantical` on a redeclaration with its position and name, or a call through a
-- null pointer.
pub data Visited {ℓ} (A : Type ℓ) : Type ℓ where
  ok : A → Visited A
  redeclaration : Position → Text → Visited A
  null_pointer : Visited A

infixl 5 ◌>>=◌
abbrev pub ◌>>=◌ {ℓ κ} : {A : Type ℓ} {B : Type κ} → Visited A → (A → Visited B) → Visited B
ok a >>= f = f a
redeclaration p k >>= f = redeclaration p k
null_pointer >>= f = null_pointer

-- The members of `VisitDeclare`.
pub record Declaring : Type 0 where
  pub spaces : Scope
  pub path : List Text

abbrev pub Visiting : Type 0
Visiting = Declaring → Visited Declaring

-- One visit after another.
infixr 5 ◌▹◌
unfoldable pub ◌▹◌ : Visiting → Visiting → Visiting
(m ▹ k) st = m st >>= k

-- The error of the scope is caught, and thrown with the position and the name.
unfoldable pub caught : Position → Text → Environment.Result Scope → Visited Scope
caught p n (Environment.ok s) = ok s
caught p n (Environment.redeclaration k) = redeclaration p n
caught p n Environment.null_pointer = null_pointer

unfoldable pub visit_combinator : Position → List Text → Text → Visiting
visit_combinator p nn n st = do
  s ← caught p n (declare_global (qualified (st.path ++ nn) n) st.spaces)
  ok (record st { spaces = s })

-- What lies in a namespace is visited with its path, which is then set back.
unfoldable pub within : List Text → Visiting → Visiting
within nn m st = do st' ← m (record st { path = st.path ++ nn }); ok (record st' { path = st.path })

unfoldable mutual
  pub visit : Ast → Visiting
  visit empty = ok
  visit (docstring p v) = ok
  visit (expr_integer p v) = ok
  visit (expr_hexinteger p v) = ok
  visit (expr_float p v) = ok
  visit (expr_complex p v) = ok
  visit (expr_character p v) = ok
  visit (expr_text p v) = ok
  visit (expr_variable p v) = ok
  visit (expr_wildcard p v) = ok
  visit (expr_combinator p nn v) = visit_combinator p nn v
  visit (expr_operator p nn v) = ok
  visit (ast_path p nn) = ok
  visit (ast_alias p x y) = visit x ▹ visit y
  visit (ast_rename p x ss) = visit x ▹ visits ss
  visit (expr_tag p x y) = visit x ▹ visit y
  visit (expr_list p ss) = visits ss
  visit (expr_list_tail p ss x) = visits ss ▹ visit x
  visit (expr_tuple p ss) = visits ss
  visit (expr_application p ss) = visits ss
  visit (expr_match p ss x y) = visits ss ▹ visit x ▹ visit y
  visit (expr_block p ss) = visits ss
  visit (expr_lambda p ss) = visits ss
  visit (expr_let p ss x y) = visits ss ▹ visit x ▹ visit y
  visit (expr_try p x y) = visit x ▹ visit y
  visit (expr_throw p x) = visit x
  visit (expr_if p x y z) = visit x ▹ visit y ▹ visit z
  visit (expr_statement p x y) = visit x ▹ visit y
  visit (expr_do p x) = visit x
  visit (direct_import p v) = ok
  visit (direct_using p ss) = ok
  visit (decl_namespace p nn ss) = within nn (visits ss)
  visit (decl_data p x ss) = visits ss
  visit (decl_definition p x y z) = visit x
  visit (decl_value p x y z) = visit x
  visit (decl_operator p x y z) = visit x
  visit (ast_wrapper p ss) = visits ss

  pub visits : Asts → Visiting
  visits nil = ok
  visits (cons a aa) = visit a ▹ visits aa

unfoldable pub declare : Scope → Ast → Visited Scope
declare env a = do st ← visit a (record { spaces = env; path = [] }); ok st.spaces
