-- ===== src/Semantical/Identify.antt =====
-- `RewriteIdentify` of src/semantical.hpp, with the methods that it takes from `Rewrite` of
-- src/transform.hpp: it replaces names by what they stand for in the scopes, gives the variables new
-- names, and collects the declarations.
pub mod Formed
pub mod Enter
pub mod Scopes
pub mod Yields
pub mod Renames
pub mod Sources
use egel.Prelude.{ℕ, suc, ◌+◌, Bool, true, false, List, [], ◌∷◌, ◌++◌, length}
use egel.Prelude.Text.{Text, codes}
use egel.Prelude.Units.{drop_units}
use egel.Reader.{Position}
use egel.Syntax.{
  Ast, Asts, nil, cons, empty, position, combinator_text, docstring, expr_integer, expr_hexinteger,
  expr_float, expr_complex, expr_character, expr_text, expr_variable, expr_wildcard,
  expr_combinator, expr_operator, ast_path, ast_alias, ast_rename, expr_tag, expr_list,
  expr_list_tail, expr_tuple, expr_application, expr_match, expr_block, expr_lambda, expr_let,
  expr_try, expr_throw, expr_if, expr_statement, expr_do, direct_import, direct_using,
  decl_namespace, decl_data, decl_definition, decl_value, decl_operator, ast_wrapper,
}
use egel.Syntax.Desugar.{unicode_from_int}
use egel.Environment.{
  Scope, get, get_global, get_namespace, enter_scope, leave_scope, enter_namespace,
}
use egel.Environment
use egel.Semantical.{path, qualified}

pub data IdentifyState : Type 0 where
  state_identify_use state_identify_declare : IdentifyState

-- The members of `RewriteIdentify`.
pub record Identifying : Type 0 where
  pub identify_state : IdentifyState
  pub scope : Scope
  pub declarations : List Ast
  pub counter : ℕ

-- A result, one of the errors, a call through a null pointer, or a cast of a node to a class that it is
-- not of. `clash` is the error of entering a namespace, and `rendered` the text of a node that is no
-- name, which is not modelled.
pub data Identified {ℓ} (A : Type ℓ) : Type ℓ where
  ok : A → Identified A
  redeclaration : Position → Text → Identified A
  undeclared : Position → Text → Identified A
  no_target : Position → Text → Identified A
  clash : Text → Identified A
  null_pointer : Identified A
  bad_cast : Identified A
  rendered : Identified A

infixl 5 ◌>>=◌
abbrev pub ◌>>=◌ {ℓ κ} :
    {A : Type ℓ} {B : Type κ} → Identified A → (A → Identified B) → Identified B
ok a >>= f = f a
redeclaration p k >>= f = redeclaration p k
undeclared p k >>= f = undeclared p k
no_target p k >>= f = no_target p k
clash k >>= f = clash k
null_pointer >>= f = null_pointer
bad_cast >>= f = bad_cast
rendered >>= f = rendered

abbrev pub Run : Type 0 → Type 0
Run A = Identifying → Identified (A × Identifying)

abbrev pub done : {A : Type 0} → A → Run A
done a st = ok (a, st)

abbrev pub set_identify_state : IdentifyState → Identifying → Identifying
set_identify_state t st = record st { identify_state = t }

-- An error on a declaration is thrown with a position and a name.
unfoldable pub caught : Position → Text → Environment.Result Scope → Identified Scope
caught p k (Environment.ok s) = ok s
caught p k (Environment.redeclaration j) = redeclaration p k
caught p k Environment.null_pointer = null_pointer

unfoldable pub uncaught : Environment.Result Scope → Identified Scope
uncaught (Environment.ok s) = ok s
uncaught (Environment.redeclaration j) = clash j
uncaught Environment.null_pointer = null_pointer

unfoldable pub declare : Position → Text → Text → Identifying → Identified Identifying
declare p k v st = do
  s ← caught p k (Environment.declare k v st.scope)
  ok (record st { scope = s })

-- `get`; a name that is not declared has the empty text.
unfoldable pub answer : Position → Text → Text → Identified Text
answer p k [] = undeclared p k
answer p k (c ∷ v) = ok (c ∷ v)

unfoldable pub lookup : Position → Text → Scope → Identified Text
lookup p k s = answer p k (get k s)

unfoldable pub enter : Identifying → Identified Identifying
enter st = do s ← uncaught (enter_scope st.scope); ok (record st { scope = s })

unfoldable pub leave : Identifying → Identified Identifying
leave st = do s ← uncaught (leave_scope st.scope); ok (record st { scope = s })

unfoldable pub enter_space : List Text → Identifying → Identified Identifying
enter_space nn st = do
  s ← uncaught (enter_namespace (path nn) st.scope)
  ok (record st { scope = s })

unfoldable pub push_declaration : Ast → Run Ast
push_declaration a st = ok (a, record st { declarations = st.declarations ++ (a ∷ []) })

unfoldable pub identify_variable : Position → Text → Run Ast
identify_variable p v st = elim st.identify_state [
  | state_identify_use ↦ lookup p v st.scope >>= λ w. ok (expr_variable p w, st)
  | state_identify_declare ↦
      declare p v (codes "V_" ++ unicode_from_int st.counter)
        (record st { counter = suc st.counter })
      >>= λ st'. ok (expr_variable p (codes "V_" ++ unicode_from_int st.counter), st')
]

unfoldable pub identify_name : Position → List Text → Text → Run Text
identify_name p nn t st = lookup p (qualified nn t) st.scope >>= λ v. ok (v, st)

-- A head that is no alias gets the empty path on its left.
unfoldable pub rename_head : Ast → Ast
rename_head (ast_alias p x y) = ast_alias p x y
rename_head n = ast_alias (position n) (ast_path (position n) []) n

unfoldable pub rename_paths : Ast → Identified (List Text × List Text)
rename_paths (ast_alias p (ast_path q uu0) (ast_path r uu1)) = ok (uu0, uu1)
rename_paths n = bad_cast

-- All that the scope has in a namespace, without the path and the two colons.
unfoldable pub all_names : Position → ℕ → List Text → Asts
all_names p l [] = nil
all_names p l (d ∷ dd) = cons (expr_combinator p [] (drop_units l d)) (all_names p l dd)

unfoldable pub rename_names : Position → List Text → Scope → Asts → Asts
rename_names p uu s nil = all_names p (length (path uu) + 2) (get_namespace (path uu) s)
rename_names p uu s (cons n nn) = cons n nn

unfoldable pub rename_aliases : Position → Asts → Asts
rename_aliases p nil = nil
rename_aliases p (cons (ast_alias q x y) nn) = cons (ast_alias q x y) (rename_aliases p nn)
rename_aliases p (cons n nn) = cons (ast_alias p n n) (rename_aliases p nn)

unfoldable pub name_text : Ast → Identified Text
name_text (expr_combinator p nn n) = ok (combinator_text nn n)
name_text (expr_operator p nn n) = ok (combinator_text nn n)
name_text a = rendered

-- The target of an alias has to be declared.
unfoldable pub target : Position → Text → Text → Identified Text
target p k [] = no_target p k
target p k (c ∷ v) = ok (c ∷ v)

unfoldable pub rename_one :
    Position → List Text → List Text → Ast → Identifying → Identified Identifying
rename_one p uu0 uu1 (ast_alias q x y) st = do
  a0 ← name_text x
  a1 ← name_text y
  _ ← target p (qualified uu1 a1) (get_global (qualified uu1 a1) st.scope)
  declare p (qualified uu0 a0) (qualified uu1 a1) st
rename_one p uu0 uu1 a st = bad_cast

unfoldable pub rename_loop :
    Position → List Text → List Text → Asts → Identifying → Identified Identifying
rename_loop p uu0 uu1 nil st = ok st
rename_loop p uu0 uu1 (cons a aa) st = rename_one p uu0 uu1 a st >>= rename_loop p uu0 uu1 aa

unfoldable pub identify_rename : Position → Ast → Asts → Run Ast
identify_rename p n nn st = do
  (uu0, uu1) ← rename_paths (rename_head n)
  st' ← rename_loop p uu0 uu1 (rename_aliases p (rename_names p uu1 st.scope nn)) st
  ok (ast_rename p (rename_head n) (rename_aliases p (rename_names p uu1 st.scope nn)), st')

unfoldable mutual
  pub rewrite : Ast → Run Ast
  rewrite empty st = done empty st
  rewrite (docstring p v) st = done (docstring p v) st
  rewrite (expr_integer p v) st = done (expr_integer p v) st
  rewrite (expr_hexinteger p v) st = done (expr_hexinteger p v) st
  rewrite (expr_float p v) st = done (expr_float p v) st
  rewrite (expr_complex p v) st = done (expr_complex p v) st
  rewrite (expr_character p v) st = done (expr_character p v) st
  rewrite (expr_text p v) st = done (expr_text p v) st
  rewrite (expr_variable p v) st = identify_variable p v st
  rewrite (expr_wildcard p v) st = done (expr_wildcard p v) st
  rewrite (expr_combinator p nn v) st =
      identify_name p nn v st >>= λ (w, st). ok (expr_combinator p [] w, st)
  rewrite (expr_operator p nn v) st =
      identify_name p nn v st >>= λ (w, st). ok (expr_operator p [] w, st)
  rewrite (ast_path p nn) st = done (ast_path p nn) st
  rewrite (ast_alias p x y) st =
      rewrite x st >>= λ (_, st). rewrite y st >>= λ (_, st). ok (ast_alias p x y, st)
  rewrite (ast_rename p x ss) st = identify_rename p x ss st
  rewrite (expr_tag p x y) st =
      rewrite x (set_identify_state state_identify_declare st) >>= λ (x0, st).
      rewrite y (set_identify_state state_identify_use st) >>= λ (y0, st).
      ok (expr_tag p x0 y0, set_identify_state state_identify_declare st)
  rewrite (expr_list p ss) st = rewrites ss st >>= λ (ss0, st). ok (expr_list p ss0, st)
  rewrite (expr_list_tail p ss x) st =
      rewrites ss st >>= λ (ss0, st). rewrite x st >>= λ (x0, st). ok (expr_list_tail p ss0 x0, st)
  rewrite (expr_tuple p ss) st = rewrites ss st >>= λ (ss0, st). ok (expr_tuple p ss0, st)
  rewrite (expr_application p ss) st =
      rewrites ss st >>= λ (ss0, st). ok (expr_application p ss0, st)
  rewrite (expr_match p ss x y) st = enter st >>= λ st.
      rewrites ss (set_identify_state state_identify_declare st) >>= λ (ss0, st).
      rewrite x (set_identify_state state_identify_use st) >>= λ (x0, st).
      rewrite y (set_identify_state state_identify_use st) >>= λ (y0, st).
      leave st >>= λ st. ok (expr_match p ss0 x0 y0, st)
  rewrite (expr_block p ss) st = rewrites ss st >>= λ (ss0, st). ok (expr_block p ss0, st)
  rewrite (expr_lambda p ss) st = rewrites ss st >>= λ (ss0, st). ok (expr_lambda p ss0, st)
  rewrite (expr_let p ss x y) st =
      rewrite x (set_identify_state state_identify_use st) >>= λ (x0, st). enter st >>= λ st.
      rewrites ss (set_identify_state state_identify_declare st) >>= λ (ss0, st).
      rewrite y (set_identify_state state_identify_use st) >>= λ (y0, st).
      leave st >>= λ st. ok (expr_let p ss0 x0 y0, st)
  rewrite (expr_try p x y) st =
      rewrite x st >>= λ (x0, st). rewrite y st >>= λ (y0, st). ok (expr_try p x0 y0, st)
  rewrite (expr_throw p x) st = rewrite x st >>= λ (x0, st). ok (expr_throw p x0, st)
  rewrite (expr_if p x y z) st = rewrite x st >>= λ (x0, st).
      rewrite y st >>= λ (y0, st). rewrite z st >>= λ (z0, st). ok (expr_if p x0 y0 z0, st)
  rewrite (expr_statement p x y) st =
      rewrite x st >>= λ (x0, st). rewrite y st >>= λ (y0, st). ok (expr_statement p x0 y0, st)
  rewrite (expr_do p x) st = rewrite x st >>= λ (x0, st). ok (expr_do p x0, st)
  rewrite (direct_import p v) st = done (direct_import p v) st
  rewrite (direct_using p ss) st = rewrites ss st >>= λ (ss0, st). ok (direct_using p ss0, st)
  rewrite (decl_namespace p nn ss) st = enter_space nn st >>= λ st.
      rewrites ss st >>= λ (ss0, st). leave st >>= λ st. ok (decl_namespace p nn ss0, st)
  rewrite (decl_data p x ss) st =
      rewrites ss (set_identify_state state_identify_use st) >>= λ (ss0, st).
      push_declaration (decl_data p x ss0) st
  rewrite (decl_definition p x y z) st =
      rewrite x (set_identify_state state_identify_use st) >>= λ (x0, st).
      rewrite z st >>= λ (z0, st). push_declaration (decl_definition p x0 y z0) st
  rewrite (decl_value p x y z) st =
      rewrite x (set_identify_state state_identify_use st) >>= λ (x0, st).
      rewrite z st >>= λ (z0, st). push_declaration (decl_value p x0 y z0) st
  rewrite (decl_operator p x y z) st =
      rewrite x (set_identify_state state_identify_use st) >>= λ (x0, st).
      rewrite z st >>= λ (z0, st). push_declaration (decl_operator p x0 y z0) st
  rewrite (ast_wrapper p ss) st = rewrites ss st >>= λ (ss0, st). ok (ast_wrapper p ss0, st)

  pub rewrites : Asts → Run Asts
  rewrites nil st = done nil st
  rewrites (cons a aa) st =
      rewrite a st >>= λ (b, st). rewrites aa st >>= λ (bb, st). ok (cons b bb, st)

unfoldable pub to_asts : List Ast → Asts
to_asts [] = nil
to_asts (a ∷ aa) = cons a (to_asts aa)

unfoldable pub identify : Scope → Ast → Identified Ast
identify env a = do
  s ← uncaught (enter_scope env)
  (_, st) ←
      rewrite a
        (record { identify_state = state_identify_use; scope = s; declarations = []; counter = 0 })
  ok (ast_wrapper (position a) (to_asts st.declarations))
