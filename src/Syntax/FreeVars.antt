-- ===== src/Syntax/FreeVars.antt =====
-- `FreeVars` of src/transform.hpp, with the methods that it takes from `Visit`: the variables that occur
-- outside of patterns, less those of the patterns that are met later.
pub mod Fate
pub mod Mentions
use egel.Prelude.{Bool, true, false, ◌||◌, List, [], ◌∷◌, if◌then◌else◌}
use egel.Prelude.Text.{Text, text_eq}
use egel.Syntax.{
  Ast, Asts, nil, cons, empty, docstring, expr_integer, expr_hexinteger, expr_float, expr_complex,
  expr_character, expr_text, expr_variable, expr_wildcard, expr_combinator, expr_operator, ast_path,
  ast_alias, ast_rename, expr_tag, expr_list, expr_list_tail, expr_tuple, expr_application,
  expr_match, expr_block, expr_lambda, expr_let, expr_try, expr_throw, expr_if, expr_statement,
  expr_do, direct_import, direct_using, decl_namespace, decl_data, decl_definition, decl_value,
  decl_operator, ast_wrapper,
}

pub data FreevarsState : Type 0 where
  freevars_insert freevars_remove : FreevarsState

-- The members of `FreeVars`; of a variable in the set, the text counts.
pub record FreeVars : Type 0 where
  pub state : FreevarsState
  pub fv : List Text

unfoldable pub has : Text → List Text → Bool
has v [] = false
has v (w ∷ s) = text_eq w v || has v s

unfoldable pub insert : Text → List Text → List Text
insert v s = if has v s then s else v ∷ s

unfoldable pub remove : Text → List Text → List Text
remove v [] = []
remove v (w ∷ s) = let r : List Text = remove v s in if text_eq w v then r else w ∷ r

abbrev pub set_state : FreevarsState → FreeVars → FreeVars
set_state t st = record st { state = t }

unfoldable pub visit_variable : FreevarsState → Text → FreeVars → FreeVars
visit_variable freevars_insert v st = record st { fv = insert v st.fv }
visit_variable freevars_remove v st = record st { fv = remove v st.fv }

unfoldable mutual
  pub visit : Ast → FreeVars → FreeVars
  visit empty st = st
  visit (docstring p v) st = st
  visit (expr_integer p v) st = st
  visit (expr_hexinteger p v) st = st
  visit (expr_float p v) st = st
  visit (expr_complex p v) st = st
  visit (expr_character p v) st = st
  visit (expr_text p v) st = st
  visit (expr_variable p v) st = visit_variable st.state v st
  visit (expr_wildcard p v) st = st
  visit (expr_combinator p nn v) st = st
  visit (expr_operator p nn v) st = st
  visit (ast_path p nn) st = st
  visit (ast_alias p x y) st = visit y (visit x st)
  visit (ast_rename p x ss) st = visits ss (visit x st)
  visit (expr_tag p x y) st = visit y (visit x st)
  visit (expr_list p ss) st = visits ss st
  visit (expr_list_tail p ss x) st = visit x (visits ss st)
  visit (expr_tuple p ss) st = visits ss st
  visit (expr_application p ss) st = visits ss st
  visit (expr_match p ss x y) st =
      set_state freevars_insert (visits ss (set_state freevars_remove (visit y (visit x st))))
  visit (expr_block p ss) st = visits ss st
  visit (expr_lambda p ss) st = visits ss st
  visit (expr_let p ss x y) st =
      set_state freevars_insert (visits ss (set_state freevars_remove (visit y (visit x st))))
  visit (expr_try p x y) st = visit y (visit x st)
  visit (expr_throw p x) st = visit x st
  visit (expr_if p x y z) st = visit z (visit y (visit x st))
  visit (expr_statement p x y) st = visit y (visit x st)
  visit (expr_do p x) st = visit x st
  visit (direct_import p v) st = st
  visit (direct_using p ss) st = visits ss st
  visit (decl_namespace p nn ss) st = visits ss st
  visit (decl_data p x ss) st = visits ss (visit x st)
  visit (decl_definition p x y z) st = visit z (visit y (visit x st))
  visit (decl_value p x y z) st = visit z (visit y (visit x st))
  visit (decl_operator p x y z) st = visit z (visit y (visit x st))
  visit (ast_wrapper p ss) st = visits ss st

  pub visits : Asts → FreeVars → FreeVars
  visits nil st = st
  visits (cons a aa) st = visits aa (visit a st)

unfoldable pub freevars : Ast → List Text
freevars a = (visit a (record { state = freevars_insert; fv = [] })).fv
