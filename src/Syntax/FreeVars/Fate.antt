-- ===== src/Syntax/FreeVars/Fate.antt =====
-- The mentions of a variable in a tree and in its patterns, for `FreeVars` of src/transform.hpp.
use egel.Prelude.{Option, none, some, if◌then◌else◌}
use egel.Prelude.Text.{Text, text_eq}
use egel.Syntax.{
  Ast, Asts, nil, cons, empty, docstring, expr_integer, expr_hexinteger, expr_float, expr_complex,
  expr_character, expr_text, expr_variable, expr_wildcard, expr_combinator, expr_operator, ast_path,
  ast_alias, ast_rename, expr_tag, expr_list, expr_list_tail, expr_tuple, expr_application,
  expr_match, expr_block, expr_lambda, expr_let, expr_try, expr_throw, expr_if, expr_statement,
  expr_do, direct_import, direct_using, decl_namespace, decl_data, decl_definition, decl_value,
  decl_operator, ast_wrapper,
}
use egel.Syntax.FreeVars.{FreevarsState, freevars_insert, freevars_remove}

-- The later of two mentions counts.
abbrev pub later {ℓ} : {A : Type ℓ} → Option A → Option A → Option A
later o (some a) = some a
later o none = o

-- Where the last mention of a variable in a tree stands, in the order in which the tree is visited:
-- in a pattern, which is removed, or outside of the patterns. The patterns of a match or a let come
-- last; the state tells where the tree itself stands.
unfoldable mutual
  pub fate : FreevarsState → Text → Ast → Option FreevarsState
  fate i t empty = none
  fate i t (docstring p v) = none
  fate i t (expr_integer p v) = none
  fate i t (expr_hexinteger p v) = none
  fate i t (expr_float p v) = none
  fate i t (expr_complex p v) = none
  fate i t (expr_character p v) = none
  fate i t (expr_text p v) = none
  fate i t (expr_variable p v) = if text_eq v t then some i else none
  fate i t (expr_wildcard p v) = none
  fate i t (expr_combinator p nn v) = none
  fate i t (expr_operator p nn v) = none
  fate i t (ast_path p nn) = none
  fate i t (ast_alias p x y) = later (fate i t x) (fate i t y)
  fate i t (ast_rename p x ss) = later (fate i t x) (fates i t ss)
  fate i t (expr_tag p x y) = later (fate i t x) (fate i t y)
  fate i t (expr_list p ss) = fates i t ss
  fate i t (expr_list_tail p ss x) = later (fates i t ss) (fate i t x)
  fate i t (expr_tuple p ss) = fates i t ss
  fate i t (expr_application p ss) = fates i t ss
  fate i t (expr_match p ss x y) =
      later (later (fate freevars_insert t x) (fate freevars_insert t y))
        (fates freevars_remove t ss)
  fate i t (expr_block p ss) = fates i t ss
  fate i t (expr_lambda p ss) = fates i t ss
  fate i t (expr_let p ss x y) =
      later (later (fate freevars_insert t x) (fate freevars_insert t y))
        (fates freevars_remove t ss)
  fate i t (expr_try p x y) = later (fate i t x) (fate i t y)
  fate i t (expr_throw p x) = fate i t x
  fate i t (expr_if p x y z) = later (later (fate i t x) (fate i t y)) (fate i t z)
  fate i t (expr_statement p x y) = later (fate i t x) (fate i t y)
  fate i t (expr_do p x) = fate i t x
  fate i t (direct_import p v) = none
  fate i t (direct_using p ss) = fates i t ss
  fate i t (decl_namespace p nn ss) = fates i t ss
  fate i t (decl_data p x ss) = later (fate i t x) (fates i t ss)
  fate i t (decl_definition p x y z) = later (later (fate i t x) (fate i t y)) (fate i t z)
  fate i t (decl_value p x y z) = later (later (fate i t x) (fate i t y)) (fate i t z)
  fate i t (decl_operator p x y z) = later (later (fate i t x) (fate i t y)) (fate i t z)
  fate i t (ast_wrapper p ss) = fates i t ss

  pub fates : FreevarsState → Text → Asts → Option FreevarsState
  fates i t nil = none
  fates i t (cons a aa) = later (fate i t a) (fates i t aa)

-- No pattern has patterns in it; the state tells whether the tree is itself in a pattern.
unfoldable mutual
  pub IsFlat : FreevarsState → Ast → Type 0
  IsFlat i empty = Unit
  IsFlat i (docstring p v) = Unit
  IsFlat i (expr_integer p v) = Unit
  IsFlat i (expr_hexinteger p v) = Unit
  IsFlat i (expr_float p v) = Unit
  IsFlat i (expr_complex p v) = Unit
  IsFlat i (expr_character p v) = Unit
  IsFlat i (expr_text p v) = Unit
  IsFlat i (expr_variable p v) = Unit
  IsFlat i (expr_wildcard p v) = Unit
  IsFlat i (expr_combinator p nn v) = Unit
  IsFlat i (expr_operator p nn v) = Unit
  IsFlat i (ast_path p nn) = Unit
  IsFlat i (ast_alias p x y) = IsFlat i x × IsFlat i y
  IsFlat i (ast_rename p x ss) = IsFlat i x × AreFlat i ss
  IsFlat i (expr_tag p x y) = IsFlat i x × IsFlat i y
  IsFlat i (expr_list p ss) = AreFlat i ss
  IsFlat i (expr_list_tail p ss x) = AreFlat i ss × IsFlat i x
  IsFlat i (expr_tuple p ss) = AreFlat i ss
  IsFlat i (expr_application p ss) = AreFlat i ss
  IsFlat freevars_insert (expr_match p ss x y) =
      AreFlat freevars_remove ss × IsFlat freevars_insert x × IsFlat freevars_insert y
  IsFlat freevars_remove (expr_match p ss x y) = ⊥
  IsFlat i (expr_block p ss) = AreFlat i ss
  IsFlat i (expr_lambda p ss) = AreFlat i ss
  IsFlat freevars_insert (expr_let p ss x y) =
      AreFlat freevars_remove ss × IsFlat freevars_insert x × IsFlat freevars_insert y
  IsFlat freevars_remove (expr_let p ss x y) = ⊥
  IsFlat i (expr_try p x y) = IsFlat i x × IsFlat i y
  IsFlat i (expr_throw p x) = IsFlat i x
  IsFlat i (expr_if p x y z) = IsFlat i x × IsFlat i y × IsFlat i z
  IsFlat i (expr_statement p x y) = IsFlat i x × IsFlat i y
  IsFlat i (expr_do p x) = IsFlat i x
  IsFlat i (direct_import p v) = Unit
  IsFlat i (direct_using p ss) = AreFlat i ss
  IsFlat i (decl_namespace p nn ss) = AreFlat i ss
  IsFlat i (decl_data p x ss) = IsFlat i x × AreFlat i ss
  IsFlat i (decl_definition p x y z) = IsFlat i x × IsFlat i y × IsFlat i z
  IsFlat i (decl_value p x y z) = IsFlat i x × IsFlat i y × IsFlat i z
  IsFlat i (decl_operator p x y z) = IsFlat i x × IsFlat i y × IsFlat i z
  IsFlat i (ast_wrapper p ss) = AreFlat i ss

  pub AreFlat : FreevarsState → Asts → Type 0
  AreFlat i nil = Unit
  AreFlat i (cons a aa) = IsFlat i a × AreFlat i aa
