-- ===== src/Semantical/Identify/Formed.antt =====
-- `RewriteIdentify` of src/semantical.hpp leaves every scope that it enters.
use egel.Prelude.{◌∷◌, ◌≡◌}
use egel.Prelude.Text.{Text}
use egel.Reader.{Position}
use egel.Syntax.{
  Ast, Asts, nil, cons, empty, docstring, expr_integer, expr_hexinteger, expr_float, expr_complex,
  expr_character, expr_text, expr_variable, expr_wildcard, expr_combinator, expr_operator, ast_path,
  ast_alias, ast_rename, expr_tag, expr_list, expr_list_tail, expr_tuple, expr_application,
  expr_match, expr_block, expr_lambda, expr_let, expr_try, expr_throw, expr_if, expr_statement,
  expr_do, direct_import, direct_using, decl_namespace, decl_data, decl_definition, decl_value,
  decl_operator, ast_wrapper,
}
use egel.Environment.{Frame, Scope}
use egel.Semantical.Identify.{
  state_identify_use, state_identify_declare, Identifying, Identified, ok, redeclaration,
  undeclared, no_target, clash, ◌>>=◌,
}

-- What may come of a run: a result as told, or an error that the code throws.
pub data Keeps {B : Type 0} (P : B → Type 0) : Identified B → Type 0 where
  kept : {b : B} → P b → Keeps P (ok b)
  throws_redeclaration : {p : Position} {k : Text} → Keeps P (redeclaration p k)
  throws_undeclared : {p : Position} {k : Text} → Keeps P (undeclared p k)
  throws_no_target : {p : Position} {k : Text} → Keeps P (no_target p k)
  throws_clash : {k : Text} → Keeps P (clash k)

pub Keeps-bind :
    {B C : Type 0} {P : B → Type 0} {Q : C → Type 0} {m : Identified B} {g : B → Identified C}
    → Keeps P m
    → ((b : B) → P b → Keeps Q (g b))
    → Keeps Q (m >>= g)
Keeps-bind (kept {b} h) k = k b h
Keeps-bind throws_redeclaration k = throws_redeclaration
Keeps-bind throws_undeclared k = throws_undeclared
Keeps-bind throws_no_target k = throws_no_target
Keeps-bind throws_clash k = throws_clash

-- Where a tree stands: in an expression, in a pattern, or among the declarations of a module.
pub data Mode : Type 0 where
  in_expression in_pattern in_module : Mode

-- The scope is `f` in `s`; a pattern and a declaration may have changed the frame `f`.
unfoldable pub At : Mode → Frame → Scope → Identifying → Type 0
At in_expression f s st = (st.identify_state ≡ state_identify_use) × (st.scope ≡ f ∷ s)
At in_pattern f s st =
    (st.identify_state ≡ state_identify_declare) × (g : Frame) × (st.scope ≡ g ∷ s)
At in_module f s st = (st.identify_state ≡ state_identify_use) × (g : Frame) × (st.scope ≡ g ∷ s)

unfoldable pub IsExpression : Mode → Type 0
IsExpression in_expression = Unit
IsExpression _ = ⊥

unfoldable pub IsPattern : Mode → Type 0
IsPattern in_pattern = Unit
IsPattern _ = ⊥

unfoldable pub IsModule : Mode → Type 0
IsModule in_module = Unit
IsModule _ = ⊥

unfoldable pub IsLabel : Ast → Type 0
IsLabel (expr_combinator p nn n) = Unit
IsLabel (expr_operator p nn n) = Unit
IsLabel _ = ⊥

unfoldable pub AreLabels : Asts → Type 0
AreLabels nil = Unit
AreLabels (cons (ast_alias p x y) aa) = (IsLabel x × IsLabel y) × AreLabels aa
AreLabels (cons a aa) = IsLabel a × AreLabels aa

unfoldable pub IsHead : Ast → Type 0
IsHead (ast_path p nn) = Unit
IsHead (ast_alias p (ast_path q uu0) (ast_path r uu1)) = Unit
IsHead _ = ⊥

-- What stands where: tags in patterns, matches and lets in expressions, declarations and renames in
-- modules, with paths and names in a rename.
unfoldable mutual
  pub Formed : Mode → Ast → Type 0
  Formed m empty = Unit
  Formed m (docstring p v) = Unit
  Formed m (expr_integer p v) = Unit
  Formed m (expr_hexinteger p v) = Unit
  Formed m (expr_float p v) = Unit
  Formed m (expr_complex p v) = Unit
  Formed m (expr_character p v) = Unit
  Formed m (expr_text p v) = Unit
  Formed m (expr_variable p v) = Unit
  Formed m (expr_wildcard p v) = Unit
  Formed m (expr_combinator p nn v) = Unit
  Formed m (expr_operator p nn v) = Unit
  Formed m (ast_path p nn) = Unit
  Formed m (ast_alias p x y) = Formed m x × Formed m y
  Formed m (ast_rename p x ss) = IsModule m × IsHead x × AreLabels ss
  Formed m (expr_tag p x y) = IsPattern m × Formed in_pattern x × Formed in_expression y
  Formed m (expr_list p ss) = FormedOf m ss
  Formed m (expr_list_tail p ss x) = FormedOf m ss × Formed m x
  Formed m (expr_tuple p ss) = FormedOf m ss
  Formed m (expr_application p ss) = FormedOf m ss
  Formed m (expr_match p ss x y) =
      IsExpression m × FormedOf in_pattern ss × Formed in_expression x × Formed in_expression y
  Formed m (expr_block p ss) = FormedOf m ss
  Formed m (expr_lambda p ss) = FormedOf m ss
  Formed m (expr_let p ss x y) =
      IsExpression m × FormedOf in_pattern ss × Formed in_expression x × Formed in_expression y
  Formed m (expr_try p x y) = Formed m x × Formed m y
  Formed m (expr_throw p x) = Formed m x
  Formed m (expr_if p x y z) = Formed m x × Formed m y × Formed m z
  Formed m (expr_statement p x y) = Formed m x × Formed m y
  Formed m (expr_do p x) = Formed m x
  Formed m (direct_import p v) = Unit
  Formed m (direct_using p ss) = FormedOf m ss
  Formed m (decl_namespace p nn ss) = IsModule m × FormedOf in_module ss
  Formed m (decl_data p x ss) = IsModule m × FormedOf in_expression ss
  Formed m (decl_definition p x y z) = IsModule m × Formed in_expression x × Formed in_expression z
  Formed m (decl_value p x y z) = IsModule m × Formed in_expression x × Formed in_expression z
  Formed m (decl_operator p x y z) = IsModule m × Formed in_expression x × Formed in_expression z
  Formed m (ast_wrapper p ss) = FormedOf m ss

  pub FormedOf : Mode → Asts → Type 0
  FormedOf m nil = Unit
  FormedOf m (cons a aa) = Formed m a × FormedOf m aa
