-- ===== src/Tests/Names.antt =====
-- The declaration and the identification of src/semantical.hpp on small trees, and their theorems.
use egel.Prelude.{◌∷◌, ◌≡◌, refl, []}
use egel.Prelude.Text.{codes, text_eq, find}
use egel.Reader.{Position}
use egel.Syntax.{
  Ast, empty, expr_variable, expr_combinator, expr_match, expr_block, ast_path, ast_rename,
  direct_using, decl_definition, ast_wrapper, combinator_text, position,
}
use egel.Syntax.Desugar.{one, two, unicode_from_int, digits}
use egel.Environment.{Frame, enter_scope, leave_scope, get, get_global, get_global_scope}
use egel.Environment
use egel.Semantical.{path, path_loop, qualified}
use egel.Semantical.Identify
use egel.Semantical.Identify.{
  Identifying, state_identify_use, identify, identify_variable, identify_name, identify_rename,
  rename_head, rename_paths, rename_loop, rename_aliases, rename_names, rename_one, name_text,
  target, answer, lookup, enter, leave, uncaught, caught, push_declaration, to_asts,
}
use egel.Semantical.Identify.Formed.{
  Keeps, At, Formed, in_module, IsModule, IsExpression, IsHead, AreLabels, IsLabel,
}
use egel.Semantical.Identify.Scopes.{rewrite-At}

abbrev here : Position
here = record { resource = []; row = 1; column = 1 }

-- `using N (f)`, a function of a namespace, and `[ x -> x ]` under the name of another.
abbrev module_tree : Ast
module_tree = ast_wrapper here (
    two
      (direct_using here (
        one (
          ast_rename here (ast_path here (codes "N" ∷ []))
            (one (expr_combinator here [] (codes "f"))))))
      (decl_definition here (expr_combinator here [] (codes "g")) empty (
        expr_block here (
          one (
            expr_match here (one (expr_variable here (codes "x"))) empty
              (expr_variable here (codes "x")))))))

abbrev outer : Frame
outer = record {
  names = (codes "N::f", codes "N::f") ∷ (codes "g", codes "g") ∷ [];
  namespace = [];
}

abbrev inner : Frame
inner = record { names = []; namespace = [] }

abbrev identifying : Identifying
identifying = record {
  identify_state = state_identify_use;
  scope = inner ∷ outer ∷ [];
  declarations = [];
  counter = 0;
}

module_tree-Formed : Formed in_module module_tree
unfolding Formed IsModule IsExpression IsHead AreLabels IsLabel
module_tree-Formed = (((tt, tt, (tt, tt)), tt), ((tt, tt, ((tt, (tt, tt), tt, tt), tt)), tt))

identifying-At : At in_module inner (outer ∷ []) identifying
unfolding At
identifying-At = (refl, inner, refl)

rewrite-At_example :
    Keeps
      (λ (r : Ast × Identifying). At in_module inner (outer ∷ []) r.1)
      (Identify.rewrite module_tree identifying)
rewrite-At_example =
    rewrite-At in_module module_tree module_tree-Formed inner (outer ∷ []) identifying
      identifying-At

-- The variable gets a new name, and the definition is the one declaration.
identify_run :
    identify (outer ∷ []) module_tree
    ≡ Identify.ok (
        ast_wrapper here (
          one (
            decl_definition here (expr_combinator here [] (codes "g")) empty (
              expr_block here (
                one (
                  expr_match here
                    (one (expr_variable here (codes "V_0")))
                    empty
                    (expr_variable here (codes "V_0"))))))))
unfolding identify Identify.rewrite uncaught enter_scope identify_rename rename_paths rename_head
    rename_loop rename_aliases rename_names rename_one name_text target get_global find text_eq
    qualified path path_loop Environment.declare get get_global_scope leave_scope answer caught
    Identify.declare enter identify_name identify_variable leave lookup push_declaration to_asts
    digits unicode_from_int combinator_text position
identify_run = refl
