-- ===== src/Tests/Trees.antt =====
-- The passes of src/desugar.hpp on small trees, and their theorems at these.
use egel.Prelude.{◌∷◌, ◌≡◌, refl, [], false}
use egel.Prelude.Text.{Text, codes, text_eq}
use egel.Prelude.Outcome.{ok}
use egel.Reader.{Position}
use egel.Syntax.{
  Ast, nil, expr_integer, expr_variable, expr_wildcard, expr_combinator, expr_list, expr_list_tail,
  expr_application, expr_if, expr_do, expr_let, combinator_text,
}
use egel.Syntax.Rewrite.{rewrite, rewrites, base, sources}
use egel.Syntax.Desugar.{
  desugar, run_pass, lazyop_method, monmin_method, condition_method, wildcard_method, tuple_method,
  pass_list, rewrite_list, list_method, list_spine, do_method, statement_method, let_method,
  lambda_method, throw_method, try_method, one, three, system,
}
use egel.Syntax.Desugar.Every.{Every, fits, is_nil, flat}
use egel.Syntax.Desugar.Desugared.{IsSource, IsCore, desugar-IsCore}
use egel.Syntax.Desugar.Colons.{Calls, is_other, operator_passes-same}
use egel.Syntax.{empty}
use egel.Syntax.Desugar.{two}
use egel.Environment.{Frame}
use egel.Syntax.{decl_namespace, decl_definition, ast_wrapper}
use egel.Semantical.{declare}
use egel.Semantical.Declared.{declared}
use egel.Semantical.Fresh.{Declares, declare_lem}
use egel.Syntax.{expr_match, expr_block}
use egel.Syntax.FreeVars.{freevars, freevars_insert, visit, visit_variable, insert, remove, has}
use egel.Syntax.FreeVars.Fate.{IsFlat, fate}
use egel.Syntax.FreeVars.Mentions.{known, has-freevars}

abbrev here : Position
here = record { resource = []; row = 1; column = 1 }

abbrev number : Text → Ast
number v = expr_integer here v

-- `let _ = {1|{}} in if x then 2 else do f`
abbrev sugared : Ast
sugared =
    expr_let here (one (expr_wildcard here (codes "_")))
      (expr_list_tail here (one (number (codes "1"))) (expr_list here nil))
      (expr_if here (expr_variable here (codes "x")) (number (codes "2"))
        (expr_do here (expr_variable here (codes "f"))))

-- `(1 && x)`, whose operator has been identified.
abbrev conjunction : Ast
conjunction = expr_application here (
    three (expr_combinator here [] (codes "System::&&")) (number (codes "1"))
      (expr_variable here (codes "x")))

-- `{1|t}` is `cons 1 t`.
list_run :
    desugar 2 (expr_list_tail here (one (number (codes "1"))) (expr_variable here (codes "t")))
    ≡ ok (
        expr_application here (
          three (system here (codes "cons")) (number (codes "1")) (expr_variable here (codes "t"))))
unfolding desugar run_pass lazyop_method monmin_method condition_method wildcard_method tuple_method
    pass_list rewrite_list list_method list_spine do_method statement_method let_method
    lambda_method throw_method try_method rewrite base rewrites sources combinator_text text_eq
list_run = refl

sugared-IsSource : IsSource sugared
unfolding IsSource Every fits flat is_nil
sugared-IsSource =
    (refl, (refl, tt), (refl, (refl, tt), (refl, tt)), (refl, refl, refl, (refl, refl)))

desugar-IsCore_example : (b : Ast) × (desugar 2 sugared ≡ ok b) × IsCore b
desugar-IsCore_example = desugar-IsCore 0 sugared sugared-IsSource

conjunction-Calls : Calls is_other conjunction
unfolding Calls is_other combinator_text text_eq
conjunction-Calls = (refl, (tt, (tt, tt)))

operator_passes-same_example :
    (run_pass (rewrite lazyop_method) conjunction ≡ ok conjunction)
    × (run_pass (rewrite monmin_method) conjunction ≡ ok conjunction)
operator_passes-same_example = operator_passes-same conjunction conjunction-Calls

abbrev definition : Text → Ast
definition n = decl_definition here (expr_combinator here [] n) empty (number (codes "1"))

-- `def f`, and `f` in a namespace twice.
abbrev program : Ast
program = ast_wrapper here (
    two (definition (codes "f")) (
      decl_namespace here (codes "N" ∷ []) (two (definition (codes "f")) (definition (codes "f")))))

abbrev global : Frame
global = record { names = []; namespace = [] }

declare_lem_example : Declares (declared [] program) global (declare (global ∷ []) program)
declare_lem_example = declare_lem global program

-- `x [ x -> y ]`: the first x is free, but the pattern removes it.
abbrev removed : Ast
removed = expr_application here (
    two (expr_variable here (codes "x")) (
      expr_block here (
        one (
          expr_match here (one (expr_variable here (codes "x"))) empty
            (expr_variable here (codes "y"))))))

removed-IsFlat : IsFlat freevars_insert removed
unfolding IsFlat
removed-IsFlat = (tt, ((((tt, tt), tt, tt), tt), tt))

has-freevars_example :
    has (codes "x") (freevars removed) ≡ known false (fate freevars_insert (codes "x") removed)
has-freevars_example = has-freevars (codes "x") removed removed-IsFlat

removed_run : freevars removed ≡ codes "y" ∷ []
unfolding freevars visit visit_variable insert remove has text_eq
removed_run = refl
