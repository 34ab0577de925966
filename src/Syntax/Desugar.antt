-- ===== src/Syntax/Desugar.antt =====
-- The passes of src/desugar.hpp, which express the sugar of the language by its core: each is a class
-- that overrides one method of `Rewrite`, and `desugar` runs them one by one. `pass_list` rewrites its
-- result again, so the tail of a list is rewritten twice; the fuel is the depth of such calls.
pub mod Every
pub mod Makes
pub mod Base
pub mod Patterns
pub mod Induction
pub mod Passes
pub mod Lists
pub mod Operators
pub mod Desugared
pub mod Colons
use egel.Prelude.{
  ℕ, zero, suc, ◌+◌, ◌/◌, ◌%◌, Bool, true, false, List, [], ◌∷◌, ◌++◌, if◌then◌else◌, ◌||◌,
}
use egel.Prelude.Text.{Text, codes, text_eq}
use egel.Prelude.Outcome.{Outcome, ok, out_of_range, out_of_fuel}
use egel.Prelude.Outcome
use egel.Reader.{Position}
use egel.Syntax.{
  Ast, Asts, nil, cons, empty, expr_integer, expr_variable, expr_wildcard, expr_combinator,
  expr_list, expr_application, expr_match, expr_block, expr_let, combinator_text, position,
}
use egel.Syntax.{
  docstring, expr_hexinteger, expr_float, expr_complex, expr_character, expr_text, expr_operator,
  ast_path, ast_alias, ast_rename, expr_tag, expr_list_tail, expr_tuple, expr_lambda, expr_try,
  expr_throw, expr_if, expr_statement, expr_do, direct_import, direct_using, decl_namespace,
  decl_data, decl_definition, decl_value, decl_operator, ast_wrapper,
}
use egel.Syntax.Rewrite.{
  Rewriting, ret, ◌>>=◌, Child, Node, on_empty, on_docstring, on_expr_hexinteger, on_expr_float,
  on_expr_complex, on_expr_character, on_expr_text, on_expr_operator, on_ast_path, on_ast_alias,
  on_ast_rename, on_expr_tag, on_direct_import, on_direct_using, on_decl_namespace, on_decl_data,
  on_decl_definition, on_decl_value, on_decl_operator, on_ast_wrapper, sources, rewrites, base,
  rewrite, on_expr_integer, on_expr_variable, on_expr_wildcard, on_expr_combinator, on_expr_list,
  on_expr_list_tail, on_expr_tuple, on_expr_application, on_expr_match, on_expr_block,
  on_expr_lambda, on_expr_let, on_expr_try, on_expr_throw, on_expr_if, on_expr_statement,
  on_expr_do,
}

-- `_tick++`, and the text of a number.
abbrev pub tick : Rewriting ℕ
tick n = ok (n, suc n)

unfoldable pub digits : ℕ → ℕ → Text → Text
digits zero n v = v
digits (suc k) n v =
    let w : Text = (48 + n % 10) ∷ v in elim (n / 10) [ zero ↦ w | suc m ↦ digits k (suc m) w ]

unfoldable pub unicode_from_int : ℕ → Text
unicode_from_int n = digits (suc n) n []

-- The vectors of one, two and three trees.
abbrev pub one : Ast → Asts
one a = cons a nil

abbrev pub two : Ast → Ast → Asts
two a b = cons a (one b)

abbrev pub three : Ast → Ast → Ast → Asts
three a b c = cons a (two b c)

abbrev pub system : Position → Text → Ast
system p c = expr_combinator p (codes "System" ∷ []) c

abbrev pub underscore : Position → Ast
underscore p = expr_wildcard p (codes "_")

unfoldable pub wildcard_method : Node → Rewriting Ast
wildcard_method (on_expr_wildcard p v) = do
  n ← tick
  ret (expr_variable p (codes "WILD" ++ unicode_from_int n))
wildcard_method n = base n

unfoldable pub condition_method : Node → Rewriting Ast
condition_method (on_expr_if p i t e) = do
  i0 ← i.1
  t0 ← t.1
  e0 ← e.1
  ret (
      expr_application p (
        two
          (expr_block p (
            two (expr_match p (one (system p (codes "false"))) empty e0)
              (expr_match p (one (underscore p)) empty t0)))
          i0))
condition_method n = base n

-- The loop over the members of a tuple.
unfoldable pub tuple_loop : Position → Ast → List Child → Rewriting Ast
tuple_loop p t [] = ret t
tuple_loop p t (e ∷ ee) = do e0 ← e.1; tuple_loop p (expr_application p (two t e0)) ee

unfoldable pub tuple_method : Node → Rewriting Ast
tuple_method (on_expr_tuple p ee) = tuple_loop p (system p (codes "tuple")) ee
tuple_method n = base n

-- The applications that the loop of the list pass makes around `l`, with their rewritings: that of an
-- application is not overridden.
unfoldable pub list_spine : Position → List Child → Child → Child
list_spine p [] l = l
list_spine p (e ∷ ee) l =
    let r : Child = list_spine p ee l in
    let c : Child =
      (system p (codes "cons"), base (on_expr_combinator p (codes "System" ∷ []) (codes "cons"))) in
    (expr_application p (three c.0 e.0 r.0), base (on_expr_application p (c ∷ e ∷ r ∷ [])))

unfoldable pub list_method : (Ast → Rewriting Ast) → Node → Rewriting Ast
list_method again (on_expr_list p ee) =
    (list_spine p ee (system p (codes "nil"), again (system p (codes "nil")))).1
list_method again (on_expr_list_tail p ee tl) = do l ← tl.1; (list_spine p ee (l, again l)).1
list_method again n = base n

unfoldable pub rewrite_list : ℕ → Ast → Rewriting Ast
rewrite_list zero a n = out_of_fuel
rewrite_list (suc k) a n = rewrite (list_method (rewrite_list k)) a n

-- The argument of the outermost application of the pipe that is not itself such an application.
unfoldable pub add_var : Ast → Ast → Outcome Ast
add_var (expr_application p nil) v = out_of_range
add_var (expr_application p (cons (expr_combinator q nn n) (cons f (cons g ee)))) v =
    let r : Outcome Ast = add_var f v in
    if text_eq (combinator_text nn n) (codes "System::|>")
    then Outcome.◌>>=◌ r
        (λ f0. ok (expr_application p (cons (expr_combinator q nn n) (cons f0 (cons g ee)))))
    else ok (
        expr_application p
          (two (expr_application p (cons (expr_combinator q nn n) (cons f (cons g ee)))) v))
add_var (expr_application p ee) v = ok (expr_application p (two (expr_application p ee) v))
add_var e v = ok (expr_application (position e) (two e v))

unfoldable pub do_method : Node → Rewriting Ast
do_method (on_expr_do p e) = do
  e0 ← e.1
  n ← tick
  let x : Ast = expr_variable p (codes "DOVAR" ++ unicode_from_int n)
  e1 ← λ k. Outcome.◌>>=◌ (add_var e0 x) (λ a. ok (a, k))
  ret (expr_block p (one (expr_match p (one x) empty e1)))
do_method n = base n

unfoldable pub statement_method : Node → Rewriting Ast
statement_method (on_expr_statement p r l) = do
  r0 ← r.1
  l0 ← l.1
  ret (expr_let p (one (underscore p)) r0 l0)
statement_method n = base n

unfoldable pub lambda_method : Node → Rewriting Ast
lambda_method (on_expr_lambda p mm) = do mm0 ← rewrites mm; ret (expr_block p mm0)
lambda_method n = base n

unfoldable pub let_method : Node → Rewriting Ast
let_method (on_expr_let p ll r b) = do
  r0 ← r.1
  b0 ← b.1
  ret (expr_application p (two (expr_block p (one (expr_match p (sources ll) empty b0))) r0))
let_method n = base n

unfoldable pub throw_method : Node → Rewriting Ast
throw_method (on_expr_throw p e) = do
  e0 ← e.1
  ret (expr_application p (two (system p (codes "throw")) e0))
throw_method n = base n

-- A block that ignores its argument.
abbrev pub ignoring : Position → Ast → Ast
ignoring p e = expr_block p (one (expr_match p (one (underscore p)) empty e))

unfoldable pub try_method : Node → Rewriting Ast
try_method (on_expr_try p t c) = do
  t0 ← t.1
  c0 ← c.1
  ret (expr_application p (three (system p (codes "handle")) (ignoring p c0) (ignoring p t0)))
try_method n = base n

unfoldable pub lambdify : Ast → Ast
lambdify e =
    expr_block (position e)
      (one (expr_match (position e) (one (expr_variable (position e) (codes "WILD0"))) empty e))

unfoldable pub lazyop_method : Node → Rewriting Ast
lazyop_method (on_expr_application p ((expr_combinator q nn n, m) ∷ a ∷ b ∷ [])) =
    if text_eq (combinator_text nn n) (codes "System:&&")
      || text_eq (combinator_text nn n) (codes "System:||")
    then (a.1 >>= λ a0.
        b.1 >>= λ b0. ret (expr_application p (three (expr_combinator q nn n) a0 (lambdify b0))))
    else base (on_expr_application p ((expr_combinator q nn n, m) ∷ a ∷ b ∷ []))
lazyop_method n = base n

unfoldable pub monmin_method : Node → Rewriting Ast
monmin_method (on_expr_application p ((expr_combinator q nn n, m) ∷ (expr_integer r v, k) ∷ [])) =
    if text_eq (combinator_text nn n) (codes "System:!-")
    then ret (expr_integer r (codes "-" ++ v))
    else base (on_expr_application p ((expr_combinator q nn n, m) ∷ (expr_integer r v, k) ∷ []))
monmin_method n = base n

-- A pass is a run of its class, which sets the tick to 0.
unfoldable pub run_pass : (Ast → Rewriting Ast) → Ast → Outcome Ast
run_pass f a = Outcome.◌>>=◌ (f a 0) (λ (b, _). ok b)

unfoldable pub pass_list : ℕ → Ast → Outcome Ast
pass_list k = run_pass (rewrite_list k)

infixl 5 ◌▸◌
-- `a0 = pass(a0)`.
abbrev pub ◌▸◌ : Outcome Ast → (Ast → Outcome Ast) → Outcome Ast
m ▸ f = Outcome.◌>>=◌ m f

unfoldable pub desugar : ℕ → Ast → Outcome Ast
desugar k a =
    run_pass (rewrite condition_method) a
    ▸ run_pass (rewrite wildcard_method)
    ▸ run_pass (rewrite tuple_method)
    ▸ pass_list k
    ▸ run_pass (rewrite do_method)
    ▸ run_pass (rewrite statement_method)
    ▸ run_pass (rewrite let_method)
    ▸ run_pass (rewrite lambda_method)
    ▸ run_pass (rewrite throw_method)
    ▸ run_pass (rewrite try_method)
    ▸ run_pass (rewrite lazyop_method)
    ▸ run_pass (rewrite monmin_method)
    ▸ run_pass (rewrite wildcard_method)
