-- ===== src/Syntax/Desugar/Desugared.antt =====
-- `desugar` of src/desugar.hpp as a whole: the passes one behind the other.
use egel.Prelude.{ℕ, suc, Bool, true, false, ◌||◌, ◌≡◌, refl, arith}
use egel.Prelude.Outcome.{Outcome, ok}
use egel.Syntax.{Ast, Tag, tag_expr_list, tag_expr_if}
use egel.Syntax.Rewrite.{Rewriting, Node, rewrite}
use egel.Syntax.Desugar.{
  wildcard_method, condition_method, tuple_method, do_method, statement_method, let_method,
  lambda_method, throw_method, try_method, lazyop_method, monmin_method, rewrite_list, run_pass,
  pass_list, ◌▸◌, desugar,
}
use egel.Syntax.Desugar.Every.{Every, fits}
use egel.Syntax.Desugar.Makes.{Makes, Ready, node_tag}
use egel.Syntax.Desugar.Patterns.{core, HasCore}
use egel.Syntax.Desugar.Induction.{rewrite-Makes}
use egel.Syntax.Desugar.Passes.{
  AllBut, is_wildcard, is_if, is_tuple, is_list, is_do, is_statement, is_let, is_lambda, is_throw,
  is_try, wildcard-Makes, condition-Makes, tuple-Makes, statement-Makes, lambda-Makes, let-Makes,
  throw-Makes, try-Makes,
}
use egel.Syntax.Desugar.Lists.{rewrite_list-Makes}
use egel.Syntax.Desugar.Operators.{do-Makes, lazyop-Makes, monmin-Makes}

-- A tree of the language: it has any tags, and is well formed.
unfoldable pub IsSource : Ast → Type 0
IsSource a = Every false (λ t. true) a

-- A tree of the core language.
unfoldable pub IsCore : Ast → Type 0
IsCore a = Every false core a

-- The tags of `x` and of `g`.
unfoldable both : (Tag → Bool) → (Tag → Bool) → Tag → Bool
both x g t = x t || g t

both-AllBut : (x g : Tag → Bool) → AllBut x (both x g) g
unfolding AllBut both
both-AllBut x g t e h = ground (arith, e)

both-HasCore : (x g : Tag → Bool) → HasCore g → HasCore (both x g)
unfolding HasCore both
both-HasCore x g h t e = ground (arith, h t e)

core-HasCore : HasCore core
unfolding HasCore
core-HasCore t e = e

same-AllBut : (x g : Tag → Bool) → AllBut x g g
unfolding AllBut
same-AllBut x g t e h = h

-- Behind a result that is a tree with tags of `f`, a pass makes one with tags of `g`.
unfoldable Gives : (Tag → Bool) → Outcome Ast → Type 0
Gives f m = (a : Ast) × (m ≡ ok a) × Every false f a

pass-Gives :
    (f g : Tag → Bool) (m : Outcome Ast) (r : Ast → Rewriting Ast)
    → ((b : Bool) (a : Ast) → Every b f a → Makes (Every b g) (r a))
    → Gives f m
    → Gives g (m ▸ run_pass r)
unfolding Gives run_pass
pass-Gives f g m r h (a, e, q) = let (b, k, d, p) = (h false a q).run 0 in (b, rw (e, d) refl, p)

module _ (f g : Tag → Bool) (c : HasCore f) (m : Outcome Ast) (r : Node → Rewriting Ast)
    (h : (b : Bool) (n : Node)
      → fits b f (node_tag n) ≡ true
      → Ready b f g n
      → Makes (Every b g) (r n)) where
  method-Gives : Gives f m → Gives g (m ▸ run_pass (rewrite r))
  method-Gives = pass-Gives f g m (rewrite r) (rewrite-Makes f g c r h)

abbrev late : Tag → Bool
late = both is_wildcard core

abbrev trying : Tag → Bool
trying = both is_try late

abbrev throwing : Tag → Bool
throwing = both is_throw trying

abbrev lambdas : Tag → Bool
lambdas = both is_lambda throwing

abbrev lets : Tag → Bool
lets = both is_let lambdas

abbrev statements : Tag → Bool
statements = both is_statement lets

abbrev dos : Tag → Bool
dos = both is_do statements

abbrev lists : Tag → Bool
lists = both is_list dos

abbrev tuples : Tag → Bool
tuples = both is_tuple lists

late-HasCore : HasCore late
late-HasCore = both-HasCore _ _ core-HasCore

trying-HasCore : HasCore trying
trying-HasCore = both-HasCore _ _ late-HasCore

throwing-HasCore : HasCore throwing
throwing-HasCore = both-HasCore _ _ trying-HasCore

lambdas-HasCore : HasCore lambdas
lambdas-HasCore = both-HasCore _ _ throwing-HasCore

lets-HasCore : HasCore lets
lets-HasCore = both-HasCore _ _ lambdas-HasCore

statements-HasCore : HasCore statements
statements-HasCore = both-HasCore _ _ lets-HasCore

dos-HasCore : HasCore dos
dos-HasCore = both-HasCore _ _ statements-HasCore

lists-HasCore : HasCore lists
lists-HasCore = both-HasCore _ _ dos-HasCore

tuples-HasCore : HasCore tuples
tuples-HasCore = both-HasCore _ _ lists-HasCore

any-HasCore : HasCore (λ t. true)
unfolding HasCore
any-HasCore t e = refl

any-AllBut : AllBut is_if (λ t. true) tuples
unfolding AllBut both is_if is_tuple is_list is_do is_statement is_let is_lambda is_throw is_try
    is_wildcard core
any-AllBut tag_expr_if e h = absurd cc
any-AllBut t e h = refl

no_lists : dos tag_expr_list ≡ false
unfolding both is_statement is_let is_lambda is_throw is_try is_wildcard is_do core
no_lists = refl

-- The steps of the chain that change the tags.
module _ (m : Outcome Ast) where
  condition_step : Gives (λ t. true) m → Gives tuples (m ▸ run_pass (rewrite condition_method))
  unfolding both is_wildcard is_let is_throw is_try is_lambda is_statement is_tuple is_list is_do
      core
  condition_step =
      method-Gives (λ t. true) tuples any-HasCore m condition_method
        (condition-Makes (λ t. true) tuples tuples-HasCore any-AllBut refl)

  wildcard_step : Gives tuples m → Gives tuples (m ▸ run_pass (rewrite wildcard_method))
  wildcard_step =
      method-Gives tuples tuples tuples-HasCore m wildcard_method
        (wildcard-Makes tuples tuples tuples-HasCore (same-AllBut is_wildcard tuples))

  tuple_step : Gives tuples m → Gives lists (m ▸ run_pass (rewrite tuple_method))
  tuple_step =
      method-Gives tuples lists tuples-HasCore m tuple_method
        (tuple-Makes tuples lists lists-HasCore (both-AllBut is_tuple lists))

  list_step : (k : ℕ) → Gives lists m → Gives dos (m ▸ pass_list (suc (suc k)))
  unfolding pass_list
  list_step k =
      pass-Gives lists dos m (rewrite_list (suc (suc k))) (
        rewrite_list-Makes dos dos-HasCore no_lists lists lists-HasCore (both-AllBut is_list dos) k)

  do_step : Gives dos m → Gives statements (m ▸ run_pass (rewrite do_method))
  do_step =
      method-Gives dos statements dos-HasCore m do_method
        (do-Makes dos statements statements-HasCore (both-AllBut is_do statements))

  statement_step : Gives statements m → Gives lets (m ▸ run_pass (rewrite statement_method))
  unfolding both is_wildcard is_let is_throw is_try is_lambda is_statement is_tuple is_list is_do
      core
  statement_step =
      method-Gives statements lets statements-HasCore m statement_method
        (statement-Makes statements lets lets-HasCore (both-AllBut is_statement lets) refl refl)

  let_step : Gives lets m → Gives lambdas (m ▸ run_pass (rewrite let_method))
  let_step =
      method-Gives lets lambdas lets-HasCore m let_method
        (let-Makes lets lambdas lambdas-HasCore (both-AllBut is_let lambdas))

  lambda_step : Gives lambdas m → Gives throwing (m ▸ run_pass (rewrite lambda_method))
  lambda_step =
      method-Gives lambdas throwing lambdas-HasCore m lambda_method
        (lambda-Makes lambdas throwing throwing-HasCore (both-AllBut is_lambda throwing))

  throw_step : Gives throwing m → Gives trying (m ▸ run_pass (rewrite throw_method))
  throw_step =
      method-Gives throwing trying throwing-HasCore m throw_method
        (throw-Makes throwing trying trying-HasCore (both-AllBut is_throw trying))

  try_step : Gives trying m → Gives late (m ▸ run_pass (rewrite try_method))
  unfolding both is_wildcard is_let is_throw is_try is_lambda is_statement is_tuple is_list is_do
      core
  try_step =
      method-Gives trying late trying-HasCore m try_method
        (try-Makes trying late late-HasCore (both-AllBut is_try late) refl)

-- From every tree that is well formed `desugar` has a result, which is a tree of the
-- core language: it has no wildcard, list, tuple, try, throw, lambda, let, if, statement or do. Well formed
-- means that an application has a member, the sides of an alias are names, the text of a data
-- declaration is inert, and the patterns of a let have no let and no statement. Two calls of the list
-- pass within each other are enough fuel.
pub desugar-IsCore :
    (k : ℕ) (a : Ast) → IsSource a → (b : Ast) × (desugar (suc (suc k)) a ≡ ok b) × IsCore b
unfolding IsSource IsCore desugar pass_list Gives
desugar-IsCore k a h =
    method-Gives late core late-HasCore _ wildcard_method
      (wildcard-Makes late core core-HasCore (both-AllBut is_wildcard core))
      (method-Gives late late late-HasCore _ monmin_method (monmin-Makes late late-HasCore) (
        method-Gives late late late-HasCore _ lazyop_method (lazyop-Makes late late-HasCore) (
          try_step _ (
            throw_step _ (
              lambda_step _ (
                let_step _ (
                  statement_step _ (
                    do_step _ (
                      list_step _ k (
                        tuple_step _
                          (wildcard_step _ (condition_step (ok a) (a, refl, h)))))))))))))
