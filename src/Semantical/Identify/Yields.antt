-- ===== src/Semantical/Identify/Yields.antt =====
-- Runs of `RewriteIdentify` of src/semantical.hpp that collect trees of the language: the operations on
-- scopes and declarations.
use egel.Prelude.{List, [], ◌∷◌, ◌++◌, refl, Bool, true, false}
use egel.Prelude.Text.{Text}
use egel.Reader.{Position}
use egel.Syntax.{Ast}
use egel.Syntax.Desugar.Every.{Every, fits}
use egel.Syntax.Desugar.Patterns.{pattern-Every}
use egel.Environment.{Frame, Scope, enter_scope, leave_scope, enter_namespace, get_global}
use egel.Environment
use egel.Semantical.Identify.{caught, uncaught}
use egel.Semantical.Identify.{
  Identifying, Identified, ok, redeclaration, undeclared, no_target, clash, null_pointer, bad_cast,
  rendered, ◌>>=◌, declare, enter, leave, push_declaration,
}
use egel.Semantical.Identify.Formed.{}

-- A result, when there is one, is as told.
pub data Yields {B : Type 0} (P : B → Type 0) : Identified B → Type 0 where
  yields : {b : B} → P b → Yields P (ok b)
  no_redeclaration : {p : Position} {k : Text} → Yields P (redeclaration p k)
  no_undeclared : {p : Position} {k : Text} → Yields P (undeclared p k)
  no_no_target : {p : Position} {k : Text} → Yields P (no_target p k)
  no_clash : {k : Text} → Yields P (clash k)
  no_null_pointer : Yields P null_pointer
  no_bad_cast : Yields P bad_cast
  no_rendered : Yields P rendered

pub Yields-bind :
    {B C : Type 0} {P : B → Type 0} {Q : C → Type 0} {r : Identified B} {g : B → Identified C}
    → Yields P r
    → ((b : B) → P b → Yields Q (g b))
    → Yields Q (r >>= g)
Yields-bind (yields {b} h) k = k b h
Yields-bind no_redeclaration k = no_redeclaration
Yields-bind no_undeclared k = no_undeclared
Yields-bind no_no_target k = no_no_target
Yields-bind no_clash k = no_clash
Yields-bind no_null_pointer k = no_null_pointer
Yields-bind no_bad_cast k = no_bad_cast
Yields-bind no_rendered k = no_rendered

pub Yields-any : {B : Type 0} (r : Identified B) → Yields (λ b. Unit {0}) r
Yields-any (ok b) = yields tt
Yields-any (redeclaration p k) = no_redeclaration
Yields-any (undeclared p k) = no_undeclared
Yields-any (no_target p k) = no_no_target
Yields-any (clash k) = no_clash
Yields-any null_pointer = no_null_pointer
Yields-any bad_cast = no_bad_cast
Yields-any rendered = no_rendered

-- The declarations that were collected are trees of the language.
unfoldable pub AreSources : List Ast → Type 0
AreSources [] = Unit
AreSources (a ∷ aa) = Every false (λ t. true) a × AreSources aa

abbrev pub HasSources : {B : Type 0} → B × Identifying → Type 0
HasSources r = AreSources r.1.declarations

AreSources-append :
    (aa : List Ast) (a : Ast)
    → AreSources aa
    → Every false (λ t. true) a
    → AreSources (aa ++ (a ∷ []))
unfolding AreSources
AreSources-append [] a h e = (e, tt)
AreSources-append (x ∷ aa) a (i, h) e = (i, AreSources-append aa a h e)

any_false : (b : Bool) (a : Ast) → Every b (λ t. true) a → Every false (λ t. true) a
unfolding fits
any_false true a h = pattern-Every (λ t. true) (λ t. true) (λ t _. refl) a h
any_false false a h = h

pub push-Yields :
    (b : Bool) (a : Ast) (st : Identifying)
    → Every b (λ t. true) a
    → AreSources st.declarations
    → Yields
        (λ (r : Ast × Identifying). Every b (λ t. true) r.0 × AreSources r.1.declarations)
        (push_declaration a st)
unfolding push_declaration
push-Yields b a st e d = yields (e, AreSources-append st.declarations a d (any_false b a e))

module _ (st : Identifying) (d : AreSources st.declarations) where
  pub enter-Yields : Yields (λ (r : Identifying). AreSources r.declarations) (enter st)
  unfolding enter
  enter-Yields = Yields-bind (Yields-any (uncaught (enter_scope st.scope))) (λ s _. yields d)

  pub leave-Yields : Yields (λ (r : Identifying). AreSources r.declarations) (leave st)
  unfolding leave
  leave-Yields = Yields-bind (Yields-any (uncaught (leave_scope st.scope))) (λ s _. yields d)

  pub declare-Yields :
      (p : Position) (k v : Text)
      → Yields (λ (r : Identifying). AreSources r.declarations) (declare p k v st)
  unfolding declare
  declare-Yields p k v =
      Yields-bind (Yields-any (caught p k (Environment.declare k v st.scope))) (λ s _. yields d)
