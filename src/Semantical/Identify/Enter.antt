-- ===== src/Semantical/Identify/Enter.antt =====
-- `RewriteIdentify` of src/semantical.hpp leaves every scope that it enters: the operations on scopes.
use egel.Prelude.{ℕ, List, [], ◌∷◌, ◌≡◌, refl, Option-cases, inl, inr}
use egel.Prelude.Text.{Text, find}
use egel.Prelude.Units.{drop_units}
use egel.Reader.{Position}
use egel.Syntax.{}
use egel.Environment.{
  Frame, Scope, get, get_global, get_namespace, enter_scope, leave_scope, extend_namespace,
  extended, rename_all, enter_namespace,
}
use egel.Environment
use egel.Semantical.Identify.{
  IdentifyState, Identifying, caught, uncaught, declare, answer, target, lookup, enter, leave,
  enter_space,
}
use egel.Semantical.Identify.Formed.{
  Keeps, kept, throws_redeclaration, throws_undeclared, throws_no_target, throws_clash, Keeps-bind,
}

caught-declare :
    (p : Position) (j k v : Text) (g : Frame) (s : Scope)
    → Keeps
        (λ (t : Scope). (h : Frame) × (t ≡ h ∷ s))
        (caught p j (Environment.declare k v (g ∷ s)))
unfolding caught Environment.declare
caught-declare p j k v g s = elim (Option-cases (find k g.names)) [
  | inl e ↦ rw (e, Environment.declare, caught) (kept (record g { names = (k, v) ∷ g.names }, refl))
  | inr (w, e) ↦ rw (e, Environment.declare, caught) throws_redeclaration
]

rename_all-Keeps :
    (l : ℕ) (kk : List Text) (g : Frame) (s : Scope)
    → Keeps (λ (t : Scope). (h : Frame) × (t ≡ h ∷ s)) (uncaught (rename_all l kk (g ∷ s)))
unfolding rename_all uncaught Environment.declare
rename_all-Keeps l [] g s = kept (g, refl)
rename_all-Keeps l (k ∷ kk) g s = elim (Option-cases (find (drop_units l k) g.names)) [
  | inl e ↦
      rw (e, Environment.declare)
        (rename_all-Keeps l kk (record g { names = (drop_units l k, k) ∷ g.names }) s)
  | inr (w, e) ↦ rw (e, Environment.declare) throws_clash
]

answer-Keeps : (p : Position) (k v : Text) → Keeps (λ (w : Text). Unit) (answer p k v)
unfolding answer
answer-Keeps p k [] = throws_undeclared
answer-Keeps p k (c ∷ v) = kept tt

pub lookup-Keeps : (p : Position) (k : Text) (s : Scope) → Keeps (λ (v : Text). Unit) (lookup p k s)
unfolding lookup
lookup-Keeps p k s = answer-Keeps p k (get k s)

pub target-Keeps : (p : Position) (k v : Text) → Keeps (λ (w : Text). Unit) (target p k v)
unfolding target
target-Keeps p k [] = throws_no_target
target-Keeps p k (c ∷ v) = kept tt

-- The state of identification is kept, and the scope is a frame in `s`.
unfoldable pub Around : IdentifyState → Scope → Identifying → Type 0
Around t s st = (st.identify_state ≡ t) × (g : Frame) × (st.scope ≡ g ∷ s)

pub declare-Keeps :
    (p : Position) (k v : Text) (st : Identifying) (g : Frame) (s : Scope)
    → st.scope ≡ g ∷ s
    → Keeps (Around st.identify_state s) (declare p k v st)
unfolding declare Around
declare-Keeps p k v st g s e =
    rw e (Keeps-bind (caught-declare p k k v g s) (λ t (h, q). kept (refl, h, q)))

pub enter-Keeps :
    (st : Identifying) (f : Frame) (s : Scope)
    → st.scope ≡ f ∷ s
    → Keeps (Around st.identify_state (f ∷ s)) (enter st)
unfolding enter Around enter_scope uncaught
enter-Keeps st f s e = rw e (kept (refl, _, refl))

pub enter_space-Keeps :
    (nn : List Text) (st : Identifying) (f : Frame) (s : Scope)
    → st.scope ≡ f ∷ s
    → Keeps (Around st.identify_state (f ∷ s)) (enter_space nn st)
unfolding enter_space Around enter_namespace enter_scope extend_namespace
enter_space-Keeps nn st f s e =
    rw e (Keeps-bind (rename_all-Keeps _ _ _ (f ∷ s)) (λ t (h, q). kept (refl, h, q)))

pub leave-Keeps :
    (st : Identifying) (g : Frame) (s : Scope)
    → st.scope ≡ g ∷ s
    → Keeps (λ (r : Identifying). (r.identify_state ≡ st.identify_state) × (r.scope ≡ s)) (leave st)
unfolding leave leave_scope uncaught
leave-Keeps st g s e = rw e (kept (refl, refl))
