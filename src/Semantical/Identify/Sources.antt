-- ===== src/Semantical/Identify/Sources.antt =====
-- What `RewriteIdentify` of src/semantical.hpp makes of a tree of the language is one too: the tags of
-- the nodes are kept, and so are the members of applications.
use egel.Prelude.{ℕ, List, [], ◌∷◌, ◌≡◌, refl, Bool, true, false, ◌&&◌, suc, arith, ◌⊎◌, inl, inr}
use egel.Prelude.Text.{Text}
use egel.Reader.{Position}
use egel.Syntax.{
  Ast, Asts, nil, cons, empty, docstring, expr_integer, expr_hexinteger, expr_float, expr_complex,
  expr_character, expr_text, expr_variable, expr_wildcard, expr_combinator, expr_operator, ast_path,
  ast_alias, ast_rename, expr_tag, expr_list, expr_list_tail, expr_tuple, expr_application,
  expr_match, expr_block, expr_lambda, expr_let, expr_try, expr_throw, expr_if, expr_statement,
  expr_do, direct_import, direct_using, decl_namespace, decl_data, decl_definition, decl_value,
  decl_operator, ast_wrapper,
}
use egel.Syntax.Desugar.Every.{Every, EveryOf, fits, is_inert, is_nil}
use egel.Syntax.{tag_expr_variable}
use egel.Semantical.Identify.Scopes.{rewrite-At}
use egel.Prelude.Outcome
use egel.Syntax.Desugar.{desugar}
use egel.Syntax.Desugar.Desugared.{IsSource, IsCore, desugar-IsCore}
use egel.Environment.{Frame, Scope, enter_scope, enter_namespace}
use egel.Semantical.{qualified, path}
use egel.Semantical.Identify.{uncaught, lookup}
use egel.Semantical.Identify.{
  IdentifyState, Identifying, Run, state_identify_use, state_identify_declare, Identified, ok,
  ◌>>=◌, enter_space, identify_variable, identify_name, rewrite, rewrites, to_asts, identify,
}
use egel.Semantical.Identify.Formed.{
  Keeps, kept, throws_redeclaration, throws_undeclared, throws_no_target, throws_clash, Keeps-bind,
  At, Mode, in_expression, in_pattern, in_module, Formed, FormedOf,
}
use egel.Semantical.Identify.Yields.{
  Yields, yields, Yields-bind, Yields-any, AreSources, HasSources, push-Yields, enter-Yields,
  leave-Yields, declare-Yields,
}
use egel.Semantical.Identify.Renames.{rename-Yields}

both_true : (c d : Bool) → (c && d) ≡ true → (c ≡ true) × (d ≡ true)
both_true c d h = ground arith

-- The sides of an alias are visited too, but nothing is taken from them.
inert-Yields :
    (a : Ast) (st : Identifying)
    → is_inert a ≡ true
    → AreSources st.declarations
    → Yields HasSources (rewrite a st)
unfolding is_inert rewrite identify_name
inert-Yields empty st h d = yields d
inert-Yields (docstring p v) st h d = yields d
inert-Yields (ast_path p nn) st h d = yields d
inert-Yields (expr_combinator p nn v) st h d =
    Yields-bind {P = HasSources}
      (Yields-bind (Yields-any (lookup p (qualified nn v) st.scope)) (λ w _. yields d))
      (λ r k. yields k)
inert-Yields (expr_operator p nn v) st h d =
    Yields-bind {P = HasSources}
      (Yields-bind (Yields-any (lookup p (qualified nn v) st.scope)) (λ w _. yields d))
      (λ r k. yields k)
inert-Yields (ast_alias p x y) st h d =
    let (hx, hy) = both_true (is_inert x) (is_inert y) h in
    Yields-bind {P = HasSources} (inert-Yields x st hx d) (λ (o1, st1) d1.
      Yields-bind {P = HasSources} (inert-Yields y st1 hy d1) (λ (o2, st2) d2. yields d2))
inert-Yields _ st h d = absurd cc

variable-Yields :
    (b : Bool) (p : Position) (v : Text)
    → fits b (λ t. true) tag_expr_variable ≡ true
    → (st : Identifying) → AreSources st.declarations
    → Yields
        (λ (r : Ast × Identifying). Every b (λ t. true) r.0 × AreSources r.1.declarations)
        (identify_variable p v st)
unfolding identify_variable Every
variable-Yields b p v e st d = elim (used_or_declared st.identify_state) [
  | inl q ↦
      rw (q, identify_variable)
        (Yields-bind (Yields-any (lookup p v st.scope)) (λ w _. yields (e, d)))
  | inr q ↦
      rw (q, identify_variable) (Yields-bind (declare-Yields _ d p v _) (λ st1 d1. yields (e, d1)))
]
  where
    used_or_declared : (s : IdentifyState) → (s ≡ state_identify_use) ⊎ (s ≡ state_identify_declare)
    used_or_declared state_identify_use = inl refl
    used_or_declared state_identify_declare = inr refl

name-Yields :
    (p : Position) (nn : List Text) (v : Text) (st : Identifying)
    → AreSources st.declarations
    → Yields (λ (r : Text × Identifying). AreSources r.1.declarations) (identify_name p nn v st)
unfolding identify_name
name-Yields p nn v st d =
    Yields-bind (Yields-any (lookup p (qualified nn v) st.scope)) (λ w _. yields d)

enter_space-Yields :
    (nn : List Text) (st : Identifying)
    → AreSources st.declarations
    → Yields (λ (r : Identifying). AreSources r.declarations) (enter_space nn st)
unfolding enter_space
enter_space-Yields nn st d =
    Yields-bind (Yields-any (uncaught (enter_namespace (path nn) st.scope))) (λ s _. yields d)

unfoldable Members : Bool → Asts × Identifying → Type 0
Members b r = EveryOf b (λ t. true) r.0 × (is_nil r.0 ≡ false) × AreSources r.1.declarations

both-Yields :
    (b : Bool) (p : Run Ast) (q : Run Asts) (st : Identifying)
    → Yields
        (λ (r : Ast × Identifying). Every b (λ t. true) r.0 × AreSources r.1.declarations)
        (p st)
    → ((st1 : Identifying)
        → AreSources st1.declarations
        → Yields
            (λ (r : Asts × Identifying). EveryOf b (λ t. true) r.0 × AreSources r.1.declarations)
            (q st1))
    → Yields (Members b) (p st >>= λ (a, st). q st >>= λ (aa, st). ok (cons a aa, st))
unfolding Members Every is_nil
both-Yields b p q st h f = Yields-bind h (λ (o1, st1) (e1, d1).
    Yields-bind (f st1 d1) (λ (o2, st2) (e2, d2). yields ((e1, e2), refl, d2)))

-- The pass at every node.
mutual
  unfolding rewrite Formed Every is_nil Members

  rewrite-Yields :
      (m : Mode) (b : Bool) (a : Ast)
      → Formed m a
      → Every b (λ t. true) a
      → (st : Identifying) → AreSources st.declarations
      → Yields
          (λ (r : Ast × Identifying). Every b (λ t. true) r.0 × AreSources r.1.declarations)
          (rewrite a st)
  rewrite-Yields m b empty h e st d = yields (e, d)
  rewrite-Yields m b (docstring p v) h e st d = yields (e, d)
  rewrite-Yields m b (expr_integer p v) h e st d = yields (e, d)
  rewrite-Yields m b (expr_hexinteger p v) h e st d = yields (e, d)
  rewrite-Yields m b (expr_float p v) h e st d = yields (e, d)
  rewrite-Yields m b (expr_complex p v) h e st d = yields (e, d)
  rewrite-Yields m b (expr_character p v) h e st d = yields (e, d)
  rewrite-Yields m b (expr_text p v) h e st d = yields (e, d)
  rewrite-Yields m b (expr_wildcard p v) h e st d = yields (e, d)
  rewrite-Yields m b (ast_path p nn) h e st d = yields (e, d)
  rewrite-Yields m b (direct_import p v) h e st d = yields (e, d)
  rewrite-Yields m b (expr_variable p v) h e st d = variable-Yields b p v e st d
  rewrite-Yields m b (expr_combinator p nn v) h e st d =
      Yields-bind (name-Yields p nn v st d) (λ (w, st1) d1. yields (e, d1))
  rewrite-Yields m b (expr_operator p nn v) h e st d =
      Yields-bind (name-Yields p nn v st d) (λ (w, st1) d1. yields (e, d1))
  rewrite-Yields m b (ast_alias p x y) (hx, hy) (e, ix, iy) st d =
      Yields-bind {P = HasSources} (inert-Yields x st ix d) (λ (o1, st1) d1.
        Yields-bind {P = HasSources} (inert-Yields y st1 iy d1)
          (λ (o2, st2) d2. yields ((e, ix, iy), d2)))
  rewrite-Yields m b (expr_list p ss) hs (e, es) st d =
      Yields-bind (rewrites-Yields m b ss hs es _ d) (λ (o1, st1) (e1, d1). yields ((e, e1), d1))
  rewrite-Yields m b (expr_tuple p ss) hs (e, es) st d =
      Yields-bind (rewrites-Yields m b ss hs es _ d) (λ (o1, st1) (e1, d1). yields ((e, e1), d1))
  rewrite-Yields m b (expr_block p ss) hs (e, es) st d =
      Yields-bind (rewrites-Yields m b ss hs es _ d) (λ (o1, st1) (e1, d1). yields ((e, e1), d1))
  rewrite-Yields m b (expr_lambda p ss) hs (e, es) st d =
      Yields-bind (rewrites-Yields m b ss hs es _ d) (λ (o1, st1) (e1, d1). yields ((e, e1), d1))
  rewrite-Yields m b (direct_using p ss) hs (e, es) st d =
      Yields-bind (rewrites-Yields m b ss hs es _ d) (λ (o1, st1) (e1, d1). yields ((e, e1), d1))
  rewrite-Yields m b (ast_wrapper p ss) hs (e, es) st d =
      Yields-bind (rewrites-Yields m b ss hs es _ d) (λ (o1, st1) (e1, d1). yields ((e, e1), d1))
  rewrite-Yields m b (expr_application p nil) hs (e, es, i) st d = absurd cc
  rewrite-Yields m b (expr_application p (cons a aa)) (h, hs) (e, (ea, es), i) st d =
      Yields-bind {P = Members b}
        (both-Yields b (rewrite a) (rewrites aa) st (rewrite-Yields m b a h ea st d)
          (λ st1 d1. rewrites-Yields m b aa hs es st1 d1))
        (λ r k. yields ((e, k.0, k.1), k.2))
  rewrite-Yields m b (expr_list_tail p ss x) (hs, hx) (e, es, ex) st d =
      Yields-bind (rewrites-Yields m b ss hs es _ d) (λ (o1, st1) (e1, d1).
        Yields-bind (rewrite-Yields m b x hx ex st1 d1)
          (λ (o2, st2) (e2, d2). yields ((e, e1, e2), d2)))
  rewrite-Yields m b (expr_try p x y) (hx, hy) (e, ex, ey) st d =
      Yields-bind (rewrite-Yields m b x hx ex _ d) (λ (o1, st1) (e1, d1).
        Yields-bind (rewrite-Yields m b y hy ey st1 d1)
          (λ (o2, st2) (e2, d2). yields ((e, e1, e2), d2)))
  rewrite-Yields m b (expr_statement p x y) (hx, hy) (e, ex, ey) st d =
      Yields-bind (rewrite-Yields m b x hx ex _ d) (λ (o1, st1) (e1, d1).
        Yields-bind (rewrite-Yields m b y hy ey st1 d1)
          (λ (o2, st2) (e2, d2). yields ((e, e1, e2), d2)))
  rewrite-Yields m b (expr_throw p x) hx (e, ex) st d =
      Yields-bind (rewrite-Yields m b x hx ex _ d) (λ (o1, st1) (e1, d1). yields ((e, e1), d1))
  rewrite-Yields m b (expr_do p x) hx (e, ex) st d =
      Yields-bind (rewrite-Yields m b x hx ex _ d) (λ (o1, st1) (e1, d1). yields ((e, e1), d1))
  rewrite-Yields m b (expr_if p x y z) (hx, hy, hz) (e, ex, ey, ez) st d =
      Yields-bind (rewrite-Yields m b x hx ex _ d) (λ (o1, st1) (e1, d1).
        Yields-bind (rewrite-Yields m b y hy ey st1 d1) (λ (o2, st2) (e2, d2).
          Yields-bind (rewrite-Yields m b z hz ez st2 d2)
            (λ (o3, st3) (e3, d3). yields ((e, e1, e2, e3), d3))))
  rewrite-Yields m b (expr_tag p x y) (_, hx, hy) (e, ex, ey) st d =
      Yields-bind (rewrite-Yields in_pattern b x hx ex _ d) (λ (o1, st1) (e1, d1).
        Yields-bind (rewrite-Yields in_expression b y hy ey _ d1)
          (λ (o2, st2) (e2, d2). yields ((e, e1, e2), d2)))
  rewrite-Yields m b (ast_rename p x ss) (_, h, hs) (e, ex, es) st d =
      rename-Yields b p x ss h hs e es st d
  rewrite-Yields m b (expr_match p ss x y) (_, hs, hx, hy) (e, es, ex, ey) st d =
      Yields-bind (enter-Yields st d) (λ st0 d0.
        Yields-bind (rewrites-Yields in_pattern b ss hs es _ d0) (λ (o1, st1) (e1, d1).
          Yields-bind (rewrite-Yields in_expression b x hx ex _ d1) (λ (o2, st2) (e2, d2).
            Yields-bind (rewrite-Yields in_expression b y hy ey _ d2) (λ (o3, st3) (e3, d3).
              Yields-bind (leave-Yields st3 d3) (λ st4 d4. yields ((e, e1, e2, e3), d4))))))
  rewrite-Yields m b (expr_let p ss x y) (_, hs, hx, hy) (e, es, ex, ey) st d =
      Yields-bind (rewrite-Yields in_expression b x hx ex _ d) (λ (o1, st1) (e1, d1).
        Yields-bind (enter-Yields st1 d1) (λ st0 d0.
          Yields-bind (rewrites-Yields in_pattern true ss hs es _ d0) (λ (o2, st2) (e2, d2).
            Yields-bind (rewrite-Yields in_expression b y hy ey _ d2) (λ (o3, st3) (e3, d3).
              Yields-bind (leave-Yields st3 d3) (λ st4 d4. yields ((e, e2, e1, e3), d4))))))
  rewrite-Yields m b (decl_namespace p nn ss) (_, hs) (e, es) st d =
      Yields-bind (enter_space-Yields nn st d) (λ st0 d0.
        Yields-bind (rewrites-Yields in_module b ss hs es st0 d0) (λ (o1, st1) (e1, d1).
          Yields-bind (leave-Yields st1 d1) (λ st2 d2. yields ((e, e1), d2))))
  rewrite-Yields m b (decl_data p x ss) (_, hs) (e, i, es) st d =
      Yields-bind (rewrites-Yields in_expression b ss hs es _ d)
        (λ (o1, st1) (e1, d1). push-Yields b (decl_data p x o1) st1 (e, i, e1) d1)
  rewrite-Yields m b (decl_definition p x y z) (_, hx, hz) (e, ex, ey, ez) st d =
      Yields-bind (rewrite-Yields in_expression b x hx ex _ d) (λ (o1, st1) (e1, d1).
        Yields-bind (rewrite-Yields in_expression b z hz ez st1 d1)
          (λ (o2, st2) (e2, d2). push-Yields b (decl_definition p o1 y o2) st2 (e, e1, ey, e2) d2))
  rewrite-Yields m b (decl_value p x y z) (_, hx, hz) (e, ex, ey, ez) st d =
      Yields-bind (rewrite-Yields in_expression b x hx ex _ d) (λ (o1, st1) (e1, d1).
        Yields-bind (rewrite-Yields in_expression b z hz ez st1 d1)
          (λ (o2, st2) (e2, d2). push-Yields b (decl_value p o1 y o2) st2 (e, e1, ey, e2) d2))
  rewrite-Yields m b (decl_operator p x y z) (_, hx, hz) (e, ex, ey, ez) st d =
      Yields-bind (rewrite-Yields in_expression b x hx ex _ d) (λ (o1, st1) (e1, d1).
        Yields-bind (rewrite-Yields in_expression b z hz ez st1 d1)
          (λ (o2, st2) (e2, d2). push-Yields b (decl_operator p o1 y o2) st2 (e, e1, ey, e2) d2))

  rewrites-Yields :
      (m : Mode) (b : Bool) (aa : Asts)
      → FormedOf m aa
      → EveryOf b (λ t. true) aa
      → (st : Identifying) → AreSources st.declarations
      → Yields
          (λ (r : Asts × Identifying). EveryOf b (λ t. true) r.0 × AreSources r.1.declarations)
          (rewrites aa st)
  rewrites-Yields m b nil h e st d = yields (e, d)
  rewrites-Yields m b (cons a aa) (h, hs) (e, es) st d =
      Yields-bind (rewrite-Yields m b a h e st d) (λ (o1, st1) (e1, d1).
        Yields-bind (rewrites-Yields m b aa hs es st1 d1)
          (λ (o2, st2) (e2, d2). yields ((e1, e2), d2)))

to_asts-EveryOf : (aa : List Ast) → AreSources aa → EveryOf false (λ t. true) (to_asts aa)
unfolding AreSources to_asts Every
to_asts-EveryOf [] h = tt
to_asts-EveryOf (a ∷ aa) (e, h) = (e, to_asts-EveryOf aa h)

-- What was told of a run by both ways.
Keeps-Yields :
    {B : Type 0} {P Q : B → Type 0} {r : Identified B} → Keeps P r → Yields Q r → Keeps Q r
Keeps-Yields (kept h) (yields k) = kept k
Keeps-Yields throws_redeclaration k = throws_redeclaration
Keeps-Yields throws_undeclared k = throws_undeclared
Keeps-Yields throws_no_target k = throws_no_target
Keeps-Yields throws_clash k = throws_clash

Keeps-map :
    {B : Type 0} {P Q : B → Type 0} {r : Identified B}
    → Keeps P r
    → ((b : B) → P b → Q b)
    → Keeps Q r
Keeps-map (kept {b} h) f = kept (f b h)
Keeps-map throws_redeclaration f = throws_redeclaration
Keeps-map throws_undeclared f = throws_undeclared
Keeps-map throws_no_target f = throws_no_target
Keeps-map throws_clash f = throws_clash

abbrev before : Scope → Identifying
before s = record { identify_state = state_identify_use; scope = s; declarations = []; counter = 0 }

identify-Yields :
    (f : Frame) (s : Scope) (a : Ast)
    → Formed in_module a
    → IsSource a
    → Keeps IsSource (identify (f ∷ s) a)
unfolding identify IsSource Every fits enter_scope uncaught At AreSources
identify-Yields f s a h e =
    Keeps-bind
      (Keeps-Yields (rewrite-At in_module a h f (f ∷ s) (before _) (refl, _, refl))
        (rewrite-Yields in_module false a h e (before _) tt))
      (λ (o, st) (_, d). kept (refl, to_asts-EveryOf st.declarations d))

-- A module that is well formed, as the parser makes them, is identified in every scope that is not
-- empty to a tree that desugar brings to the core language, or an error of the program is thrown:
-- neither of the passes does anything undefined. Two calls of the list pass within each other are
-- enough fuel.
pub identify-IsCore :
    (k : ℕ) (f : Frame) (s : Scope) (a : Ast)
    → Formed in_module a
    → IsSource a
    → Keeps
        (λ b. (c : Ast) × (desugar (suc (suc k)) b ≡ Outcome.ok c) × IsCore c)
        (identify (f ∷ s) a)
identify-IsCore k f s a h e = Keeps-map (identify-Yields f s a h e) (λ b i. desugar-IsCore k b i)
