-- ===== src/Semantical/Identify/Scopes.antt =====
-- `RewriteIdentify` of src/semantical.hpp leaves every scope that it enters.
use egel.Prelude.{ℕ, List, [], ◌∷◌, ◌≡◌, refl, ◌∙◌, suc, ◌+◌, length}
use egel.Prelude.Text.{Text}
use egel.Reader.{Position}
use egel.Syntax.{
  Ast, Asts, nil, cons, empty, docstring, expr_integer, expr_hexinteger, expr_float, expr_complex,
  expr_character, expr_text, expr_variable, expr_wildcard, expr_combinator, expr_operator, ast_path,
  ast_alias, ast_rename, expr_tag, expr_list, expr_list_tail, expr_tuple, expr_application,
  expr_match, expr_block, expr_lambda, expr_let, expr_try, expr_throw, expr_if, expr_statement,
  expr_do, direct_import, direct_using, decl_namespace, decl_data, decl_definition, decl_value,
  decl_operator, ast_wrapper,
}
use egel.Environment.{Frame, Scope, get_namespace}
use egel.Semantical.{path}
use egel.Semantical.Identify.{
  state_identify_use, Identifying, Identified, push_declaration, identify_variable, identify_name,
  rename_head, rename_paths, all_names, rename_names, rename_aliases, name_text, rename_one,
  rename_loop, identify_rename, rewrite, rewrites,
}
use egel.Semantical.Identify.Formed.{
  Keeps, kept, Keeps-bind, Mode, in_expression, in_pattern, in_module, At, IsExpression, IsPattern,
  IsModule, IsLabel, AreLabels, IsHead, Formed, FormedOf,
}
use egel.Semantical.Identify.Enter.{
  lookup-Keeps, target-Keeps, Around, declare-Keeps, enter-Keeps, enter_space-Keeps, leave-Keeps,
}

variable-Keeps :
    (m : Mode) (p : Position) (v : Text) (f : Frame) (s : Scope) (st : Identifying)
    → At m f s st
    → Keeps (λ (r : Ast × Identifying). At m f s r.1) (identify_variable p v st)
unfolding identify_variable At Around
variable-Keeps in_expression p v f s st (e, q) =
    rw (e, identify_variable) (Keeps-bind (lookup-Keeps p v st.scope) (λ w _. kept (e, q)))
variable-Keeps in_module p v f s st (e, g, q) =
    rw (e, identify_variable) (Keeps-bind (lookup-Keeps p v st.scope) (λ w _. kept (e, g, q)))
variable-Keeps in_pattern p v f s st (e, g, q) =
    rw (e, identify_variable)
      (Keeps-bind (declare-Keeps p v _ (record st { counter = suc st.counter }) g s q)
        (λ st' (t, h, r). kept (t ∙ e, h, r)))

name-Keeps :
    (m : Mode) (p : Position) (nn : List Text) (v : Text) (f : Frame) (s : Scope) (st : Identifying)
    → At m f s st
    → Keeps (λ (r : Text × Identifying). At m f s r.1) (identify_name p nn v st)
unfolding identify_name
name-Keeps m p nn v f s st k = Keeps-bind (lookup-Keeps p _ st.scope) (λ w _. kept k)

label-Keeps : (a : Ast) → IsLabel a → Keeps (λ (t : Text). Unit) (name_text a)
unfolding name_text IsLabel
label-Keeps (expr_combinator p nn n) h = kept tt
label-Keeps (expr_operator p nn n) h = kept tt
label-Keeps _ h = absurd h

-- A vector of aliases of names.
unfoldable AreAliases : Asts → Type 0
AreAliases nil = Unit
AreAliases (cons (ast_alias p x y) aa) = (IsLabel x × IsLabel y) × AreAliases aa
AreAliases (cons a aa) = ⊥

aliases-AreAliases : (p : Position) (aa : Asts) → AreLabels aa → AreAliases (rename_aliases p aa)
unfolding rename_aliases AreAliases AreLabels IsLabel
aliases-AreAliases p nil h = tt
aliases-AreAliases p (cons (ast_alias q x y) aa) (h, hs) = (h, aliases-AreAliases p aa hs)
aliases-AreAliases p (cons (expr_combinator q nn n) aa) (h, hs) =
    ((tt, tt), aliases-AreAliases p aa hs)
aliases-AreAliases p (cons (expr_operator q nn n) aa) (h, hs) =
    ((tt, tt), aliases-AreAliases p aa hs)
aliases-AreAliases p (cons a aa) (h, hs) = absurd h

all_names-AreLabels : (p : Position) (l : ℕ) (dd : List Text) → AreLabels (all_names p l dd)
unfolding all_names AreLabels IsLabel
all_names-AreLabels p l [] = tt
all_names-AreLabels p l (d ∷ dd) = (tt, all_names-AreLabels p l dd)

pub names-AreLabels :
    (p : Position) (uu : List Text) (s : Scope) (aa : Asts)
    → AreLabels aa
    → AreLabels (rename_names p uu s aa)
unfolding rename_names
names-AreLabels p uu s nil h =
    all_names-AreLabels p (length (path uu) + 2) (get_namespace (path uu) s)
names-AreLabels p uu s (cons a aa) h = h

after :
    (s : Scope) (st : Identifying) {r : Identified Identifying}
    → st.identify_state ≡ state_identify_use
    → Keeps (Around st.identify_state s) r
    → Keeps (Around state_identify_use s) r
unfolding Around
after s st e h = rw e at h

rename_loop-Keeps :
    (p : Position) (uu0 uu1 : List Text) (aa : Asts)
    → AreAliases aa
    → (s : Scope) (st : Identifying) → Around state_identify_use s st
    → Keeps (Around state_identify_use s) (rename_loop p uu0 uu1 aa st)
unfolding rename_loop rename_one AreAliases Around
rename_loop-Keeps p uu0 uu1 nil h s st k = kept k
rename_loop-Keeps p uu0 uu1 (cons (ast_alias q x y) aa) ((hx, hy), hs) s st (e, g, r) =
    Keeps-bind {P = Around state_identify_use s}
      (Keeps-bind (label-Keeps x hx) (λ a0 _. Keeps-bind (label-Keeps y hy) (λ a1 _.
        Keeps-bind (target-Keeps p _ _) (λ _ _. after s st e (declare-Keeps p _ _ st g s r)))))
      (λ st' k. rename_loop-Keeps p uu0 uu1 aa hs s st' k)
rename_loop-Keeps p uu0 uu1 (cons a aa) h s st k = absurd h

rename-Keeps :
    (p : Position) (n : Ast) (nn : Asts)
    → IsHead n
    → AreLabels nn
    → (f : Frame) (s : Scope) (st : Identifying) → At in_module f s st
    → Keeps (λ (r : Ast × Identifying). At in_module f s r.1) (identify_rename p n nn st)
unfolding identify_rename rename_head rename_paths IsHead At Around
rename-Keeps p (ast_path q uu) nn h hs f s st k =
    Keeps-bind
      (rename_loop-Keeps p [] uu _ (aliases-AreAliases p _ (names-AreLabels p uu st.scope nn hs)) s
        st k)
      (λ st' k'. kept k')
rename-Keeps p (ast_alias o (ast_path q uu0) (ast_path r uu1)) nn h hs f s st k =
    Keeps-bind
      (rename_loop-Keeps p uu0 uu1 _ (aliases-AreAliases p _ (names-AreLabels p uu1 st.scope nn hs))
        s st k)
      (λ st' k'. kept k')
rename-Keeps p n nn h hs f s st k = absurd h

-- The pass at every node.
mutual
  unfolding rewrite Formed At Around IsExpression IsPattern IsModule push_declaration

  rewrite-Keeps :
      (m : Mode) (a : Ast)
      → Formed m a
      → (f : Frame) (s : Scope) (st : Identifying) → At m f s st
      → Keeps (λ (r : Ast × Identifying). At m f s r.1) (rewrite a st)
  rewrite-Keeps m empty h f s st k = kept k
  rewrite-Keeps m (docstring p v) h f s st k = kept k
  rewrite-Keeps m (expr_integer p v) h f s st k = kept k
  rewrite-Keeps m (expr_hexinteger p v) h f s st k = kept k
  rewrite-Keeps m (expr_float p v) h f s st k = kept k
  rewrite-Keeps m (expr_complex p v) h f s st k = kept k
  rewrite-Keeps m (expr_character p v) h f s st k = kept k
  rewrite-Keeps m (expr_text p v) h f s st k = kept k
  rewrite-Keeps m (expr_variable p v) h f s st k = variable-Keeps m p v f s st k
  rewrite-Keeps m (expr_wildcard p v) h f s st k = kept k
  rewrite-Keeps m (expr_combinator p nn v) h f s st k =
      Keeps-bind (name-Keeps m p nn v f s st k) (λ (w, st1) k1. kept k1)
  rewrite-Keeps m (expr_operator p nn v) h f s st k =
      Keeps-bind (name-Keeps m p nn v f s st k) (λ (w, st1) k1. kept k1)
  rewrite-Keeps m (ast_path p nn) h f s st k = kept k
  rewrite-Keeps m (ast_alias p x y) (hx, hy) f s st k =
      Keeps-bind (rewrite-Keeps m x hx f s st k)
        (λ (_, st1) k1. Keeps-bind (rewrite-Keeps m y hy f s st1 k1) (λ (_, st2) k2. kept k2))
  rewrite-Keeps in_expression (ast_rename p x ss) (h, _, _) f s st k = absurd h
  rewrite-Keeps in_pattern (ast_rename p x ss) (h, _, _) f s st k = absurd h
  rewrite-Keeps in_module (ast_rename p x ss) (_, h, hs) f s st k =
      rename-Keeps p x ss h hs f s st k
  rewrite-Keeps in_expression (expr_tag p x y) (h, _, _) f s st k = absurd h
  rewrite-Keeps in_pattern (expr_tag p x y) (_, hx, hy) f s st (e, g, q) =
      Keeps-bind (rewrite-Keeps in_pattern x hx f s _ (refl, g, q)) (λ (x0, st1) (e1, g1, q1).
        Keeps-bind (rewrite-Keeps in_expression y hy g1 s _ (refl, q1))
          (λ (y0, st2) (e2, q2). kept (refl, g1, q2)))
  rewrite-Keeps in_module (expr_tag p x y) (h, _, _) f s st k = absurd h
  rewrite-Keeps m (expr_list p ss) hss f s st k =
      Keeps-bind (rewrites-Keeps m ss hss f s st k) (λ (_, st1) k1. kept k1)
  rewrite-Keeps m (expr_list_tail p ss x) (hss, hx) f s st k =
      Keeps-bind (rewrites-Keeps m ss hss f s st k)
        (λ (_, st1) k1. Keeps-bind (rewrite-Keeps m x hx f s st1 k1) (λ (_, st2) k2. kept k2))
  rewrite-Keeps m (expr_tuple p ss) hss f s st k =
      Keeps-bind (rewrites-Keeps m ss hss f s st k) (λ (_, st1) k1. kept k1)
  rewrite-Keeps m (expr_application p ss) hss f s st k =
      Keeps-bind (rewrites-Keeps m ss hss f s st k) (λ (_, st1) k1. kept k1)
  rewrite-Keeps in_expression (expr_match p ss x y) (_, hs, hx, hy) f s st (e, q) =
      Keeps-bind (enter-Keeps st f s q) (λ st0 (e0, g0, q0).
        Keeps-bind (rewrites-Keeps in_pattern ss hs g0 (f ∷ s) _ (refl, g0, q0))
          (λ (ss0, st1) (e1, g1, q1).
            Keeps-bind (rewrite-Keeps in_expression x hx g1 (f ∷ s) _ (refl, q1))
              (λ (x0, st2) (e2, q2).
                Keeps-bind (rewrite-Keeps in_expression y hy g1 (f ∷ s) _ (refl, q2))
                  (λ (y0, st3) (e3, q3).
                    Keeps-bind (leave-Keeps st3 g1 (f ∷ s) q3)
                      (λ st4 (e4, q4). kept (e4 ∙ e3, q4))))))
  rewrite-Keeps in_pattern (expr_match p ss x y) (h, _, _, _) f s st k = absurd h
  rewrite-Keeps in_module (expr_match p ss x y) (h, _, _, _) f s st k = absurd h
  rewrite-Keeps m (expr_block p ss) hss f s st k =
      Keeps-bind (rewrites-Keeps m ss hss f s st k) (λ (_, st1) k1. kept k1)
  rewrite-Keeps m (expr_lambda p ss) hss f s st k =
      Keeps-bind (rewrites-Keeps m ss hss f s st k) (λ (_, st1) k1. kept k1)
  rewrite-Keeps in_expression (expr_let p ss x y) (_, hs, hx, hy) f s st (e, q) =
      Keeps-bind (rewrite-Keeps in_expression x hx f s _ (refl, q)) (λ (x0, st0) (e0, q0).
        Keeps-bind (enter-Keeps st0 f s q0) (λ st1 (e1, g1, q1).
          Keeps-bind (rewrites-Keeps in_pattern ss hs g1 (f ∷ s) _ (refl, g1, q1))
            (λ (ss0, st2) (e2, g2, q2).
              Keeps-bind (rewrite-Keeps in_expression y hy g2 (f ∷ s) _ (refl, q2))
                (λ (y0, st3) (e3, q3).
                  Keeps-bind (leave-Keeps st3 g2 (f ∷ s) q3)
                    (λ st4 (e4, q4). kept (e4 ∙ e3, q4))))))
  rewrite-Keeps in_pattern (expr_let p ss x y) (h, _, _, _) f s st k = absurd h
  rewrite-Keeps in_module (expr_let p ss x y) (h, _, _, _) f s st k = absurd h
  rewrite-Keeps m (expr_try p x y) (hx, hy) f s st k =
      Keeps-bind (rewrite-Keeps m x hx f s st k)
        (λ (_, st1) k1. Keeps-bind (rewrite-Keeps m y hy f s st1 k1) (λ (_, st2) k2. kept k2))
  rewrite-Keeps m (expr_throw p x) hx f s st k =
      Keeps-bind (rewrite-Keeps m x hx f s st k) (λ (_, st1) k1. kept k1)
  rewrite-Keeps m (expr_if p x y z) (hx, hy, hz) f s st k =
      Keeps-bind (rewrite-Keeps m x hx f s st k) (λ (_, st1) k1.
        Keeps-bind (rewrite-Keeps m y hy f s st1 k1)
          (λ (_, st2) k2. Keeps-bind (rewrite-Keeps m z hz f s st2 k2) (λ (_, st3) k3. kept k3)))
  rewrite-Keeps m (expr_statement p x y) (hx, hy) f s st k =
      Keeps-bind (rewrite-Keeps m x hx f s st k)
        (λ (_, st1) k1. Keeps-bind (rewrite-Keeps m y hy f s st1 k1) (λ (_, st2) k2. kept k2))
  rewrite-Keeps m (expr_do p x) hx f s st k =
      Keeps-bind (rewrite-Keeps m x hx f s st k) (λ (_, st1) k1. kept k1)
  rewrite-Keeps m (direct_import p v) h f s st k = kept k
  rewrite-Keeps m (direct_using p ss) hss f s st k =
      Keeps-bind (rewrites-Keeps m ss hss f s st k) (λ (_, st1) k1. kept k1)
  rewrite-Keeps in_expression (decl_namespace p nn ss) (h, _) f s st k = absurd h
  rewrite-Keeps in_pattern (decl_namespace p nn ss) (h, _) f s st k = absurd h
  rewrite-Keeps in_module (decl_namespace p nn ss) (_, hs) f s st (e, g, q) =
      Keeps-bind (enter_space-Keeps nn st g s q) (λ st0 (e0, g0, q0).
        Keeps-bind (rewrites-Keeps in_module ss hs g0 (g ∷ s) st0 (e0 ∙ e, g0, q0))
          (λ (ss0, st1) (e1, g1, q1).
            Keeps-bind (leave-Keeps st1 g1 (g ∷ s) q1) (λ st2 (e2, q2). kept (e2 ∙ e1, g, q2))))
  rewrite-Keeps in_expression (decl_data p x ss) (h, _) f s st k = absurd h
  rewrite-Keeps in_pattern (decl_data p x ss) (h, _) f s st k = absurd h
  rewrite-Keeps in_module (decl_data p x ss) (_, hs) f s st (e, g, q) =
      Keeps-bind (rewrites-Keeps in_expression ss hs g s _ (refl, q))
        (λ (ss0, st1) (e1, q1). kept (e1, g, q1))
  rewrite-Keeps in_expression (decl_definition p x y z) (h, _, _) f s st k = absurd h
  rewrite-Keeps in_pattern (decl_definition p x y z) (h, _, _) f s st k = absurd h
  rewrite-Keeps in_module (decl_definition p x y z) (_, hx, hz) f s st (e, g, q) =
      Keeps-bind (rewrite-Keeps in_expression x hx g s _ (refl, q)) (λ (x0, st0) (e0, q0).
        Keeps-bind (rewrite-Keeps in_expression z hz g s st0 (e0, q0))
          (λ (z0, st1) (e1, q1). kept (e1, g, q1)))
  rewrite-Keeps in_expression (decl_value p x y z) (h, _, _) f s st k = absurd h
  rewrite-Keeps in_pattern (decl_value p x y z) (h, _, _) f s st k = absurd h
  rewrite-Keeps in_module (decl_value p x y z) (_, hx, hz) f s st (e, g, q) =
      Keeps-bind (rewrite-Keeps in_expression x hx g s _ (refl, q)) (λ (x0, st0) (e0, q0).
        Keeps-bind (rewrite-Keeps in_expression z hz g s st0 (e0, q0))
          (λ (z0, st1) (e1, q1). kept (e1, g, q1)))
  rewrite-Keeps in_expression (decl_operator p x y z) (h, _, _) f s st k = absurd h
  rewrite-Keeps in_pattern (decl_operator p x y z) (h, _, _) f s st k = absurd h
  rewrite-Keeps in_module (decl_operator p x y z) (_, hx, hz) f s st (e, g, q) =
      Keeps-bind (rewrite-Keeps in_expression x hx g s _ (refl, q)) (λ (x0, st0) (e0, q0).
        Keeps-bind (rewrite-Keeps in_expression z hz g s st0 (e0, q0))
          (λ (z0, st1) (e1, q1). kept (e1, g, q1)))
  rewrite-Keeps m (ast_wrapper p ss) hss f s st k =
      Keeps-bind (rewrites-Keeps m ss hss f s st k) (λ (_, st1) k1. kept k1)

  rewrites-Keeps :
      (m : Mode) (aa : Asts)
      → FormedOf m aa
      → (f : Frame) (s : Scope) (st : Identifying) → At m f s st
      → Keeps (λ (r : Asts × Identifying). At m f s r.1) (rewrites aa st)
  rewrites-Keeps m nil h f s st k = kept k
  rewrites-Keeps m (cons a aa) (h, hs) f s st k =
      Keeps-bind (rewrite-Keeps m a h f s st k)
        (λ (b, st1) k1. Keeps-bind (rewrites-Keeps m aa hs f s st1 k1) (λ (bb, st2) k2. kept k2))

-- On a tree that is well formed for where it stands (`Formed`), the pass gives a result or throws an error of the
-- program, and does nothing undefined; every scope that it enters is left again: behind an expression
-- the scopes are as they were, and behind a pattern or a declaration all but the innermost one are.
pub rewrite-At :
    (m : Mode) (a : Ast)
    → Formed m a
    → (f : Frame) (s : Scope) (st : Identifying) → At m f s st
    → Keeps (λ (r : Ast × Identifying). At m f s r.1) (rewrite a st)
rewrite-At m a h f s st k = rewrite-Keeps m a h f s st k
