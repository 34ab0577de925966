-- ===== src/Semantical/Identify/Renames.antt =====
-- The renames of `RewriteIdentify` of src/semantical.hpp: what becomes of the names that are renamed.
use egel.Prelude.{ℕ, List, [], ◌∷◌, ◌≡◌, refl, Bool, true}
use egel.Prelude.Text.{Text}
use egel.Reader.{Position}
use egel.Syntax.{Ast, Asts, nil, cons, expr_combinator, expr_operator, ast_path, ast_alias}
use egel.Syntax.Desugar.Every.{Every, EveryOf, fits, flat, flat-fits, is_inert}
use egel.Syntax.{tag_rename}
use egel.Semantical.Identify.Scopes.{names-AreLabels}
use egel.Environment.{Scope, get_global}
use egel.Semantical.{qualified}
use egel.Semantical.Identify.{name_text, target}
use egel.Semantical.Identify.{
  Identifying, rename_head, rename_paths, all_names, rename_names, rename_aliases, rename_one,
  rename_loop, identify_rename,
}
use egel.Semantical.Identify.Formed.{IsLabel, AreLabels, IsHead}
use egel.Semantical.Identify.Yields.{
  AreSources, Yields, Yields-any, Yields-bind, declare-Yields, no_bad_cast, yields,
}

rename_one-Yields :
    (p : Position) (uu0 uu1 : List Text) (a : Ast) (st : Identifying)
    → AreSources st.declarations
    → Yields (λ (r : Identifying). AreSources r.declarations) (rename_one p uu0 uu1 a st)
unfolding rename_one
rename_one-Yields p uu0 uu1 (ast_alias q x y) st d = Yields-bind (Yields-any (name_text x)) (λ a0 _.
    Yields-bind (Yields-any (name_text y)) (λ a1 _.
      Yields-bind
        (Yields-any (target p (qualified uu1 a1) (get_global (qualified uu1 a1) st.scope)))
        (λ _ _. declare-Yields st d p _ _)))
rename_one-Yields p uu0 uu1 _ st d = no_bad_cast

rename_loop-Yields :
    (p : Position) (uu0 uu1 : List Text) (aa : Asts) (st : Identifying)
    → AreSources st.declarations
    → Yields (λ (r : Identifying). AreSources r.declarations) (rename_loop p uu0 uu1 aa st)
unfolding rename_loop
rename_loop-Yields p uu0 uu1 nil st d = yields d
rename_loop-Yields p uu0 uu1 (cons a aa) st d =
    Yields-bind (rename_one-Yields p uu0 uu1 a st d)
      (λ st1 d1. rename_loop-Yields p uu0 uu1 aa st1 d1)

aliases-EveryOf :
    (b : Bool) (p : Position) (aa : Asts)
    → AreLabels aa
    → EveryOf b (λ t. true) aa
    → EveryOf b (λ t. true) (rename_aliases p aa)
unfolding rename_aliases AreLabels IsLabel Every is_inert flat
aliases-EveryOf b p nil h e = tt
aliases-EveryOf b p (cons (ast_alias q x y) aa) (h, hs) (e, es) = (e, aliases-EveryOf b p aa hs es)
aliases-EveryOf b p (cons (expr_combinator q nn n) aa) (h, hs) (e, es) =
    ((flat-fits b _ refl, refl, refl), aliases-EveryOf b p aa hs es)
aliases-EveryOf b p (cons (expr_operator q nn n) aa) (h, hs) (e, es) =
    ((flat-fits b _ refl, refl, refl), aliases-EveryOf b p aa hs es)
aliases-EveryOf b p (cons a aa) (h, hs) e = absurd h

all_names-EveryOf :
    (b : Bool) (p : Position) (l : ℕ) (dd : List Text) → EveryOf b (λ t. true) (all_names p l dd)
unfolding all_names Every flat
all_names-EveryOf b p l [] = tt
all_names-EveryOf b p l (d ∷ dd) = (flat-fits b _ refl, all_names-EveryOf b p l dd)

names-EveryOf :
    (b : Bool) (p : Position) (uu : List Text) (s : Scope) (aa : Asts)
    → EveryOf b (λ t. true) aa
    → EveryOf b (λ t. true) (rename_names p uu s aa)
unfolding rename_names
names-EveryOf b p uu s nil e = all_names-EveryOf b p _ _
names-EveryOf b p uu s (cons a aa) e = e

pub rename-Yields :
    (b : Bool) (p : Position) (n : Ast) (nn : Asts)
    → IsHead n
    → AreLabels nn
    → fits b (λ t. true) tag_rename ≡ true
    → EveryOf b (λ t. true) nn
    → (st : Identifying) → AreSources st.declarations
    → Yields
        (λ (r : Ast × Identifying). Every b (λ t. true) r.0 × AreSources r.1.declarations)
        (identify_rename p n nn st)
unfolding identify_rename rename_head rename_paths IsHead Every is_inert flat
rename-Yields b p (ast_path q uu) nn h hs e es st d =
    Yields-bind (rename_loop-Yields p [] uu _ st d) (λ st1 d1. yields (
      (
        e,
        (flat-fits b _ refl, refl, refl),
        aliases-EveryOf b p _ (names-AreLabels p uu st.scope nn hs)
            (names-EveryOf b p uu st.scope nn es),
      ),
      d1,
    ))
rename-Yields b p (ast_alias o (ast_path q uu0) (ast_path r uu1)) nn h hs e es st d =
    Yields-bind (rename_loop-Yields p uu0 uu1 _ st d) (λ st1 d1. yields (
      (
        e,
        (flat-fits b _ refl, refl, refl),
        aliases-EveryOf b p _ (names-AreLabels p uu1 st.scope nn hs)
            (names-EveryOf b p uu1 st.scope nn es),
      ),
      d1,
    ))
rename-Yields b p n nn h hs e es st d = absurd h
