-- ===== src/Syntax/FreeVars/Mentions.antt =====
-- The variables that `freevars` of src/transform.hpp finds are told by their last mentions.
use egel.Prelude.{
  Bool, Bool-cases, inl, inr, true, false, ◌||◌, ◌≡◌, refl, ap, ◌∙◌, List, [], ◌∷◌, arith, Option,
  none, some, if◌then◌else◌,
}
use mathlib.Core.Path.{subst}
use egel.Prelude.Text.{Text, text_eq, text_eq_iff, text_eq_refl}
use egel.Syntax.{
  Ast, Asts, nil, cons, empty, docstring, expr_integer, expr_hexinteger, expr_float, expr_complex,
  expr_character, expr_text, expr_variable, expr_wildcard, expr_combinator, expr_operator, ast_path,
  ast_alias, ast_rename, expr_tag, expr_list, expr_list_tail, expr_tuple, expr_application,
  expr_match, expr_block, expr_lambda, expr_let, expr_try, expr_throw, expr_if, expr_statement,
  expr_do, direct_import, direct_using, decl_namespace, decl_data, decl_definition, decl_value,
  decl_operator, ast_wrapper,
}
use egel.Syntax.FreeVars.{
  FreevarsState, freevars_insert, freevars_remove, FreeVars, has, insert, remove, set_state,
  visit_variable, visit, visits, freevars,
}
use egel.Syntax.FreeVars.Fate.{later, fate, fates, IsFlat, AreFlat}

-- Whether the set has a variable, after its last mention.
unfoldable pub known : Bool → Option FreevarsState → Bool
known b none = b
known b (some freevars_insert) = true
known b (some freevars_remove) = false

unfoldable Visits : FreevarsState → Text → Option FreevarsState → FreeVars → FreeVars → Type 0
Visits i t o st st' = (st.state ≡ i) → (st'.state ≡ i) × (has t st'.fv ≡ known (has t st.fv) o)

known-later : (b : Bool) (o q : Option FreevarsState) → known (known b o) q ≡ known b (later o q)
unfolding known
known-later b o none = refl
known-later b o (some freevars_insert) = refl
known-later b o (some freevars_remove) = refl

seq-Visits :
    (i : FreevarsState) (t : Text) (o q : Option FreevarsState) (st st1 st2 : FreeVars)
    → Visits i t o st st1
    → Visits i t q st1 st2
    → Visits i t (later o q) st st2
unfolding Visits
seq-Visits i t o q st st1 st2 h k e =
    let (e1, h1) = h e in
    let (e2, h2) = k e1 in (e2, h2 ∙ (ap (λ b. known b q) h1 ∙ known-later (has t st.fv) o q))

none-Visits : (i : FreevarsState) (t : Text) (st : FreeVars) → Visits i t none st st
unfolding Visits known
none-Visits i t st e = (e, refl)

has-insert : (t v : Text) (s : List Text) → has t (insert v s) ≡ (has t s || text_eq v t)
unfolding has insert
has-insert t v s = elim (Bool-cases (has v s)) [
  | inl h ↦ rw h (already (text_eq v t) refl h)
  | inr h ↦ rw h (ground arith)
]
  where
    already : (b : Bool) → text_eq v t ≡ b → has v s ≡ true → has t s ≡ (has t s || b)
    already true e h =
        let k : has t s ≡ true = subst (λ x. has x s ≡ true) ((text_eq_iff v t).0 e) h in rw k refl
    already false e h = ground arith

has-remove :
    (t v : Text) (s : List Text) → has t (remove v s) ≡ (if text_eq v t then false else has t s)
unfolding has remove
has-remove t v [] = elim (Bool-cases (text_eq v t)) [ inl e ↦ rw e refl | inr e ↦ rw e refl ]
has-remove t v (w ∷ s) = elim (Bool-cases (text_eq w v)) [
  | inl h ↦ rw (h, has-remove t v s, (text_eq_iff w v).0 h) (absorb (text_eq v t) (has t s))
  | inr h ↦ rw (h, has-remove t v s) (other (text_eq w t) refl h)
]
  where
    absorb : (b c : Bool) → (if b then false else c) ≡ (if b then false else b || c)
    absorb true c = refl
    absorb false c = refl

    other :
        (b : Bool)
        → text_eq w t ≡ b
        → text_eq w v ≡ false
        → (b || (if text_eq v t then false else has t s))
          ≡ (if text_eq v t then false else b || has t s)
    other false e h = refl
    other true e h = let p : text_eq v t ≡ false = differ e h in rw p refl
      where
        differ : text_eq w t ≡ true → text_eq w v ≡ false → text_eq v t ≡ false
        differ e h = elim (Bool-cases (text_eq v t)) [
          | inl q ↦
              let a = (text_eq_iff w t).0 e in
              let b = (text_eq_iff v t).0 q in let r = text_eq_refl v in cc
          | inr q ↦ q
        ]

insert-Visits :
    (t v : Text) (st : FreeVars)
    → Visits freevars_insert t
        (if text_eq v t then some freevars_insert else none)
        st
        (visit_variable st.state v st)
unfolding Visits known visit_variable
insert-Visits t v st e = rw e (refl, has-insert t v st.fv ∙ added (has t st.fv) (text_eq v t))
  where
    added : (b c : Bool) → (b || c) ≡ known b (if c then some freevars_insert else none)
    added true true = refl
    added false true = refl
    added true false = refl
    added false false = refl

remove-Visits :
    (t v : Text) (st : FreeVars)
    → Visits freevars_remove t
        (if text_eq v t then some freevars_remove else none)
        st
        (visit_variable st.state v st)
unfolding Visits known visit_variable
remove-Visits t v st e = rw e (refl, has-remove t v st.fv ∙ taken (has t st.fv) (text_eq v t))
  where
    taken :
        (b c : Bool) → (if c then false else b) ≡ known b (if c then some freevars_remove else none)
    taken b true = refl
    taken b false = refl

binder-Visits :
    (t : Text) (o q : Option FreevarsState) (st st1 st2 : FreeVars)
    → Visits freevars_insert t o st st1
    → Visits freevars_remove t q (set_state freevars_remove st1) st2
    → Visits freevars_insert t (later o q) st (set_state freevars_insert st2)
unfolding Visits
binder-Visits t o q st st1 st2 h k e =
    let (e1, h1) = h e in
    let (e2, h2) = k refl in (refl, h2 ∙ (ap (λ b. known b q) h1 ∙ known-later (has t st.fv) o q))

mutual
  unfolding visit fate IsFlat

  visit-Visits :
      (i : FreevarsState) (t : Text) (a : Ast)
      → IsFlat i a
      → (st : FreeVars) → Visits i t (fate i t a) st (visit a st)
  visit-Visits i t empty h st = none-Visits i t st
  visit-Visits i t (docstring p v) h st = none-Visits i t st
  visit-Visits i t (expr_integer p v) h st = none-Visits i t st
  visit-Visits i t (expr_hexinteger p v) h st = none-Visits i t st
  visit-Visits i t (expr_float p v) h st = none-Visits i t st
  visit-Visits i t (expr_complex p v) h st = none-Visits i t st
  visit-Visits i t (expr_character p v) h st = none-Visits i t st
  visit-Visits i t (expr_text p v) h st = none-Visits i t st
  visit-Visits freevars_insert t (expr_variable p v) h st = insert-Visits t v st
  visit-Visits freevars_remove t (expr_variable p v) h st = remove-Visits t v st
  visit-Visits i t (expr_wildcard p v) h st = none-Visits i t st
  visit-Visits i t (expr_combinator p nn v) h st = none-Visits i t st
  visit-Visits i t (expr_operator p nn v) h st = none-Visits i t st
  visit-Visits i t (ast_path p nn) h st = none-Visits i t st
  visit-Visits i t (ast_alias p x y) (hx, hy) st =
      seq-Visits i t _ _ st _ _ (visit-Visits i t x hx st) (visit-Visits i t y hy _)
  visit-Visits i t (ast_rename p x ss) (hx, hss) st =
      seq-Visits i t _ _ st _ _ (visit-Visits i t x hx st) (visits-Visits i t ss hss _)
  visit-Visits i t (expr_tag p x y) (hx, hy) st =
      seq-Visits i t _ _ st _ _ (visit-Visits i t x hx st) (visit-Visits i t y hy _)
  visit-Visits i t (expr_list p ss) hss st = visits-Visits i t ss hss st
  visit-Visits i t (expr_list_tail p ss x) (hss, hx) st =
      seq-Visits i t _ _ st _ _ (visits-Visits i t ss hss st) (visit-Visits i t x hx _)
  visit-Visits i t (expr_tuple p ss) hss st = visits-Visits i t ss hss st
  visit-Visits i t (expr_application p ss) hss st = visits-Visits i t ss hss st
  visit-Visits freevars_insert t (expr_match p ss x y) (hs, hx, hy) st =
      binder-Visits t _ _ st _ _
        (seq-Visits freevars_insert t _ _ st _ _ (visit-Visits freevars_insert t x hx st)
          (visit-Visits freevars_insert t y hy _))
        (visits-Visits freevars_remove t ss hs _)
  visit-Visits freevars_remove t (expr_match p ss x y) h st = absurd h
  visit-Visits i t (expr_block p ss) hss st = visits-Visits i t ss hss st
  visit-Visits i t (expr_lambda p ss) hss st = visits-Visits i t ss hss st
  visit-Visits freevars_insert t (expr_let p ss x y) (hs, hx, hy) st =
      binder-Visits t _ _ st _ _
        (seq-Visits freevars_insert t _ _ st _ _ (visit-Visits freevars_insert t x hx st)
          (visit-Visits freevars_insert t y hy _))
        (visits-Visits freevars_remove t ss hs _)
  visit-Visits freevars_remove t (expr_let p ss x y) h st = absurd h
  visit-Visits i t (expr_try p x y) (hx, hy) st =
      seq-Visits i t _ _ st _ _ (visit-Visits i t x hx st) (visit-Visits i t y hy _)
  visit-Visits i t (expr_throw p x) hx st = visit-Visits i t x hx st
  visit-Visits i t (expr_if p x y z) (hx, hy, hz) st =
      seq-Visits i t _ _ st _ _
        (seq-Visits i t _ _ st _ _ (visit-Visits i t x hx st) (visit-Visits i t y hy _))
        (visit-Visits i t z hz _)
  visit-Visits i t (expr_statement p x y) (hx, hy) st =
      seq-Visits i t _ _ st _ _ (visit-Visits i t x hx st) (visit-Visits i t y hy _)
  visit-Visits i t (expr_do p x) hx st = visit-Visits i t x hx st
  visit-Visits i t (direct_import p v) h st = none-Visits i t st
  visit-Visits i t (direct_using p ss) hss st = visits-Visits i t ss hss st
  visit-Visits i t (decl_namespace p nn ss) hss st = visits-Visits i t ss hss st
  visit-Visits i t (decl_data p x ss) (hx, hss) st =
      seq-Visits i t _ _ st _ _ (visit-Visits i t x hx st) (visits-Visits i t ss hss _)
  visit-Visits i t (decl_definition p x y z) (hx, hy, hz) st =
      seq-Visits i t _ _ st _ _
        (seq-Visits i t _ _ st _ _ (visit-Visits i t x hx st) (visit-Visits i t y hy _))
        (visit-Visits i t z hz _)
  visit-Visits i t (decl_value p x y z) (hx, hy, hz) st =
      seq-Visits i t _ _ st _ _
        (seq-Visits i t _ _ st _ _ (visit-Visits i t x hx st) (visit-Visits i t y hy _))
        (visit-Visits i t z hz _)
  visit-Visits i t (decl_operator p x y z) (hx, hy, hz) st =
      seq-Visits i t _ _ st _ _
        (seq-Visits i t _ _ st _ _ (visit-Visits i t x hx st) (visit-Visits i t y hy _))
        (visit-Visits i t z hz _)
  visit-Visits i t (ast_wrapper p ss) hss st = visits-Visits i t ss hss st

  visits-Visits :
      (i : FreevarsState) (t : Text) (aa : Asts)
      → AreFlat i aa
      → (st : FreeVars) → Visits i t (fates i t aa) st (visits aa st)
  visits-Visits i t nil h st = none-Visits i t st
  visits-Visits i t (cons a aa) (h, hs) st =
      seq-Visits i t _ _ st _ _ (visit-Visits i t a h st) (visits-Visits i t aa hs _)

-- In a tree no pattern of which has patterns in it, a variable is among the free variables exactly
-- if it is mentioned and its last mention, in the order in which the tree is visited, is outside of
-- the patterns: the pattern of a match or a let removes what it mentions, also where it was
-- mentioned before the match or the let.
pub has-freevars :
    (t : Text) (a : Ast)
    → IsFlat freevars_insert a
    → has t (freevars a) ≡ known false (fate freevars_insert t a)
unfolding freevars has Visits
has-freevars t a h =
    (visit-Visits freevars_insert t a h (record { state = freevars_insert; fv = [] }) refl).1
