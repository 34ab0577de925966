-- ===== src/Syntax/Desugar/Lists.antt =====
-- `pass_list` of src/desugar.hpp takes away the lists, and two calls of it within each other are
-- enough: what the first makes of a tail has no list.
use egel.Prelude.{ℕ, suc, Bool, true, false, ◌≡◌, refl, List, [], ◌∷◌, arith}
use egel.Reader.{Position}
use egel.Syntax.{Ast, Tag}
use egel.Syntax.{tag_expr_combinator, tag_expr_list, tag_expr_application}
use egel.Syntax.Rewrite.{
  Rewriting, Child, Node, on_expr_combinator, on_expr_list, on_expr_list_tail, on_expr_application,
}
use egel.Syntax.Desugar.{list_spine, list_method, rewrite_list}
use egel.Syntax.Desugar.Every.{Every, fits}
use egel.Syntax.Desugar.Makes.{Makes, Makes-bind, MakesOf, is_none, node_tag, Ready}
use egel.Syntax.Desugar.Base.{base-Makes}
use egel.Syntax.Desugar.Patterns.{core, HasCore, fits-core}
use egel.Syntax.Desugar.Induction.{rewrite-Makes}
use egel.Syntax.Desugar.Passes.{AllBut, fits-AllBut, is_list, named}

module _ (f g : Tag → Bool) (c : HasCore g) where
  join-Makes :
      (b : Bool) (p : Position) (x l : Child)
      → Makes (Every b g) x.1
      → Makes (Every b g) l.1
      → Makes (Every b g) (list_spine p (x ∷ []) l).1
  unfolding list_spine MakesOf core node_tag Ready is_none
  join-Makes b p (a, m) l h k =
      base-Makes g g b (on_expr_application p _) (fits-core g c b tag_expr_application refl) (
        (
          base-Makes g g b (on_expr_combinator p _ _) (fits-core g c b tag_expr_combinator refl) tt,
          (h, (k, tt)),
        ),
        refl,
      )

  spine-Makes :
      (b : Bool) (p : Position) (ee : List Child) (l : Child)
      → MakesOf b g ee
      → Makes (Every b g) l.1
      → Makes (Every b g) (list_spine p ee l).1
  unfolding list_spine MakesOf
  spine-Makes b p [] l h k = k
  spine-Makes b p ((a, m) ∷ ee) l (h, hs) k =
      join-Makes b p (a, m) (list_spine p ee l) h (spine-Makes b p ee l hs k)

  list-Makes :
      (again : Ast → Rewriting Ast)
      → ((b : Bool) (a : Ast) → Every b g a → Makes (Every b g) (again a))
      → AllBut is_list f g
      → (b : Bool) (n : Node) → fits b f (node_tag n) ≡ true
      → Ready b f g n
      → Makes (Every b g) (list_method again n)
  unfolding list_method node_tag is_list Ready
  list-Makes again k s b (on_expr_list p ee) h r =
      spine-Makes b p ee _ r (k b _ (named g g c b p _))
  list-Makes again k s b (on_expr_list_tail p ee tl) h (r, q) =
      Makes-bind q (λ l e. spine-Makes b p ee _ r (k b l e))
  list-Makes again k s b n h r =
      base-Makes f g b n (fits-AllBut is_list f g s b (node_tag n) refl h) r

module _ (g : Tag → Bool) (c : HasCore g) (e : g tag_expr_list ≡ false) where
  no_list : (b : Bool) → fits b g tag_expr_list ≡ true → ⊥
  unfolding fits
  no_list false h = absurd cc
  no_list true h = absurd (ground (arith, e))

  list_free-Makes :
      (again : Ast → Rewriting Ast) (b : Bool) (n : Node)
      → fits b g (node_tag n) ≡ true
      → Ready b g g n
      → Makes (Every b g) (list_method again n)
  unfolding list_method node_tag
  list_free-Makes again b (on_expr_list p ee) h r = absurd (no_list b h)
  list_free-Makes again b (on_expr_list_tail p ee tl) h r = absurd (no_list b h)
  list_free-Makes again b n h r = base-Makes g g b n h r

  again-Makes :
      (k : ℕ) (b : Bool) (a : Ast) → Every b g a → Makes (Every b g) (rewrite_list (suc k) a)
  unfolding rewrite_list
  again-Makes k b a h = record {
    run =
        (rewrite-Makes g g c (list_method (rewrite_list k)) (list_free-Makes (rewrite_list k)) b a
          h).run;
  }

  pub rewrite_list-Makes :
      (f : Tag → Bool)
      → HasCore f
      → AllBut is_list f g
      → (k : ℕ) (b : Bool) (a : Ast) → Every b f a
      → Makes (Every b g) (rewrite_list (suc (suc k)) a)
  unfolding rewrite_list
  rewrite_list-Makes f d s k b a h = record {
    run =
        (rewrite-Makes f g d (list_method (rewrite_list (suc k)))
          (list-Makes f g c (rewrite_list (suc k)) (again-Makes k) s) b a h).run;
  }
