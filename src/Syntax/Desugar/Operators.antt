-- ===== src/Syntax/Desugar/Operators.antt =====
-- The passes of src/desugar.hpp for do, for the lazy operators and for negative numbers end.
use egel.Prelude.{suc, ◌++◌, Bool, true, false, ◌≡◌, refl, List, [], ◌∷◌, if◌then◌else◌}
use egel.Prelude.Text.{Text, codes, text_eq}
use egel.Prelude.Outcome.{Outcome, ok}
use egel.Reader.{Position}
use egel.Syntax.{
  Ast, nil, cons, Tag, combinator_text, empty, expr_integer, expr_variable, expr_combinator,
  expr_application, expr_match, expr_block,
}
use egel.Syntax.{}
use egel.Syntax.Rewrite.{Rewriting, Node, on_expr_application, on_expr_do}
use egel.Syntax.Desugar.{
  add_var, do_method, lambdify, lazyop_method, monmin_method, unicode_from_int, one, two,
}
use egel.Syntax.Desugar.Every.{Every, fits, is_nil}
use egel.Syntax.Desugar.Makes.{Makes, Makes-ret, Makes-bind, MakesOf, node_tag, Ready}
use egel.Syntax.Desugar.Base.{base-Makes}
use egel.Syntax.Desugar.Patterns.{core, HasCore, fits-core}
use egel.Syntax.Desugar.Passes.{
  AllBut, fits-AllBut, is_do, app, alternative, alternatives, of_one, of_two, variable,
}

Makes-if :
    {A : Type 0} (P : A → Type 0) (c : Bool) {x y : Rewriting A}
    → Makes P x
    → Makes P y
    → Makes P (if c then x else y)
Makes-if P true h k = h
Makes-if P false h k = k

module _ (f g : Tag → Bool) (c : HasCore g) where
  Good : Bool → Outcome Ast → Type 0
  Good b m = (a : Ast) × (m ≡ ok a) × Every b g a

  Good-if : (b d : Bool) (x y : Outcome Ast) → Good b x → Good b y → Good b (if d then x else y)
  Good-if b true x y h k = h
  Good-if b false x y h k = k

  apply_var :
      (b : Bool) (p : Position) (e v : Ast)
      → Every b g e
      → Every b g v
      → Good b (ok (expr_application p (two e v)))
  unfolding Good
  apply_var b p e v h k = (_, refl, app g g c b p e _ h (of_one g g c b v k))

  add_var-Good : (b : Bool) (e v : Ast) → Every b g e → Every b g v → Good b (add_var e v)
  unfolding add_var Every is_nil Good
  add_var-Good b (expr_application p nil) v (t, h, i) k = absurd cc
  add_var-Good b (expr_application p (cons (expr_combinator q nn n) (cons x (cons y ee)))) v
        (t, (hc, (hx, (hy, hs))), i) k =
      let r : Good b (add_var x v) = add_var-Good b x v hx k in
      Good-if b (text_eq (combinator_text nn n) (codes "System::|>")) _ _
        (
          expr_application p (cons (expr_combinator q nn n) (cons r.0 (cons y ee))),
          rw (r.1) refl,
          (t, (hc, (r.2, (hy, hs))), refl),
        )
        (apply_var b p (expr_application p (cons (expr_combinator q nn n) (cons x (cons y ee)))) v
          (t, (hc, (hx, (hy, hs))), refl) k)
  add_var-Good b (expr_application p ee) v h k = apply_var b p (expr_application p ee) v h k
  add_var-Good b e v h k = apply_var b _ e v h k

  pub do-Makes :
      AllBut is_do f g
      → (b : Bool) (n : Node) → fits b f (node_tag n) ≡ true
      → Ready b f g n
      → Makes (Every b g) (do_method n)
  unfolding do_method node_tag is_do Ready Good
  do-Makes s b (on_expr_do p (_, m)) h r = Makes-bind r (λ e0 q. record {
    run = λ n.
        let x : Ast = expr_variable p (codes "DOVAR" ++ unicode_from_int n) in
        let d : Good b (add_var e0 x) = add_var-Good b e0 x q (variable g g c b p _) in
        (
          expr_block p (one (expr_match p (one x) empty d.0)),
          suc n,
          rw (d.1) refl,
          alternatives g g c b p _
              (of_one g g c b _ (alternative g g c b p x d.0 (variable g g c b p _) d.2)),
        );
  })
  do-Makes s b n h r = base-Makes f g b n (fits-AllBut is_do f g s b (node_tag n) refl h) r

module _ (g : Tag → Bool) (c : HasCore g) where
  lambdify-Every : (b : Bool) (e : Ast) → Every b g e → Every b g (lambdify e)
  unfolding lambdify
  lambdify-Every b e h =
      alternatives g g c b _ _
        (of_one g g c b _ (alternative g g c b _ _ e (variable g g c b _ _) h))

  combinator-Every :
      (b : Bool) (p : Position) (nn : List Text) (v : Text) → Every b g (expr_combinator p nn v)
  unfolding Every core
  combinator-Every b p nn v = fits-core g c b _ refl

  integer-Every : (b : Bool) (p : Position) (v : Text) → Every b g (expr_integer p v)
  unfolding Every core
  integer-Every b p v = fits-core g c b _ refl

  pub lazyop-Makes :
      (b : Bool) (n : Node)
      → fits b g (node_tag n) ≡ true
      → Ready b g g n
      → Makes (Every b g) (lazyop_method n)
  unfolding lazyop_method Ready MakesOf core
  lazyop-Makes b (on_expr_application p ((expr_combinator q nn n, m) ∷ (x, hx) ∷ (y, hy) ∷ [])) h
        ((r, (rx, (ry, _))), i) =
      Makes-if (Every b g) _
        (Makes-bind rx (λ x0 qx. Makes-bind ry (λ y0 qy. Makes-ret (
          app g g c b p _ _ (combinator-Every b q nn n)
            (of_two g g c b _ _ qx (lambdify-Every b y0 qy))))))
        (base-Makes g g b _ h ((r, (rx, (ry, tt))), i))
  lazyop-Makes b n h r = base-Makes g g b n h r

  pub monmin-Makes :
      (b : Bool) (n : Node)
      → fits b g (node_tag n) ≡ true
      → Ready b g g n
      → Makes (Every b g) (monmin_method n)
  unfolding monmin_method Ready MakesOf core
  monmin-Makes b (on_expr_application p ((expr_combinator q nn n, m) ∷ (expr_integer o v, k) ∷ []))
        h r =
      Makes-if (Every b g) _ (Makes-ret (integer-Every b o _)) (base-Makes g g b _ h r)
  monmin-Makes b n h r = base-Makes g g b n h r
