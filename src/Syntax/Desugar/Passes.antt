-- ===== src/Syntax/Desugar/Passes.antt =====
-- Each pass of src/desugar.hpp ends, and takes away its construct: from a tree whose tags are in `f` it
-- makes one whose tags are in `g`, where `g` has the tags of `f` but for that of the construct.
use egel.Prelude.{Bool, true, false, ◌≡◌, refl, List, [], ◌∷◌, arith}
use egel.Prelude.Text.{Text}
use egel.Reader.{Position}
use egel.Syntax.{Ast, Asts, cons, Tag}
use egel.Syntax.{empty, expr_variable, expr_application, expr_match, expr_block}
use egel.Syntax.{
  tag_expr_wildcard, tag_expr_list, tag_expr_tuple, tag_expr_try, tag_expr_throw, tag_expr_lambda,
  tag_expr_let, tag_expr_if, tag_expr_statement, tag_expr_do,
}
use egel.Syntax.Rewrite.{
  Child, Node, on_expr_wildcard, on_expr_tuple, on_expr_lambda, on_expr_let, on_expr_try,
  on_expr_throw, on_expr_if, on_expr_statement, sources,
}
use egel.Syntax.Desugar.{
  wildcard_method, condition_method, tuple_loop, tuple_method, statement_method, lambda_method,
  let_method, throw_method, try_method, one, two, system, underscore, ignoring,
}
use egel.Syntax.Desugar.Every.{Every, EveryOf, fits, flat, is_nil}
use egel.Syntax.Desugar.Makes.{Makes, Makes-ret, Makes-bind, MakesOf, node_tag, Ready}
use egel.Syntax.Desugar.Base.{base-Makes, rewrites-Makes}
use egel.Syntax.Desugar.Patterns.{core, HasCore, fits-core, patterns-Every}

-- `g` has the tags of `f` but for those that `x` tells.
unfoldable pub AllBut : (Tag → Bool) → (Tag → Bool) → (Tag → Bool) → Type 0
AllBut x f g = (t : Tag) → x t ≡ false → f t ≡ true → g t ≡ true

pub fits-AllBut :
    (x f g : Tag → Bool)
    → AllBut x f g
    → (b : Bool) (t : Tag) → x t ≡ false
    → fits b f t ≡ true
    → fits b g t ≡ true
unfolding AllBut fits
fits-AllBut x f g s false t e h = s t e h
fits-AllBut x f g s true t e h = ground (arith, s t e)

unfoldable pub is_wildcard : Tag → Bool
is_wildcard tag_expr_wildcard = true
is_wildcard t = false

unfoldable pub is_if : Tag → Bool
is_if tag_expr_if = true
is_if t = false

unfoldable pub is_tuple : Tag → Bool
is_tuple tag_expr_tuple = true
is_tuple t = false

unfoldable pub is_list : Tag → Bool
is_list tag_expr_list = true
is_list t = false

unfoldable pub is_do : Tag → Bool
is_do tag_expr_do = true
is_do t = false

unfoldable pub is_statement : Tag → Bool
is_statement tag_expr_statement = true
is_statement t = false

unfoldable pub is_let : Tag → Bool
is_let tag_expr_let = true
is_let t = false

unfoldable pub is_lambda : Tag → Bool
is_lambda tag_expr_lambda = true
is_lambda t = false

unfoldable pub is_throw : Tag → Bool
is_throw tag_expr_throw = true
is_throw t = false

unfoldable pub is_try : Tag → Bool
is_try tag_expr_try = true
is_try t = false

flat-is_let : (t : Tag) → flat t ≡ true → is_let t ≡ false
unfolding flat is_let
flat-is_let tag_expr_let h = absurd cc
flat-is_let t h = refl

module _ (f g : Tag → Bool) (c : HasCore g) where
  pub app :
      (b : Bool) (p : Position) (x : Ast) (aa : Asts)
      → Every b g x
      → EveryOf b g aa
      → Every b g (expr_application p (cons x aa))
  unfolding Every is_nil core
  app b p x aa h hs = (fits-core g c b _ refl, (h, hs), refl)

  -- A block with one match, which binds one pattern.
  pub alternative :
      (b : Bool) (p : Position) (x e : Ast)
      → Every b g x
      → Every b g e
      → Every b g (expr_match p (one x) empty e)
  unfolding Every core
  alternative b p x e h k = (fits-core g c b _ refl, (h, tt), fits-core g c b _ refl, k)

  block :
      (b : Bool) (p : Position) (x : Ast) (aa : Asts)
      → Every b g x
      → EveryOf b g aa
      → Every b g (expr_block p (cons x aa))
  unfolding Every core
  block b p x aa h hs = (fits-core g c b _ refl, (h, hs))

  pub alternatives :
      (b : Bool) (p : Position) (aa : Asts) → EveryOf b g aa → Every b g (expr_block p aa)
  unfolding Every core
  alternatives b p aa hs = (fits-core g c b _ refl, hs)

  pub named : (b : Bool) (p : Position) (v : Text) → Every b g (system p v)
  unfolding Every core
  named b p v = fits-core g c b _ refl

  pub variable : (b : Bool) (p : Position) (v : Text) → Every b g (expr_variable p v)
  unfolding Every core
  variable b p v = fits-core g c b _ refl

  pub of_one : (b : Bool) (x : Ast) → Every b g x → EveryOf b g (one x)
  unfolding Every
  of_one b x h = (h, tt)

  pub of_two : (b : Bool) (x y : Ast) → Every b g x → Every b g y → EveryOf b g (two x y)
  unfolding Every
  of_two b x y h k = (h, (k, tt))

  wild : (b : Bool) (p : Position) → g tag_expr_wildcard ≡ true → Every b g (underscore p)
  unfolding Every fits flat
  wild false p e = e
  wild true p e = rw e refl

  pub wildcard-Makes :
      AllBut is_wildcard f g
      → (b : Bool) (n : Node) → fits b f (node_tag n) ≡ true
      → Ready b f g n
      → Makes (Every b g) (wildcard_method n)
  unfolding wildcard_method node_tag is_wildcard Ready
  wildcard-Makes s b (on_expr_wildcard p v) h r = record { run = λ n. (_, _, refl, variable b p _) }
  wildcard-Makes s b n h r =
      base-Makes f g b n (fits-AllBut is_wildcard f g s b (node_tag n) refl h) r

  pub condition-Makes :
      AllBut is_if f g
      → g tag_expr_wildcard ≡ true
      → (b : Bool) (n : Node) → fits b f (node_tag n) ≡ true
      → Ready b f g n
      → Makes (Every b g) (condition_method n)
  unfolding condition_method node_tag is_if Ready
  condition-Makes s w b (on_expr_if p i t e) h (hi, ht, he) = Makes-bind hi (λ i0 qi.
      Makes-bind ht (λ t0 qt. Makes-bind he (λ e0 qe. Makes-ret (
        app b p _ _
          (block b p _ _ (alternative b p _ e0 (named b p _) qe)
            (of_one b _ (alternative b p _ t0 (wild b p w) qt)))
          (of_one b i0 qi)))))
  condition-Makes s w b n h r = base-Makes f g b n (fits-AllBut is_if f g s b (node_tag n) refl h) r

  tuple_loop-Makes :
      (b : Bool) (p : Position) (a : Ast) (ee : List Child)
      → Every b g a
      → MakesOf b g ee
      → Makes (Every b g) (tuple_loop p a ee)
  unfolding tuple_loop MakesOf
  tuple_loop-Makes b p a [] h r = Makes-ret h
  tuple_loop-Makes b p a ((x, m) ∷ ee) h (r, rs) =
      Makes-bind r (λ e0 q. tuple_loop-Makes b p _ ee (app b p _ _ h (of_one b e0 q)) rs)

  pub tuple-Makes :
      AllBut is_tuple f g
      → (b : Bool) (n : Node) → fits b f (node_tag n) ≡ true
      → Ready b f g n
      → Makes (Every b g) (tuple_method n)
  unfolding tuple_method node_tag is_tuple Ready
  tuple-Makes s b (on_expr_tuple p ee) h r = tuple_loop-Makes b p _ ee (named b p _) r
  tuple-Makes s b n h r = base-Makes f g b n (fits-AllBut is_tuple f g s b (node_tag n) refl h) r

  pub statement-Makes :
      AllBut is_statement f g
      → g tag_expr_wildcard ≡ true
      → g tag_expr_let ≡ true
      → (b : Bool) (n : Node) → fits b f (node_tag n) ≡ true
      → Ready b f g n
      → Makes (Every b g) (statement_method n)
  unfolding statement_method node_tag is_statement Ready Every fits flat
  statement-Makes s w l false (on_expr_statement p r0 l0) h (hr, hl) = Makes-bind hr (λ r1 qr.
      Makes-bind hl (λ l1 ql. Makes-ret (l, of_one true (underscore p) (wild true p w), qr, ql)))
  statement-Makes s w l true (on_expr_statement p r0 l0) h k = absurd (ground arith)
  statement-Makes s w l b n h r =
      base-Makes f g b n (fits-AllBut is_statement f g s b (node_tag n) refl h) r

  pub lambda-Makes :
      AllBut is_lambda f g
      → (b : Bool) (n : Node) → fits b f (node_tag n) ≡ true
      → Ready b f g n
      → Makes (Every b g) (lambda_method n)
  unfolding lambda_method node_tag is_lambda Ready
  lambda-Makes s b (on_expr_lambda p mm) h r =
      Makes-bind (rewrites-Makes g b mm r) (λ aa q. Makes-ret (alternatives b p aa q.0))
  lambda-Makes s b n h r = base-Makes f g b n (fits-AllBut is_lambda f g s b (node_tag n) refl h) r

  shed : AllBut is_let f g → (t : Tag) → fits true f t ≡ true → fits false g t ≡ true
  unfolding fits AllBut
  shed s t h = s t (flat-is_let t (ground arith)) (ground arith)

  bound :
      (p : Position) (ss : Asts) (e : Ast)
      → EveryOf false g ss
      → Every false g e
      → Every false g (expr_match p ss empty e)
  unfolding Every core
  bound p ss e hs h = (fits-core g c false _ refl, hs, fits-core g c false _ refl, h)

  pub let-Makes :
      AllBut is_let f g
      → (b : Bool) (n : Node) → fits b f (node_tag n) ≡ true
      → Ready b f g n
      → Makes (Every b g) (let_method n)
  unfolding let_method node_tag is_let Ready fits flat
  let-Makes s false (on_expr_let p ss x y) h (hs, _, hx, hy) = Makes-bind hx (λ x0 qx.
      Makes-bind hy (λ y0 qy. Makes-ret (
        app false p _ _
          (alternatives false p _
            (of_one false _ (bound p (sources ss) y0 (patterns-Every f g (shed s) _ hs) qy)))
          (of_one false x0 qx))))
  let-Makes s true (on_expr_let p ss x y) h k = absurd (ground arith)
  let-Makes s b n h r = base-Makes f g b n (fits-AllBut is_let f g s b (node_tag n) refl h) r

  pub throw-Makes :
      AllBut is_throw f g
      → (b : Bool) (n : Node) → fits b f (node_tag n) ≡ true
      → Ready b f g n
      → Makes (Every b g) (throw_method n)
  unfolding throw_method node_tag is_throw Ready
  throw-Makes s b (on_expr_throw p e) h r =
      Makes-bind r (λ x q. Makes-ret (app b p _ _ (named b p _) (of_one b x q)))
  throw-Makes s b n h r = base-Makes f g b n (fits-AllBut is_throw f g s b (node_tag n) refl h) r

  ignoring-Every :
      g tag_expr_wildcard ≡ true
      → (b : Bool) (p : Position) (e : Ast) → Every b g e
      → Every b g (ignoring p e)
  ignoring-Every w b p e h = alternatives b p _ (of_one b _ (alternative b p _ e (wild b p w) h))

  pub try-Makes :
      AllBut is_try f g
      → g tag_expr_wildcard ≡ true
      → (b : Bool) (n : Node) → fits b f (node_tag n) ≡ true
      → Ready b f g n
      → Makes (Every b g) (try_method n)
  unfolding try_method node_tag is_try Ready
  try-Makes s w b (on_expr_try p x y) h (hx, hy) = Makes-bind hx (λ x0 qx. Makes-bind hy (λ y0 qy.
      Makes-ret (
        app b p _ _ (named b p _)
          (of_two b _ _ (ignoring-Every w b p y0 qy) (ignoring-Every w b p x0 qx)))))
  try-Makes s w b n h r = base-Makes f g b n (fits-AllBut is_try f g s b (node_tag n) refl h) r
