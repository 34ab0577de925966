-- ===== src/Syntactical/Ends/Expressions.antt =====
-- The expressions of src/syntactical.hpp but for the operators: an expression takes a token, and comes
-- out well formed, if those in it do that have fewer tokens left.
use egel.Prelude.{ℕ, zero, suc, ◌<◌, ◌≤◌, refl, arith, false}
use egel.Prelude.Text.{Text}
use egel.Lexical.Token.{
  Tokens, tag_eq, value, token_comma, token_eq, token_lparen, token_rparen, token_lsquare,
  token_rsquare, token_lcurly, token_rcurly, token_bar, token_lambda, token_arrow, token_if,
  token_then, token_else, token_try, token_catch, token_throw, token_let, token_in, token_do,
}
use egel.Syntax.{Ast, nil}
use egel.Semantical.Identify.Formed.{in_expression}
use egel.Syntactical.{Parser, rounds}
use egel.Syntactical.Expressions.{
  is_primary, parse_match, matches_loop, parse_block, parse_lambda, parse_tuple, parse_enclosed,
  parse_list, parse_if, parse_try, parse_throw, parse_let, parse_do, parse_name,
}
use egel.Syntactical.Ends.{
  left, Ended, Any, Ends, returns, Sees, sees, Ends-bind, Sees-Ends, Sees-bind, Ends-weaken,
  Ends-choose,
}
use egel.Syntactical.Ends.Looks.{
  skip-Ends, position-Sees, tag-Sees, is_at-Sees, error_here-Ends, check_token-Ends,
  force_token-Ends,
}
use egel.Syntactical.Ends.Trees.{
  Leaf, IsName, nil-Trees, cons-Trees, tuple-Tree, list-Tree, list_tail-Tree,
}
use egel.Syntactical.Ends.Trees.Expressions.{
  IsExpr, AreExprs, match-Tree, let-Tree, block-Tree, lambda-Tree, if-Tree, try-Tree, throw-Tree,
  do-Tree,
}
use egel.Syntactical.Ends.Names.{
  is_variable-Sees, is_combinator-Sees, is_operator-Sees, is_enclosed_operator-Sees,
  parse_variable-Ends, parse_combinator-Ends, parse_enclosed_operator-Ends,
}
use egel.Syntactical.Ends.Patterns.{commas-Ends, parse_patterns-Ends}

pub is_primary-Sees : (t : Tokens) → Ended t → Sees Any t (is_primary t)
unfolding is_primary
is_primary-Sees t e = Sees-bind _ (tag-Sees 0 t e) (λ g _.
    Sees-bind _ (is_operator-Sees t e) (λ o _.
      Sees-bind _ (is_combinator-Sees t e)
        (λ c _. Sees-bind _ (is_variable-Sees t e) (λ v _. sees tt))))

pub Leaf-IsExpr : (a : Ast) → Leaf a → IsExpr a
unfolding Leaf
Leaf-IsExpr a h = h in_expression false

pub name-IsExpr : (a : Ast) → IsName a → IsExpr a
unfolding IsName Leaf
name-IsExpr a h = h.2 in_expression false

pub parse_name-Ends : (t : Tokens) → Ended t → Ends IsExpr (left t) (parse_name t)
unfolding parse_name
parse_name-Ends t e = Sees-Ends _ (is_combinator-Sees t e) (λ c _.
    Sees-Ends _ (is_variable-Sees t e) (λ v _.
      Ends-choose _ _ (λ _. Ends-weaken (parse_combinator-Ends t e) (omega arith) name-IsExpr)
        (λ _.
          Ends-choose _ _ (λ _. Ends-weaken (parse_variable-Ends t e) (omega arith) Leaf-IsExpr)
            (λ _. error_here-Ends _ t e))))

module _ (trim : Text → Text) (self : Parser Ast) (m : ℕ)
    (takes : (t : Tokens) → Ended t → left t < m → Ends IsExpr (left t) (self t)) where
  parse_match-Ends :
      (t : Tokens) → Ended t → left t ≤ m → Ends IsExpr (left t) (parse_match trim self t)
  unfolding parse_match tag_eq value
  parse_match-Ends t e l = Sees-Ends _ (position-Sees t e) (λ p _.
      Ends-bind (parse_patterns-Ends trim t e) (λ mm u d k x.
        Ends-bind (force_token-Ends token_arrow u refl d) (λ _ v c j _.
          Ends-bind (takes v c (omega arith))
            (λ a w b i y. returns b (omega arith) (match-Tree p mm a x y)))))

  matches_loop-Ends :
      (n : ℕ) (t : Tokens)
      → Ended t
      → left t < n
      → left t ≤ m
      → 0 < left t
      → Ends AreExprs (left t) (matches_loop trim self n t)
  unfolding matches_loop tag_eq value
  matches_loop-Ends zero t e h l some = absurd (omega arith)
  matches_loop-Ends (suc n) t e h l some =
      Ends-bind (skip-Ends {m = left t} t e (omega arith)) (λ _ u d k _.
        Ends-bind (parse_match-Ends u d (omega arith)) (λ a v c j x.
          Sees-Ends _ (is_at-Sees 0 token_bar v refl c) (λ b more.
            Ends-choose _ _
              (λ q.
                Ends-bind (matches_loop-Ends n v c (omega arith) (omega arith) (more q))
                  (λ aa w b i y. returns b (omega arith) (cons-Trees a aa x y)))
              (λ _. returns c (omega arith) (cons-Trees a nil x nil-Trees)))))

  pub parse_block-Ends :
      (t : Tokens) → Ended t → left t ≤ m → Ends IsExpr (left t) (parse_block trim self t)
  unfolding parse_block tag_eq value
  parse_block-Ends t e l = Sees-Ends _ (position-Sees t e) (λ p _.
      check_token-Ends _ token_lsquare t refl e (λ some.
        Ends-bind (matches_loop-Ends (rounds t) t e (omega arith) l some) (λ aa u d k x.
          Ends-bind (force_token-Ends token_rsquare u refl d)
            (λ _ v c j _. returns c (omega arith) (block-Tree p aa x)))))

  pub parse_lambda-Ends :
      (t : Tokens) → Ended t → left t ≤ m → Ends IsExpr (left t) (parse_lambda trim self t)
  unfolding parse_lambda tag_eq value
  parse_lambda-Ends t e l = Sees-Ends _ (position-Sees t e) (λ p _.
      check_token-Ends _ token_lambda t refl e (λ some.
        Ends-bind (matches_loop-Ends (rounds t) t e (omega arith) l some)
          (λ aa u d k x. returns d k (lambda-Tree p aa x))))

  parse_tuple-Ends :
      (t : Tokens) → Ended t → left t ≤ m → Ends IsExpr (left t) (parse_tuple trim self t)
  unfolding parse_tuple tag_eq value
  parse_tuple-Ends t e l = Sees-Ends _ (position-Sees t e) (λ p _.
      Ends-bind (force_token-Ends token_lparen t refl e) (λ _ u d k _.
        Ends-bind (takes u d (omega arith)) (λ a v c j x.
          Sees-Ends _ (is_at-Sees 0 token_comma v refl c) (λ _ _.
            Ends-choose _ _
              (λ _.
                Ends-bind
                  (commas-Ends self _ _ AreExprs nil-Trees cons-Trees m takes (rounds v) v c
                    (omega arith) (omega arith))
                  (λ aa w b i y.
                    Ends-bind (force_token-Ends token_rparen w refl b) (λ _ z f g _.
                      returns f (omega arith) (tuple-Tree p _ (cons-Trees a aa x y)))))
              (λ _.
                Ends-bind (force_token-Ends token_rparen v refl c)
                  (λ _ w b i _. returns b (omega arith) x))))))

  pub parse_enclosed-Ends :
      (t : Tokens) → Ended t → left t ≤ m → Ends IsExpr (left t) (parse_enclosed trim self t)
  unfolding parse_enclosed
  parse_enclosed-Ends t e l = Sees-Ends _ (is_enclosed_operator-Sees t e) (λ b _.
      Ends-choose _ _
        (λ _. Ends-weaken (parse_enclosed_operator-Ends t e) (omega arith) name-IsExpr)
        (λ _. parse_tuple-Ends t e l))

  pub parse_list-Ends :
      (t : Tokens) → Ended t → left t ≤ m → Ends IsExpr (left t) (parse_list trim self t)
  unfolding parse_list tag_eq value
  parse_list-Ends t e l = Sees-Ends _ (position-Sees t e) (λ p _.
      Ends-bind (force_token-Ends token_lcurly t refl e) (λ _ u d k _.
        Sees-Ends _ (is_at-Sees 0 token_rcurly u refl d) (λ _ _.
          Ends-choose _ _
            (λ _.
              Ends-bind (skip-Ends {m = left t} u d (omega arith))
                (λ _ v c j _. returns c j (list-Tree p nil nil-Trees)))
            (λ _. Ends-bind (takes u d (omega arith)) (λ a v c j x.
              Ends-bind
                (commas-Ends self _ _ AreExprs nil-Trees cons-Trees m takes (rounds v) v c
                  (omega arith) (omega arith))
                (λ aa w b i y. Sees-Ends _ (is_at-Sees 0 token_bar w refl b) (λ _ _.
                  Ends-choose _ _
                    (λ _. Ends-bind (skip-Ends {m = suc (left w)} w b (omega arith)) (λ _ z f g _.
                      Ends-bind (takes z f (omega arith)) (λ last r o n s.
                        Ends-bind (force_token-Ends token_rcurly r refl o) (λ _ r1 o1 n1 _.
                          returns o1 (omega arith)
                            (list_tail-Tree p _ last (cons-Trees a aa x y) s)))))
                    (λ _. Ends-bind (force_token-Ends token_rcurly w refl b) (λ _ z f g _.
                      returns f (omega arith) (list-Tree p _ (cons-Trees a aa x y)))))))))))

  pub parse_if-Ends :
      (t : Tokens) → Ended t → left t ≤ m → Ends IsExpr (left t) (parse_if trim self t)
  unfolding parse_if tag_eq value
  parse_if-Ends t e l = Sees-Ends _ (position-Sees t e) (λ p _.
      Ends-bind (force_token-Ends token_if t refl e) (λ _ u d k _.
        Ends-bind (takes u d (omega arith)) (λ e0 v c j x.
          Ends-bind (force_token-Ends token_then v refl c) (λ _ w b i _.
            Ends-bind (takes w b (omega arith)) (λ e1 t1 d1 k1 y.
              Ends-bind (force_token-Ends token_else t1 refl d1) (λ _ t2 d2 k2 _.
                Ends-bind (takes t2 d2 (omega arith))
                  (λ e2 t3 d3 k3 z. returns d3 (omega arith) (if-Tree p e0 e1 e2 x y z))))))))

  pub parse_try-Ends :
      (t : Tokens) → Ended t → left t ≤ m → Ends IsExpr (left t) (parse_try trim self t)
  unfolding parse_try tag_eq value
  parse_try-Ends t e l = Sees-Ends _ (position-Sees t e) (λ p _.
      Ends-bind (force_token-Ends token_try t refl e) (λ _ u d k _.
        Ends-bind (takes u d (omega arith)) (λ e0 v c j x.
          Ends-bind (force_token-Ends token_catch v refl c) (λ _ w b i _.
            Ends-bind (takes w b (omega arith))
              (λ e1 t1 d1 k1 y. returns d1 (omega arith) (try-Tree p e0 e1 x y))))))

  pub parse_throw-Ends :
      (t : Tokens) → Ended t → left t ≤ m → Ends IsExpr (left t) (parse_throw trim self t)
  unfolding parse_throw tag_eq value
  parse_throw-Ends t e l = Sees-Ends _ (position-Sees t e) (λ p _.
      Ends-bind (force_token-Ends token_throw t refl e) (λ _ u d k _.
        Ends-bind (takes u d (omega arith))
          (λ e0 v c j x. returns c (omega arith) (throw-Tree p e0 x))))

  pub parse_let-Ends :
      (t : Tokens) → Ended t → left t ≤ m → Ends IsExpr (left t) (parse_let trim self t)
  unfolding parse_let tag_eq value
  parse_let-Ends t e l = Sees-Ends _ (position-Sees t e) (λ p _.
      Ends-bind (force_token-Ends token_let t refl e) (λ _ u d k _.
        Ends-bind (parse_patterns-Ends trim u d) (λ mm v c j x.
          Ends-bind (force_token-Ends token_eq v refl c) (λ _ w b i _.
            Ends-bind (takes w b (omega arith)) (λ e1 t1 d1 k1 y.
              Ends-bind (force_token-Ends token_in t1 refl d1) (λ _ t2 d2 k2 _.
                Ends-bind (takes t2 d2 (omega arith))
                  (λ e2 t3 d3 k3 z. returns d3 (omega arith) (let-Tree p mm e1 e2 x y z))))))))

  pub parse_do-Ends :
      (t : Tokens) → Ended t → left t ≤ m → Ends IsExpr (left t) (parse_do trim self t)
  unfolding parse_do tag_eq value
  parse_do-Ends t e l = Sees-Ends _ (position-Sees t e) (λ p _.
      Ends-bind (force_token-Ends token_do t refl e) (λ _ u d k _.
        Ends-bind (takes u d (omega arith))
          (λ e0 v c j x. returns c (omega arith) (do-Tree p e0 x))))
