-- ===== src/Syntactical/Ends/Arithmetic.antt =====
-- `parse_arithmetic_expression_1` and `parse_expression` of src/syntactical.hpp. Each round of the outer
-- loop takes an operator and a term, and the inner loop calls for such rounds only.
use egel.Prelude.{ℕ, zero, suc, ◌*◌, ◌<◌, ◌≤◌, ◌≡◌, refl, arith, Bool, true, false}
use egel.Prelude.Text.{Text, codes}
use egel.Lexical.Token.{Tokens, tag_eq, value, token_semicolon}
use egel.Syntax.{Ast}
use egel.Syntactical.{ok, Parser, rounds, choose}
use egel.Syntactical.Names.{peek_operator}
use egel.Syntactical.Expressions.{climbs}
use egel.Syntactical.Arithmetic.{
  arithmetic_outer, arithmetic_inner, parse_arithmetic_expression_1, parse_arithmetic_expression,
  parse_sequence, expression, parse_expression,
}
use egel.Syntactical.Ends.{
  left, Ended, Ends, returns, Ends-bind, Sees-Ends, Sees-value, Ends-weaken, Ends-choose,
}
use egel.Syntactical.Ends.Looks.{skip-Ends, position-Sees, is_at-Sees}
use egel.Syntactical.Ends.Trees.Expressions.{IsExpr, statement-Tree}
use egel.Syntactical.Ends.Trees.{nil-Trees, cons-Trees, application-Tree}
use egel.Syntactical.Ends.Names.{peek_operator-Sees, parse_operator-Ends}
use egel.Syntactical.Ends.Operators.{IsNonEmpty, IsInfix, climbs-Sees, binds-Sees}
use egel.Syntactical.Ends.Expressions.{name-IsExpr}
use egel.Syntactical.Ends.Primaries.{parse_primaries-Ends}

module _ (trim : Text → Text) (self : Parser Ast) (m : ℕ)
    (takes : (t : Tokens) → Ended t → left t < m → Ends IsExpr (left t) (self t)) where
  -- With fuel `n` the outer loop ends, the inner one does, and the outer one takes a token when its
  -- condition holds.
  unfoldable Outer : ℕ → Type 0
  Outer n =
      (mp : Text) (lhs : Ast) (t : Tokens)
      → Ended t
      → left t ≤ m
      → 2 * left t < n
      → IsNonEmpty mp
      → IsExpr lhs
      → Ends IsExpr (suc (left t)) (arithmetic_outer trim self n mp lhs t)

  unfoldable Inner : ℕ → Type 0
  Inner n =
      (opt : Text) (rhs : Ast) (t : Tokens)
      → Ended t
      → left t ≤ m
      → suc (2 * left t) < n
      → IsNonEmpty opt
      → IsExpr rhs
      → Ends IsExpr (suc (left t)) (arithmetic_inner trim self n opt rhs t)

  unfoldable Taken : ℕ → Type 0
  Taken n =
      (la mp : Text) (lhs : Ast) (t : Tokens)
      → Ended t
      → left t ≤ m
      → 2 * left t ≤ n
      → IsNonEmpty mp
      → IsNonEmpty la
      → IsExpr lhs
      → peek_operator t ≡ ok (la, t)
      → climbs la mp t ≡ ok (true, t)
      → Ends IsExpr (left t) (arithmetic_outer trim self (suc n) mp lhs t)

  Taken-Ends : (n : ℕ) → Outer n → Inner n → Taken n
  unfolding Outer Inner Taken arithmetic_outer choose
  Taken-Ends n outer inner la mp lhs t e l h g f x p q =
      rw (p, q)
        (Sees-Ends _ (position-Sees t e) (λ o _. Ends-bind (parse_operator-Ends t e) (λ op u d k y.
          Ends-bind (parse_primaries-Ends trim self m takes u d (omega arith)) (λ a v c j z.
            Ends-bind (inner la a v c (omega arith) (omega arith) f z) (λ rhs w b i r.
              Ends-weaken
                (outer mp _ w b (omega arith) (omega arith) g (
                  application-Tree o op _ (
                    cons-Trees op _ (name-IsExpr op y)
                      (cons-Trees lhs _ x (cons-Trees rhs _ r nil-Trees)))))
                (omega arith) (λ _ s. s))))))

  step-Ends :
      (n : ℕ)
      → Taken n
      → (b : Bool) (la mp : Text) (lhs : Ast) (t : Tokens) → Ended t
      → left t ≤ m
      → 2 * left t ≤ n
      → IsNonEmpty mp
      → ((b ≡ true) → IsNonEmpty la)
      → IsExpr lhs
      → peek_operator t ≡ ok (la, t)
      → climbs la mp t ≡ ok (b, t)
      → Ends IsExpr (suc (left t)) (arithmetic_outer trim self (suc n) mp lhs t)
  unfolding Taken arithmetic_outer choose
  step-Ends n taken true la mp lhs t e l h g f x p q =
      Ends-weaken (taken la mp lhs t e l h g (f refl) x p q) (omega arith) (λ _ s. s)
  step-Ends n taken false la mp lhs t e l h g f x p q = rw (p, q) (returns e (omega arith) x)

  Outer-Ends : (n : ℕ) → Taken n → Outer (suc n)
  unfolding Outer
  Outer-Ends n taken mp lhs t e l h g x =
      let (la, p, _) = Sees-value (peek_operator-Sees t e) in
      let (b, q, f) = Sees-value (climbs-Sees la mp t g) in
      step-Ends n taken b la mp lhs t e l (omega arith) g f x p q

  Inner-Ends : (n : ℕ) → Taken n → Inner (suc n) → Inner (suc (suc n))
  unfolding Inner Taken arithmetic_inner IsInfix
  Inner-Ends n taken inner opt rhs t e l h g x =
      let (la, p, _) = Sees-value (peek_operator-Sees t e) in
      rw p (
        Sees-Ends _ (binds-Sees la opt t g) (λ b f.
          Ends-choose _ _
            (λ r.
              let (some, climb) = f r in
              Ends-bind (taken la la rhs t e l (omega arith) some some x p climb) (λ a u d k y.
                Ends-weaken (inner opt a u d (omega arith) (omega arith) g y) (omega arith)
                  (λ _ s. s)))
            (λ _. returns e (omega arith) x)))

  loops-Ends : (n : ℕ) → Outer n × Inner n × Inner (suc n)
  unfolding Outer Inner
  loops-Ends zero = (
    λ mp lhs t e l h g x. absurd (omega arith),
    λ opt rhs t e l h g x. absurd (omega arith),
    λ opt rhs t e l h g x. absurd (omega arith),
  )
  loops-Ends (suc n) =
      let (outer, inner, next) = loops-Ends n in
      let taken = Taken-Ends n outer inner in (Outer-Ends n taken, next, Inner-Ends n taken next)

  -- Operators are parsed within twice the rounds that the tokens give.
  parse_arithmetic_expression-Ends :
      (t : Tokens)
      → Ended t
      → left t ≤ m
      → Ends IsExpr (left t) (parse_arithmetic_expression trim self t)
  unfolding parse_arithmetic_expression parse_arithmetic_expression_1 IsNonEmpty Outer
  parse_arithmetic_expression-Ends t e l =
      Ends-bind (parse_primaries-Ends trim self m takes t e l) (λ a u d k x.
        Ends-weaken
          ((loops-Ends (2 * rounds u)).0 (codes "=") a u d (omega arith) (omega arith) tt x)
          (omega arith) (λ _ s. s))

  parse_sequence-Ends :
      (t : Tokens) → Ended t → left t ≤ m → Ends IsExpr (left t) (parse_sequence trim self t)
  unfolding parse_sequence tag_eq value
  parse_sequence-Ends t e l = Sees-Ends _ (position-Sees t e) (λ p _.
      Ends-bind (parse_arithmetic_expression-Ends t e l) (λ a u d k x.
        Sees-Ends _ (is_at-Sees 0 token_semicolon u refl d) (λ b _.
          Ends-choose _ _
            (λ _. Ends-bind (skip-Ends {m = left t} u d (omega arith)) (λ _ v c j _.
              Ends-bind (takes v c (omega arith))
                (λ s w b i y. returns b (omega arith) (statement-Tree p a s x y))))
            (λ _. returns d k x))))

module _ (trim : Text → Text) where
  expression-Ends :
      (n : ℕ) (t : Tokens) → Ended t → left t < n → Ends IsExpr (left t) (expression trim n t)
  unfolding expression
  expression-Ends zero t e h = absurd (omega arith)
  expression-Ends (suc n) t e h =
      parse_sequence-Ends trim (expression trim n) n (expression-Ends n) t e (omega arith)

  -- On tokens that end with the end of file, the parser of expressions gives a well formed expression
  -- and takes a token at least, or throws a syntactical error.
  pub parse_expression-Ends :
      (t : Tokens) → Ended t → Ends IsExpr (left t) (parse_expression trim t)
  unfolding parse_expression
  parse_expression-Ends t e = expression-Ends (rounds t) t e (omega arith)
