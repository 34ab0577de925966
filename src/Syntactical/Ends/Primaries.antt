-- ===== src/Syntactical/Ends/Primaries.antt =====
-- The primary expressions of src/syntactical.hpp and applications: each takes a token, and comes out well
-- formed, if the expressions in it do that have fewer tokens left.
use egel.Prelude.{ℕ, zero, suc, ◌<◌, ◌≤◌, arith}
use egel.Prelude.Text.{Text}
use egel.Lexical.Token.{
  Tag, Tokens, token_lparen, token_lsquare, token_lcurly, token_integer, token_hexinteger,
  token_float, token_imaginary, token_char, token_text, token_lambda, token_if, token_try,
  token_throw, token_let, token_do,
}
use egel.Syntax.{Ast, nil}
use egel.Syntactical.{Parser, rounds}
use egel.Syntactical.Expressions.{
  primary_case, parse_primary, prefix_loop, parse_primary_prefix, arguments_loop, parse_primaries,
}
use egel.Syntactical.Ends.{
  left, Ended, Ends, returns, Ends-bind, Sees-Ends, Ends-weaken, Ends-choose,
}
use egel.Syntactical.Ends.Looks.{position-Sees, tag-Sees}
use egel.Syntactical.Ends.Trees.{nil-Trees, cons-Trees, application-Tree}
use egel.Syntactical.Ends.Trees.Expressions.{IsExpr, AreExprs}
use egel.Syntactical.Ends.Names.{
  parse_integer-Ends, parse_hexinteger-Ends, parse_float_or_complex-Ends, parse_character-Ends,
  parse_text-Ends, peek_operator-Sees, parse_prefix_operator-Ends,
}
use egel.Syntactical.Ends.Operators.{is_prefix-Sees}
use egel.Syntactical.Ends.Expressions.{name-IsExpr}
use egel.Syntactical.Ends.Expressions.{
  is_primary-Sees, Leaf-IsExpr, parse_enclosed-Ends, parse_list-Ends, parse_block-Ends,
  parse_lambda-Ends, parse_if-Ends, parse_try-Ends, parse_throw-Ends, parse_let-Ends, parse_do-Ends,
  parse_name-Ends,
}

module _ (trim : Text → Text) (self : Parser Ast) (m : ℕ)
    (takes : (t : Tokens) → Ended t → left t < m → Ends IsExpr (left t) (self t)) where
  primary_case-Ends :
      (g : Tag) (t : Tokens)
      → Ended t
      → left t ≤ m
      → Ends IsExpr (left t) (primary_case trim self g t)
  unfolding primary_case
  primary_case-Ends token_integer t e l =
      Ends-weaken (parse_integer-Ends t e) (omega arith) Leaf-IsExpr
  primary_case-Ends token_hexinteger t e l =
      Ends-weaken (parse_hexinteger-Ends t e) (omega arith) Leaf-IsExpr
  primary_case-Ends token_float t e l =
      Ends-weaken (parse_float_or_complex-Ends trim t e) (omega arith) Leaf-IsExpr
  primary_case-Ends token_imaginary t e l =
      Ends-weaken (parse_float_or_complex-Ends trim t e) (omega arith) Leaf-IsExpr
  primary_case-Ends token_char t e l =
      Ends-weaken (parse_character-Ends t e) (omega arith) Leaf-IsExpr
  primary_case-Ends token_text t e l = Ends-weaken (parse_text-Ends t e) (omega arith) Leaf-IsExpr
  primary_case-Ends token_lparen t e l = parse_enclosed-Ends trim self m takes t e l
  primary_case-Ends token_lcurly t e l = parse_list-Ends trim self m takes t e l
  primary_case-Ends token_lsquare t e l = parse_block-Ends trim self m takes t e l
  primary_case-Ends token_lambda t e l = parse_lambda-Ends trim self m takes t e l
  primary_case-Ends token_if t e l = parse_if-Ends trim self m takes t e l
  primary_case-Ends token_try t e l = parse_try-Ends trim self m takes t e l
  primary_case-Ends token_throw t e l = parse_throw-Ends trim self m takes t e l
  primary_case-Ends token_let t e l = parse_let-Ends trim self m takes t e l
  primary_case-Ends token_do t e l = parse_do-Ends trim self m takes t e l
  primary_case-Ends g t e l = parse_name-Ends t e

  prefix_loop-Ends :
      (n : ℕ) (t : Tokens)
      → Ended t
      → left t < n
      → left t ≤ m
      → Ends IsExpr (left t) (prefix_loop trim self n t)
  unfolding prefix_loop parse_primary
  prefix_loop-Ends zero t e h l = absurd (omega arith)
  prefix_loop-Ends (suc n) t e h l = Sees-Ends _ (peek_operator-Sees t e) (λ s _.
      Sees-Ends _ (is_prefix-Sees s t) (λ b _.
        Ends-choose _ _
          (λ _. Ends-bind (parse_prefix_operator-Ends t e) (λ o u d k x.
            Ends-bind (prefix_loop-Ends n u d (omega arith) (omega arith)) (λ a v c j y.
              returns c (omega arith) (
                application-Tree _ o _
                  (cons-Trees o _ (name-IsExpr o x) (cons-Trees a nil y nil-Trees))))))
          (λ _. Sees-Ends _ (tag-Sees 0 t e) (λ g _. primary_case-Ends g t e l))))

  arguments_loop-Ends :
      (n : ℕ) (t : Tokens)
      → Ended t
      → left t < n
      → left t ≤ m
      → Ends AreExprs (suc (left t)) (arguments_loop trim self n t)
  unfolding arguments_loop parse_primary_prefix
  arguments_loop-Ends zero t e h l = absurd (omega arith)
  arguments_loop-Ends (suc n) t e h l = Sees-Ends _ (is_primary-Sees t e) (λ b _.
      Ends-choose _ _
        (λ _. Ends-bind (prefix_loop-Ends (rounds t) t e (omega arith) l) (λ a u d k x.
          Ends-bind (arguments_loop-Ends n u d (omega arith) (omega arith))
            (λ aa v c j y. returns c (omega arith) (cons-Trees a aa x y))))
        (λ _. returns e (omega arith) nil-Trees))

  pub parse_primaries-Ends :
      (t : Tokens) → Ended t → left t ≤ m → Ends IsExpr (left t) (parse_primaries trim self t)
  unfolding parse_primaries parse_primary_prefix
  parse_primaries-Ends t e l = Sees-Ends _ (position-Sees t e) (λ p _.
      Ends-bind (prefix_loop-Ends (rounds t) t e (omega arith) l) (λ a u d k x.
        Sees-Ends _ (is_primary-Sees u d) (λ b _.
          Ends-choose _ _
            (λ _.
              Ends-bind (arguments_loop-Ends (rounds u) u d (omega arith) (omega arith))
                (λ aa v c j y.
                  returns c (omega arith) (application-Tree p a aa (cons-Trees a aa x y))))
            (λ _. returns d k x))))
