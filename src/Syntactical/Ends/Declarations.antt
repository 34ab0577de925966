-- ===== src/Syntactical/Ends/Declarations.antt =====
-- The declarations, directives and lines of src/syntactical.hpp: each takes a token, and a module comes
-- out well formed.
use egel.Prelude.{ℕ, zero, suc, ◌<◌, ◌≤◌, refl, arith}
use egel.Prelude.Text.{Text}
use egel.Lexical.Token.{
  Tag, Tokens, tag_eq, value, token_eq, token_lparen, token_rparen, token_data, token_def,
  token_namespace, token_val,
}
use egel.Syntax.{Ast}
use egel.Syntactical.Names.{parse_combinator}
use egel.Syntactical.{Parser, rounds, error_at}
use egel.Syntactical.Declarations.{
  parse_decl_data, parse_body, parse_decl_definition, parse_decl_value, until, parse_decl_namespace,
}
use egel.Syntactical.Ends.{
  left, Ended, Ends, returns, raises, Ends-bind, Sees-Ends, Ends-weaken, Ends-choose,
}
use egel.Syntactical.Ends.Looks.{position-Sees, is_at-Any, force_token-Ends}
use egel.Syntactical.Ends.Trees.{IsDoc, nil-Trees, cons-Trees}
use egel.Syntactical.Ends.Trees.Expressions.{IsExpr, AreExprs}
use egel.Syntactical.Ends.Trees.Declarations.{
  IsDecl, AreDecls, namespace-Tree, data-Tree, definition-Tree, operator-Tree, value-Tree,
}
use egel.Syntactical.Ends.Names.{
  parse_docstring_option-Ends, is_combinator-Sees, is_operator-Sees, parse_combinator-Ends,
  parse_operator-Ends, parse_namespace-Ends,
}
use egel.Syntactical.Ends.Patterns.{commas-Ends}
use egel.Syntactical.Ends.Expressions.{name-IsExpr}
use egel.Syntactical.Ends.Arithmetic.{parse_expression-Ends}

combinator-IsExpr :
    (m : ℕ) (t : Tokens) → Ended t → left t < m → Ends IsExpr (left t) (parse_combinator t)
combinator-IsExpr m t e l = Ends-weaken (parse_combinator-Ends t e) (omega arith) name-IsExpr

pub parse_decl_data-Ends : (t : Tokens) → Ended t → Ends IsDecl (left t) (parse_decl_data t)
unfolding parse_decl_data tag_eq value
parse_decl_data-Ends t e = Sees-Ends _ (position-Sees t e) (λ p _.
    Ends-bind (force_token-Ends token_data t refl e) (λ _ u d k _.
      Ends-bind (parse_docstring_option-Ends u d) (λ doc v c j h.
        Ends-bind (parse_combinator-Ends v c) (λ n w b i x.
          Ends-bind
            (commas-Ends parse_combinator parse_combinator IsExpr AreExprs nil-Trees cons-Trees
              (rounds w) (combinator-IsExpr (rounds w)) (rounds w) w b (omega arith) (omega arith))
            (λ nn z f g y.
              returns f (omega arith)
                (data-Tree p doc _ h (cons-Trees n nn (name-IsExpr n x) y)))))))

-- The text and the expression of a body.
unfoldable IsBody : Ast × Ast → Type 0
IsBody (doc, e) = IsDoc doc × IsExpr e

module _ (trim : Text → Text) where
  parse_body-Ends : (t : Tokens) → Ended t → Ends IsBody (left t) (parse_body trim t)
  unfolding parse_body IsBody tag_eq value
  parse_body-Ends t e = Ends-bind (force_token-Ends token_eq t refl e) (λ _ u d k _.
      Ends-bind (parse_docstring_option-Ends u d) (λ doc v c j h.
        Ends-bind (parse_expression-Ends trim v c) (λ x w b i y. returns b (omega arith) (h, y))))

  pub parse_decl_definition-Ends :
      (t : Tokens) → Ended t → Ends IsDecl (left t) (parse_decl_definition trim t)
  unfolding parse_decl_definition IsBody error_at tag_eq value
  parse_decl_definition-Ends t e = Sees-Ends _ (position-Sees t e) (λ p _.
      Ends-bind (force_token-Ends token_def t refl e) (λ _ u d k _.
        Sees-Ends _ (is_combinator-Sees u d) (λ _ _. Sees-Ends _ (is_operator-Sees u d) (λ _ _.
          Ends-choose _ _
            (λ _. Ends-bind (parse_combinator-Ends u d) (λ n v c j x.
              Ends-bind (parse_body-Ends v c)
                (λ a w b i y. returns b (omega arith) (definition-Tree p n a.0 a.1 x y.0 y.1))))
            (λ _.
              Ends-choose _ _
                (λ _. Ends-bind (parse_operator-Ends u d) (λ n v c j x.
                  Ends-bind (parse_body-Ends v c)
                    (λ a w b i y. returns b (omega arith) (operator-Tree p n a.0 a.1 x y.0 y.1))))
                (λ _. raises))))))

  pub parse_decl_value-Ends :
      (t : Tokens) → Ended t → Ends IsDecl (left t) (parse_decl_value trim t)
  unfolding parse_decl_value IsBody error_at tag_eq value
  parse_decl_value-Ends t e = Sees-Ends _ (position-Sees t e) (λ p _.
      Ends-bind (force_token-Ends token_val t refl e) (λ _ u d k _.
        Sees-Ends _ (is_combinator-Sees u d) (λ _ _.
          Ends-choose _ _
            (λ _. Ends-bind (parse_combinator-Ends u d) (λ n v c j x.
              Ends-bind (parse_body-Ends v c)
                (λ a w b i y. returns b (omega arith) (value-Tree p n a.0 a.1 x y.0 y.1))))
            (λ _. raises))))

module _ (g : Tag) (one : Parser Ast) (m : ℕ)
    (takes : (t : Tokens) → Ended t → left t < m → Ends IsDecl (left t) (one t)) where
  pub until-Ends :
      (n : ℕ) (t : Tokens)
      → Ended t
      → left t < n
      → left t < m
      → Ends AreDecls (suc (left t)) (until g one n t)
  unfolding until
  until-Ends zero t e h l = absurd (omega arith)
  until-Ends (suc n) t e h l = Sees-Ends _ (is_at-Any 0 g t e) (λ _ _.
      Ends-choose _ _ (λ _. returns e (omega arith) nil-Trees)
        (λ _. Ends-bind (takes t e l) (λ a u d k x.
          Ends-bind (until-Ends n u d (omega arith) (omega arith))
            (λ aa v c j y. returns c (omega arith) (cons-Trees a aa x y)))))

pub parse_decl_namespace-Ends :
    (self : Parser Ast) (m : ℕ)
    (takes : (t : Tokens) → Ended t → left t < m → Ends IsDecl (left t) (self t)) (t : Tokens)
    → Ended t
    → left t ≤ m
    → Ends IsDecl (left t) (parse_decl_namespace self t)
unfolding parse_decl_namespace tag_eq value
parse_decl_namespace-Ends self m takes t e l = Sees-Ends _ (position-Sees t e) (λ p _.
    Ends-bind (force_token-Ends token_namespace t refl e) (λ _ u d k _.
      Ends-bind (parse_namespace-Ends u d) (λ nn v c j _.
        Ends-bind (force_token-Ends token_lparen v refl c) (λ _ w b i _.
          Ends-bind
            (until-Ends token_rparen self m takes (rounds w) w b (omega arith) (omega arith))
            (λ aa z f g x.
              Ends-bind (force_token-Ends token_rparen z refl f)
                (λ _ r o q _. returns o (omega arith) (namespace-Tree p nn aa x)))))))
