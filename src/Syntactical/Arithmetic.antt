-- ===== src/Syntactical/Arithmetic.antt =====
-- The operators of src/syntactical.hpp, and expressions as a whole. The fuel of expressions is the depth
-- to which they are nested.
use egel.Prelude.{ℕ, zero, suc, ◌*◌}
use egel.Prelude.Text.{Text, codes}
use egel.Operators.{}
use egel.Lexical.Token.{token_semicolon}
use egel.Syntax.{Ast, expr_application, expr_statement}
use egel.Syntax.Desugar.{three}
use egel.Syntactical.{
  Parser, pure, ◌>>=◌, ◌>>◌, choose, stuck, rounds, with_rounds, skip, position, is_at,
}
use egel.Syntactical.Names.{peek_operator, parse_operator}
use egel.Syntactical.Expressions.{binds, climbs, parse_primaries}

module _ (trim : Text → Text) (self : Parser Ast) where
  -- The outer and the inner loop of `parse_arithmetic_expression_1`; the inner one calls the function.
  unfoldable mutual
    pub arithmetic_outer : ℕ → Text → Ast → Parser Ast
    arithmetic_outer zero mp lhs = stuck
    arithmetic_outer (suc n) mp lhs = do
      la ← peek_operator
      b ← climbs la mp
      choose b
          (position >>= λ p. parse_operator >>= λ op. parse_primaries trim self >>= λ e.
            arithmetic_inner n la e >>= λ rhs.
            arithmetic_outer n mp (expr_application p (three op lhs rhs)))
          (pure lhs)

    pub arithmetic_inner : ℕ → Text → Ast → Parser Ast
    arithmetic_inner zero opt rhs = stuck
    arithmetic_inner (suc n) opt rhs = do
      la ← peek_operator
      b ← binds la opt
      choose b (arithmetic_outer n la rhs >>= λ e. arithmetic_inner n opt e) (pure rhs)

  unfoldable pub parse_arithmetic_expression_1 : Ast → Text → Parser Ast
  parse_arithmetic_expression_1 e mp t = arithmetic_outer (2 * rounds t) mp e t

  unfoldable pub parse_arithmetic_expression : Parser Ast
  parse_arithmetic_expression =
      parse_primaries trim self >>= λ e. parse_arithmetic_expression_1 e (codes "=")

  unfoldable pub parse_sequence : Parser Ast
  parse_sequence = do
    p ← position
    e0 ← parse_arithmetic_expression
    b ← is_at 0 token_semicolon
    choose b (skip >> self >>= λ e1. pure (expr_statement p e0 e1)) (pure e0)

unfoldable pub expression : (Text → Text) → ℕ → Parser Ast
expression trim zero = stuck
expression trim (suc n) = parse_sequence trim (expression trim n)

unfoldable pub parse_expression : (Text → Text) → Parser Ast
parse_expression trim = with_rounds (expression trim)
