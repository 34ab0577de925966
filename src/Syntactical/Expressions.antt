-- ===== src/Syntactical/Expressions.antt =====
-- The expressions of `Parser` in src/syntactical.hpp. The fuel is the depth to which they are nested.
use egel.Prelude.{ℕ, zero, suc, Bool, true, false, ◌||◌, [], ◌∷◌, if◌then◌else◌}
use egel.Prelude.Text.{Text, codes, text_eq}
use egel.Operators.{
  Sign, less, greater, operator_compare, operator_is_infix, operator_is_prefix,
  operator_is_right_associative,
}
use egel.Lexical.Token.{
  Tag, token_comma, token_eq, token_lparen, token_rparen, token_lsquare, token_rsquare,
  token_lcurly, token_rcurly, token_bar, token_integer, token_hexinteger, token_float,
  token_imaginary, token_char, token_text, token_lambda, token_arrow, token_if, token_then,
  token_else, token_try, token_catch, token_throw, token_let, token_in, token_do,
}
use egel.Syntax.{
  Ast, Asts, nil, cons, empty, expr_list, expr_list_tail, expr_tuple, expr_application, expr_match,
  expr_block, expr_lambda, expr_let, expr_try, expr_throw, expr_if, expr_do,
}
use egel.Syntax.{position as position_of}
use egel.Syntax.Desugar.{one, two}
use egel.Syntactical.{
  Parser, pure, ◌>>=◌, ◌>>◌, choose, stuck, lift, with_rounds, skip, position, tag, is_at,
  error_here, check_token, force_token,
}
use egel.Syntactical.Names.{
  parse_integer, parse_hexinteger, parse_float_or_complex, parse_character, parse_text, is_variable,
  is_combinator, is_operator, peek_operator, is_enclosed_operator, parse_variable, parse_combinator,
  parse_prefix_operator, parse_enclosed_operator,
}
use egel.Syntactical.Patterns.{commas, parse_patterns}

-- The cases of the `switch`; otherwise a name is looked for.
unfoldable pub starts_primary : Tag → Bool
starts_primary token_integer = true
starts_primary token_hexinteger = true
starts_primary token_float = true
starts_primary token_char = true
starts_primary token_text = true
starts_primary token_lparen = true
starts_primary token_if = true
starts_primary token_try = true
starts_primary token_throw = true
starts_primary token_let = true
starts_primary token_do = true
starts_primary token_lsquare = true
starts_primary token_lambda = true
starts_primary token_lcurly = true
starts_primary g = false

unfoldable pub is_primary : Parser Bool
is_primary = do
  g ← tag 0
  o ← is_operator
  c ← is_combinator
  v ← is_variable
  pure (if starts_primary g then true else if o then false else c || v)

-- `(la != "") && operator_is_infix(la)`
unfoldable pub is_infix : Text → Parser Bool
is_infix [] = pure false
is_infix (c ∷ o) = lift (operator_is_infix (c ∷ o))

unfoldable pub is_prefix : Text → Parser Bool
is_prefix [] = pure false
is_prefix (c ∷ o) = lift (operator_is_prefix (c ∷ o))

abbrev pub at_least : Sign → Bool
at_least less = false
at_least s = true

abbrev pub above : Sign → Bool
above greater = true
above s = false

-- The conditions of the outer and the inner loop.
unfoldable pub climbs : Text → Text → Parser Bool
climbs la mp = is_infix la >>= λ b.
    choose b (lift (operator_compare la mp) >>= λ s. pure (at_least s)) (pure false)

-- The second operator is the one that was read, and binds less or is the same and associates right.
unfoldable pub binds : Text → Text → Parser Bool
binds la opt = is_infix la >>= λ b.
    choose b
      (lift (operator_compare la opt) >>= λ s.
        choose (above s) (pure true)
          (choose (text_eq opt la) (lift (operator_is_right_associative la)) (pure false)))
      (pure false)

unfoldable pub parse_name : Parser Ast
parse_name = do
  c ← is_combinator
  v ← is_variable
  choose c parse_combinator
      (choose v parse_variable (error_here (codes "primary expression expected")))

-- The functions that go with `parse_expression`, which is `self`.
module _ (trim : Text → Text) (self : Parser Ast) where
  unfoldable pub parse_match : Parser Ast
  parse_match = do
    p ← position
    mm ← parse_patterns trim
    force_token token_arrow
    e ← self
    pure (expr_match p mm empty e)

  -- `do { skip(); ... } while (tag() == TOKEN_BAR)`
  unfoldable pub matches_loop : ℕ → Parser Asts
  matches_loop zero = stuck
  matches_loop (suc n) = do
    skip
    m ← parse_match
    b ← is_at 0 token_bar
    choose b (matches_loop n >>= λ mm. pure (cons m mm)) (pure (one m))

  unfoldable pub parse_block : Parser Ast
  parse_block = do
    p ← position
    check_token token_lsquare
    mm ← with_rounds matches_loop
    force_token token_rsquare
    pure (expr_block p mm)

  unfoldable pub parse_lambda : Parser Ast
  parse_lambda = do
    p ← position
    check_token token_lambda
    mm ← with_rounds matches_loop
    pure (expr_lambda p mm)

  unfoldable pub parse_tuple : Parser Ast
  parse_tuple = do
    p ← position
    force_token token_lparen
    q ← self
    b ← is_at 0 token_comma
    choose b
        (with_rounds (commas self self) >>= λ qq.
          force_token token_rparen >> pure (expr_tuple p (cons q qq)))
        (force_token token_rparen >> pure q)

  unfoldable pub parse_enclosed : Parser Ast
  parse_enclosed = is_enclosed_operator >>= λ b. choose b parse_enclosed_operator parse_tuple

  unfoldable pub parse_list : Parser Ast
  parse_list = do
    p ← position
    force_token token_lcurly
    b ← is_at 0 token_rcurly
    choose b (skip >> pure (expr_list p nil)) do
      q ← self
      qq ← with_rounds (commas self self)
      c ← is_at 0 token_bar
      choose c
          (skip >> self >>= λ l. force_token token_rcurly >> pure (expr_list_tail p (cons q qq) l))
          (force_token token_rcurly >> pure (expr_list p (cons q qq)))

  unfoldable pub parse_if : Parser Ast
  parse_if = do
    p ← position
    force_token token_if
    e0 ← self
    force_token token_then
    e1 ← self
    force_token token_else
    e2 ← self
    pure (expr_if p e0 e1 e2)

  unfoldable pub parse_try : Parser Ast
  parse_try = do
    p ← position
    force_token token_try
    e0 ← self
    force_token token_catch
    e1 ← self
    pure (expr_try p e0 e1)

  unfoldable pub parse_throw : Parser Ast
  parse_throw = do p ← position; force_token token_throw; e0 ← self; pure (expr_throw p e0)

  unfoldable pub parse_let : Parser Ast
  parse_let = do
    p ← position
    force_token token_let
    ee ← parse_patterns trim
    force_token token_eq
    e1 ← self
    force_token token_in
    e2 ← self
    pure (expr_let p ee e1 e2)

  unfoldable pub parse_do : Parser Ast
  parse_do = do p ← position; force_token token_do; e0 ← self; pure (expr_do p e0)

  unfoldable pub primary_case : Tag → Parser Ast
  primary_case token_integer = parse_integer
  primary_case token_hexinteger = parse_hexinteger
  primary_case token_float = parse_float_or_complex trim
  primary_case token_imaginary = parse_float_or_complex trim
  primary_case token_char = parse_character
  primary_case token_text = parse_text
  primary_case token_lparen = parse_enclosed
  primary_case token_lcurly = parse_list
  primary_case token_lsquare = parse_block
  primary_case token_lambda = parse_lambda
  primary_case token_if = parse_if
  primary_case token_try = parse_try
  primary_case token_throw = parse_throw
  primary_case token_let = parse_let
  primary_case token_do = parse_do
  primary_case g = parse_name

  unfoldable pub parse_primary : Parser Ast
  parse_primary = tag 0 >>= λ g. primary_case g

  unfoldable pub prefix_loop : ℕ → Parser Ast
  prefix_loop zero = stuck
  prefix_loop (suc n) = do
    s ← peek_operator
    b ← is_prefix s
    choose b
        (parse_prefix_operator >>= λ o.
          prefix_loop n >>= λ e. pure (expr_application (position_of o) (two o e)))
        parse_primary

  unfoldable pub parse_primary_prefix : Parser Ast
  parse_primary_prefix = with_rounds prefix_loop

  unfoldable pub arguments_loop : ℕ → Parser Asts
  arguments_loop zero = stuck
  arguments_loop (suc n) = do
    b ← is_primary
    choose b (parse_primary_prefix >>= λ e. arguments_loop n >>= λ ee. pure (cons e ee)) (pure nil)

  unfoldable pub parse_primaries : Parser Ast
  parse_primaries = do
    p ← position
    e ← parse_primary_prefix
    b ← is_primary
    choose b (with_rounds arguments_loop >>= λ ee. pure (expr_application p (cons e ee))) (pure e)
