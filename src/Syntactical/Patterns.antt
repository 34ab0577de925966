-- ===== src/Syntactical/Patterns.antt =====
-- The patterns of `Parser` in src/syntactical.hpp. The fuel is the depth to which patterns are nested.
use egel.Prelude.{ℕ, zero, suc, Bool, true, false, ◌||◌}
use egel.Prelude.Text.{Text, codes}
use egel.Lexical.Token.{
  Tag, token_comma, token_lparen, token_rparen, token_lcurly, token_rcurly, token_colon, token_bar,
  token_integer, token_hexinteger, token_float, token_imaginary, token_char, token_text,
}
use egel.Syntax.{
  Ast, Asts, nil, cons, expr_tag, expr_list, expr_list_tail, expr_tuple, expr_application,
}
use egel.Syntactical.{
  Parser, pure, ◌>>=◌, ◌>>◌, choose, stuck, with_rounds, skip, position, tag, is_at, error_here,
  force_token,
}
use egel.Syntactical.Names.{
  parse_integer, parse_hexinteger, parse_float_or_complex, parse_character, parse_text, is_variable,
  is_wildcard, is_combinator, is_enclosed_operator, parse_variable, parse_wildcard,
  parse_combinator, parse_enclosed_operator,
}

-- The cases of the `switch`; otherwise a name is looked for.
unfoldable pub starts_pattern : Tag → Bool
starts_pattern token_integer = true
starts_pattern token_hexinteger = true
starts_pattern token_float = true
starts_pattern token_char = true
starts_pattern token_text = true
starts_pattern token_lparen = true
starts_pattern token_lcurly = true
starts_pattern g = false

unfoldable pub is_pattern_primary : Parser Bool
is_pattern_primary = do
  g ← tag 0
  w ← is_wildcard
  v ← is_variable
  c ← is_combinator
  pure (starts_pattern g || w || v || c)

unfoldable pub parse_pattern_name : Parser Ast
parse_pattern_name = do
  w ← is_wildcard
  c ← is_combinator
  v ← is_variable
  choose w parse_wildcard
      (choose c parse_combinator (choose v parse_variable (error_here (codes "pattern expected"))))

unfoldable pub parse_pattern_tagged : Parser Ast
parse_pattern_tagged = do
  e ← parse_pattern_name
  b ← is_at 0 token_colon
  choose b (position >>= λ p. skip >> parse_combinator >>= λ c. pure (expr_tag p e c)) (pure e)

-- The functions that go with `parse_pattern_primary`, which is `self`.
module _ (self : Parser Ast) where
  -- `parse_pattern`
  unfoldable pub pattern : Parser Ast
  pattern = do b ← is_pattern_primary; choose b self (error_here (codes "pattern expected"))

  unfoldable pub primaries_loop : ℕ → Parser Asts
  primaries_loop zero = stuck
  primaries_loop (suc n) = do
    b ← is_pattern_primary
    choose b (self >>= λ q. primaries_loop n >>= λ qq. pure (cons q qq)) (pure nil)

  unfoldable pub parse_pattern_primaries : Parser Ast
  parse_pattern_primaries = do
    p ← position
    q ← pattern
    b ← is_pattern_primary
    choose b (with_rounds primaries_loop >>= λ qq. pure (expr_application p (cons q qq))) (pure q)

  -- `while (tag() == TOKEN_COMMA) { skip(); ... }`
  unfoldable pub commas : Parser Ast → ℕ → Parser Asts
  commas one zero = stuck
  commas one (suc n) = do
    b ← is_at 0 token_comma
    choose b (skip >> one >>= λ q. commas one n >>= λ qq. pure (cons q qq)) (pure nil)

  unfoldable pub parse_pattern_tuple : Parser Ast
  parse_pattern_tuple = do
    p ← position
    force_token token_lparen
    q ← parse_pattern_primaries
    b ← is_at 0 token_comma
    choose b
        (with_rounds (commas parse_pattern_primaries) >>= λ qq.
          force_token token_rparen >> pure (expr_tuple p (cons q qq)))
        (force_token token_rparen >> pure q)

  unfoldable pub parse_pattern_enclosed : Parser Ast
  parse_pattern_enclosed =
      is_enclosed_operator >>= λ b. choose b parse_enclosed_operator parse_pattern_tuple

  unfoldable pub parse_pattern_list : Parser Ast
  parse_pattern_list = do
    p ← position
    force_token token_lcurly
    b ← is_at 0 token_rcurly
    choose b (skip >> pure (expr_list p nil)) do
      q ← pattern
      qq ← with_rounds (commas pattern)
      c ← is_at 0 token_bar
      choose c
          (skip >> pattern >>= λ l.
            force_token token_rcurly >> pure (expr_list_tail p (cons q qq) l))
          (force_token token_rcurly >> pure (expr_list p (cons q qq)))

unfoldable pub pattern_case : (Text → Text) → Parser Ast → Tag → Parser Ast
pattern_case trim self token_integer = parse_integer
pattern_case trim self token_hexinteger = parse_hexinteger
pattern_case trim self token_float = parse_float_or_complex trim
pattern_case trim self token_imaginary = parse_float_or_complex trim
pattern_case trim self token_char = parse_character
pattern_case trim self token_text = parse_text
pattern_case trim self token_lparen = parse_pattern_enclosed self
pattern_case trim self token_lcurly = parse_pattern_list self
pattern_case trim self g = parse_pattern_tagged

unfoldable pub parse_pattern_primary : (Text → Text) → ℕ → Parser Ast
parse_pattern_primary trim zero = stuck
parse_pattern_primary trim (suc n) =
    tag 0 >>= λ g. pattern_case trim (parse_pattern_primary trim n) g

unfoldable pub parse_pattern : (Text → Text) → Parser Ast
parse_pattern trim = pattern (with_rounds (parse_pattern_primary trim))

unfoldable pub patterns_loop : (Text → Text) → ℕ → Parser Asts
patterns_loop trim zero = stuck
patterns_loop trim (suc n) = do
  b ← is_pattern_primary
  choose b (parse_pattern trim >>= λ p. patterns_loop trim n >>= λ pp. pure (cons p pp)) (pure nil)

unfoldable pub parse_patterns : (Text → Text) → Parser Asts
parse_patterns trim = with_rounds (patterns_loop trim)
