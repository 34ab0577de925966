-- ===== src/Syntactical/Names.antt =====
-- The literals, names and operators of `Parser` in src/syntactical.hpp.
use egel.Prelude.{ℕ, zero, suc, ◌+◌, Bool, true, false, ◌&&◌, if◌then◌else◌, List, [], ◌∷◌, ◌++◌}
use egel.Prelude.Text.{Text, codes, text_eq}
use egel.Reader.{Position}
use egel.Environment.{starts_with}
use egel.Lexical.Token.{
  Tag, tag_eq, token_lparen, token_rparen, token_dcolon, token_operator, token_uppercase,
  token_lowercase, token_integer, token_hexinteger, token_float, token_imaginary, token_char,
  token_text,
}
use egel.Syntax.{
  Ast, docstring, expr_integer, expr_hexinteger, expr_float, expr_complex, expr_character,
  expr_text, expr_variable, expr_wildcard, expr_combinator,
}
use egel.Syntactical.{
  Parser, pure, ◌>>=◌, ◌>>◌, choose, stuck, with_rounds, look, skip, position, text, is_at,
  error_here, check_token, force_token,
}

-- A token of a kind, made into a leaf.
unfoldable pub parse_leaf : Tag → (Position → Text → Ast) → Parser Ast
parse_leaf g f = do check_token g; p ← position; s ← text 0; skip; pure (f p s)

unfoldable pub parse_integer : Parser Ast
parse_integer = parse_leaf token_integer expr_integer

unfoldable pub parse_hexinteger : Parser Ast
parse_hexinteger = parse_leaf token_hexinteger expr_hexinteger

unfoldable pub parse_character : Parser Ast
parse_character = parse_leaf token_char expr_character

unfoldable pub parse_text : Parser Ast
parse_text = parse_leaf token_text expr_text

-- The text without its first character.
unfoldable pub behind_first : Text → Text
behind_first [] = []
behind_first (c ∷ s) = s

unfoldable pub skip_two : Parser (Unit {0})
skip_two = skip >> skip

-- Of the sign and the imaginary part that follow a float.
unfoldable pub parse_signed : Position → Text → Bool → Text → Parser Ast
parse_signed p re minus im = do
  skip
  skip_two
  pure (
      expr_complex p (
        re
        ++ (if minus
            then (if starts_with (codes "-") im
                then codes "+" ++ behind_first im
                else codes "-" ++ im)
            else codes "+" ++ im)))

-- `trim` is that of ICU.
unfoldable pub parse_float_or_complex : (Text → Text) → Parser Ast
parse_float_or_complex trim = do
  t0 ← look 0
  t1 ← look 1
  t2 ← look 2
  choose
      (tag_eq t0.tag token_float
        && text_eq (trim t1.text) (codes "+")
        && tag_eq t2.tag token_imaginary)
      (parse_signed t0.position t0.text false t2.text)
      (choose
        (tag_eq t0.tag token_float
          && text_eq (trim t1.text) (codes "-")
          && tag_eq t2.tag token_imaginary)
        (parse_signed t0.position t0.text true t2.text)
        (choose (tag_eq t0.tag token_float && tag_eq t1.tag token_imaginary)
          (skip >> skip >> pure (expr_complex t0.position (t0.text ++ t1.text)))
          (parse_leaf token_float expr_float)))

unfoldable pub parse_docstring_option : Parser Ast
parse_docstring_option = do
  p ← position
  s ← text 0
  b ← is_at 1 token_text
  choose (text_eq s (codes "@") && b) (skip >> text 0 >>= λ v. skip >> pure (docstring p v))
      (pure (docstring p []))

unfoldable pub is_variable : Parser Bool
is_variable = is_at 0 token_uppercase

unfoldable pub is_wildcard : Parser Bool
is_wildcard = text 0 >>= λ s. pure (text_eq s (codes "_"))

-- The loop over the qualifiers of a name from token `i` on.
unfoldable pub qualifiers : ℕ → ℕ → Parser ℕ
qualifiers zero i = stuck
qualifiers (suc n) i = do
  a ← is_at i token_uppercase
  b ← is_at (i + 1) token_dcolon
  choose (a && b) (qualifiers n (i + 2)) (pure i)

unfoldable pub is_combinator : Parser Bool
is_combinator = with_rounds (λ n. qualifiers n 0) >>= λ i. is_at i token_lowercase

unfoldable pub is_operator : Parser Bool
is_operator = with_rounds (λ n. qualifiers n 0) >>= λ i. is_at i token_operator

unfoldable pub peek_operator : Parser Text
peek_operator = with_rounds (λ n. qualifiers n 0) >>= λ i.
    look i >>= λ t. pure (if tag_eq t.tag token_operator then t.text else [])

unfoldable pub is_enclosed_operator : Parser Bool
is_enclosed_operator = do
  a ← is_at 0 token_lparen
  choose a
      (with_rounds (λ n. qualifiers n 1) >>= λ i.
        is_at i token_operator >>= λ b. is_at (i + 1) token_rparen >>= λ c. pure (b && c))
      (pure false)

unfoldable pub parse_variable : Parser Ast
parse_variable = parse_leaf token_uppercase expr_variable

unfoldable pub parse_wildcard : Parser Ast
parse_wildcard = do
  p ← position
  s ← text 0
  choose (text_eq s (codes "_")) (skip >> pure (expr_wildcard p s))
      (error_here (codes "wildcard expected"))

-- The loop that takes the qualifiers.
unfoldable pub parse_qualifiers : ℕ → Parser (List Text)
parse_qualifiers zero = stuck
parse_qualifiers (suc n) = do
  a ← is_at 0 token_uppercase
  b ← is_at 1 token_dcolon
  choose (a && b) (text 0 >>= λ s. skip_two >> parse_qualifiers n >>= λ nn. pure (s ∷ nn)) (pure [])

-- A qualified name of a kind; `f` makes its text.
unfoldable pub parse_qualified : Tag → (Text → Text) → Parser Ast
parse_qualified g f = do
  p ← position
  nn ← with_rounds parse_qualifiers
  check_token g
  s ← text 0
  skip
  pure (expr_combinator p nn (f s))

unfoldable pub parse_combinator : Parser Ast
parse_combinator = parse_qualified token_lowercase (λ s. s)

unfoldable pub parse_operator : Parser Ast
parse_operator = parse_qualified token_operator (λ s. s)

unfoldable pub parse_prefix_operator : Parser Ast
parse_prefix_operator = parse_qualified token_operator (λ s. b'!' ∷ s)

unfoldable pub parse_enclosed_operator : Parser Ast
parse_enclosed_operator = do
  force_token token_lparen
  o ← parse_operator
  force_token token_rparen
  pure o

unfoldable pub parse_more_names : ℕ → Parser (List Text)
parse_more_names zero = stuck
parse_more_names (suc n) = do
  a ← is_at 0 token_dcolon
  b ← is_at 1 token_uppercase
  choose (a && b) (skip >> text 0 >>= λ s. skip >> parse_more_names n >>= λ nn. pure (s ∷ nn))
      (pure [])

unfoldable pub parse_namespace : Parser (List Text)
parse_namespace = do
  check_token token_uppercase
  s ← text 0
  skip
  nn ← with_rounds parse_more_names
  pure (s ∷ nn)
