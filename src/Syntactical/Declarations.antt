-- ===== src/Syntactical/Declarations.antt =====
-- The declarations and directives of `Parser`, and `LineParser`, in src/syntactical.hpp. The fuel is
-- the depth to which namespaces are nested.
use egel.Prelude.{ℕ, zero, suc, Bool, true, false, List, [], ◌∷◌, ◌++◌}
use egel.Prelude.Text.{Text, codes}
use egel.Lexical.Token.{
  Tag, token_eof, token_eq, token_lparen, token_rparen, token_dcolon, token_dsemicolon,
  token_uppercase, token_text, token_class, token_data, token_def, token_namespace, token_val,
  token_using, token_import,
}
use egel.Syntax.{
  Ast, Asts, nil, cons, ast_path, ast_alias, ast_rename, direct_import, direct_using,
  decl_namespace, decl_data, decl_definition, decl_value, decl_operator, ast_wrapper,
}
use egel.Syntax.Desugar.{one}
use egel.Syntactical.{
  Parser, pure, ◌>>=◌, ◌>>◌, choose, stuck, with_rounds, skip, position, tag, text, is_at, error_at,
  error_here, check_token, force_token,
}
use egel.Syntactical.Names.{
  parse_docstring_option, is_combinator, is_operator, parse_combinator, parse_operator,
  parse_namespace,
}
use egel.Syntactical.Patterns.{commas}
use egel.Syntactical.Arithmetic.{parse_expression}

unfoldable pub parse_decl_data : Parser Ast
parse_decl_data = do
  p ← position
  force_token token_data
  doc ← parse_docstring_option
  e ← parse_combinator
  ee ← with_rounds (commas parse_combinator parse_combinator)
  pure (decl_data p doc (cons e ee))

-- `= docstring expression`
unfoldable pub parse_body : (Text → Text) → Parser (Ast × Ast)
parse_body trim = do
  force_token token_eq
  doc ← parse_docstring_option
  e ← parse_expression trim
  pure (doc, e)

unfoldable pub parse_decl_definition : (Text → Text) → Parser Ast
parse_decl_definition trim = do
  p ← position
  force_token token_def
  c ← is_combinator
  o ← is_operator
  choose c
      (parse_combinator >>= λ n. parse_body trim >>= λ (doc, e). pure (decl_definition p n doc e))
      (choose o
        (parse_operator >>= λ n. parse_body trim >>= λ (doc, e). pure (decl_operator p n doc e))
        (error_at p (codes "combinator or operator expected")))

unfoldable pub parse_decl_value : (Text → Text) → Parser Ast
parse_decl_value trim = do
  p ← position
  force_token token_val
  c ← is_combinator
  choose c (parse_combinator >>= λ n. parse_body trim >>= λ (doc, e). pure (decl_value p n doc e))
      (error_at p (codes "combinator expected"))

-- `while (tag() != g) { ... }`
unfoldable pub until : Tag → Parser Ast → ℕ → Parser Asts
until g one zero = stuck
until g one (suc n) = do
  b ← is_at 0 g
  choose b (pure nil) (one >>= λ d. until g one n >>= λ dd. pure (cons d dd))

unfoldable pub parse_decl_namespace : Parser Ast → Parser Ast
parse_decl_namespace self = do
  p ← position
  force_token token_namespace
  n ← parse_namespace
  force_token token_lparen
  dd ← with_rounds (until token_rparen self)
  force_token token_rparen
  pure (decl_namespace p n dd)

unfoldable pub is_decl : Tag → Bool
is_decl token_data = true
is_decl token_def = true
is_decl token_val = true
is_decl token_namespace = true
is_decl token_class = true
is_decl g = false

unfoldable pub parse_decl : (Text → Text) → Parser Ast → Tag → Parser Ast
parse_decl trim self token_data = parse_decl_data
parse_decl trim self token_def = parse_decl_definition trim
parse_decl trim self token_val = parse_decl_value trim
parse_decl trim self token_namespace = parse_decl_namespace self
parse_decl trim self g = error_here (codes "declaration expected")

unfoldable pub is_directive : Tag → Bool
is_directive token_import = true
is_directive token_using = true
is_directive g = false

unfoldable pub parse_uppercase : Parser Text
parse_uppercase = do check_token token_uppercase; n ← text 0; skip; pure n

-- The loop of `parse_path`.
unfoldable pub path_loop : ℕ → Parser (List Text)
path_loop zero = stuck
path_loop (suc n) = do
  b ← is_at 0 token_dcolon
  choose b (skip >> parse_uppercase >>= λ s. path_loop n >>= λ nn. pure (s ∷ nn)) (pure [])

unfoldable pub parse_path : Parser Ast
parse_path = do
  p ← position
  n ← parse_uppercase
  nn ← with_rounds path_loop
  pure (ast_path p (n ∷ nn))

unfoldable pub parse_rename_head : Parser Ast
parse_rename_head = do
  p ← position
  p0 ← parse_path
  b ← is_at 0 token_eq
  choose b (skip >> parse_path >>= λ p1. pure (ast_alias p p0 p1)) (pure p0)

unfoldable pub parse_rename_combinator : Parser Ast
parse_rename_combinator = do
  c ← is_combinator
  o ← is_operator
  choose c parse_combinator (choose o parse_operator (error_here (codes "directive expected")))

unfoldable pub parse_rename_arg : Parser Ast
parse_rename_arg = do
  p ← position
  c ← parse_rename_combinator
  b ← is_at 0 token_eq
  choose b (skip >> parse_rename_combinator >>= λ c1. pure (ast_alias p c c1)) (pure c)

unfoldable pub parse_rename_args : Parser Asts
parse_rename_args = do
  force_token token_lparen
  c ← parse_rename_arg
  cc ← with_rounds (commas parse_rename_arg parse_rename_arg)
  force_token token_rparen
  pure (cons c cc)

unfoldable pub parse_rename : Parser Ast
parse_rename = do
  p ← position
  h ← parse_rename_head
  b ← is_at 0 token_lparen
  choose b (parse_rename_args >>= λ hh. pure (ast_rename p h hh)) (pure (ast_rename p h nil))

unfoldable pub parse_using : Parser Ast
parse_using = do
  p ← position
  force_token token_using
  n ← parse_rename
  nn ← with_rounds (commas parse_rename parse_rename)
  pure (direct_using p (cons n nn))

unfoldable pub parse_import : Parser Ast
parse_import = do
  p ← position
  force_token token_import
  check_token token_text
  n ← text 0
  skip
  pure (direct_import p n)

unfoldable pub parse_directive : Tag → Parser Ast
parse_directive token_using = parse_using
parse_directive token_import = parse_import
parse_directive g = error_here (codes "directive expected")

unfoldable pub declaration_case : (Text → Text) → Parser Ast → Tag → Parser Ast
declaration_case trim self g = choose (is_decl g) (parse_decl trim self g) (
    choose (is_directive g) (parse_directive g)
      (error_here (codes "declaration or directive expected")))

unfoldable pub parse_decl_or_directive : (Text → Text) → ℕ → Parser Ast
parse_decl_or_directive trim zero = stuck
parse_decl_or_directive trim (suc n) =
    tag 0 >>= λ g. declaration_case trim (parse_decl_or_directive trim n) g

unfoldable pub parse : (Text → Text) → Parser Ast
parse trim = do
  p ← position
  doc ← parse_docstring_option
  dd ← with_rounds (until token_eof (with_rounds (parse_decl_or_directive trim)))
  pure (ast_wrapper p (cons doc dd))

unfoldable pub command_case : (Text → Text) → Tag → Parser Ast
command_case trim token_import = parse_directive token_import
command_case trim token_using = parse_directive token_using
command_case trim token_def = parse_decl_definition trim
command_case trim token_val = parse_decl_value trim
command_case trim token_data = parse_decl_data
command_case trim g = parse_expression trim

unfoldable pub parse_command : (Text → Text) → Parser Ast
parse_command trim = tag 0 >>= λ g. command_case trim g

-- The loop of `parse_line`.
unfoldable pub commands : (Text → Text) → ℕ → Parser Asts
commands trim zero = stuck
commands trim (suc n) = do
  b ← is_at 0 token_dsemicolon
  choose b (skip >> parse_command trim >>= λ a. commands trim n >>= λ aa. pure (cons a aa))
      (pure nil)

unfoldable pub parse_line : (Text → Text) → Parser Ast
parse_line trim = do
  p ← position
  b ← is_at 0 token_eof
  choose b (pure (ast_wrapper p nil)) do
    a ← parse_command trim
    aa ← with_rounds (commands trim)
    e ← is_at 0 token_eof
    choose e (pure (ast_wrapper p (cons a aa)))
        (text 0 >>= λ s. error_here (s ++ codes " unexpected"))
