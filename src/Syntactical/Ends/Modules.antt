-- ===== src/Syntactical/Ends/Modules.antt =====
-- The modules and lines of src/syntactical.hpp: a module comes out well formed.
use egel.Prelude.{ℕ, zero, suc, ◌<◌, ◌≤◌, ◌⊎◌, inl, inr, refl, arith, false}
use egel.Prelude.Text.{Text}
use egel.Lexical.Token.{
  Tag, Tokens, tag_eq, value, token_eof, token_dsemicolon, token_data, token_def, token_namespace,
  token_val, token_using, token_import,
}
use egel.Syntax.{Ast, Asts, nil, cons, ast_wrapper}
use egel.Semantical.Identify.Formed.{in_module}
use egel.Syntactical.{Parser, rounds}
use egel.Syntactical.Declarations.{
  parse_decl, declaration_case, parse_decl_or_directive, parse, command_case, parse_command,
  commands, parse_line,
}
use egel.Syntactical.Ends.{
  left, Ended, Ends, returns, Ends-bind, Sees-Ends, Ends-weaken, Ends-choose,
}
use egel.Syntactical.Ends.Looks.{
  skip-Ends, position-Sees, text-Sees, tag-Sees, is_at-Sees, is_at-Any, error_here-Ends,
}
use egel.Syntactical.Ends.Trees.{Leaf, IsDoc, cons-Trees}
use egel.Syntactical.Ends.Trees.Expressions.{IsExpr}
use egel.Syntactical.Ends.Trees.Declarations.{IsDecl, wrapper-Tree}
use egel.Syntactical.Ends.Names.{parse_docstring_option-Ends}
use egel.Syntactical.Ends.Arithmetic.{parse_expression-Ends}
use egel.Syntactical.Ends.Declarations.{
  parse_decl_data-Ends, until-Ends, parse_decl_definition-Ends, parse_decl_value-Ends,
  parse_decl_namespace-Ends,
}
use egel.Syntactical.Ends.Directives.{parse_directive-Ends}
use egel.Syntactical.Visits.Docstrings.{IsDocumented}

unfoldable pub IsModule : Ast → Type 0
IsModule a = IsDecl a × IsDocumented a

-- What stands on a line: declarations, directives and expressions.
unfoldable pub IsLine : Ast → Type 0
IsLine a = IsDecl a ⊎ IsExpr a

unfoldable pub AreLines : Asts → Type 0
AreLines nil = Unit
AreLines (cons a aa) = IsLine a × AreLines aa

unfoldable pub IsCommands : Ast → Type 0
IsCommands (ast_wrapper p aa) = AreLines aa
IsCommands _ = ⊥

module _ (trim : Text → Text) where
  module _ (self : Parser Ast) (m : ℕ)
      (takes : (t : Tokens) → Ended t → left t < m → Ends IsDecl (left t) (self t)) where
    parse_decl-Ends :
        (g : Tag) (t : Tokens)
        → Ended t
        → left t ≤ m
        → Ends IsDecl (left t) (parse_decl trim self g t)
    unfolding parse_decl
    parse_decl-Ends token_data t e l = parse_decl_data-Ends t e
    parse_decl-Ends token_def t e l = parse_decl_definition-Ends trim t e
    parse_decl-Ends token_val t e l = parse_decl_value-Ends trim t e
    parse_decl-Ends token_namespace t e l = parse_decl_namespace-Ends self m takes t e l
    parse_decl-Ends g t e l = error_here-Ends _ t e

    declaration_case-Ends :
        (g : Tag) (t : Tokens)
        → Ended t
        → left t ≤ m
        → Ends IsDecl (left t) (declaration_case trim self g t)
    unfolding declaration_case
    declaration_case-Ends g t e l =
        Ends-choose _ _ (λ _. parse_decl-Ends g t e l)
          (λ _. Ends-choose _ _ (λ _. parse_directive-Ends g t e) (λ _. error_here-Ends _ t e))

  parse_decl_or_directive-Ends :
      (n : ℕ) (t : Tokens)
      → Ended t
      → left t < n
      → Ends IsDecl (left t) (parse_decl_or_directive trim n t)
  unfolding parse_decl_or_directive
  parse_decl_or_directive-Ends zero t e h = absurd (omega arith)
  parse_decl_or_directive-Ends (suc n) t e h = Sees-Ends _ (tag-Sees 0 t e) (λ g _.
      declaration_case-Ends (parse_decl_or_directive trim n) n (parse_decl_or_directive-Ends n) g t
        e (omega arith))

  -- On tokens that end with the end of file, the parser of a module gives a well formed module that begins with a docstring, or
  -- throws a syntactical error.
  pub parse-Ends : (t : Tokens) → Ended t → Ends IsModule (suc (left t)) (parse trim t)
  unfolding parse IsDoc Leaf IsModule IsDocumented
  parse-Ends t e = Sees-Ends _ (position-Sees t e) (λ p _.
      Ends-bind (parse_docstring_option-Ends t e) (λ doc u d k x.
        Ends-bind
          (until-Ends token_eof _ (rounds u)
            (λ v c _. parse_decl_or_directive-Ends (rounds v) v c (omega arith)) (rounds u) u d
            (omega arith) (omega arith))
          (λ aa v c j y.
            returns c (omega arith)
              (wrapper-Tree p _ (cons-Trees doc aa (x.1 in_module false) y), x.2))))

  command_case-Ends :
      (g : Tag) (t : Tokens) → Ended t → Ends IsLine (left t) (command_case trim g t)
  unfolding command_case IsLine
  command_case-Ends token_import t e =
      Ends-weaken (parse_directive-Ends token_import t e) (omega arith) (λ _ x. inl x)
  command_case-Ends token_using t e =
      Ends-weaken (parse_directive-Ends token_using t e) (omega arith) (λ _ x. inl x)
  command_case-Ends token_def t e =
      Ends-weaken (parse_decl_definition-Ends trim t e) (omega arith) (λ _ x. inl x)
  command_case-Ends token_val t e =
      Ends-weaken (parse_decl_value-Ends trim t e) (omega arith) (λ _ x. inl x)
  command_case-Ends token_data t e =
      Ends-weaken (parse_decl_data-Ends t e) (omega arith) (λ _ x. inl x)
  command_case-Ends g t e =
      Ends-weaken (parse_expression-Ends trim t e) (omega arith) (λ _ x. inr x)

  parse_command-Ends : (t : Tokens) → Ended t → Ends IsLine (left t) (parse_command trim t)
  unfolding parse_command
  parse_command-Ends t e = Sees-Ends _ (tag-Sees 0 t e) (λ g _. command_case-Ends g t e)

  commands-Ends :
      (n : ℕ) (t : Tokens) → Ended t → left t < n → Ends AreLines (suc (left t)) (commands trim n t)
  unfolding commands AreLines tag_eq value
  commands-Ends zero t e h = absurd (omega arith)
  commands-Ends (suc n) t e h = Sees-Ends _ (is_at-Sees 0 token_dsemicolon t refl e) (λ b more.
      Ends-choose _ _
        (λ q.
          let some = more q in
          Ends-bind (skip-Ends {m = left t} t e (omega arith)) (λ _ u d k _.
            Ends-bind (parse_command-Ends u d) (λ a v c j x.
              Ends-bind (commands-Ends n v c (omega arith))
                (λ aa w f i y. returns f (omega arith) (x, y)))))
        (λ _. returns e (omega arith) tt))

  -- On tokens that end with the end of file, the parser of a line gives a wrapper of well formed
  -- declarations, directives and expressions, or throws a syntactical error.
  pub parse_line-Ends : (t : Tokens) → Ended t → Ends IsCommands (suc (left t)) (parse_line trim t)
  unfolding parse_line IsCommands AreLines
  parse_line-Ends t e = Sees-Ends _ (position-Sees t e) (λ p _.
      Sees-Ends _ (is_at-Any 0 token_eof t e) (λ _ _.
        Ends-choose _ _ (λ _. returns e (omega arith) tt)
          (λ _. Ends-bind (parse_command-Ends t e) (λ a u d k x.
            Ends-bind (commands-Ends (rounds u) u d (omega arith)) (λ aa v c j y.
              Sees-Ends _ (is_at-Any 0 token_eof v c) (λ _ _.
                Ends-choose _ _ (λ _. returns c (omega arith) (x, y))
                  (λ _. Sees-Ends _ (text-Sees 0 v c) (λ s _. error_here-Ends _ v c))))))))
