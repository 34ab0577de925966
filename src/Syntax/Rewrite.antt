-- ===== src/Syntax/Rewrite.antt =====
-- `Rewrite` of src/transform.hpp. A class that overrides methods of it is a function on the nodes of
-- trees, by a clause for each method that it overrides; its last clause is `base`, the methods of
-- `Rewrite`. A method is given the members of a node each with its rewriting, which it runs where the
-- code calls `rewrite`.

use egel.Prelude.{ℕ, List, [], ◌∷◌}
use egel.Prelude.Text.{Text}
use egel.Prelude.Outcome.{Outcome, ok}
use egel.Prelude.Outcome
use egel.Reader.{Position}
use egel.Syntax.{
  Ast, Asts, nil, cons, empty, docstring, expr_integer, expr_hexinteger, expr_float, expr_complex,
  expr_character, expr_text, expr_variable, expr_wildcard, expr_combinator, expr_operator, ast_path,
  ast_alias, ast_rename, expr_tag, expr_list, expr_list_tail, expr_tuple, expr_application,
  expr_match, expr_block, expr_lambda, expr_let, expr_try, expr_throw, expr_if, expr_statement,
  expr_do, direct_import, direct_using, decl_namespace, decl_data, decl_definition, decl_value,
  decl_operator, ast_wrapper,
}

-- A run on the member `_tick`, which some of the classes have.
abbrev pub Rewriting {ℓ} : Type ℓ → Type ℓ
Rewriting A = ℕ → Outcome (A × ℕ)

abbrev pub ret {ℓ} : {A : Type ℓ} → A → Rewriting A
ret a n = ok (a, n)

infixl 5 ◌>>=◌
abbrev pub ◌>>=◌ {ℓ κ} : {A : Type ℓ} {B : Type κ} → Rewriting A → (A → Rewriting B) → Rewriting B
◌>>=◌ m f n = Outcome.◌>>=◌ (m n) (λ (a, k). f a k)

-- A tree with its rewriting.
abbrev pub Child : Type 0
Child = Ast × Rewriting Ast

pub data Node : Type 0 where
  on_empty : Node
  on_docstring : Position → Text → Node
  on_expr_integer : Position → Text → Node
  on_expr_hexinteger : Position → Text → Node
  on_expr_float : Position → Text → Node
  on_expr_complex : Position → Text → Node
  on_expr_character : Position → Text → Node
  on_expr_text : Position → Text → Node
  on_expr_variable : Position → Text → Node
  on_expr_wildcard : Position → Text → Node
  on_expr_combinator : Position → List Text → Text → Node
  on_expr_operator : Position → List Text → Text → Node
  on_ast_path : Position → List Text → Node
  on_ast_alias : Position → Child → Child → Node
  on_ast_rename : Position → Child → List Child → Node
  on_expr_tag : Position → Child → Child → Node
  on_expr_list : Position → List Child → Node
  on_expr_list_tail : Position → List Child → Child → Node
  on_expr_tuple : Position → List Child → Node
  on_expr_application : Position → List Child → Node
  on_expr_match : Position → List Child → Child → Child → Node
  on_expr_block : Position → List Child → Node
  on_expr_lambda : Position → List Child → Node
  on_expr_let : Position → List Child → Child → Child → Node
  on_expr_try : Position → Child → Child → Node
  on_expr_throw : Position → Child → Node
  on_expr_if : Position → Child → Child → Child → Node
  on_expr_statement : Position → Child → Child → Node
  on_expr_do : Position → Child → Node
  on_direct_import : Position → Text → Node
  on_direct_using : Position → List Child → Node
  on_decl_namespace : Position → List Text → List Child → Node
  on_decl_data : Position → Child → List Child → Node
  on_decl_definition : Position → Child → Child → Child → Node
  on_decl_value : Position → Child → Child → Child → Node
  on_decl_operator : Position → Child → Child → Child → Node
  on_ast_wrapper : Position → List Child → Node

unfoldable pub sources : List Child → Asts
sources [] = nil
sources ((a, _) ∷ cs) = cons a (sources cs)

unfoldable pub rewrites : List Child → Rewriting Asts
rewrites [] = ret nil
rewrites ((_, m) ∷ cs) = m >>= λ a. rewrites cs >>= λ aa. ret (cons a aa)

-- Of an alias, and of the text with a data declaration, the rewriting is run but not used.
unfoldable pub base : Node → Rewriting Ast
base on_empty = ret empty
base (on_docstring p v) = ret (docstring p v)
base (on_expr_integer p v) = ret (expr_integer p v)
base (on_expr_hexinteger p v) = ret (expr_hexinteger p v)
base (on_expr_float p v) = ret (expr_float p v)
base (on_expr_complex p v) = ret (expr_complex p v)
base (on_expr_character p v) = ret (expr_character p v)
base (on_expr_text p v) = ret (expr_text p v)
base (on_expr_variable p v) = ret (expr_variable p v)
base (on_expr_wildcard p v) = ret (expr_wildcard p v)
base (on_expr_combinator p nn v) = ret (expr_combinator p nn v)
base (on_expr_operator p nn v) = ret (expr_operator p nn v)
base (on_ast_path p nn) = ret (ast_path p nn)
base (on_ast_alias p a b) = a.1 >>= λ _. b.1 >>= λ _. ret (ast_alias p a.0 b.0)
base (on_ast_rename p a ss) = a.1 >>= λ a0. rewrites ss >>= λ ss0. ret (ast_rename p a0 ss0)
base (on_expr_tag p a b) = a.1 >>= λ a0. b.1 >>= λ b0. ret (expr_tag p a0 b0)
base (on_expr_list p ss) = rewrites ss >>= λ ss0. ret (expr_list p ss0)
base (on_expr_list_tail p ss a) = rewrites ss >>= λ ss0. a.1 >>= λ a0. ret (expr_list_tail p ss0 a0)
base (on_expr_tuple p ss) = rewrites ss >>= λ ss0. ret (expr_tuple p ss0)
base (on_expr_application p ss) = rewrites ss >>= λ ss0. ret (expr_application p ss0)
base (on_expr_match p ss a b) =
    rewrites ss >>= λ ss0. a.1 >>= λ a0. b.1 >>= λ b0. ret (expr_match p ss0 a0 b0)
base (on_expr_block p ss) = rewrites ss >>= λ ss0. ret (expr_block p ss0)
base (on_expr_lambda p ss) = rewrites ss >>= λ ss0. ret (expr_lambda p ss0)
base (on_expr_let p ss a b) =
    rewrites ss >>= λ ss0. a.1 >>= λ a0. b.1 >>= λ b0. ret (expr_let p ss0 a0 b0)
base (on_expr_try p a b) = a.1 >>= λ a0. b.1 >>= λ b0. ret (expr_try p a0 b0)
base (on_expr_throw p a) = a.1 >>= λ a0. ret (expr_throw p a0)
base (on_expr_if p a b c) = a.1 >>= λ a0. b.1 >>= λ b0. c.1 >>= λ c0. ret (expr_if p a0 b0 c0)
base (on_expr_statement p a b) = a.1 >>= λ a0. b.1 >>= λ b0. ret (expr_statement p a0 b0)
base (on_expr_do p a) = a.1 >>= λ a0. ret (expr_do p a0)
base (on_direct_import p v) = ret (direct_import p v)
base (on_direct_using p ss) = rewrites ss >>= λ ss0. ret (direct_using p ss0)
base (on_decl_namespace p nn ss) = rewrites ss >>= λ ss0. ret (decl_namespace p nn ss0)
base (on_decl_data p a ss) = a.1 >>= λ _. rewrites ss >>= λ ss0. ret (decl_data p a.0 ss0)
base (on_decl_definition p a b c) =
    a.1 >>= λ a0. b.1 >>= λ b0. c.1 >>= λ c0. ret (decl_definition p a0 b0 c0)
base (on_decl_value p a b c) = a.1 >>= λ a0. b.1 >>= λ b0. c.1 >>= λ c0. ret (decl_value p a0 b0 c0)
base (on_decl_operator p a b c) =
    a.1 >>= λ a0. b.1 >>= λ b0. c.1 >>= λ c0. ret (decl_operator p a0 b0 c0)
base (on_ast_wrapper p ss) = rewrites ss >>= λ ss0. ret (ast_wrapper p ss0)

unfoldable mutual
  pub rewrite : (Node → Rewriting Ast) → Ast → Rewriting Ast
  rewrite f empty = f on_empty
  rewrite f (docstring p v) = f (on_docstring p v)
  rewrite f (expr_integer p v) = f (on_expr_integer p v)
  rewrite f (expr_hexinteger p v) = f (on_expr_hexinteger p v)
  rewrite f (expr_float p v) = f (on_expr_float p v)
  rewrite f (expr_complex p v) = f (on_expr_complex p v)
  rewrite f (expr_character p v) = f (on_expr_character p v)
  rewrite f (expr_text p v) = f (on_expr_text p v)
  rewrite f (expr_variable p v) = f (on_expr_variable p v)
  rewrite f (expr_wildcard p v) = f (on_expr_wildcard p v)
  rewrite f (expr_combinator p nn v) = f (on_expr_combinator p nn v)
  rewrite f (expr_operator p nn v) = f (on_expr_operator p nn v)
  rewrite f (ast_path p nn) = f (on_ast_path p nn)
  rewrite f (ast_alias p a b) = f (on_ast_alias p (a, rewrite f a) (b, rewrite f b))
  rewrite f (ast_rename p a ss) = f (on_ast_rename p (a, rewrite f a) (children f ss))
  rewrite f (expr_tag p a b) = f (on_expr_tag p (a, rewrite f a) (b, rewrite f b))
  rewrite f (expr_list p ss) = f (on_expr_list p (children f ss))
  rewrite f (expr_list_tail p ss a) = f (on_expr_list_tail p (children f ss) (a, rewrite f a))
  rewrite f (expr_tuple p ss) = f (on_expr_tuple p (children f ss))
  rewrite f (expr_application p ss) = f (on_expr_application p (children f ss))
  rewrite f (expr_match p ss a b) =
      f (on_expr_match p (children f ss) (a, rewrite f a) (b, rewrite f b))
  rewrite f (expr_block p ss) = f (on_expr_block p (children f ss))
  rewrite f (expr_lambda p ss) = f (on_expr_lambda p (children f ss))
  rewrite f (expr_let p ss a b) =
      f (on_expr_let p (children f ss) (a, rewrite f a) (b, rewrite f b))
  rewrite f (expr_try p a b) = f (on_expr_try p (a, rewrite f a) (b, rewrite f b))
  rewrite f (expr_throw p a) = f (on_expr_throw p (a, rewrite f a))
  rewrite f (expr_if p a b c) = f (on_expr_if p (a, rewrite f a) (b, rewrite f b) (c, rewrite f c))
  rewrite f (expr_statement p a b) = f (on_expr_statement p (a, rewrite f a) (b, rewrite f b))
  rewrite f (expr_do p a) = f (on_expr_do p (a, rewrite f a))
  rewrite f (direct_import p v) = f (on_direct_import p v)
  rewrite f (direct_using p ss) = f (on_direct_using p (children f ss))
  rewrite f (decl_namespace p nn ss) = f (on_decl_namespace p nn (children f ss))
  rewrite f (decl_data p a ss) = f (on_decl_data p (a, rewrite f a) (children f ss))
  rewrite f (decl_definition p a b c) =
      f (on_decl_definition p (a, rewrite f a) (b, rewrite f b) (c, rewrite f c))
  rewrite f (decl_value p a b c) =
      f (on_decl_value p (a, rewrite f a) (b, rewrite f b) (c, rewrite f c))
  rewrite f (decl_operator p a b c) =
      f (on_decl_operator p (a, rewrite f a) (b, rewrite f b) (c, rewrite f c))
  rewrite f (ast_wrapper p ss) = f (on_ast_wrapper p (children f ss))

  pub children : (Node → Rewriting Ast) → Asts → List Child
  children f nil = []
  children f (cons a aa) = (a, rewrite f a) ∷ children f aa
