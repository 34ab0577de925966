-- ===== src/Syntactical/Visits/Docstrings.antt =====
-- What the visitors of src/syntactical.hpp find in the trees that its parser makes.
use egel.Prelude.{List, [], ◌∷◌, ◌++◌, ◌≡◌, refl, Option, none, some}
use egel.Prelude.Text.{Text}
use egel.Reader.{Position}
use egel.Syntax.{
  Ast, Asts, nil, cons, empty, docstring, expr_integer, expr_hexinteger, expr_float, expr_complex,
  expr_character, expr_text, expr_variable, expr_wildcard, expr_combinator, expr_operator, ast_path,
  ast_alias, ast_rename, expr_tag, expr_list, expr_list_tail, expr_tuple, expr_application,
  expr_match, expr_block, expr_lambda, expr_let, expr_try, expr_throw, expr_if, expr_statement,
  expr_do, direct_import, direct_using, decl_namespace, decl_data, decl_definition, decl_value,
  decl_operator, ast_wrapper,
}
use egel.Syntactical.Ends.Trees.{IsDocstring}
use egel.Syntactical.Visits.{
  instead, visit, visits, imports_method, imports, docstring_method, visit_docstring,
}

-- What holds of the members of the class before, and is kept by each method, holds afterwards.
module _ {S : Type 0} (method : Ast → Option (S → S)) (P : S → Type 0)
    (keeps : (a : Ast) (f : S → S) → method a ≡ some f → (s : S) → P s → P (f s)) where
  instead-preserves : (a : Ast) (s t : S) → P s → P t → P (instead (method a) s t)
  instead-preserves a s t i j = by_method (method a) (λ f h. keeps a f h s i)
    where
      by_method : (m : Option (S → S)) → ((f : S → S) → m ≡ some f → P (f s)) → P (instead m s t)
      by_method none h = unfold instead in j
      by_method (some f) h = unfold instead in h f refl

  mutual
    unfolding visit

    visit-preserves : (a : Ast) (s : S) → P s → P (visit method a s)
    visit-preserves empty s i = instead-preserves empty s _ i (i)
    visit-preserves (docstring p v) s i = instead-preserves (docstring p v) s _ i (i)
    visit-preserves (expr_integer p v) s i = instead-preserves (expr_integer p v) s _ i (i)
    visit-preserves (expr_hexinteger p v) s i = instead-preserves (expr_hexinteger p v) s _ i (i)
    visit-preserves (expr_float p v) s i = instead-preserves (expr_float p v) s _ i (i)
    visit-preserves (expr_complex p v) s i = instead-preserves (expr_complex p v) s _ i (i)
    visit-preserves (expr_character p v) s i = instead-preserves (expr_character p v) s _ i (i)
    visit-preserves (expr_text p v) s i = instead-preserves (expr_text p v) s _ i (i)
    visit-preserves (expr_variable p v) s i = instead-preserves (expr_variable p v) s _ i (i)
    visit-preserves (expr_wildcard p v) s i = instead-preserves (expr_wildcard p v) s _ i (i)
    visit-preserves (expr_combinator p nn v) s i =
        instead-preserves (expr_combinator p nn v) s _ i (i)
    visit-preserves (expr_operator p nn v) s i = instead-preserves (expr_operator p nn v) s _ i (i)
    visit-preserves (ast_path p nn) s i = instead-preserves (ast_path p nn) s _ i (i)
    visit-preserves (ast_alias p x y) s i =
        instead-preserves (ast_alias p x y) s _ i (visit-preserves y _ (visit-preserves x _ i))
    visit-preserves (ast_rename p x ss) s i =
        instead-preserves (ast_rename p x ss) s _ i (visits-preserves ss _ (visit-preserves x _ i))
    visit-preserves (expr_tag p x y) s i =
        instead-preserves (expr_tag p x y) s _ i (visit-preserves y _ (visit-preserves x _ i))
    visit-preserves (expr_list p ss) s i =
        instead-preserves (expr_list p ss) s _ i (visits-preserves ss _ i)
    visit-preserves (expr_list_tail p ss x) s i =
        instead-preserves (expr_list_tail p ss x) s _ i
          (visit-preserves x _ (visits-preserves ss _ i))
    visit-preserves (expr_tuple p ss) s i =
        instead-preserves (expr_tuple p ss) s _ i (visits-preserves ss _ i)
    visit-preserves (expr_application p ss) s i =
        instead-preserves (expr_application p ss) s _ i (visits-preserves ss _ i)
    visit-preserves (expr_match p ss x y) s i =
        instead-preserves (expr_match p ss x y) s _ i
          (visit-preserves y _ (visit-preserves x _ (visits-preserves ss _ i)))
    visit-preserves (expr_block p ss) s i =
        instead-preserves (expr_block p ss) s _ i (visits-preserves ss _ i)
    visit-preserves (expr_lambda p ss) s i =
        instead-preserves (expr_lambda p ss) s _ i (visits-preserves ss _ i)
    visit-preserves (expr_let p ss x y) s i =
        instead-preserves (expr_let p ss x y) s _ i
          (visit-preserves y _ (visit-preserves x _ (visits-preserves ss _ i)))
    visit-preserves (expr_try p x y) s i =
        instead-preserves (expr_try p x y) s _ i (visit-preserves y _ (visit-preserves x _ i))
    visit-preserves (expr_throw p x) s i =
        instead-preserves (expr_throw p x) s _ i (visit-preserves x _ i)
    visit-preserves (expr_if p x y z) s i =
        instead-preserves (expr_if p x y z) s _ i
          (visit-preserves z _ (visit-preserves y _ (visit-preserves x _ i)))
    visit-preserves (expr_statement p x y) s i =
        instead-preserves (expr_statement p x y) s _ i (visit-preserves y _ (visit-preserves x _ i))
    visit-preserves (expr_do p x) s i =
        instead-preserves (expr_do p x) s _ i (visit-preserves x _ i)
    visit-preserves (direct_import p v) s i = instead-preserves (direct_import p v) s _ i (i)
    visit-preserves (direct_using p ss) s i =
        instead-preserves (direct_using p ss) s _ i (visits-preserves ss _ i)
    visit-preserves (decl_namespace p nn ss) s i =
        instead-preserves (decl_namespace p nn ss) s _ i (visits-preserves ss _ i)
    visit-preserves (decl_data p x ss) s i =
        instead-preserves (decl_data p x ss) s _ i (visits-preserves ss _ (visit-preserves x _ i))
    visit-preserves (decl_definition p x y z) s i =
        instead-preserves (decl_definition p x y z) s _ i
          (visit-preserves z _ (visit-preserves y _ (visit-preserves x _ i)))
    visit-preserves (decl_value p x y z) s i =
        instead-preserves (decl_value p x y z) s _ i
          (visit-preserves z _ (visit-preserves y _ (visit-preserves x _ i)))
    visit-preserves (decl_operator p x y z) s i =
        instead-preserves (decl_operator p x y z) s _ i
          (visit-preserves z _ (visit-preserves y _ (visit-preserves x _ i)))
    visit-preserves (ast_wrapper p ss) s i =
        instead-preserves (ast_wrapper p ss) s _ i (visits-preserves ss _ i)

    visits-preserves : (aa : Asts) (s : S) → P s → P (visits method aa s)
    visits-preserves nil s i = i
    visits-preserves (cons a aa) s i = visits-preserves aa _ (visit-preserves a s i)

unfoldable pub HasDocstring : Option Ast → Type 0
HasDocstring none = ⊥
HasDocstring (some a) = IsDocstring a

some_injective : {A : Type 0} {a b : A} → ◌≡◌ {A = Option A} (some a) (some b) → a ≡ b
some_injective h = cc

docstring-keeps :
    (a : Ast) (f : Option Ast → Option Ast)
    → docstring_method a ≡ some f
    → (o : Option Ast) → HasDocstring o
    → HasDocstring (f o)
unfolding docstring_method HasDocstring IsDocstring
docstring-keeps empty f h o i = absurd cc
docstring-keeps (docstring p v) f h o i = rw (← some_injective h) tt
docstring-keeps (expr_integer p v) f h o i = absurd cc
docstring-keeps (expr_hexinteger p v) f h o i = absurd cc
docstring-keeps (expr_float p v) f h o i = absurd cc
docstring-keeps (expr_complex p v) f h o i = absurd cc
docstring-keeps (expr_character p v) f h o i = absurd cc
docstring-keeps (expr_text p v) f h o i = absurd cc
docstring-keeps (expr_variable p v) f h o i = absurd cc
docstring-keeps (expr_wildcard p v) f h o i = absurd cc
docstring-keeps (expr_combinator p nn v) f h o i = absurd cc
docstring-keeps (expr_operator p nn v) f h o i = absurd cc
docstring-keeps (ast_path p nn) f h o i = absurd cc
docstring-keeps (ast_alias p x y) f h o i = absurd cc
docstring-keeps (ast_rename p x ss) f h o i = absurd cc
docstring-keeps (expr_tag p x y) f h o i = absurd cc
docstring-keeps (expr_list p ss) f h o i = absurd cc
docstring-keeps (expr_list_tail p ss x) f h o i = absurd cc
docstring-keeps (expr_tuple p ss) f h o i = absurd cc
docstring-keeps (expr_application p ss) f h o i = absurd cc
docstring-keeps (expr_match p ss x y) f h o i = absurd cc
docstring-keeps (expr_block p ss) f h o i = absurd cc
docstring-keeps (expr_lambda p ss) f h o i = absurd cc
docstring-keeps (expr_let p ss x y) f h o i = absurd cc
docstring-keeps (expr_try p x y) f h o i = absurd cc
docstring-keeps (expr_throw p x) f h o i = absurd cc
docstring-keeps (expr_if p x y z) f h o i = absurd cc
docstring-keeps (expr_statement p x y) f h o i = absurd cc
docstring-keeps (expr_do p x) f h o i = absurd cc
docstring-keeps (direct_import p v) f h o i = absurd cc
docstring-keeps (direct_using p ss) f h o i = absurd cc
docstring-keeps (decl_namespace p nn ss) f h o i = absurd cc
docstring-keeps (decl_data p x ss) f h o i = rw (← some_injective h) i
docstring-keeps (decl_definition p x y z) f h o i = rw (← some_injective h) i
docstring-keeps (decl_value p x y z) f h o i = rw (← some_injective h) i
docstring-keeps (decl_operator p x y z) f h o i = rw (← some_injective h) i
docstring-keeps (ast_wrapper p ss) f h o i = absurd cc

unfoldable pub AreImports : List Ast → Type 0
AreImports [] = Unit
AreImports (direct_import p v ∷ aa) = AreImports aa
AreImports (a ∷ aa) = ⊥

AreImports-append :
    (ii : List Ast) (p : Position) (v : Text)
    → AreImports ii
    → AreImports (ii ++ (direct_import p v ∷ []))
unfolding AreImports
AreImports-append [] p v h = tt
AreImports-append (direct_import q w ∷ ii) p v h = AreImports-append ii p v h
AreImports-append (a ∷ ii) p v h = absurd h

imports-keeps :
    (a : Ast) (f : List Ast → List Ast)
    → imports_method a ≡ some f
    → (ii : List Ast) → AreImports ii
    → AreImports (f ii)
unfolding imports_method
imports-keeps empty f h ii i = absurd cc
imports-keeps (docstring p v) f h ii i = absurd cc
imports-keeps (expr_integer p v) f h ii i = absurd cc
imports-keeps (expr_hexinteger p v) f h ii i = absurd cc
imports-keeps (expr_float p v) f h ii i = absurd cc
imports-keeps (expr_complex p v) f h ii i = absurd cc
imports-keeps (expr_character p v) f h ii i = absurd cc
imports-keeps (expr_text p v) f h ii i = absurd cc
imports-keeps (expr_variable p v) f h ii i = absurd cc
imports-keeps (expr_wildcard p v) f h ii i = absurd cc
imports-keeps (expr_combinator p nn v) f h ii i = absurd cc
imports-keeps (expr_operator p nn v) f h ii i = absurd cc
imports-keeps (ast_path p nn) f h ii i = absurd cc
imports-keeps (ast_alias p x y) f h ii i = absurd cc
imports-keeps (ast_rename p x ss) f h ii i = absurd cc
imports-keeps (expr_tag p x y) f h ii i = absurd cc
imports-keeps (expr_list p ss) f h ii i = absurd cc
imports-keeps (expr_list_tail p ss x) f h ii i = absurd cc
imports-keeps (expr_tuple p ss) f h ii i = absurd cc
imports-keeps (expr_application p ss) f h ii i = absurd cc
imports-keeps (expr_match p ss x y) f h ii i = absurd cc
imports-keeps (expr_block p ss) f h ii i = absurd cc
imports-keeps (expr_lambda p ss) f h ii i = absurd cc
imports-keeps (expr_let p ss x y) f h ii i = absurd cc
imports-keeps (expr_try p x y) f h ii i = absurd cc
imports-keeps (expr_throw p x) f h ii i = absurd cc
imports-keeps (expr_if p x y z) f h ii i = absurd cc
imports-keeps (expr_statement p x y) f h ii i = absurd cc
imports-keeps (expr_do p x) f h ii i = absurd cc
imports-keeps (direct_import p v) f h ii i = rw (← some_injective h) (AreImports-append ii p v i)
imports-keeps (direct_using p ss) f h ii i = absurd cc
imports-keeps (decl_namespace p nn ss) f h ii i = absurd cc
imports-keeps (decl_data p x ss) f h ii i = rw (← some_injective h) i
imports-keeps (decl_definition p x y z) f h ii i = rw (← some_injective h) i
imports-keeps (decl_value p x y z) f h ii i = rw (← some_injective h) i
imports-keeps (decl_operator p x y z) f h ii i = rw (← some_injective h) i
imports-keeps (ast_wrapper p ss) f h ii i = absurd cc

-- The visitor of imports gives directives of import only.
pub imports-AreImports : (a : Ast) → AreImports (imports a)
unfolding imports AreImports
imports-AreImports a = visit-preserves imports_method AreImports imports-keeps a [] tt

-- A wrapper that begins with a docstring.
unfoldable pub IsDocumented : Ast → Type 0
IsDocumented (ast_wrapper p (cons d aa)) = IsDocstring d
IsDocumented _ = ⊥

-- A wrapper that begins with a docstring has one: later ones replace it, but none takes it away.
pub visit_docstring-HasDocstring : (a : Ast) → IsDocumented a → HasDocstring (visit_docstring a)
unfolding visit_docstring visit instead docstring_method HasDocstring IsDocumented IsDocstring
visit_docstring-HasDocstring (ast_wrapper p (cons (docstring q v) aa)) h =
    visits-preserves docstring_method HasDocstring docstring-keeps aa (some (docstring q v)) tt
visit_docstring-HasDocstring _ h = absurd h
