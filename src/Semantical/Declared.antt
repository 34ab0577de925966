-- ===== src/Semantical/Declared.antt =====
-- What a module declares, as a list, and that src/semantical.hpp declares it in that order.
use egel.Prelude.{List, [], ◌∷◌, ◌++◌, ◌≡◌, refl, ◌∙◌, sym}
use egel.Prelude.Text.{Text}
use egel.Reader.{Position}
use egel.Syntax.{
  Ast, Asts, nil, cons, empty, docstring, expr_integer, expr_hexinteger, expr_float, expr_complex,
  expr_character, expr_text, expr_variable, expr_wildcard, expr_combinator, expr_operator, ast_path,
  ast_alias, ast_rename, expr_tag, expr_list, expr_list_tail, expr_tuple, expr_application,
  expr_match, expr_block, expr_lambda, expr_let, expr_try, expr_throw, expr_if, expr_statement,
  expr_do, direct_import, direct_using, decl_namespace, decl_data, decl_definition, decl_value,
  decl_operator, ast_wrapper,
}
use egel.Environment.{Scope, declare_global}
use egel.Semantical.{
  Visited, ok, redeclaration, null_pointer, ◌>>=◌, Visiting, ◌▹◌, caught, visit_combinator, within,
  visit, visits, declare, qualified,
}

-- A combinator that is declared, as it stands in the source and with its qualified name.
pub record Declaration : Type 0 where
  pub at : Position
  pub short : Text
  pub name : Text

unfoldable mutual
  pub declared : List Text → Ast → List Declaration
  declared q empty = []
  declared q (docstring p v) = []
  declared q (expr_integer p v) = []
  declared q (expr_hexinteger p v) = []
  declared q (expr_float p v) = []
  declared q (expr_complex p v) = []
  declared q (expr_character p v) = []
  declared q (expr_text p v) = []
  declared q (expr_variable p v) = []
  declared q (expr_wildcard p v) = []
  declared q (expr_combinator p nn v) =
      record { at = p; short = v; name = qualified (q ++ nn) v } ∷ []
  declared q (expr_operator p nn v) = []
  declared q (ast_path p nn) = []
  declared q (ast_alias p x y) = declared q x ++ (declared q y)
  declared q (ast_rename p x ss) = declared q x ++ (all_declared q ss)
  declared q (expr_tag p x y) = declared q x ++ (declared q y)
  declared q (expr_list p ss) = all_declared q ss
  declared q (expr_list_tail p ss x) = all_declared q ss ++ (declared q x)
  declared q (expr_tuple p ss) = all_declared q ss
  declared q (expr_application p ss) = all_declared q ss
  declared q (expr_match p ss x y) = all_declared q ss ++ (declared q x ++ (declared q y))
  declared q (expr_block p ss) = all_declared q ss
  declared q (expr_lambda p ss) = all_declared q ss
  declared q (expr_let p ss x y) = all_declared q ss ++ (declared q x ++ (declared q y))
  declared q (expr_try p x y) = declared q x ++ (declared q y)
  declared q (expr_throw p x) = declared q x
  declared q (expr_if p x y z) = declared q x ++ (declared q y ++ (declared q z))
  declared q (expr_statement p x y) = declared q x ++ (declared q y)
  declared q (expr_do p x) = declared q x
  declared q (direct_import p v) = []
  declared q (direct_using p ss) = []
  declared q (decl_namespace p nn ss) = all_declared (q ++ nn) ss
  declared q (decl_data p x ss) = all_declared q ss
  declared q (decl_definition p x y z) = declared q x
  declared q (decl_value p x y z) = declared q x
  declared q (decl_operator p x y z) = declared q x
  declared q (ast_wrapper p ss) = all_declared q ss

  pub all_declared : List Text → Asts → List Declaration
  all_declared q nil = []
  all_declared q (cons a aa) = declared q a ++ all_declared q aa

-- The declarations of a list one after the other.
unfoldable pub declare_one : Declaration → Scope → Visited Scope
declare_one d s = caught d.at d.short (declare_global d.name s)

unfoldable pub declare_list : List Declaration → Scope → Visited Scope
declare_list [] s = ok s
declare_list (d ∷ ds) s = declare_one d s >>= declare_list ds

bind_assoc :
    {A B C : Type 0} (m : Visited A) (f : A → Visited B) (g : B → Visited C)
    → ((m >>= f) >>= g) ≡ (m >>= λ x. f x >>= g)
bind_assoc (ok x) f g = refl
bind_assoc (redeclaration p n) f g = refl
bind_assoc null_pointer f g = refl

bind_ext :
    {A B : Type 0} (m : Visited A) {f g : A → Visited B}
    → ((x : A) → f x ≡ g x)
    → (m >>= f) ≡ (m >>= g)
bind_ext (ok x) h = h x
bind_ext (redeclaration p n) h = refl
bind_ext null_pointer h = refl

bind_ok : {A : Type 0} (m : Visited A) → (m >>= ok) ≡ m
bind_ok (ok x) = refl
bind_ok (redeclaration p n) = refl
bind_ok null_pointer = refl

declare_list-append :
    (ds es : List Declaration) (s : Scope)
    → declare_list (ds ++ es) s ≡ (declare_list ds s >>= declare_list es)
unfolding declare_list
declare_list-append [] es s = refl
declare_list-append (d ∷ ds) es s =
    bind_ext (declare_one d s) (λ t. declare_list-append ds es t)
    ∙ sym (bind_assoc (declare_one d s) (declare_list ds) (declare_list es))

-- A visit declares the list and keeps the path.
unfoldable Follows : List Text → Visiting → List Declaration → Type 0
Follows q m ds =
    (s : Scope)
    → m (record { spaces = s; path = q })
      ≡ (declare_list ds s >>= λ t. ok (record { spaces = t; path = q }))

seq-Follows :
    (q : List Text) (m k : Visiting) (ds es : List Declaration)
    → Follows q m ds
    → Follows q k es
    → Follows q (m ▹ k) (ds ++ es)
unfolding Follows ◌▹◌
seq-Follows q m k ds es h g s =
    rw (h s, declare_list-append ds es s)
      (bind_assoc (declare_list ds s) _ k
        ∙ bind_ext (declare_list ds s) g
        ∙ sym (bind_assoc (declare_list ds s) (declare_list es) _))

ok-Follows : (q : List Text) → Follows q ok []
unfolding Follows declare_list
ok-Follows q s = refl

combinator-Follows :
    (q : List Text) (p : Position) (nn : List Text) (v : Text)
    → Follows q
        (visit_combinator p nn v)
        (record { at = p; short = v; name = qualified (q ++ nn) v } ∷ [])
unfolding Follows declare_list declare_one visit_combinator
combinator-Follows q p nn v s =
    rw (bind_ok (caught p v (declare_global (qualified (q ++ nn) v) s))) refl

within-Follows :
    (q nn : List Text) (m : Visiting) (ds : List Declaration)
    → Follows (q ++ nn) m ds
    → Follows q (within nn m) ds
unfolding Follows within
within-Follows q nn m ds h s = rw (h s) (bind_assoc (declare_list ds s) _ _)

mutual
  unfolding visit declared

  visit-Follows : (q : List Text) (a : Ast) → Follows q (visit a) (declared q a)
  visit-Follows q empty = ok-Follows q
  visit-Follows q (docstring p v) = ok-Follows q
  visit-Follows q (expr_integer p v) = ok-Follows q
  visit-Follows q (expr_hexinteger p v) = ok-Follows q
  visit-Follows q (expr_float p v) = ok-Follows q
  visit-Follows q (expr_complex p v) = ok-Follows q
  visit-Follows q (expr_character p v) = ok-Follows q
  visit-Follows q (expr_text p v) = ok-Follows q
  visit-Follows q (expr_variable p v) = ok-Follows q
  visit-Follows q (expr_wildcard p v) = ok-Follows q
  visit-Follows q (expr_combinator p nn v) = combinator-Follows q p nn v
  visit-Follows q (expr_operator p nn v) = ok-Follows q
  visit-Follows q (ast_path p nn) = ok-Follows q
  visit-Follows q (ast_alias p x y) = seq-Follows q _ _ _ _ (visit-Follows q x) (visit-Follows q y)
  visit-Follows q (ast_rename p x ss) =
      seq-Follows q _ _ _ _ (visit-Follows q x) (visits-Follows q ss)
  visit-Follows q (expr_tag p x y) = seq-Follows q _ _ _ _ (visit-Follows q x) (visit-Follows q y)
  visit-Follows q (expr_list p ss) = visits-Follows q ss
  visit-Follows q (expr_list_tail p ss x) =
      seq-Follows q _ _ _ _ (visits-Follows q ss) (visit-Follows q x)
  visit-Follows q (expr_tuple p ss) = visits-Follows q ss
  visit-Follows q (expr_application p ss) = visits-Follows q ss
  visit-Follows q (expr_match p ss x y) =
      seq-Follows q _ _ _ _ (visits-Follows q ss)
        (seq-Follows q _ _ _ _ (visit-Follows q x) (visit-Follows q y))
  visit-Follows q (expr_block p ss) = visits-Follows q ss
  visit-Follows q (expr_lambda p ss) = visits-Follows q ss
  visit-Follows q (expr_let p ss x y) =
      seq-Follows q _ _ _ _ (visits-Follows q ss)
        (seq-Follows q _ _ _ _ (visit-Follows q x) (visit-Follows q y))
  visit-Follows q (expr_try p x y) = seq-Follows q _ _ _ _ (visit-Follows q x) (visit-Follows q y)
  visit-Follows q (expr_throw p x) = visit-Follows q x
  visit-Follows q (expr_if p x y z) =
      seq-Follows q _ _ _ _ (visit-Follows q x)
        (seq-Follows q _ _ _ _ (visit-Follows q y) (visit-Follows q z))
  visit-Follows q (expr_statement p x y) =
      seq-Follows q _ _ _ _ (visit-Follows q x) (visit-Follows q y)
  visit-Follows q (expr_do p x) = visit-Follows q x
  visit-Follows q (direct_import p v) = ok-Follows q
  visit-Follows q (direct_using p ss) = ok-Follows q
  visit-Follows q (decl_namespace p nn ss) = within-Follows q nn _ _ (visits-Follows (q ++ nn) ss)
  visit-Follows q (decl_data p x ss) = visits-Follows q ss
  visit-Follows q (decl_definition p x y z) = visit-Follows q x
  visit-Follows q (decl_value p x y z) = visit-Follows q x
  visit-Follows q (decl_operator p x y z) = visit-Follows q x
  visit-Follows q (ast_wrapper p ss) = visits-Follows q ss

  visits-Follows : (q : List Text) (aa : Asts) → Follows q (visits aa) (all_declared q aa)
  visits-Follows q nil = ok-Follows q
  visits-Follows q (cons a aa) = seq-Follows q _ _ _ _ (visit-Follows q a) (visits-Follows q aa)

pub declare-list : (env : Scope) (a : Ast) → declare env a ≡ declare_list (declared [] a) env
unfolding declare Follows
declare-list env a =
    rw (visit-Follows [] a env) (
      bind_assoc (declare_list (declared [] a) env) _ _
      ∙ bind_ok (declare_list (declared [] a) env))
