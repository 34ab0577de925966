-- ===== src/Syntactical/Ends/Directives.antt =====
-- The directives of src/syntactical.hpp: each takes a token, and comes out well formed.
use egel.Prelude.{ℕ, zero, suc, ◌<◌, ◌≡◌, refl, arith, List, ◌∷◌}
use egel.Prelude.Text.{Text}
use egel.Reader.{Position}
use egel.Lexical.Token.{
  Tag, Tokens, tag_eq, value, token_eq, token_lparen, token_rparen, token_dcolon, token_uppercase,
  token_text, token_using, token_import,
}
use egel.Syntax.{Ast, nil, ast_path, ast_alias}
use egel.Syntactical.{rounds}
use egel.Syntactical.Declarations.{
  parse_uppercase, path_loop, parse_path, parse_rename_head, parse_rename_combinator,
  parse_rename_arg, parse_rename_args, parse_rename, parse_using, parse_import, parse_directive,
}
use egel.Syntactical.Ends.{left, Ended, Any, Ends, returns, Ends-bind, Sees-Ends, Ends-choose}
use egel.Syntactical.Ends.Looks.{
  skip-Ends, position-Sees, text-Sees, is_at-Sees, error_here-Ends, check_token-Ends,
  force_token-Ends,
}
use egel.Syntactical.Ends.Trees.{IsName, nil-Trees, cons-Trees}
use egel.Syntactical.Ends.Trees.Declarations.{
  IsDecl, AreDecls, IsTarget, AreRenamed, IsRenamed, path-IsTarget, alias-IsTarget, nil-AreRenamed,
  cons-AreRenamed, name-IsRenamed, alias-IsRenamed, rename-Tree, using-Tree, import-Tree,
}
use egel.Syntactical.Ends.Names.{
  is_combinator-Sees, is_operator-Sees, parse_combinator-Ends, parse_operator-Ends,
}
use egel.Syntactical.Ends.Patterns.{commas-Ends}

parse_uppercase-Ends : (t : Tokens) → Ended t → Ends Any (left t) (parse_uppercase t)
unfolding parse_uppercase tag_eq value
parse_uppercase-Ends t e = check_token-Ends _ token_uppercase t refl e (λ more.
    Sees-Ends _ (text-Sees 0 t e)
      (λ s _. Ends-bind (skip-Ends {m = left t} t e (omega arith)) (λ _ u d k _. returns d k tt)))

path_loop-Ends :
    (n : ℕ) (t : Tokens) → Ended t → left t < n → Ends Any (suc (left t)) (path_loop n t)
unfolding path_loop tag_eq value
path_loop-Ends zero t e h = absurd (omega arith)
path_loop-Ends (suc n) t e h = Sees-Ends _ (is_at-Sees 0 token_dcolon t refl e) (λ b more.
    Ends-choose _ _
      (λ q.
        let some = more q in
        Ends-bind (skip-Ends {m = left t} t e (omega arith)) (λ _ u d k _.
          Ends-bind (parse_uppercase-Ends u d) (λ s v c j _.
            Ends-bind (path_loop-Ends n v c (omega arith))
              (λ ss w b i _. returns b (omega arith) tt))))
      (λ _. returns e (omega arith) tt))

unfoldable IsPath : Ast → Type 0
IsPath a = (p : Position) × (nn : List Text) × (a ≡ ast_path p nn)

parse_path-Ends : (t : Tokens) → Ended t → Ends IsPath (left t) (parse_path t)
unfolding parse_path IsPath
parse_path-Ends t e = Sees-Ends _ (position-Sees t e) (λ p _.
    Ends-bind (parse_uppercase-Ends t e) (λ s u d k _.
      Ends-bind (path_loop-Ends (rounds u) u d (omega arith))
        (λ ss v c j _. returns c (omega arith) (p, s ∷ ss, refl))))

path_or_alias :
    (p : Position) (a b : Ast) → IsPath a → IsPath b → IsTarget a × IsTarget (ast_alias p a b)
unfolding IsPath
path_or_alias p a b (q, mm, h) (r, nn, g) =
    (rw h (path-IsTarget q mm), rw (h, g) (alias-IsTarget p q r mm nn))

parse_rename_head-Ends : (t : Tokens) → Ended t → Ends IsTarget (left t) (parse_rename_head t)
unfolding parse_rename_head tag_eq value
parse_rename_head-Ends t e = Sees-Ends _ (position-Sees t e) (λ p _.
    Ends-bind (parse_path-Ends t e) (λ a u d k x.
      Sees-Ends _ (is_at-Sees 0 token_eq u refl d) (λ _ _.
        Ends-choose _ _
          (λ _. Ends-bind (skip-Ends {m = suc (left u)} u d (omega arith)) (λ _ v c j _.
            Ends-bind (parse_path-Ends v c)
              (λ b w f i y. returns f (omega arith) (path_or_alias p a b x y).1)))
          (λ _. returns d k (path_or_alias p a a x x).0))))

parse_rename_combinator-Ends :
    (t : Tokens) → Ended t → Ends IsName (left t) (parse_rename_combinator t)
unfolding parse_rename_combinator
parse_rename_combinator-Ends t e = Sees-Ends _ (is_combinator-Sees t e) (λ _ _.
    Sees-Ends _ (is_operator-Sees t e) (λ _ _.
      Ends-choose _ _ (λ _. parse_combinator-Ends t e)
        (λ _. Ends-choose _ _ (λ _. parse_operator-Ends t e) (λ _. error_here-Ends _ t e))))

parse_rename_arg-Ends :
    (m : ℕ) (t : Tokens) → Ended t → left t < m → Ends IsRenamed (left t) (parse_rename_arg t)
unfolding parse_rename_arg tag_eq value
parse_rename_arg-Ends m t e _ = Sees-Ends _ (position-Sees t e) (λ p _.
    Ends-bind (parse_rename_combinator-Ends t e) (λ a u d k x.
      Sees-Ends _ (is_at-Sees 0 token_eq u refl d) (λ _ _.
        Ends-choose _ _
          (λ _. Ends-bind (skip-Ends {m = suc (left u)} u d (omega arith)) (λ _ v c j _.
            Ends-bind (parse_rename_combinator-Ends v c)
              (λ b w f i y. returns f (omega arith) (alias-IsRenamed p a b x y))))
          (λ _. returns d k (name-IsRenamed a x)))))

parse_rename_args-Ends : (t : Tokens) → Ended t → Ends AreRenamed (left t) (parse_rename_args t)
unfolding parse_rename_args tag_eq value
parse_rename_args-Ends t e = Ends-bind (force_token-Ends token_lparen t refl e) (λ _ u d k _.
    Ends-bind (parse_rename_arg-Ends (rounds u) u d (omega arith)) (λ a v c j x.
      Ends-bind
        (commas-Ends parse_rename_arg parse_rename_arg IsRenamed AreRenamed nil-AreRenamed
          cons-AreRenamed (rounds v) (parse_rename_arg-Ends (rounds v)) (rounds v) v c (omega arith)
          (omega arith))
        (λ aa w b i y.
          Ends-bind (force_token-Ends token_rparen w refl b)
            (λ _ z f g _. returns f (omega arith) (cons-AreRenamed a aa x y)))))

parse_rename-Ends :
    (m : ℕ) (t : Tokens) → Ended t → left t < m → Ends IsDecl (left t) (parse_rename t)
unfolding parse_rename tag_eq value
parse_rename-Ends m t e _ = Sees-Ends _ (position-Sees t e) (λ p _.
    Ends-bind (parse_rename_head-Ends t e) (λ a u d k x.
      Sees-Ends _ (is_at-Sees 0 token_lparen u refl d) (λ _ _.
        Ends-choose _ _
          (λ _.
            Ends-bind (parse_rename_args-Ends u d)
              (λ aa v c j y. returns c (omega arith) (rename-Tree p a aa x y)))
          (λ _. returns d k (rename-Tree p a nil x nil-AreRenamed)))))

parse_using-Ends : (t : Tokens) → Ended t → Ends IsDecl (left t) (parse_using t)
unfolding parse_using tag_eq value
parse_using-Ends t e = Sees-Ends _ (position-Sees t e) (λ p _.
    Ends-bind (force_token-Ends token_using t refl e) (λ _ u d k _.
      Ends-bind (parse_rename-Ends (rounds u) u d (omega arith)) (λ a v c j x.
        Ends-bind
          (commas-Ends parse_rename parse_rename IsDecl AreDecls nil-Trees cons-Trees (rounds v)
            (parse_rename-Ends (rounds v)) (rounds v) v c (omega arith) (omega arith))
          (λ aa w b i y. returns b (omega arith) (using-Tree p _ (cons-Trees a aa x y))))))

parse_import-Ends : (t : Tokens) → Ended t → Ends IsDecl (left t) (parse_import t)
unfolding parse_import tag_eq value
parse_import-Ends t e = Sees-Ends _ (position-Sees t e) (λ p _.
    Ends-bind (force_token-Ends token_import t refl e) (λ _ u d k _.
      check_token-Ends _ token_text u refl d (λ more. Sees-Ends _ (text-Sees 0 u d) (λ s _.
        Ends-bind (skip-Ends {m = left t} u d (omega arith))
          (λ _ v c j _. returns c (omega arith) (import-Tree p s))))))

pub parse_directive-Ends :
    (g : Tag) (t : Tokens) → Ended t → Ends IsDecl (left t) (parse_directive g t)
unfolding parse_directive
parse_directive-Ends token_using t e = parse_using-Ends t e
parse_directive-Ends token_import t e = parse_import-Ends t e
parse_directive-Ends g t e = error_here-Ends _ t e
