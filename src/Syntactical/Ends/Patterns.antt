-- ===== src/Syntactical/Ends/Patterns.antt =====
-- The patterns of src/syntactical.hpp: a pattern takes a token, and comes out well formed.
use egel.Prelude.{ℕ, zero, suc, ◌<◌, ◌≤◌, refl, arith, true}
use egel.Prelude.Text.{Text}
use egel.Lexical.Token.{
  Tag, Tokens, tag_eq, value, token_comma, token_lparen, token_rparen, token_lcurly, token_rcurly,
  token_colon, token_bar, token_integer, token_hexinteger, token_float, token_imaginary, token_char,
  token_text,
}
use egel.Syntax.{Ast, Asts, nil, cons}
use egel.Semantical.Identify.Formed.{in_pattern}
use egel.Syntactical.{Parser, rounds}
use egel.Syntactical.Patterns.{
  is_pattern_primary, parse_pattern_name, parse_pattern_tagged, pattern, primaries_loop,
  parse_pattern_primaries, commas, parse_pattern_tuple, parse_pattern_enclosed, parse_pattern_list,
  pattern_case, parse_pattern_primary, parse_pattern, patterns_loop, parse_patterns,
}
use egel.Syntactical.Ends.{
  left, Ended, Any, Ends, returns, Sees, sees, Ends-bind, Sees-Ends, Sees-bind, Ends-weaken,
  Ends-choose,
}
use egel.Syntactical.Ends.Looks.{
  skip-Ends, position-Sees, tag-Sees, is_at-Sees, error_here-Ends, force_token-Ends,
}
use egel.Syntactical.Ends.Trees.{
  Tree, Trees, Leaf, IsName, nil-Trees, cons-Trees, application-Tree, tuple-Tree, list-Tree,
  list_tail-Tree, tag-Tree,
}
use egel.Syntactical.Ends.Names.{
  parse_integer-Ends, parse_hexinteger-Ends, parse_float_or_complex-Ends, parse_character-Ends,
  parse_text-Ends, is_variable-Sees, is_wildcard-Sees, is_combinator-Sees,
  is_enclosed_operator-Sees, parse_variable-Ends, parse_wildcard-Ends, parse_combinator-Ends,
  parse_enclosed_operator-Ends,
}

pub is_pattern_primary-Sees : (t : Tokens) → Ended t → Sees Any t (is_pattern_primary t)
unfolding is_pattern_primary
is_pattern_primary-Sees t e = Sees-bind _ (tag-Sees 0 t e) (λ g _.
    Sees-bind _ (is_wildcard-Sees t e) (λ w _.
      Sees-bind _ (is_variable-Sees t e)
        (λ v _. Sees-bind _ (is_combinator-Sees t e) (λ c _. sees tt))))

name-Leaf : (a : Ast) → IsName a → Leaf a
unfolding IsName
name-Leaf a h = h.2

Leaf-Tree : (a : Ast) → Leaf a → Tree in_pattern true a
unfolding Leaf
Leaf-Tree a h = h in_pattern true

parse_pattern_name-Ends : (t : Tokens) → Ended t → Ends Leaf (left t) (parse_pattern_name t)
unfolding parse_pattern_name
parse_pattern_name-Ends t e = Sees-Ends _ (is_wildcard-Sees t e) (λ w _.
    Sees-Ends _ (is_combinator-Sees t e) (λ c _. Sees-Ends _ (is_variable-Sees t e) (λ v _.
      Ends-choose _ _ (λ _. parse_wildcard-Ends t e)
        (λ _.
          Ends-choose _ _ (λ _. Ends-weaken (parse_combinator-Ends t e) (omega arith) name-Leaf)
            (λ _. Ends-choose _ _ (λ _. parse_variable-Ends t e) (λ _. error_here-Ends _ t e))))))

parse_pattern_tagged-Ends :
    (t : Tokens) → Ended t → Ends (Tree in_pattern true) (left t) (parse_pattern_tagged t)
unfolding parse_pattern_tagged tag_eq value
parse_pattern_tagged-Ends t e = Ends-bind (parse_pattern_name-Ends t e) (λ x u d k l.
    Sees-Ends _ (is_at-Sees 0 token_colon u refl d) (λ b more.
      Ends-choose _ _
        (λ h.
          let q = more h in
          Sees-Ends _ (position-Sees u d) (λ p _.
            Ends-bind (skip-Ends {m = left t} u d (omega arith)) (λ _ v c j _.
              Ends-bind (parse_combinator-Ends v c)
                (λ y w b i n. returns b (omega arith) (tag-Tree p x y l (name-Leaf y n))))))
        (λ _. returns d k (Leaf-Tree x l))))

-- What goes with a list of trees that a loop gathers.
module _ (self one : Parser Ast) (P : Ast → Type 0) (Q : Asts → Type 0) (none : Q nil)
    (more : (a : Ast) (aa : Asts) → P a → Q aa → Q (cons a aa)) (m : ℕ)
    (takes : (t : Tokens) → Ended t → left t < m → Ends P (left t) (one t)) where
  pub commas-Ends :
      (n : ℕ) (t : Tokens)
      → Ended t
      → left t < n
      → left t ≤ m
      → Ends Q (suc (left t)) (commas self one n t)
  unfolding commas tag_eq value
  commas-Ends zero t e h l = absurd (omega arith)
  commas-Ends (suc n) t e h l = Sees-Ends _ (is_at-Sees 0 token_comma t refl e) (λ b f.
      Ends-choose _ _
        (λ q.
          let some = f q in
          Ends-bind (skip-Ends {m = left t} t e (omega arith)) (λ _ u d k _.
            Ends-bind (takes u d (omega arith)) (λ a v c j x.
              Ends-bind (commas-Ends n v c (omega arith) (omega arith))
                (λ aa w b i y. returns b (omega arith) (more a aa x y)))))
        (λ _. returns e (omega arith) none))

module _ (self : Parser Ast) (m : ℕ)
    (takes : (t : Tokens)
      → Ended t
      → left t < m
      → Ends (Tree in_pattern true) (left t) (self t)) where
  pattern-Ends :
      (t : Tokens) → Ended t → left t < m → Ends (Tree in_pattern true) (left t) (pattern self t)
  unfolding pattern
  pattern-Ends t e l =
      Sees-Ends _ (is_pattern_primary-Sees t e)
        (λ b _. Ends-choose _ _ (λ _. takes t e l) (λ _. error_here-Ends _ t e))

  primaries_loop-Ends :
      (n : ℕ) (t : Tokens)
      → Ended t
      → left t < n
      → left t < m
      → Ends (Trees in_pattern true) (suc (left t)) (primaries_loop self n t)
  unfolding primaries_loop
  primaries_loop-Ends zero t e h l = absurd (omega arith)
  primaries_loop-Ends (suc n) t e h l = Sees-Ends _ (is_pattern_primary-Sees t e) (λ b _.
      Ends-choose _ _
        (λ _. Ends-bind (takes t e l) (λ a u d k x.
          Ends-bind (primaries_loop-Ends n u d (omega arith) (omega arith))
            (λ aa v c j y. returns c (omega arith) (cons-Trees a aa x y))))
        (λ _. returns e (omega arith) nil-Trees))

  parse_pattern_primaries-Ends :
      (t : Tokens)
      → Ended t
      → left t < m
      → Ends (Tree in_pattern true) (left t) (parse_pattern_primaries self t)
  unfolding parse_pattern_primaries
  parse_pattern_primaries-Ends t e l = Sees-Ends _ (position-Sees t e) (λ p _.
      Ends-bind (pattern-Ends t e l) (λ a u d k x. Sees-Ends _ (is_pattern_primary-Sees u d) (λ b _.
        Ends-choose _ _
          (λ _.
            Ends-bind (primaries_loop-Ends (rounds u) u d (omega arith) (omega arith))
              (λ aa v c j y.
                returns c (omega arith) (application-Tree p a aa (cons-Trees a aa x y))))
          (λ _. returns d k x))))

  parse_pattern_tuple-Ends :
      (t : Tokens)
      → Ended t
      → left t ≤ m
      → Ends (Tree in_pattern true) (left t) (parse_pattern_tuple self t)
  unfolding parse_pattern_tuple tag_eq value
  parse_pattern_tuple-Ends t e l = Sees-Ends _ (position-Sees t e) (λ p _.
      Ends-bind (force_token-Ends token_lparen t refl e) (λ _ u d k _.
        Ends-bind (parse_pattern_primaries-Ends u d (omega arith)) (λ a v c j x.
          Sees-Ends _ (is_at-Sees 0 token_comma v refl c) (λ _ _.
            Ends-choose _ _
              (λ _.
                Ends-bind
                  (commas-Ends self _ _ (Trees in_pattern true) nil-Trees cons-Trees m
                    parse_pattern_primaries-Ends (rounds v) v c (omega arith) (omega arith))
                  (λ aa w b i y.
                    Ends-bind (force_token-Ends token_rparen w refl b) (λ _ z f g _.
                      returns f (omega arith) (tuple-Tree p _ (cons-Trees a aa x y)))))
              (λ _.
                Ends-bind (force_token-Ends token_rparen v refl c)
                  (λ _ w b i _. returns b (omega arith) x))))))

  parse_pattern_enclosed-Ends :
      (t : Tokens)
      → Ended t
      → left t ≤ m
      → Ends (Tree in_pattern true) (left t) (parse_pattern_enclosed self t)
  unfolding parse_pattern_enclosed
  parse_pattern_enclosed-Ends t e l = Sees-Ends _ (is_enclosed_operator-Sees t e) (λ b _.
      Ends-choose _ _
        (λ _.
          Ends-weaken (parse_enclosed_operator-Ends t e) (omega arith)
            (λ a n. Leaf-Tree a (name-Leaf a n)))
        (λ _. parse_pattern_tuple-Ends t e l))

  parse_pattern_list-Ends :
      (t : Tokens)
      → Ended t
      → left t ≤ m
      → Ends (Tree in_pattern true) (left t) (parse_pattern_list self t)
  unfolding parse_pattern_list tag_eq value
  parse_pattern_list-Ends t e l = Sees-Ends _ (position-Sees t e) (λ p _.
      Ends-bind (force_token-Ends token_lcurly t refl e) (λ _ u d k _.
        Sees-Ends _ (is_at-Sees 0 token_rcurly u refl d) (λ _ _.
          Ends-choose _ _
            (λ _.
              Ends-bind (skip-Ends {m = left t} u d (omega arith))
                (λ _ v c j _. returns c j (list-Tree p nil nil-Trees)))
            (λ _. Ends-bind (pattern-Ends u d (omega arith)) (λ a v c j x.
              Ends-bind
                (commas-Ends self _ _ (Trees in_pattern true) nil-Trees cons-Trees m pattern-Ends
                  (rounds v) v c (omega arith) (omega arith))
                (λ aa w b i y. Sees-Ends _ (is_at-Sees 0 token_bar w refl b) (λ _ _.
                  Ends-choose _ _
                    (λ _. Ends-bind (skip-Ends {m = suc (left w)} w b (omega arith)) (λ _ z f g _.
                      Ends-bind (pattern-Ends z f (omega arith)) (λ last r o n s.
                        Ends-bind (force_token-Ends token_rcurly r refl o) (λ _ r1 o1 n1 _.
                          returns o1 (omega arith)
                            (list_tail-Tree p _ last (cons-Trees a aa x y) s)))))
                    (λ _. Ends-bind (force_token-Ends token_rcurly w refl b) (λ _ z f g _.
                      returns f (omega arith) (list-Tree p _ (cons-Trees a aa x y)))))))))))

  pattern_case-Ends :
      (trim : Text → Text) (g : Tag) (t : Tokens)
      → Ended t
      → left t ≤ m
      → Ends (Tree in_pattern true) (left t) (pattern_case trim self g t)
  unfolding pattern_case
  pattern_case-Ends trim token_integer t e l =
      Ends-weaken (parse_integer-Ends t e) (omega arith) Leaf-Tree
  pattern_case-Ends trim token_hexinteger t e l =
      Ends-weaken (parse_hexinteger-Ends t e) (omega arith) Leaf-Tree
  pattern_case-Ends trim token_float t e l =
      Ends-weaken (parse_float_or_complex-Ends trim t e) (omega arith) Leaf-Tree
  pattern_case-Ends trim token_imaginary t e l =
      Ends-weaken (parse_float_or_complex-Ends trim t e) (omega arith) Leaf-Tree
  pattern_case-Ends trim token_char t e l =
      Ends-weaken (parse_character-Ends t e) (omega arith) Leaf-Tree
  pattern_case-Ends trim token_text t e l =
      Ends-weaken (parse_text-Ends t e) (omega arith) Leaf-Tree
  pattern_case-Ends trim token_lparen t e l = parse_pattern_enclosed-Ends t e l
  pattern_case-Ends trim token_lcurly t e l = parse_pattern_list-Ends t e l
  pattern_case-Ends trim g t e l = parse_pattern_tagged-Ends t e

module _ (trim : Text → Text) where
  parse_pattern_primary-Ends :
      (n : ℕ) (t : Tokens)
      → Ended t
      → left t < n
      → Ends (Tree in_pattern true) (left t) (parse_pattern_primary trim n t)
  unfolding parse_pattern_primary
  parse_pattern_primary-Ends zero t e h = absurd (omega arith)
  parse_pattern_primary-Ends (suc n) t e h = Sees-Ends _ (tag-Sees 0 t e) (λ g _.
      pattern_case-Ends (parse_pattern_primary trim n) n (parse_pattern_primary-Ends n) trim g t e
        (omega arith))

  -- A pattern takes a token at least, and comes out well formed; otherwise an error is thrown.
  parse_pattern-Ends :
      (t : Tokens) → Ended t → Ends (Tree in_pattern true) (left t) (parse_pattern trim t)
  unfolding parse_pattern
  parse_pattern-Ends t e =
      pattern-Ends _ (suc (left t))
        (λ u d _. parse_pattern_primary-Ends (rounds u) u d (omega arith)) t e (omega arith)

  patterns_loop-Ends :
      (n : ℕ) (t : Tokens)
      → Ended t
      → left t < n
      → Ends (Trees in_pattern true) (suc (left t)) (patterns_loop trim n t)
  unfolding patterns_loop
  patterns_loop-Ends zero t e h = absurd (omega arith)
  patterns_loop-Ends (suc n) t e h = Sees-Ends _ (is_pattern_primary-Sees t e) (λ b _.
      Ends-choose _ _
        (λ _. Ends-bind (parse_pattern-Ends t e) (λ a u d k x.
          Ends-bind (patterns_loop-Ends n u d (omega arith))
            (λ aa v c j y. returns c (omega arith) (cons-Trees a aa x y))))
        (λ _. returns e (omega arith) nil-Trees))

  pub parse_patterns-Ends :
      (t : Tokens) → Ended t → Ends (Trees in_pattern true) (suc (left t)) (parse_patterns trim t)
  unfolding parse_patterns
  parse_patterns-Ends t e = patterns_loop-Ends (rounds t) t e (omega arith)
