-- ===== src/Syntactical/Ends/Names.antt =====
-- The literals, names and operators of src/syntactical.hpp: a name or a literal takes a token, and
-- the tests that look ahead end and take none.
use egel.Prelude.{
  ℕ, zero, suc, ◌+◌, ◌*◌, ◌<◌, ◌≤◌, ◌≡◌, refl, arith, Bool, true, false, ◌&&◌, [], ◌∷◌,
}
use egel.Prelude.Text.{Text}
use egel.Reader.{Position}
use egel.Lexical.Token.{
  Tag, Tokens, tag_eq, value, token_lparen, token_rparen, token_dcolon, token_operator,
  token_uppercase, token_lowercase, token_integer, token_hexinteger, token_float, token_char,
  token_text, token_eof,
}
use egel.Syntax.{
  Ast, expr_integer, expr_hexinteger, expr_float, expr_character, expr_text, expr_variable,
}
use egel.Syntactical.{rounds}
use egel.Syntactical.Names.{
  parse_leaf, parse_integer, parse_hexinteger, parse_character, parse_text, skip_two, parse_signed,
  parse_float_or_complex, parse_docstring_option, is_variable, is_wildcard, qualifiers,
  is_combinator, is_operator, peek_operator, is_enclosed_operator, parse_variable, parse_wildcard,
  parse_qualifiers, parse_qualified, parse_combinator, parse_operator, parse_prefix_operator,
  parse_enclosed_operator, parse_more_names, parse_namespace,
}
use egel.Syntactical.Ends.{
  left, Ended, Any, Ends, returns, Sees, sees, Ends-bind, Sees-Ends, Sees-bind, Sees-weaken,
  Ends-choose, Sees-choose,
}
use egel.Syntactical.Ends.Looks.{
  skip-Ends, look-Sees, look-Found, not_end, position-Sees, text-Sees, is_at-Sees, error_here-Ends,
  check_token-Ends, force_token-Ends,
}
use egel.Syntactical.Ends.Trees.{
  Leaf, IsDoc, IsName, integer-Leaf, hexinteger-Leaf, float-Leaf, complex-Leaf, character-Leaf,
  text-Leaf, variable-Leaf, wildcard-Leaf, docstring-IsDoc, combinator-IsName,
}

pub and_left : (a b : Bool) → (a && b) ≡ true → a ≡ true
and_left a b h = ground arith

pub parse_leaf-Ends :
    (g : Tag) (f : Position → Text → Ast) (t : Tokens)
    → tag_eq token_eof g ≡ false
    → ((p : Position) (s : Text) → Leaf (f p s))
    → Ended t
    → Ends Leaf (left t) (parse_leaf g f t)
unfolding parse_leaf
parse_leaf-Ends g f t h l e = check_token-Ends _ g t h e (λ more.
    Sees-Ends _ (position-Sees t e) (λ p _. Sees-Ends _ (text-Sees 0 t e) (λ s _.
      Ends-bind (skip-Ends {m = left t} t e (omega arith)) (λ _ u d k _. returns d k (l p s)))))

parse_signed-Ends :
    (p : Position) (re im : Text) (minus : Bool) (t : Tokens)
    → Ended t
    → 0 < left t
    → Ends Leaf (left t) (parse_signed p re minus im t)
unfolding parse_signed skip_two
parse_signed-Ends p re im minus t e h =
    Ends-bind (skip-Ends {m = left t} t e (omega arith)) (λ _ u d k _.
      Ends-bind
        (Ends-bind (skip-Ends {m = suc (left u)} u d (omega arith))
          (λ _ v c j _. skip-Ends {m = left t} v c (omega arith)))
        (λ _ w b i _. returns b i (complex-Leaf p _)))

pub parse_integer-Ends : (t : Tokens) → Ended t → Ends Leaf (left t) (parse_integer t)
unfolding parse_integer tag_eq value
parse_integer-Ends t e = parse_leaf-Ends token_integer expr_integer t refl integer-Leaf e

pub parse_hexinteger-Ends : (t : Tokens) → Ended t → Ends Leaf (left t) (parse_hexinteger t)
unfolding parse_hexinteger tag_eq value
parse_hexinteger-Ends t e =
    parse_leaf-Ends token_hexinteger expr_hexinteger t refl hexinteger-Leaf e

pub parse_character-Ends : (t : Tokens) → Ended t → Ends Leaf (left t) (parse_character t)
unfolding parse_character tag_eq value
parse_character-Ends t e = parse_leaf-Ends token_char expr_character t refl character-Leaf e

pub parse_text-Ends : (t : Tokens) → Ended t → Ends Leaf (left t) (parse_text t)
unfolding parse_text tag_eq value
parse_text-Ends t e = parse_leaf-Ends token_text expr_text t refl text-Leaf e

pub parse_variable-Ends : (t : Tokens) → Ended t → Ends Leaf (left t) (parse_variable t)
unfolding parse_variable tag_eq value
parse_variable-Ends t e = parse_leaf-Ends token_uppercase expr_variable t refl variable-Leaf e

pub parse_float_or_complex-Ends :
    (trim : Text → Text) (t : Tokens) → Ended t → Ends Leaf (left t) (parse_float_or_complex trim t)
unfolding parse_float_or_complex tag_eq value
parse_float_or_complex-Ends trim t e = Sees-Ends _ (look-Found 0 t e) (λ t0 f.
    let more : (b : Bool) → (tag_eq t0.tag token_float && b) ≡ true → 0 < left t =
      λ b h. not_end 0 t t0 token_float f refl (and_left _ b h) in
    Sees-Ends _ (look-Sees 1 t e) (λ t1 _. Sees-Ends _ (look-Sees 2 t e) (λ t2 _.
      Ends-choose _ _
        (λ h. parse_signed-Ends t0.position t0.text t2.text false t e (more _ (and_left _ _ h)))
        (λ _.
          Ends-choose _ _
            (λ h. parse_signed-Ends t0.position t0.text t2.text true t e (more _ (and_left _ _ h)))
            (λ _.
              Ends-choose _ _
                (λ h.
                  let l = more _ h in
                  Ends-bind (skip-Ends {m = left t} t e (omega arith)) (λ _ u d k _.
                    Ends-bind (skip-Ends {m = left t} u d (omega arith))
                      (λ _ v c j _. returns c j (complex-Leaf t0.position _))))
                (λ _. parse_leaf-Ends token_float expr_float t refl float-Leaf e))))))

pub parse_docstring_option-Ends :
    (t : Tokens) → Ended t → Ends IsDoc (suc (left t)) (parse_docstring_option t)
unfolding parse_docstring_option tag_eq value
parse_docstring_option-Ends t e = Sees-Ends _ (position-Sees t e) (λ p _.
    Sees-Ends _ (text-Sees 0 t e) (λ s _. Sees-Ends _ (is_at-Sees 1 token_text t refl e) (λ b _.
      Ends-choose _ _
        (λ _. Ends-bind (skip-Ends {m = suc (left t)} t e (omega arith)) (λ _ u d k _.
          Sees-Ends _ (text-Sees 0 u d) (λ v _.
            Ends-bind (skip-Ends {m = suc (left t)} u d (omega arith))
              (λ _ w c j _. returns c j (docstring-IsDoc p v)))))
        (λ _. returns e (omega arith) (docstring-IsDoc p [])))))

pub is_variable-Sees : (t : Tokens) → Ended t → Sees Any t (is_variable t)
unfolding is_variable tag_eq value
is_variable-Sees t e = Sees-weaken (is_at-Sees 0 token_uppercase t refl e)

pub is_wildcard-Sees :
    (t : Tokens) → Ended t → Sees (λ b. (b ≡ true) → 0 < left t) t (is_wildcard t)
unfolding is_wildcard
is_wildcard-Sees t e = Sees-bind _ (text-Sees 0 t e) (λ s f. sees f)

qualifiers-Sees :
    (n i : ℕ) (t : Tokens)
    → Ended t
    → i ≤ suc (left t)
    → suc (left t) < 2 * n + i
    → Sees Any t (qualifiers n i t)
unfolding qualifiers tag_eq value
qualifiers-Sees zero i t e h l = absurd (omega arith)
qualifiers-Sees (suc n) i t e h l = Sees-bind _ (is_at-Sees i token_uppercase t refl e) (λ a f.
    Sees-bind _ (is_at-Sees (i + 1) token_dcolon t refl e) (λ b _.
      Sees-choose _ _
        (λ q.
          let m = f (and_left a b q) in qualifiers-Sees n (i + 2) t e (omega arith) (omega arith))
        (λ _. sees tt)))

pub is_combinator-Sees : (t : Tokens) → Ended t → Sees Any t (is_combinator t)
unfolding is_combinator tag_eq value
is_combinator-Sees t e =
    Sees-bind _ (qualifiers-Sees (rounds t) 0 t e (omega arith) (omega arith))
      (λ i _. Sees-weaken (is_at-Sees i token_lowercase t refl e))

pub is_operator-Sees : (t : Tokens) → Ended t → Sees Any t (is_operator t)
unfolding is_operator tag_eq value
is_operator-Sees t e =
    Sees-bind _ (qualifiers-Sees (rounds t) 0 t e (omega arith) (omega arith))
      (λ i _. Sees-weaken (is_at-Sees i token_operator t refl e))

pub peek_operator-Sees : (t : Tokens) → Ended t → Sees Any t (peek_operator t)
unfolding peek_operator
peek_operator-Sees t e =
    Sees-bind _ (qualifiers-Sees (rounds t) 0 t e (omega arith) (omega arith))
      (λ i _. Sees-bind _ (look-Sees i t e) (λ k _. sees tt))

pub is_enclosed_operator-Sees : (t : Tokens) → Ended t → Sees Any t (is_enclosed_operator t)
unfolding is_enclosed_operator tag_eq value
is_enclosed_operator-Sees t e = Sees-bind _ (is_at-Sees 0 token_lparen t refl e) (λ a _.
    Sees-choose _ _
      (λ _. Sees-bind _ (qualifiers-Sees (rounds t) 1 t e (omega arith) (omega arith)) (λ i _.
        Sees-bind _ (is_at-Sees i token_operator t refl e)
          (λ b _. Sees-bind _ (is_at-Sees (i + 1) token_rparen t refl e) (λ c _. sees tt))))
      (λ _. sees tt))

pub parse_wildcard-Ends : (t : Tokens) → Ended t → Ends Leaf (left t) (parse_wildcard t)
unfolding parse_wildcard
parse_wildcard-Ends t e = Sees-Ends _ (position-Sees t e) (λ p _.
    Sees-Ends _ (text-Sees 0 t e) (λ s f.
      Ends-choose _ _
        (λ h.
          let l = f h in
          Ends-bind (skip-Ends {m = left t} t e (omega arith))
            (λ _ u d k _. returns d k (wildcard-Leaf p s)))
        (λ _. error_here-Ends _ t e)))

skip_two-Ends : (t : Tokens) → Ended t → 0 < left t → Ends Any (left t) (skip_two t)
unfolding skip_two
skip_two-Ends t e h =
    Ends-bind (skip-Ends {m = left t} t e (omega arith)) (λ _ u d k _. skip-Ends u d (omega arith))

parse_qualifiers-Ends :
    (n : ℕ) (t : Tokens) → Ended t → left t < n → Ends Any (suc (left t)) (parse_qualifiers n t)
unfolding parse_qualifiers tag_eq value
parse_qualifiers-Ends zero t e h = absurd (omega arith)
parse_qualifiers-Ends (suc n) t e h = Sees-Ends _ (is_at-Sees 0 token_uppercase t refl e) (λ a f.
    Sees-Ends _ (is_at-Sees 1 token_dcolon t refl e) (λ b _.
      Ends-choose _ _
        (λ q. Sees-Ends _ (text-Sees 0 t e) (λ s _.
          Ends-bind (skip_two-Ends t e (f (and_left a b q))) (λ _ u d k _.
            Ends-bind (parse_qualifiers-Ends n u d (omega arith))
              (λ nn v c j _. returns c (omega arith) tt))))
        (λ _. returns e (omega arith) tt)))

pub parse_qualified-Ends :
    (g : Tag) (f : Text → Text) (t : Tokens)
    → tag_eq token_eof g ≡ false
    → Ended t
    → Ends IsName (left t) (parse_qualified g f t)
unfolding parse_qualified
parse_qualified-Ends g f t h e = Sees-Ends _ (position-Sees t e) (λ p _.
    Ends-bind (parse_qualifiers-Ends (rounds t) t e (omega arith)) (λ nn u d k _.
      check_token-Ends _ g u h d (λ more. Sees-Ends _ (text-Sees 0 u d) (λ s _.
        Ends-bind (skip-Ends {m = left t} u d (omega arith))
          (λ _ v c j _. returns c j (combinator-IsName p nn (f s)))))))

pub parse_combinator-Ends : (t : Tokens) → Ended t → Ends IsName (left t) (parse_combinator t)
unfolding parse_combinator tag_eq value
parse_combinator-Ends t e = parse_qualified-Ends token_lowercase (λ s. s) t refl e

pub parse_operator-Ends : (t : Tokens) → Ended t → Ends IsName (left t) (parse_operator t)
unfolding parse_operator tag_eq value
parse_operator-Ends t e = parse_qualified-Ends token_operator (λ s. s) t refl e

pub parse_prefix_operator-Ends :
    (t : Tokens) → Ended t → Ends IsName (left t) (parse_prefix_operator t)
unfolding parse_prefix_operator tag_eq value
parse_prefix_operator-Ends t e = parse_qualified-Ends token_operator (λ s. b'!' ∷ s) t refl e

pub parse_enclosed_operator-Ends :
    (t : Tokens) → Ended t → Ends IsName (left t) (parse_enclosed_operator t)
unfolding parse_enclosed_operator tag_eq value
parse_enclosed_operator-Ends t e = Ends-bind (force_token-Ends token_lparen t refl e) (λ _ u d k _.
    Ends-bind (parse_operator-Ends u d) (λ o v c j h.
      Ends-bind (force_token-Ends token_rparen v refl c) (λ _ w b i _. returns b (omega arith) h)))

parse_more_names-Ends :
    (n : ℕ) (t : Tokens) → Ended t → left t < n → Ends Any (suc (left t)) (parse_more_names n t)
unfolding parse_more_names tag_eq value
parse_more_names-Ends zero t e h = absurd (omega arith)
parse_more_names-Ends (suc n) t e h = Sees-Ends _ (is_at-Sees 0 token_dcolon t refl e) (λ a f.
    Sees-Ends _ (is_at-Sees 1 token_uppercase t refl e) (λ b _.
      Ends-choose _ _
        (λ q.
          let more = f (and_left a b q) in
          Ends-bind (skip-Ends {m = left t} t e (omega arith)) (λ _ u d k _.
            Sees-Ends _ (text-Sees 0 u d) (λ s _.
              Ends-bind (skip-Ends {m = left t} u d (omega arith)) (λ _ v c j _.
                Ends-bind (parse_more_names-Ends n v c (omega arith))
                  (λ nn w b i _. returns b (omega arith) tt)))))
        (λ _. returns e (omega arith) tt)))

pub parse_namespace-Ends : (t : Tokens) → Ended t → Ends Any (left t) (parse_namespace t)
unfolding parse_namespace tag_eq value
parse_namespace-Ends t e = check_token-Ends _ token_uppercase t refl e (λ more.
    Sees-Ends _ (text-Sees 0 t e) (λ s _.
      Ends-bind (skip-Ends {m = left t} t e (omega arith)) (λ _ u d k _.
        Ends-bind (parse_more_names-Ends (rounds u) u d (omega arith))
          (λ nn v c j _. returns c (omega arith) tt))))
