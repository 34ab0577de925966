-- ===== src/Syntactical/Ends/Looks.antt =====
-- What the tests and steps of the parser of src/syntactical.hpp come to that look at a token or take one.
use egel.Prelude.{
  ℕ, zero, suc, ◌+◌, ◌-◌, ◌<◌, ◌≤◌, ◌⊎◌, inl, inr, ◌≡◌, refl, arith, Bool, true, false, List, [],
  ◌∷◌, ◌++◌, some, length, get_elem?, ltb, if◌then◌else◌,
}
use egel.Prelude.Text.{Text, codes, text_eq}
use egel.Prelude.Outcome.{Outcome}
use egel.Lexical.Token.{Tag, Token, Tokens, token_eof, tag_eq}
use egel.Lexical.Token.{look as look_at, skip as move_on}
use egel.Syntactical.{
  Parsed, bind, pure, choose, lift, look, skip, position, tag, text, is_at, error_at, error_here,
  check_token, force_token,
}
use egel.Syntactical.Ends.{
  Any, Demands, Ended, Ends, IsEnd, Sees, Sees-Ends, Sees-bind, Sees-value, left, met, raises,
  refuses, returns, sees,
}

-- The last token, and the others of a sequence that ends.
get_elem?-last :
    (init : List Token) (e : Token) (i : ℕ)
    → (i ≡ length (init ++ (e ∷ [])) - 1)
    → get_elem? (init ++ (e ∷ [])) i ≡ some e
get_elem?-last [] e zero h = refl
get_elem?-last [] e (suc i) h = absurd (omega arith)
get_elem?-last (a ∷ []) e zero h = absurd (omega arith)
get_elem?-last (a ∷ (b ∷ init)) e zero h = absurd (omega arith)
get_elem?-last (a ∷ init) e (suc i) h = get_elem?-last init e i (omega arith)

get_elem?-within :
    (ts : List Token) (i : ℕ) → i < length ts → (k : Token) × (get_elem? ts i ≡ some k)
get_elem?-within [] i h = elim h [ ]
get_elem?-within (a ∷ ts) zero h = (a, refl)
get_elem?-within (a ∷ ts) (suc i) h = get_elem?-within ts i (omega arith)

within_or_not : (i n : ℕ) → (i < n) ⊎ (n ≤ i)
within_or_not i n = ground arith

if_true : (i n : ℕ) → i < n → (if ltb i n then i else n - 1) ≡ i
if_true i n l = ground arith

if_false : (i n : ℕ) → n ≤ i → (if ltb i n then i else n - 1) ≡ n - 1
if_false i n l = ground arith

-- What a look finds: a token that was not passed, or the end.
unfoldable pub Found : ℕ → Tokens → Token → Type 0
Found n t k = (n < left t) ⊎ IsEnd k

look_list :
    (ts init : List Token) (e : Token) (i : ℕ)
    → ts ≡ init ++ (e ∷ [])
    → (k : Token) × (get_elem? ts (if ltb i (length ts) then i else length ts - 1) ≡ some k)
      × ((i < length ts) ⊎ (k ≡ e))
look_list ts init e i h = elim (within_or_not i (length ts)) [
  | inl l ↦ let (k, g) = get_elem?-within ts i l in (k, rw (if_true i (length ts) l, g), inl l)
  | inr l ↦ (
    e,
    rw (if_false i (length ts) l, h) (get_elem?-last init e (length (init ++ (e ∷ [])) - 1) refl),
    inr refl,
  )
]

look_at-ok :
    (n : ℕ) (t : Tokens) → Ended t → (k : Token) × (look_at n t ≡ Outcome.ok k) × Found n t k
unfolding look_at Ended Found
look_at-ok n t (e, end, init, h) =
    let (k, g, f) = look_list t.tokens init e (t.index + n) h in
    (k, rw (g, look_at) refl, elim f [ inl l ↦ inl (omega arith) | inr q ↦ inr (rw q end) ])

pub look-Found : (n : ℕ) (t : Tokens) → Ended t → Sees (Found n t) t (look n t)
unfolding look lift
look-Found n t e = let (k, g, f) = look_at-ok n t e in rw (g, look, lift) (sees f)

pub skip-Ends : {m : ℕ} (t : Tokens) → Ended t → (left t - 1 < m) → Ends Any m (skip t)
unfolding skip move_on Ended
skip-Ends t e h = returns e (omega arith) tt

pub look-Sees : (n : ℕ) (t : Tokens) → Ended t → Sees Any t (look n t)
look-Sees n t e = let (k, g, f) = Sees-value (look-Found n t e) in rw g (sees tt)

pub position-Sees : (t : Tokens) → Ended t → Sees Any t (position t)
unfolding position
position-Sees t e = Sees-bind _ (look-Sees 0 t e) (λ k _. sees tt)

not_wildcard :
    (n : ℕ) (t : Tokens) (k : Token) → Found n t k → text_eq k.text (codes "_") ≡ true → n < left t
unfolding Found IsEnd
not_wildcard n t k (inl l) h = l
not_wildcard n t k (inr (_, g)) h = absurd cc

pub text-Sees :
    (n : ℕ) (t : Tokens)
    → Ended t
    → Sees (λ s. (text_eq s (codes "_") ≡ true) → n < left t) t (text n t)
unfolding text
text-Sees n t e = Sees-bind _ (look-Found n t e) (λ k f. sees (not_wildcard n t k f))

tag_or_end : (n : ℕ) (t : Tokens) (k : Token) → Found n t k → (n < left t) ⊎ (k.tag ≡ token_eof)
unfolding Found IsEnd
tag_or_end n t k (inl l) = inl l
tag_or_end n t k (inr (g, _)) = inr g

pub tag-Sees :
    (n : ℕ) (t : Tokens) → Ended t → Sees (λ g. (n < left t) ⊎ (g ≡ token_eof)) t (tag n t)
unfolding tag
tag-Sees n t e = Sees-bind _ (look-Found n t e) (λ k f. sees (tag_or_end n t k f))

pub not_end :
    (n : ℕ) (t : Tokens) (k : Token) (g : Tag)
    → Found n t k
    → tag_eq token_eof g ≡ false
    → tag_eq k.tag g ≡ true
    → n < left t
not_end n t k g f h l = elim (tag_or_end n t k f) [ inl q ↦ q | inr q ↦ absurd cc ]

pub is_at-Sees :
    (n : ℕ) (g : Tag) (t : Tokens)
    → tag_eq token_eof g ≡ false
    → Ended t
    → Sees (λ b. (b ≡ true) → n < left t) t (is_at n g t)
unfolding is_at
is_at-Sees n g t h e = Sees-bind _ (look-Found n t e) (λ k f. sees (not_end n t k g f h))

pub is_at-Any : (n : ℕ) (g : Tag) (t : Tokens) → Ended t → Sees Any t (is_at n g t)
unfolding is_at
is_at-Any n g t e = Sees-bind _ (look-Sees n t e) (λ k _. sees tt)

module _ {ℓ} {A : Type ℓ} {P : A → Type 0} {m : ℕ} where
  pub error_here-Ends : (s : Text) (t : Tokens) → Ended t → Ends P m (error_here s t)
  unfolding error_here error_at
  error_here-Ends s t e = Sees-Ends _ (position-Sees t e) (λ p _. raises)

  pub demand-Ends :
      {D : Type 0} {r : Parsed (D × Tokens)} {R : D → Type 0} {t : Tokens}
      (k : D → Tokens → Parsed (A × Tokens))
      → Demands R t r
      → ((d : D) → R d → Ends P m (k d t))
      → Ends P m (bind r (λ (a, s). k a s))
  demand-Ends k (met {a} h) f = f a h
  demand-Ends k refuses f = raises

checked :
    (b : Bool) (s : Text) (t : Tokens)
    → ((b ≡ true) → 0 < left t)
    → Ended t
    → Demands {A = Unit {0}} (λ _. 0 < left t) t (choose b (pure tt) (error_here s) t)
unfolding error_here error_at choose
checked true s t f e = met (f refl)
checked false s t f e = let (p, q, _) = Sees-value (position-Sees t e) in rw q refuses

check_token-Demands :
    (g : Tag) (t : Tokens)
    → tag_eq token_eof g ≡ false
    → Ended t
    → Demands (λ _. 0 < left t) t (check_token g t)
unfolding check_token
check_token-Demands g t h e =
    let (b, q, l) = Sees-value (is_at-Sees 0 g t h e) in rw q (checked b _ t l e)

module _ {A : Type 0} {P : A → Type 0} {m : ℕ} where
  pub check_token-Ends :
      (k : Unit {0} → Tokens → Parsed (A × Tokens)) (g : Tag) (t : Tokens)
      → tag_eq token_eof g ≡ false
      → Ended t
      → ((0 < left t) → Ends P m (k tt t))
      → Ends P m (bind (check_token g t) (λ (a, s). k a s))
  check_token-Ends k g t h e f = demand-Ends k (check_token-Demands g t h e) (λ _ l. f l)

pub force_token-Ends :
    (g : Tag) (t : Tokens)
    → tag_eq token_eof g ≡ false
    → Ended t
    → Ends Any (left t) (force_token g t)
unfolding force_token
force_token-Ends g t h e = check_token-Ends _ g t h e (λ l. skip-Ends t e (omega arith))
