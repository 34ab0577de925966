-- ===== src/Syntactical/Ends.antt =====
-- What a run of the parser of src/syntactical.hpp comes to on tokens that end with the end of file.
pub mod Looks
pub mod Trees
pub mod Names
pub mod Patterns
pub mod Operators
pub mod Expressions
pub mod Primaries
pub mod Arithmetic
pub mod Declarations
pub mod Directives
pub mod Modules
use egel.Prelude.{
  ℕ, zero, suc, ◌+◌, ◌-◌, ◌<◌, ◌≤◌, ◌⊎◌, inl, inr, ◌≡◌, refl, ap, sym, ◌∙◌, arith, Bool, true,
  false, List, [], ◌∷◌, ◌++◌, Option, none, some, length, get_elem?, ltb, if◌then◌else◌,
}
use egel.Prelude.Text.{Text, codes, text_eq}
use egel.Prelude.Outcome.{Outcome}
use egel.Prelude.Outcome
use egel.Reader.{Position}
use egel.Lexical.Token.{Tag, Token, Tokens, token_eof, tag_eq, value}
use egel.Lexical.Token.{look as look_at, skip as move_on}
use egel.Syntactical.{
  Parsed, ok, syntactical_error, bind, Parser, pure, choose, lift, look, skip, position, tag, text,
  is_at, error_at, error_here, check_token, force_token,
}

-- The tokens that were not yet passed.
abbrev pub left : Tokens → ℕ
left t = length t.tokens - t.index

-- The token at the end is one of an end of file, and its text is none of a wildcard.
unfoldable pub IsEnd : Token → Type 0
IsEnd e = (e.tag ≡ token_eof) × (text_eq e.text (codes "_") ≡ false)

unfoldable pub Ended : Tokens → Type 0
Ended t = (e : Token) × IsEnd e × (init : List Token) × (t.tokens ≡ init ++ (e ∷ []))

abbrev pub Any {ℓ} : {A : Type ℓ} → A → Type 0
Any a = Unit

-- A run gave a result and left fewer tokens than `m`, or it threw an error.
pub data Ends {ℓ} {A : Type ℓ} (P : A → Type 0) (m : ℕ) : Parsed (A × Tokens) → Type ℓ where
  returns : {a : A} {t : Tokens} → Ended t → left t < m → P a → Ends P m (ok (a, t))
  raises : {p : Position} {s : Text} → Ends P m (syntactical_error p s)

-- A run gave a result and took no token.
pub data Sees {ℓ} {A : Type ℓ} (P : A → Type 0) (t : Tokens) : Parsed (A × Tokens) → Type ℓ where
  sees : {a : A} → P a → Sees P t (ok (a, t))

-- A run took no token, or it threw an error.
pub data Demands {ℓ} {A : Type ℓ} (P : A → Type 0) (t : Tokens) : Parsed (A × Tokens) → Type ℓ where
  met : {a : A} → P a → Demands P t (ok (a, t))
  refuses : {p : Position} {s : Text} → Demands P t (syntactical_error p s)

module _ {ℓ κ} {A : Type ℓ} {B : Type κ} where
  pub Ends-bind :
      {P : A → Type 0} {Q : B → Type 0} {k m : ℕ} {r : Parsed (A × Tokens)}
      {g : A → Tokens → Parsed (B × Tokens)}
      → Ends P k r
      → ((a : A) (t : Tokens) → Ended t → left t < k → P a → Ends Q m (g a t))
      → Ends Q m (bind r (λ (a, s). g a s))
  Ends-bind (returns {a} {t} e l p) f = f a t e l p
  Ends-bind raises f = raises

  pub Sees-Ends :
      {P : A → Type 0} {Q : B → Type 0} {m : ℕ} {t : Tokens} {r : Parsed (A × Tokens)}
      (g : A → Tokens → Parsed (B × Tokens))
      → Sees P t r
      → ((a : A) → P a → Ends Q m (g a t))
      → Ends Q m (bind r (λ (a, s). g a s))
  Sees-Ends g (sees {a} p) f = f a p

  pub Sees-bind :
      {P : A → Type 0} {Q : B → Type 0} {t : Tokens} {r : Parsed (A × Tokens)}
      (g : A → Tokens → Parsed (B × Tokens))
      → Sees P t r
      → ((a : A) → P a → Sees Q t (g a t))
      → Sees Q t (bind r (λ (a, s). g a s))
  Sees-bind g (sees {a} p) f = f a p

module _ {ℓ} {A : Type ℓ} where
  pub Sees-value :
      {P : A → Type 0} {t : Tokens} {r : Parsed (A × Tokens)}
      → Sees P t r
      → (a : A) × (r ≡ ok (a, t)) × P a
  Sees-value (sees {a} p) = (a, refl, p)

  pub Sees-weaken :
      {P : A → Type 0} {t : Tokens} {r : Parsed (A × Tokens)} → Sees P t r → Sees Any t r
  Sees-weaken (sees p) = sees tt

  pub Sees-const :
      {P R : A → Type 0} {t : Tokens} {r : Parsed (A × Tokens)}
      → ((a : A) → R a)
      → Sees P t r
      → Sees R t r
  Sees-const q (sees {a} p) = sees (q a)

  pub Ends-weaken :
      {P Q : A → Type 0} {k m : ℕ} {r : Parsed (A × Tokens)}
      → Ends P k r
      → k ≤ m
      → ((a : A) → P a → Q a)
      → Ends Q m r
  Ends-weaken (returns {a} e l p) h f = returns e (omega arith) (f a p)
  Ends-weaken raises h f = raises

  pub Ends-choose :
      {P : A → Type 0} {m : ℕ} {b : Bool} {t : Tokens} (p q : Parser A)
      → ((b ≡ true) → Ends P m (p t))
      → ((b ≡ false) → Ends P m (q t))
      → Ends P m (choose b p q t)
  unfolding choose
  Ends-choose {b = true} p q f g = f refl
  Ends-choose {b = false} p q f g = g refl

  pub Sees-choose :
      {P : A → Type 0} {b : Bool} {t : Tokens} (p q : Parser A)
      → ((b ≡ true) → Sees P t (p t))
      → ((b ≡ false) → Sees P t (q t))
      → Sees P t (choose b p q t)
  unfolding choose
  Sees-choose {b = true} p q f g = f refl
  Sees-choose {b = false} p q f g = g refl
