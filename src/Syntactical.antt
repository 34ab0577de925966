-- ===== src/Syntactical.antt =====
-- `Parser` of src/syntactical.hpp, a recursive descent parser over the tokens, with operators by
-- precedence: what its functions have in common. A function of the parser takes the tokens with their
-- cursor and gives them back.
pub mod Names
pub mod Patterns
pub mod Expressions
pub mod Arithmetic
pub mod Declarations
pub mod Ends
pub mod Source
pub mod Visits
use egel.Prelude.{ℕ, zero, suc, Bool, true, false, ◌&&◌, ◌++◌, length}
use egel.Prelude.Text.{Text, codes, text_eq}
use egel.Prelude.Outcome.{Outcome}
use egel.Prelude.Outcome
use egel.Reader.{Position}
use egel.Lexical.Token.{Tag, Token, Tokens, tag_eq}
use egel.Lexical.Token.{look as look_at, skip as move_on}
use egel.Lexical.Reserved.{tag_text}

-- A result, an `ErrorSyntactical` with its position and message, or what a run can come to besides.
pub data Parsed {ℓ} (A : Type ℓ) : Type ℓ where
  ok : A → Parsed A
  syntactical_error : Position → Text → Parsed A
  panic : Parsed A
  out_of_range : Parsed A
  null_pointer : Parsed A
  out_of_fuel : Parsed A

abbrev pub bind {ℓ κ} : {A : Type ℓ} {B : Type κ} → Parsed A → (A → Parsed B) → Parsed B
bind (ok a) f = f a
bind (syntactical_error p s) f = syntactical_error p s
bind panic f = panic
bind out_of_range f = out_of_range
bind null_pointer f = null_pointer
bind out_of_fuel f = out_of_fuel

abbrev pub Parser {ℓ} : Type ℓ → Type ℓ
Parser A = Tokens → Parsed (A × Tokens)

abbrev pub pure {ℓ} : {A : Type ℓ} → A → Parser A
pure a t = ok (a, t)

infixr 5 ◌>>=◌ ◌>>◌
abbrev pub ◌>>=◌ {ℓ κ} : {A : Type ℓ} {B : Type κ} → Parser A → (A → Parser B) → Parser B
◌>>=◌ p f t = bind (p t) (λ (a, s). f a s)

abbrev pub ◌>>◌ {ℓ κ} : {A : Type ℓ} {B : Type κ} → Parser A → Parser B → Parser B
p >> q = p >>= λ _. q

-- An if on a test that was run.
unfoldable pub choose {ℓ} : {A : Type ℓ} → Bool → Parser A → Parser A → Parser A
choose true p q = p
choose false p q = q

-- A loop that was not given enough rounds.
abbrev pub stuck {ℓ} : {A : Type ℓ} → Parser A
stuck t = out_of_fuel

unfoldable pub lift {ℓ} : {A : Type ℓ} → Outcome A → Parser A
lift (Outcome.ok a) t = ok (a, t)
lift Outcome.panic t = panic
lift Outcome.out_of_range t = out_of_range
lift Outcome.null_pointer t = null_pointer
lift Outcome.out_of_fuel t = out_of_fuel

-- The rounds of a loop that takes a token in each.
abbrev pub rounds : Tokens → ℕ
rounds t = suc (length t.tokens)

abbrev pub with_rounds {ℓ} : {A : Type ℓ} → (ℕ → Parser A) → Parser A
with_rounds p t = p (rounds t) t

unfoldable pub look : ℕ → Parser Token
look n t = lift (look_at n t) t

unfoldable pub skip : Parser (Unit {0})
skip t = ok (tt, move_on t)

unfoldable pub position : Parser Position
position = look 0 >>= λ t. pure t.position

unfoldable pub tag : ℕ → Parser Tag
tag n = look n >>= λ t. pure t.tag

unfoldable pub text : ℕ → Parser Text
text n = look n >>= λ t. pure t.text

-- `tag() == g`
unfoldable pub is_at : ℕ → Tag → Parser Bool
is_at n g = look n >>= λ t. pure (tag_eq t.tag g)

unfoldable pub error_at {ℓ} : {A : Type ℓ} → Position → Text → Parser A
error_at p s t = syntactical_error p s

unfoldable pub error_here {ℓ} : {A : Type ℓ} → Text → Parser A
error_here s = position >>= λ p. error_at p s

unfoldable pub check_token : Tag → Parser (Unit {0})
check_token g = do b ← is_at 0 g; choose b (pure tt) (error_here (tag_text g ++ codes " expected"))

unfoldable pub force_token : Tag → Parser (Unit {0})
force_token g = check_token g >> skip
