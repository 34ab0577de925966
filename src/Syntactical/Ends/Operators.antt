-- ===== src/Syntactical/Ends/Operators.antt =====
-- The conditions of the loops of `parse_arithmetic_expression_1` in src/syntactical.hpp answer, and
-- that of the inner loop has its call enter the outer one.
use egel.Prelude.{ℕ, zero, suc, ◌≡◌, refl, arith, true, [], ◌∷◌}
use egel.Prelude.Text.{Text}
use egel.Prelude.Outcome.{Outcome}
use egel.Operators.{
  Sign, less, equal, greater, sign_ℕ, unit_length, compare_loop, operator_compare,
  operator_char_entry, operator_char_attributes, operator_head_char, operator_is_infix,
  operator_is_prefix, operator_is_right_associative, char_at, move_on,
}
use egel.Operators.Order.{char_compare_self}
use egel.Lexical.Token.{Tokens}
use egel.Syntactical.{ok, lift, choose}
use egel.Syntactical.Expressions.{is_infix, is_prefix, climbs, binds}
use egel.Syntactical.Ends.{Any, Sees, sees, Sees-bind, Sees-value, Sees-const, Sees-choose}

unfoldable pub IsNonEmpty : Text → Type 0
IsNonEmpty [] = ⊥
IsNonEmpty (c ∷ o) = Unit

unfoldable IsOk {ℓ} : {A : Type ℓ} → Outcome A → Type 0
IsOk (Outcome.ok a) = Unit
IsOk _ = ⊥

lift-Sees : {A : Type 0} (m : Outcome A) (t : Tokens) → IsOk m → Sees Any t (lift m t)
unfolding lift IsOk
lift-Sees (Outcome.ok a) t h = sees tt
lift-Sees Outcome.panic t h = elim h [ ]
lift-Sees Outcome.out_of_range t h = elim h [ ]
lift-Sees Outcome.null_pointer t h = elim h [ ]
lift-Sees Outcome.out_of_fuel t h = elim h [ ]

infix-IsOk : (c : ℕ) (o : Text) → IsOk (operator_is_infix (c ∷ o))
unfolding IsOk operator_is_infix operator_char_attributes operator_head_char operator_char_entry
infix-IsOk c o = ground arith

prefix-IsOk : (c : ℕ) (o : Text) → IsOk (operator_is_prefix (c ∷ o))
unfolding IsOk operator_is_prefix operator_char_attributes operator_head_char operator_char_entry
prefix-IsOk c o = ground arith

right-IsOk : (c : ℕ) (o : Text) → IsOk (operator_is_right_associative (c ∷ o))
unfolding IsOk operator_is_right_associative operator_char_attributes operator_head_char
    operator_char_entry
right-IsOk c o = ground arith

sign-IsOk :
    (s u : Sign)
    → IsOk (elim s [ less ↦ Outcome.ok less | greater ↦ Outcome.ok greater | equal ↦ Outcome.ok u ])
unfolding IsOk
sign-IsOk less u = tt
sign-IsOk equal u = tt
sign-IsOk greater u = tt

compare-IsOk : (c : ℕ) (o : Text) (d : ℕ) (p : Text) → IsOk (operator_compare (c ∷ o) (d ∷ p))
unfolding operator_compare
compare-IsOk c o d p = sign-IsOk (compare_loop _ (c ∷ o) (d ∷ p)) _

compare_loop_self : (n : ℕ) (o : Text) → compare_loop n o o ≡ equal
unfolding compare_loop
compare_loop_self zero o = refl
compare_loop_self (suc n) o =
    rw (char_compare_self (char_at o), compare_loop) (compare_loop_self n (move_on o))

equal_sign :
    (s u : Sign)
    → s ≡ equal
    → u ≡ equal
    → elim s [ less ↦ Outcome.ok less | greater ↦ Outcome.ok greater | equal ↦ Outcome.ok u ]
      ≡ Outcome.ok equal
equal_sign s u h g = rw (h, g) refl

sign_self : (n : ℕ) → sign_ℕ n n ≡ equal
sign_self n = ground arith

compare_self : (c : ℕ) (o : Text) → operator_compare (c ∷ o) (c ∷ o) ≡ Outcome.ok equal
unfolding operator_compare
compare_self c o =
    equal_sign (compare_loop _ (c ∷ o) (c ∷ o)) _ (compare_loop_self _ (c ∷ o))
      (sign_self (unit_length (c ∷ o)))

pub is_prefix-Sees : (la : Text) (t : Tokens) → Sees Any t (is_prefix la t)
unfolding is_prefix
is_prefix-Sees [] t = sees tt
is_prefix-Sees (c ∷ o) t = lift-Sees _ t (prefix-IsOk c o)

is_infix-Sees : (la : Text) (t : Tokens) → Sees Any t (is_infix la t)
unfolding is_infix
is_infix-Sees [] t = sees tt
is_infix-Sees (c ∷ o) t = lift-Sees _ t (infix-IsOk c o)

compare-Sees :
    (la mp : Text) (t : Tokens)
    → IsNonEmpty la
    → IsNonEmpty mp
    → Sees Any t (lift (operator_compare la mp) t)
unfolding IsNonEmpty
compare-Sees [] mp t g h = elim g [ ]
compare-Sees (c ∷ o) [] t g h = elim h [ ]
compare-Sees (c ∷ o) (d ∷ p) t g h = lift-Sees _ t (compare-IsOk c o d p)

right-Sees :
    (la : Text) (t : Tokens)
    → IsNonEmpty la
    → Sees Any t (lift (operator_is_right_associative la) t)
unfolding IsNonEmpty
right-Sees [] t g = elim g [ ]
right-Sees (c ∷ o) t g = lift-Sees _ t (right-IsOk c o)

-- What is infix is an operator, and climbs over itself.
unfoldable pub IsInfix : Text → Tokens → Type 0
IsInfix la t = IsNonEmpty la × (climbs la la t ≡ ok (true, t))

infix_climbs : (la : Text) (t : Tokens) → is_infix la t ≡ ok (true, t) → IsInfix la t
unfolding IsInfix IsNonEmpty climbs is_infix choose lift
infix_climbs [] t h = absurd cc
infix_climbs (c ∷ o) t h = (tt, rw (h, choose, compare_self c o, lift) refl)

infix-Sees : (la : Text) (t : Tokens) → Sees (λ b. (b ≡ true) → IsInfix la t) t (is_infix la t)
infix-Sees la t =
    let (b, q, _) = Sees-value (is_infix-Sees la t) in
    rw q (sees (λ h. infix_climbs la t (rw (q, h) refl)))

pub climbs-Sees :
    (la mp : Text) (t : Tokens)
    → IsNonEmpty mp
    → Sees (λ b. (b ≡ true) → IsNonEmpty la) t (climbs la mp t)
unfolding climbs IsInfix
climbs-Sees la mp t h = Sees-bind _ (infix-Sees la t) (λ b f.
    Sees-choose _ _ (λ q. Sees-bind _ (compare-Sees la mp t (f q).0 h) (λ s _. sees (λ _. (f q).0)))
      (λ _. sees (λ q. absurd cc)))

pub binds-Sees :
    (la opt : Text) (t : Tokens)
    → IsNonEmpty opt
    → Sees (λ b. (b ≡ true) → IsInfix la t) t (binds la opt t)
unfolding binds
binds-Sees la opt t h = Sees-bind _ (infix-Sees la t) (λ b f.
    Sees-choose _ _
      (λ q.
        let i = f q in
        Sees-bind _ (compare-Sees la opt t (unfold IsInfix in i.0) h) (λ s _.
          Sees-choose _ _ (λ _. sees (λ _. i))
            (λ _.
              Sees-choose _ _ (λ _. Sees-const (λ _ _. i) (right-Sees la t (unfold IsInfix in i.0)))
                (λ _. sees (λ _. i)))))
      (λ _. sees (λ q. absurd cc)))
