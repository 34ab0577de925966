-- ===== src/Lexical/Scan/Measure.antt =====
-- How much the reader of the tokenizer of src/lexical.hpp has left, and what a run that ends leaves.
use egel.Prelude.{ℕ, zero, suc, ◌+◌, ◌-◌, ◌≤◌, ◌<◌, Bool, true, false, [], ◌∷◌, ◌++◌, ◌≡◌, refl}
use egel.Prelude.{
  length, get_elem?, some, get_elem?_lt, ◌≢◌, arith, if◌then◌else◌, Bool-cases, Option-cases, inl,
  inr, ◌==◌,
}
use egel.Prelude.Text.{Text}
use egel.Reader.{Position, Reader, at_end, look, look_ahead, skip}
use egel.Lexical.Scan.Loops.{
  Lexed, ok, lexical_error, out_of_range, out_of_fuel, ◌>>=◌, rounds, ahead, while_in, while_until,
}

-- The characters that are left in the buffer.
abbrev pub left : Reader → ℕ
left r = length r.buffer - r.index

-- The run is not out of fuel, and where it has a value, the value has the property.
pub data Ends {ℓ} {A : Type ℓ} (P : A → Type 0) : Lexed A → Type ℓ where
  returns : {a : A} → P a → Ends P (ok a)
  raises : {p : Position} {s : Text} → Ends P (lexical_error p s)
  leaves : Ends P out_of_range

module _ {ℓ κ} {A : Type ℓ} {B : Type κ} {P : A → Type 0} {Q : B → Type 0} where
  pub Ends-bind :
      {e : Lexed A} {f : A → Lexed B} → Ends P e → ((a : A) → P a → Ends Q (f a)) → Ends Q (e >>= f)
  Ends-bind (returns h) k = k _ h
  Ends-bind raises k = raises
  Ends-bind leaves k = leaves

pub Ends-imp {ℓ} :
    {A : Type ℓ} {P Q : A → Type 0} {e : Lexed A} → ((a : A) → P a → Q a) → Ends P e → Ends Q e
Ends-imp f (returns h) = returns (f _ h)
Ends-imp f raises = raises
Ends-imp f leaves = leaves

-- The value is that of the run.
pub Ends-self :
    {A : Type 0} {P : A → Type 0} {e : Lexed A} → Ends P e → Ends (λ a. P a × (e ≡ ok a)) e
Ends-self (returns h) = returns (h, refl)
Ends-self raises = raises
Ends-self leaves = leaves

pub Ends-fuel : {A : Type 0} {P : A → Type 0} {x : Lexed A} → Ends P x → x ≢ out_of_fuel
Ends-fuel (returns k) q = cc
Ends-fuel raises q = cc
Ends-fuel leaves q = cc

pub Ends-if {ℓ} :
    {A : Type ℓ} {P : A → Type 0} (b : Bool) {x y : Lexed A}
    → (b ≡ true → Ends P x)
    → (b ≡ false → Ends P y)
    → Ends P (if b then x else y)
Ends-if true f g = f refl
Ends-if false f g = g refl

-- Where the reader is after a scan: at most so many characters are left.
abbrev pub Within : {A : Type 0} → ℕ → A × Reader → Type 0
Within n (a, s) = left s ≤ n

pub weaken :
    {A : Type 0} {m n : ℕ} {e : Lexed (A × Reader)} → m ≤ n → Ends (Within m) e → Ends (Within n) e
weaken h (returns k) = returns (omega arith)
weaken h raises = raises
weaken h leaves = leaves

open_element : (r : Reader) → at_end r ≡ false → (c : ℕ) × (get_elem? r.buffer r.index ≡ some c)
unfolding at_end
open_element r h = elim (Option-cases (get_elem? r.buffer r.index)) [
  | inl e ↦ let f : true ≡ false = rw (e, at_end) at h in cc
  | inr x ↦ x
]

pub in_buffer : (r : Reader) → at_end r ≡ false → r.index < length r.buffer
in_buffer r h = let (c, e) = open_element r h in get_elem?_lt r.buffer r.index e

-- Skipping moves the index by one, but not at the end.
pub skip_open :
    (r : Reader) → at_end r ≡ false → ((skip r).buffer ≡ r.buffer) × ((skip r).index ≡ r.index + 1)
unfolding skip
skip_open r h = elim (Bool-cases (look r == b'\n')) [
  | inl e ↦ rw (h, e) (refl, refl)
  | inr e ↦ rw (h, e) (refl, refl)
]

pub skip_closed : (r : Reader) → at_end r ≡ true → skip r ≡ r
unfolding skip
skip_closed r h = rw h

pub left-skip_lt : (r : Reader) → at_end r ≡ false → left (skip r) < left r
left-skip_lt r h = let (b, i) = skip_open r h in rw (b, i) (omega (arith, in_buffer r h))

pub left-skip : (r : Reader) → left (skip r) ≤ left r
left-skip r = elim (Bool-cases (at_end r)) [
  | inl e ↦ rw (skip_closed r e) (omega arith)
  | inr e ↦ omega (arith, left-skip_lt r e)
]

pub look_closed : (r : Reader) → at_end r ≡ true → look r ≡ 0
unfolding look at_end
look_closed r h = elim (Option-cases (get_elem? r.buffer r.index)) [
  | inl e ↦ rw (e, look)
  | inr (c, e) ↦ let f : (c == 65535) ≡ true = rw (e, at_end) at h in rw (e, look) (rw f)
]

-- A character of a class that has not the character 0 is no end.
pub seen : (r : Reader) (p : ℕ → Bool) → p 0 ≡ false → p (look r) ≡ true → at_end r ≡ false
seen r p z h = elim (Bool-cases (at_end r)) [
  | inl e ↦ let f : p 0 ≡ true = rw (look_closed r e) at h in cc
  | inr e ↦ e
]

pub left-rounds : (r : Reader) → left r < rounds r
unfolding rounds
left-rounds r = omega arith

-- The loops end behind where they start, if they are given more rounds than characters are left.
pub while_in-Ends :
    (n : ℕ) (p : ℕ → Bool) (str : Text) (r : Reader)
    → p 0 ≡ false
    → left r < n
    → Ends (Within (left r)) (while_in n p str r)
unfolding while_in
while_in-Ends zero p str r z f = absurd (omega arith)
while_in-Ends (suc n) p str r z f = elim (Bool-cases (p (look r))) [
  | inl e ↦
      let lt = left-skip_lt r (seen r p z e) in
      rw e
        (weaken (omega arith) (while_in-Ends n p (str ++ (look r ∷ [])) (skip r) z (omega arith)))
  | inr e ↦ rw e (returns (omega arith))
]

pub while_until-Ends :
    (n : ℕ) (p : ℕ → Bool) (str : Text) (r : Reader)
    → left r < n
    → Ends (Within (left r)) (while_until n p str r)
unfolding while_until
while_until-Ends zero p str r f = absurd (omega arith)
while_until-Ends (suc n) p str r f = elim (Bool-cases (at_end r)) [
  | inl e ↦ rw e (returns (omega arith))
  | inr e ↦ elim (Bool-cases (p (look r))) [
    | inl h ↦
        let lt = left-skip_lt r e in
        rw (e, h)
          (weaken (omega arith)
            (while_until-Ends n p (str ++ (look r ∷ [])) (skip r) (omega arith)))
    | inr h ↦ rw (e, h) (returns (omega arith))
  ]
]

-- Reading ahead is no loop.
pub ahead-Ends : (n : ℕ) (r : Reader) → Ends (λ c. Unit) (ahead n r)
unfolding ahead look_ahead
ahead-Ends n r = elim (Option-cases (get_elem? r.buffer (r.index + n))) [
  | inl e ↦ rw (e, ahead, look_ahead) leaves
  | inr (c, e) ↦ rw (e, ahead, look_ahead) (returns tt)
]

-- A scan that leaves less than there was.
abbrev pub Shrinks : {A : Type 0} → Reader → A × Reader → Type 0
Shrinks r (a, s) = left s < left r

pub stricter :
    (r : Reader) {A : Type 0} {n : ℕ} {e : Lexed (A × Reader)}
    → n < left r
    → Ends (Within n) e
    → Ends (Shrinks r) e
stricter r h (returns k) = returns (omega arith)
stricter r h raises = raises
stricter r h leaves = leaves

pub while_in-Shrinks :
    (p : ℕ → Bool) (str : Text) (r : Reader)
    → p 0 ≡ false
    → p (look r) ≡ true
    → Ends (Shrinks r) (while_in (rounds r) p str r)
unfolding while_in rounds
while_in-Shrinks p str r z h =
    let e = seen r p z h in
    let lt = left-skip_lt r e in
    let (b, i) = skip_open r e in
    rw h (
      stricter r lt (
        while_in-Ends (length r.buffer) p (str ++ (look r ∷ [])) (skip r) z
          (omega (arith, in_buffer r e))))

pub while_until-Shrinks :
    (p : ℕ → Bool) (str : Text) (r : Reader)
    → at_end r ≡ false
    → p (look r) ≡ true
    → Ends (Shrinks r) (while_until (rounds r) p str r)
unfolding while_until rounds
while_until-Shrinks p str r e h =
    let lt = left-skip_lt r e in
    rw (e, h)
      (stricter r lt (
        while_until-Ends (length r.buffer) p (str ++ (look r ∷ [])) (skip r)
          (omega (arith, in_buffer r e))))
