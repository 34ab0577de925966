-- ===== src/Operators/Order.antt =====
-- The comparison of two operator characters is a total order: those of the table by their place in
-- it, behind all others, which are ordered by their code.
use egel.Prelude.{ℕ, zero, suc, ◌+◌, ◌≡◌, refl, ap, sym, ◌∙◌, arith, ◌&&◌, List, [], ◌∷◌}
use egel.Prelude.{◌==◌, if◌then◌else◌, Option, some, none, ==_iff, Bool-cases, inl, inr}
use egel.Prelude.Int.{ℤ, pos, negsuc, ltb_ℤ}
use egel.Operators.{
  Operator, operators, char_entry_from, operator_char_entry, operator_char_compare,
}
use egel.Operators.{Sign, less, equal, greater, sign_ℕ, sign_ℤ}

abbrev pub flip : Sign → Sign
flip less = greater
flip equal = equal
flip greater = less

-- The character comparison on the two entries.
abbrev entry_compare : ℤ → ℤ → ℕ → ℕ → Sign
entry_compare i0 i1 c0 c1 =
    if ltb_ℤ i0 (pos 0) && ltb_ℤ i1 (pos 0) then sign_ℕ c0 c1 else sign_ℤ i0 i1

entry_compare-flip : (i j : ℤ) (a b : ℕ) → entry_compare j i b a ≡ flip (entry_compare i j a b)
entry_compare-flip i j a b = ground arith

entry_compare_trans :
    (i j k : ℤ) (a b c : ℕ)
    → entry_compare i j a b ≡ less
    → entry_compare j k b c ≡ less
    → entry_compare i k a c ≡ less
entry_compare_trans (pos i) (pos j) (pos k) a b c h g = ground arith
entry_compare_trans (pos i) (pos j) (negsuc k) a b c h g = ground arith
entry_compare_trans (pos i) (negsuc j) (pos k) a b c h g = ground arith
entry_compare_trans (pos i) (negsuc j) (negsuc k) a b c h g = ground arith
entry_compare_trans (negsuc i) (pos j) (pos k) a b c h g = ground arith
entry_compare_trans (negsuc i) (pos j) (negsuc k) a b c h g = ground arith
entry_compare_trans (negsuc i) (negsuc j) (pos k) a b c h g = ground arith
entry_compare_trans (negsuc i) (negsuc j) (negsuc k) a b c h g = ground arith

abbrev name_at : List Operator → ℕ → Option ℕ
name_at [] j = none
name_at (o ∷ os) zero = some o.name
name_at (o ∷ os) (suc j) = name_at os j

-- The entry of a character names it.
char_entry_name :
    (os : List Operator) (i c k : ℕ)
    → char_entry_from os i c ≡ pos k
    → (j : ℕ) × (k ≡ i + j) × (name_at os j ≡ some c)
unfolding char_entry_from
char_entry_name [] i c k h = absurd cc
char_entry_name (o ∷ os) i c k h = elim (Bool-cases (o.name == c)) [
  | inl here ↦
      let found : pos i ≡ pos k = rw here at h in
      let at : i ≡ k = cc in (0, omega arith, ap some ((==_iff o.name c).0 here))
  | inr there ↦
      let (j, e, named) = char_entry_name os (i + 1) c k (rw there at h) in
      (suc j, omega arith, named)
]

entry_injective :
    (a b k : ℕ) → operator_char_entry a ≡ pos k → operator_char_entry b ≡ pos k → a ≡ b
unfolding operator_char_entry
entry_injective a b k h g =
    let (i, e, x) = char_entry_name operators 0 a k h in
    let (j, f, y) = char_entry_name operators 0 b k g in
    let same : i ≡ j = omega arith in let y' : name_at operators i ≡ some b = rw same y in cc

entry_compare_equal :
    (i j : ℤ) (a b : ℕ)
    → operator_char_entry a ≡ i
    → operator_char_entry b ≡ j
    → entry_compare i j a b ≡ equal
    → a ≡ b
entry_compare_equal (pos i) (pos j) a b h g e =
    let same : i ≡ j = ground arith in entry_injective a b i h (g ∙ ap pos (sym same))
entry_compare_equal (pos i) (negsuc j) a b h g e = ground arith
entry_compare_equal (negsuc i) (pos j) a b h g e = ground arith
entry_compare_equal (negsuc i) (negsuc j) a b h g e = ground arith

pub char_compare_flip : (a b : ℕ) → operator_char_compare b a ≡ flip (operator_char_compare a b)
unfolding operator_char_compare
char_compare_flip a b = entry_compare-flip (operator_char_entry a) (operator_char_entry b) a b

pub char_compare_trans :
    (a b c : ℕ)
    → operator_char_compare a b ≡ less
    → operator_char_compare b c ≡ less
    → operator_char_compare a c ≡ less
unfolding operator_char_compare
char_compare_trans a b c =
    entry_compare_trans (operator_char_entry a) (operator_char_entry b) (operator_char_entry c) a b
      c

pub char_compare_equal : (a b : ℕ) → operator_char_compare a b ≡ equal → a ≡ b
unfolding operator_char_compare
char_compare_equal a b =
    entry_compare_equal (operator_char_entry a) (operator_char_entry b) a b refl refl

pub char_compare_self : (a : ℕ) → operator_char_compare a a ≡ equal
unfolding operator_char_compare
char_compare_self a = ground arith
