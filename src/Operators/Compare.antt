-- ===== src/Operators/Compare.antt =====
-- `operator_compare` is a total order on operators, by which the parser ranks them: by the first
-- characters that differ, and a shorter operator before a longer one that it begins.
use egel.Prelude.{
  ◌⊎◌, inl, inr, ℕ, zero, suc, ◌<◌, ◌≡◌, refl, ap, sym, ◌∙◌, arith, [], ◌∷◌, ◌↔◌, ltb,
  if◌then◌else◌,
}
use egel.Prelude.Outcome.{Outcome, ok}
use egel.Prelude.Text.{Text}
use egel.Operators.{operator_char_compare, Sign, less, equal, greater, sign_ℕ}
use egel.Operators.{unit_length, compare_loop, operator_compare}
use egel.Operators.Order.{flip, char_compare_flip, char_compare_trans, char_compare_equal}
use egel.Operators.Order.{char_compare_self}

abbrev after : Sign → Sign → Sign
after less s = less
after greater s = greater
after equal s = s

-- The order that is meant.
unfoldable pub lex : Text → Text → Sign
lex [] [] = equal
lex [] (d ∷ p) = less
lex (c ∷ o) [] = greater
lex (c ∷ o) (d ∷ p) = after (operator_char_compare c d) (lex o p)

-- Every character takes one UTF-16 code unit, as all operator characters do.
abbrev pub IsBmp : Text → Type 0
IsBmp [] = Unit
IsBmp (c ∷ o) = (c < 0x1_0000) × IsBmp o

abbrev pub minimum : ℕ → ℕ → ℕ
minimum a b = if ltb a b then a else b

sign_suc : (a b : ℕ) → sign_ℕ (suc a) (suc b) ≡ sign_ℕ a b
sign_suc a b = ground arith

unit_length-cons : (c : ℕ) (o : Text) → c < 0x1_0000 → unit_length (c ∷ o) ≡ suc (unit_length o)
unfolding unit_length
unit_length-cons c o h = ground arith

nil_length : unit_length [] ≡ 0
unfolding unit_length
nil_length = refl

after_chars :
    (s t u : Sign)
    → after (elim s [ less ↦ less | greater ↦ greater | equal ↦ t ]) u ≡ after s (after t u)
after_chars less t u = refl
after_chars greater t u = refl
after_chars equal t u = refl

compare_loop-lex :
    (o p : Text) (n : ℕ)
    → IsBmp o
    → IsBmp p
    → n ≡ minimum (unit_length o) (unit_length p)
    → after (compare_loop n o p) (sign_ℕ (unit_length o) (unit_length p)) ≡ lex o p
unfolding compare_loop lex
compare_loop-lex [] [] zero ho hp e = unfold unit_length in refl
compare_loop-lex [] [] (suc n) ho hp e = absurd (unfold unit_length in ground arith)
compare_loop-lex [] (d ∷ p) zero ho (hd, hp) e = ground (arith, unit_length-cons d p hd, nil_length)
compare_loop-lex [] (d ∷ p) (suc n) ho hp e = absurd (ground (arith, nil_length))
compare_loop-lex (c ∷ o) [] zero (hc, ho) hp e = ground (arith, unit_length-cons c o hc, nil_length)
compare_loop-lex (c ∷ o) [] (suc n) ho hp e = absurd (ground (arith, nil_length))
compare_loop-lex (c ∷ o) (d ∷ p) zero (hc, ho) (hd, hp) e =
    absurd (ground (arith, unit_length-cons c o hc, unit_length-cons d p hd))
compare_loop-lex (c ∷ o) (d ∷ p) (suc n) (hc, ho) (hd, hp) e =
    let co = unit_length-cons c o hc in
    let dp = unit_length-cons d p hd in
    let rounds : n ≡ minimum (unit_length o) (unit_length p) = ground (arith, co, dp) in
    let rest = compare_loop-lex o p n ho hp rounds in
    rw (co, dp, sign_suc (unit_length o) (unit_length p), ← rest)
      (after_chars (operator_char_compare c d) (compare_loop n o p) _)

lex-flip : (o p : Text) → lex p o ≡ flip (lex o p)
unfolding lex
lex-flip [] [] = refl
lex-flip [] (d ∷ p) = refl
lex-flip (c ∷ o) [] = refl
lex-flip (c ∷ o) (d ∷ p) = rw (char_compare_flip c d, lex-flip o p) (ground arith)

after-eq-equal : (s t : Sign) → after s t ≡ equal → (s ≡ equal) × (t ≡ equal)
after-eq-equal less t h = absurd cc
after-eq-equal greater t h = absurd cc
after-eq-equal equal t h = (refl, h)

after-eq-less : (s t : Sign) → after s t ≡ less → (s ≡ less) ⊎ ((s ≡ equal) × (t ≡ less))
after-eq-less less t h = inl refl
after-eq-less greater t h = absurd cc
after-eq-less equal t h = inr (refl, h)

lex_equal : (o p : Text) → lex o p ≡ equal → o ≡ p
unfolding lex
lex_equal [] [] h = refl
lex_equal [] (d ∷ p) h = cc
lex_equal (c ∷ o) [] h = cc
lex_equal (c ∷ o) (d ∷ p) h =
    let (chars, rest) = after-eq-equal _ (lex o p) h in
    let same_char = char_compare_equal c d chars in let same_rest = lex_equal o p rest in cc

lex_self : (o : Text) → lex o o ≡ equal
unfolding lex
lex_self [] = refl
lex_self (c ∷ o) = rw (char_compare_self c, lex_self o)

lex_trans : (o p q : Text) → lex o p ≡ less → lex p q ≡ less → lex o q ≡ less
unfolding lex
lex_trans [] [] [] h g = absurd cc
lex_trans [] (d ∷ p) [] h g = absurd cc
lex_trans [] p (e ∷ q) h g = refl
lex_trans (c ∷ o) [] q h g = absurd cc
lex_trans (c ∷ o) (d ∷ p) [] h g = absurd cc
lex_trans (c ∷ o) (d ∷ p) (e ∷ q) h g =
    elim (after-eq-less (operator_char_compare c d) (lex o p) h) [
      | inl cd ↦ elim (after-eq-less (operator_char_compare d e) (lex p q) g) [
        | inl de ↦ rw (char_compare_trans c d e cd de)
        | inr (de, _) ↦ rw (← char_compare_equal d e de, cd)
      ]
      | inr (cd, op) ↦ elim (after-eq-less (operator_char_compare d e) (lex p q) g) [
        | inl de ↦ rw (char_compare_equal c d cd, de)
        | inr (de, pq) ↦ rw (char_compare_equal c d cd, de) (lex_trans o p q op pq)
      ]
    ]

elim_after :
    (s u : Sign) → elim s [ less ↦ ok less | greater ↦ ok greater | equal ↦ ok u ] ≡ ok (after s u)
elim_after less u = refl
elim_after greater u = refl
elim_after equal u = refl

ok_injective : {s t : Sign} → ◌≡◌ {A = Outcome Sign} (ok s) (ok t) → s ≡ t
ok_injective h = cc

module _ (c : ℕ) (o : Text) (d : ℕ) (p : Text) (bmp : IsBmp (c ∷ o)) (bmp' : IsBmp (d ∷ p)) where
  -- On two operators that are not empty, whose characters take one code unit each, the comparison is the lexicographic
  -- order of the characters: its loop stops at the shorter one, and the lengths decide then.
  pub operator_compare-lex : operator_compare (c ∷ o) (d ∷ p) ≡ ok (lex (c ∷ o) (d ∷ p))
  unfolding operator_compare
  operator_compare-lex =
      let l0 = unit_length (c ∷ o) in
      let l1 = unit_length (d ∷ p) in
      elim_after (compare_loop (minimum l0 l1) (c ∷ o) (d ∷ p)) (sign_ℕ l0 l1)
      ∙ ap ok (compare_loop-lex (c ∷ o) (d ∷ p) (minimum l0 l1) bmp bmp' refl)

module _ (c : ℕ) (o : Text) (d : ℕ) (p : Text) (bmp : IsBmp (c ∷ o)) (bmp' : IsBmp (d ∷ p)) where
  -- Two operators that are not empty, whose characters take one code unit each, compare as equal
  -- exactly when they are the same text.
  operator_compare-equal_iff : (operator_compare (c ∷ o) (d ∷ p) ≡ ok equal) ↔ ((c ∷ o) ≡ (d ∷ p))
  operator_compare-equal_iff = (
    λ h. lex_equal (c ∷ o) (d ∷ p) (ok_injective (sym (operator_compare-lex c o d p bmp bmp') ∙ h)),
    λ e. operator_compare-lex c o d p bmp bmp' ∙ ap ok (rw (← e) (lex_self (c ∷ o))),
  )

  -- The comparison the other way round gives the opposite sign.
  pub operator_compare-flip :
      (s : Sign)
      → operator_compare (c ∷ o) (d ∷ p) ≡ ok s
      → operator_compare (d ∷ p) (c ∷ o) ≡ ok (flip s)
  operator_compare-flip s h =
      let sign : lex (c ∷ o) (d ∷ p) ≡ s =
        ok_injective (sym (operator_compare-lex c o d p bmp bmp') ∙ h) in
      operator_compare-lex d p c o bmp' bmp ∙ ap ok (rw (lex-flip (c ∷ o) (d ∷ p), sign))

  -- On operators that are not empty, whose characters take one code unit each, the comparison is
  -- transitive.
  pub operator_compare_trans :
      (e : ℕ) (q : Text)
      → IsBmp (e ∷ q)
      → operator_compare (c ∷ o) (d ∷ p) ≡ ok less
      → operator_compare (d ∷ p) (e ∷ q) ≡ ok less
      → operator_compare (c ∷ o) (e ∷ q) ≡ ok less
  operator_compare_trans e q bmp'' h g =
      let first = ok_injective (sym (operator_compare-lex c o d p bmp bmp') ∙ h) in
      let second = ok_injective (sym (operator_compare-lex d p e q bmp' bmp'') ∙ g) in
      operator_compare-lex c o e q bmp bmp''
      ∙ ap ok (lex_trans (c ∷ o) (d ∷ p) (e ∷ q) first second)
