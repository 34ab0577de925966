-- ===== src/Lexical/Scan/Number/Total.antt =====
-- The tokenizer of src/lexical.hpp ends: the scan of a number.
use egel.Prelude.{ℕ, ◌≤◌, true, false, not, ◌&&◌, [], ◌≡◌, refl}
use egel.Prelude.{arith, Bool-cases, inl, inr, ◌⊎◌, ◌==◌}
use egel.Prelude.Text.{Text, codes, text_eq}
use egel.Reader.{Position, Reader, at_end, look, skip, position}
use egel.Lexical.Chars.{
  Properties, is_digit, is_hexdigit, is_imaginary, is_exponent, is_dot, is_minus,
}
use egel.Lexical.Token.{Tag}
use egel.Lexical.Scan.Loops.{rounds, while_in}
use egel.Lexical.Scan.Number.{
  taken, token, scan_minus, scan_hexint, scan_exponent, scan_fraction, scan_number,
}
use egel.Lexical.Scan.Measure.{
  left, Ends, returns, raises, Ends-bind, Ends-if, Within, Shrinks, weaken, stricter, left-skip,
  left-skip_lt, left-rounds, while_in-Ends, while_in-Shrinks, seen,
}

-- The properties of characters that ICU has do not hold of the character 0.
pub record IsPlain (u : Properties) : Type 0 where
  pub digit : u.u_isdigit 0 ≡ false
  pub lower : u.u_is_ulowercase 0 ≡ false
  pub upper : u.u_is_uuppercase 0 ≡ false

token-Ends :
    (g : Tag) (p : Position) (str : Text) (s : Reader) (n : ℕ)
    → left s ≤ n
    → Ends (Within n) (token g p (str, s))
unfolding token
token-Ends g p str s n h = returns h

module _ (u : Properties) (w : IsPlain u) where
  digit_zero : is_digit u 0 ≡ false
  unfolding is_digit
  digit_zero = w.digit

  hexdigit_zero : is_hexdigit u 0 ≡ false
  unfolding is_hexdigit
  hexdigit_zero = rw w.digit

  scan_hexint-Ends :
      (p : Position) (str : Text) (r : Reader) → Ends (Within (left r)) (scan_hexint u p str r)
  unfolding scan_hexint
  scan_hexint-Ends p str r =
      Ends-if (at_end r) (λ _. raises)
        (λ _.
          Ends-if (not (is_hexdigit u (look r))) (λ _. raises)
            (λ _.
              Ends-bind
                (while_in-Ends (rounds r) (is_hexdigit u) str r hexdigit_zero (left-rounds r))
                (λ (t, q) h. token-Ends _ p t q (left r) h)))

  scan_minus-left : (str : Text) (r : Reader) → left (scan_minus str r).1 ≤ left r
  unfolding scan_minus
  scan_minus-left str r = elim (Bool-cases (is_minus (look r))) [
    | inl e ↦ rw e (left-skip r)
    | inr e ↦ rw e (omega arith)
  ]

  digits-Ends :
      (str : Text) (r : Reader) → Ends (Within (left r)) (while_in (rounds r) (is_digit u) str r)
  digits-Ends str r = while_in-Ends (rounds r) (is_digit u) str r digit_zero (left-rounds r)

  scan_exponent-Ends :
      (p : Position) (str : Text) (r : Reader) → Ends (Within (left r)) (scan_exponent u p str r)
  unfolding scan_exponent
  scan_exponent-Ends p str r =
      let signed = (scan_minus str r).0 in
      let s = (scan_minus str r).1 in
      let le = scan_minus-left str r in
      Ends-if (at_end r) (λ _. raises)
        (λ _.
          Ends-if (at_end s) (λ _. raises)
            (λ _. Ends-bind (digits-Ends signed s) (λ (t, q) h.
              Ends-if (is_imaginary (look q))
                (λ _. token-Ends _ p (taken t q) (skip q) (left r) (omega (arith, left-skip q)))
                (λ _. token-Ends _ p t q (left r) (omega arith)))))

  scan_fraction-Ends :
      (p : Position) (str : Text) (r : Reader) → Ends (Within (left r)) (scan_fraction u p str r)
  unfolding scan_fraction
  scan_fraction-Ends p str r =
      Ends-if (at_end r) (λ _. token-Ends _ p str r (left r) (omega arith))
        (λ _. Ends-bind (digits-Ends str r) (λ (t, q) h.
          Ends-if (is_imaginary (look q))
            (λ _. token-Ends _ p (taken t q) (skip q) (left r) (omega (arith, left-skip q)))
            (λ _.
              Ends-if (not (is_exponent (look q))) (λ _. token-Ends _ p t q (left r) h)
                (λ _.
                  weaken (omega (arith, left-skip q))
                    (scan_exponent-Ends p (taken t q) (skip q))))))

  -- The first digits, behind a minus or at once: something is read.
  first-Ends :
      (r : Reader)
      → (is_digit u (look r) ≡ true) ⊎ (is_minus (look r) ≡ true)
      → Ends (Shrinks r) (
          while_in
            (rounds (scan_minus [] r).1)
            (is_digit u)
            (scan_minus [] r).0
            (scan_minus [] r).1)
  unfolding scan_minus
  first-Ends r k = elim (Bool-cases (is_minus (look r))) [
    | inl e ↦
        let lt = left-skip_lt r (seen r is_minus (unfold is_minus in refl) e) in
        rw e (stricter r lt (digits-Ends (taken [] r) (skip r)))
    | inr e ↦ rw e (while_in-Shrinks (is_digit u) [] r digit_zero (digit_of k e))
  ]
    where
      digit_of :
          (is_digit u (look r) ≡ true) ⊎ (is_minus (look r) ≡ true)
          → is_minus (look r) ≡ false
          → is_digit u (look r) ≡ true
      digit_of (inl d) e = d
      digit_of (inr m) e = cc

  pub scan_number-Ends :
      (r : Reader)
      → (is_digit u (look r) ≡ true) ⊎ (is_minus (look r) ≡ true)
      → Ends (Shrinks r) (scan_number u r)
  unfolding scan_number
  scan_number-Ends r k = Ends-bind (first-Ends r k) (λ (t, q) h.
      Ends-if (text_eq t (codes "0") && look q == b'x')
        (λ _.
          stricter r h (weaken (left-skip q) (scan_hexint-Ends (position r) (taken t q) (skip q))))
        (λ _.
          Ends-if (not (is_dot (look q)))
            (λ _. stricter r h (token-Ends _ (position r) t q (left q) (omega arith)))
            (λ _.
              stricter r h
                (weaken (left-skip q) (scan_fraction-Ends (position r) (taken t q) (skip q))))))
