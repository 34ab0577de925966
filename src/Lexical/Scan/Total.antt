-- ===== src/Lexical/Scan/Total.antt =====
-- The tokenizer of src/lexical.hpp ends on every text.
use egel.Prelude.{ℕ, zero, suc, ◌<◌, Bool, true, false, not, [], ◌∷◌, ◌≡◌, ◌≢◌, ◌⊎◌, refl}
use egel.Prelude.{arith, inl, inr}
use egel.Reader.{Reader, at_end, look, skip}
use egel.Lexical.Chars.{
  Properties, is_whitespace, is_eol, is_hash, is_comma, is_lparen, is_rparen, is_lsquare,
  is_rsquare, is_lcurly, is_rcurly, is_colon, is_semicolon, is_math, is_quote, is_dquote, is_digit,
  is_minus, is_operator, is_uppercase, is_lowercase, is_letter, is_underscore,
}
use egel.Lexical.Token.{Tag, Tokens}
use egel.Lexical.Scan.{
  single, scan_whitespace, scan_comment, scan_colon, scan_semicolon, scan_run, starts_number,
  scan_name, scan_compound, scan_token, tokenize_loop, tokenize_from_reader,
}
use egel.Lexical.Scan.Loops.{out_of_fuel, rounds}
use egel.Lexical.Scan.Number.Total.{IsPlain, scan_number-Ends}
use egel.Lexical.Scan.Quoted.Total.{scan_char-Ends, scan_string-Ends}
use egel.Lexical.Scan.Measure.{
  left, Ends, returns, raises, Ends-bind, Ends-if, Shrinks, left-skip, left-skip_lt, left-rounds,
  ahead-Ends, while_in-Shrinks, while_until-Shrinks, while_until-Ends, Ends-fuel,
}

pub single-Ends : (g : Tag) (r : Reader) → at_end r ≡ false → Ends (Shrinks r) (single g r)
unfolding single
single-Ends g r e = returns (left-skip_lt r e)

pub scan_whitespace-Ends :
    (u : Properties) (r : Reader)
    → at_end r ≡ false
    → is_whitespace u (look r) ≡ true
    → Ends (Shrinks r) (scan_whitespace u r)
unfolding scan_whitespace
scan_whitespace-Ends u r e h =
    Ends-bind (while_until-Shrinks (is_whitespace u) [] r e h) (λ (t, s) k. returns k)

pub scan_comment-Ends : (r : Reader) → at_end r ≡ false → Ends (Shrinks r) (scan_comment r)
unfolding scan_comment
scan_comment-Ends r e =
    let lt = left-skip_lt r e in
    Ends-bind
      (while_until-Ends (rounds r) (λ c. not (is_eol c)) (look r ∷ []) (skip r)
        (omega (arith, left-rounds r)))
      (λ (t, s) k. returns (omega arith))

scan_colon-Ends : (r : Reader) → at_end r ≡ false → Ends (Shrinks r) (scan_colon r)
unfolding scan_colon
scan_colon-Ends r e =
    let lt = left-skip_lt r e in
    Ends-if (is_colon (look (skip r))) (λ _. returns (omega (arith, left-skip (skip r))))
      (λ _. returns lt)

scan_semicolon-Ends : (r : Reader) → at_end r ≡ false → Ends (Shrinks r) (scan_semicolon r)
unfolding scan_semicolon
scan_semicolon-Ends r e =
    let lt = left-skip_lt r e in
    Ends-if (is_semicolon (look (skip r))) (λ _. returns (omega (arith, left-skip (skip r))))
      (λ _. returns lt)

scan_run-Ends :
    (g : Tag) (p : ℕ → Bool) (r : Reader)
    → p 0 ≡ false
    → p (look r) ≡ true
    → Ends (Shrinks r) (scan_run g p r)
unfolding scan_run
scan_run-Ends g p r z h = Ends-bind (while_in-Shrinks p [] r z h) (λ (t, s) k. returns k)

-- What a positive answer says: there is a digit, or a minus.
pub starts_number-Ends :
    (u : Properties) (r : Reader)
    → Ends
        (λ b. b ≡ true → (is_digit u (look r) ≡ true) ⊎ (is_minus (look r) ≡ true))
        (starts_number u r)
unfolding starts_number
starts_number-Ends u r =
    Ends-if (is_digit u (look r)) (λ d. returns (λ _. inl d))
      (λ _.
        Ends-if (not (is_minus (look r))) (λ _. returns (λ h. absurd cc))
          (λ m. Ends-bind (ahead-Ends 1 r) (λ c _. returns (λ _. inr (ground arith)))))

module _ (u : Properties) (w : IsPlain u) where
  letter_zero : is_letter u 0 ≡ false
  unfolding is_letter is_uppercase is_lowercase is_digit
  letter_zero = rw (w.upper, w.lower, w.digit)

  upper_letter : (c : ℕ) → is_uppercase u c ≡ true → is_letter u c ≡ true
  unfolding is_letter is_uppercase is_lowercase
  upper_letter c h = ground arith

  lower_letter : (c : ℕ) → is_lowercase u c ≡ true → is_letter u c ≡ true
  unfolding is_letter is_uppercase is_lowercase
  lower_letter c h = ground arith

  pub scan_name-Ends : (r : Reader) → at_end r ≡ false → Ends (Shrinks r) (scan_name u r)
  unfolding scan_name
  scan_name-Ends r e =
      Ends-if (is_operator (look r))
        (λ h. scan_run-Ends _ is_operator r (unfold is_operator in refl) h)
        (λ _.
          Ends-if (is_uppercase u (look r))
            (λ h. scan_run-Ends _ (is_letter u) r letter_zero (upper_letter (look r) h))
            (λ _.
              Ends-if (is_lowercase u (look r))
                (λ h. scan_run-Ends _ (is_letter u) r letter_zero (lower_letter (look r) h))
                (λ _. Ends-if (is_underscore (look r)) (λ _. single-Ends _ r e) (λ _. raises))))

  scan_compound-Ends : (r : Reader) → at_end r ≡ false → Ends (Shrinks r) (scan_compound u r)
  unfolding scan_compound
  scan_compound-Ends r e =
      Ends-if (is_math (look r)) (λ _. single-Ends _ r e)
        (λ _.
          Ends-if (is_quote (look r)) (λ _. scan_char-Ends r e)
            (λ _.
              Ends-if (is_dquote (look r)) (λ _. scan_string-Ends r e)
                (λ _. Ends-bind (starts_number-Ends u r) (λ b k.
                  Ends-if b (λ h. scan_number-Ends u w r (k h)) (λ _. scan_name-Ends r e)))))

  scan_token-Ends : (r : Reader) → at_end r ≡ false → Ends (Shrinks r) (scan_token u r)
  unfolding scan_token
  scan_token-Ends r e =
      Ends-if (is_whitespace u (look r)) (λ h. scan_whitespace-Ends u r e h)
        (λ _.
          Ends-if (is_hash (look r)) (λ _. scan_comment-Ends r e)
            (λ _.
              Ends-if (is_comma (look r)) (λ _. single-Ends _ r e)
                (λ _.
                  Ends-if (is_lparen (look r)) (λ _. single-Ends _ r e)
                    (λ _.
                      Ends-if (is_rparen (look r)) (λ _. single-Ends _ r e)
                        (λ _.
                          Ends-if (is_lsquare (look r)) (λ _. single-Ends _ r e)
                            (λ _.
                              Ends-if (is_rsquare (look r)) (λ _. single-Ends _ r e)
                                (λ _.
                                  Ends-if (is_lcurly (look r)) (λ _. single-Ends _ r e)
                                    (λ _.
                                      Ends-if (is_rcurly (look r)) (λ _. single-Ends _ r e)
                                        (λ _.
                                          Ends-if (is_colon (look r)) (λ _. scan_colon-Ends r e)
                                            (λ _.
                                              Ends-if (is_semicolon (look r))
                                                (λ _. scan_semicolon-Ends r e)
                                                (λ _. scan_compound-Ends r e)))))))))))

  tokenize_loop-Ends :
      (n : ℕ) (tt : Tokens) (r : Reader) → left r < n → Ends (λ t. Unit) (tokenize_loop n u tt r)
  unfolding tokenize_loop
  tokenize_loop-Ends zero ts r f = absurd (omega arith)
  tokenize_loop-Ends (suc n) ts r f =
      Ends-if (at_end r) (λ _. returns tt)
        (λ e. Ends-bind (scan_token-Ends r e) (λ (t, s) k. tokenize_loop-Ends n _ s (omega arith)))

  -- From every reader the tokenizer ends within the rounds it is given: it gives tokens, or a
  -- lexical error, or has read past the end of the buffer. The properties of characters that ICU
  -- has do not hold of the character 0, which the reader shows at the end.
  pub tokenize_from_reader_total : (r : Reader) → tokenize_from_reader u r ≢ out_of_fuel
  unfolding tokenize_from_reader
  tokenize_from_reader_total r h =
      let e : Ends (λ t. Unit) (tokenize_from_reader u r) =
        tokenize_loop-Ends (rounds r) _ r (left-rounds r) in
      Ends-fuel e h
