-- ===== src/Lexical/Egg/Total.antt =====
-- The tokenizer of literate source of src/lexical.hpp ends on every text.
use egel.Prelude.{ℕ, zero, suc, ◌+◌, ◌≤◌, ◌<◌, Bool, true, false, not, [], ◌∷◌, ◌≡◌, ◌≢◌, ◌⊎◌, refl}
use egel.Prelude.{
  arith, if◌then◌else◌, Bool-cases, inl, inr, ◌==◌, length, get_elem?, Option-cases, some,
}
use egel.Reader.{Reader, at_end, look, look_ahead, skip, eol}
use egel.Lexical.Chars.{
  Properties, is_whitespace, is_hash, is_comma, is_lparen, is_rparen, is_lsquare, is_rsquare,
  is_lcurly, is_rcurly, is_colon, is_semicolon, is_eol, is_math, is_quote, is_dquote,
}
use egel.Lexical.Token.{Tokens}
use egel.Lexical.Egg.{
  egg_colon, egg_semicolon, egg_block, egg_string, egg_compound, egg_token, is_fence, egg_line,
  egg_text, egg_code, egg_fenced, egg_loop, tokenize_from_egg_reader,
}
use egel.Lexical.Scan.Loops.{ok, out_of_fuel, rounds, ahead, while_until}
use egel.Lexical.Scan.Number.Total.{IsPlain, scan_number-Ends}
use egel.Lexical.Scan.Quoted.Total.{
  scan_char-Ends, scan_text-Ends, scan_block_loop-Ends, left-skip_four,
}
use egel.Lexical.Scan.Total.{
  single-Ends, scan_whitespace-Ends, scan_comment-Ends, starts_number-Ends, scan_name-Ends,
}
use egel.Lexical.Scan.Measure.{
  left, Ends, returns, leaves, Ends-bind, Ends-if, Ends-fuel, Ends-self, Ends-imp, seen, Shrinks,
  left-skip, left-skip_lt, left-rounds, ahead-Ends, while_until-Shrinks, in_buffer,
}

egg_colon-Ends : (r : Reader) → at_end r ≡ false → Ends (Shrinks r) (egg_colon r)
unfolding egg_colon
egg_colon-Ends r e =
    let lt = left-skip_lt r e in
    Ends-if (is_colon (look (skip r))) (λ _. returns (omega (arith, left-skip (skip r))))
      (λ _. returns lt)

egg_semicolon-Ends : (r : Reader) → at_end r ≡ false → Ends (Shrinks r) (egg_semicolon r)
unfolding egg_semicolon
egg_semicolon-Ends r e =
    let lt = left-skip_lt r e in
    Ends-if (is_semicolon (look (skip r))) (λ _. returns (omega (arith, left-skip (skip r))))
      (λ _. returns lt)

egg_block-Ends : (r : Reader) → at_end r ≡ false → Ends (Shrinks r) (egg_block r)
unfolding egg_block
egg_block-Ends r e =
    let lt = left-skip_lt r e in
    let four = left-skip_four r in
    Ends-bind
      (scan_block_loop-Ends (rounds r) (look r ∷ []) (skip (skip (skip (skip r))))
        (omega (arith, left-rounds r)))
      (λ (str, s) h. returns (omega (arith, left-skip_four s, left-skip s)))

egg_string-Ends : (r : Reader) → at_end r ≡ false → Ends (Shrinks r) (egg_string r)
unfolding egg_string
egg_string-Ends r e = Ends-bind (ahead-Ends 1 r) (λ c _.
    Ends-if (not (is_dquote c)) (λ _. scan_text-Ends r e)
      (λ _. Ends-bind (ahead-Ends 2 r) (λ d _.
        Ends-if (not (is_dquote d)) (λ _. scan_text-Ends r e)
          (λ _.
            Ends-bind (ahead-Ends 3 r)
              (λ g _. Ends-if (is_eol g) (λ _. egg_block-Ends r e) (λ _. scan_text-Ends r e))))))

ahead_now : (r : Reader) → Ends (λ c. c ≡ 96 → look r ≡ 96) (ahead 0 r)
unfolding ahead look_ahead look
ahead_now r = elim (Option-cases (get_elem? r.buffer (r.index + 0))) [
  | inl e ↦ rw (e, ahead, look_ahead) leaves
  | inr (c, e) ↦
      let here : r.index + 0 ≡ r.index = omega arith in
      let f : get_elem? r.buffer r.index ≡ some c = rw here at e in
      rw (e, ahead, look_ahead) (returns (λ h. rw (f, look) (rw h)))
]

-- Where there is a fence, a backquote is seen.
is_fence-Ends : (r : Reader) → Ends (λ b. b ≡ true → look r ≡ 96) (is_fence r)
unfolding is_fence
is_fence-Ends r = Ends-bind (ahead_now r) (λ c k.
    Ends-if (not (c == 96)) (λ _. returns (λ h. absurd cc))
      (λ e. Ends-bind (ahead-Ends 1 r) (λ d _.
        Ends-if (not (d == 96)) (λ _. returns (λ h. absurd cc))
          (λ _. Ends-bind (ahead-Ends 2 r) (λ g _. returns (λ _. k (ground arith)))))))

egg_line-Ends :
    (r : Reader) → at_end r ≡ false → (look r == b'\n') ≡ false → Ends (Shrinks r) (egg_line r)
unfolding egg_line
egg_line-Ends r e h =
    Ends-bind (while_until-Shrinks (λ c. not (c == b'\n')) [] r e (rw h)) (λ (t, s) k. returns k)

egg_line_empty : (r : Reader) → (look r == b'\n') ≡ true → Ends (λ x. x.1 ≡ r) (egg_line r)
unfolding egg_line while_until rounds
egg_line_empty r h = elim (Bool-cases (at_end r)) [
  | inl e ↦ rw e (returns refl)
  | inr e ↦ rw (e, h) (returns refl)
]

newline : (r : Reader) → at_end r ≡ false → (look r == b'\n') ≡ true → eol r ≡ true
unfolding eol
newline r e h = rw (e, h)

passed : (s : Reader) (n : ℕ) → left s < n → left (if eol s then skip s else s) < n
passed s n q = elim (Bool-cases (eol s)) [
  | inl e ↦ rw e (omega (arith, left-skip s))
  | inr e ↦ rw e q
]

egg_text-Ends : (ts : Tokens) (r : Reader) → at_end r ≡ false → Ends (Shrinks r) (egg_text ts r)
unfolding egg_text
egg_text-Ends ts r e = Ends-bind (is_fence-Ends r) (λ b k. elim (Bool-cases (look r == b'\n')) [
  | inl h ↦ Ends-bind (egg_line_empty r h) (λ (t, s) q.
      Ends-if b (λ f. let tick = k f in absurd (ground arith))
        (λ f.
          let ends : eol s ≡ true = rw q (newline r e h) in
          rw (ends, q) (returns (left-skip_lt r e))))
  | inr h ↦
      Ends-bind (egg_line-Ends r e h)
        (λ (t, s) q. Ends-if b (λ _. returns q) (λ _. returns (passed s (left r) q)))
])

-- A scan that leaves less than there was, or has come to the end.
Settles : {A : Type 0} → Reader → A × Reader → Type 0
Settles r (a, s) = (left s < left r) ⊎ (at_end s ≡ true)

module _ (u : Properties) (w : IsPlain u) where
  egg_compound-Ends : (r : Reader) → at_end r ≡ false → Ends (Shrinks r) (egg_compound u r)
  unfolding egg_compound
  egg_compound-Ends r e =
      Ends-if (is_math (look r)) (λ _. single-Ends _ r e)
        (λ _.
          Ends-if (is_quote (look r)) (λ _. scan_char-Ends r e)
            (λ _.
              Ends-if (is_dquote (look r)) (λ _. egg_string-Ends r e)
                (λ _. Ends-bind (starts_number-Ends u r) (λ b k.
                  Ends-if b (λ h. scan_number-Ends u w r (k h)) (λ _. scan_name-Ends u w r e)))))

  egg_token-Ends : (r : Reader) → at_end r ≡ false → Ends (Shrinks r) (egg_token u r)
  unfolding egg_token
  egg_token-Ends r e =
      Ends-if (is_whitespace u (look r)) (λ h. scan_whitespace-Ends u r e h)
        (λ _.
          Ends-if (is_hash (look r)) (λ _. scan_comment-Ends r e)
            (λ _.
              Ends-if (is_comma (look r)) (λ _. single-Ends _ r e)
                (λ _.
                  Ends-if (is_lparen (look r)) (λ _. single-Ends _ r e)
                    (λ _.
                      Ends-if (is_rparen (look r)) (λ _. single-Ends _ r e)
                        (λ _.
                          Ends-if (is_lsquare (look r)) (λ _. single-Ends _ r e)
                            (λ _.
                              Ends-if (is_rsquare (look r)) (λ _. single-Ends _ r e)
                                (λ _.
                                  Ends-if (is_lcurly (look r)) (λ _. single-Ends _ r e)
                                    (λ _.
                                      Ends-if (is_rcurly (look r)) (λ _. single-Ends _ r e)
                                        (λ _.
                                          Ends-if (is_colon (look r)) (λ _. egg_colon-Ends r e)
                                            (λ _.
                                              Ends-if (is_semicolon (look r))
                                                (λ _. egg_semicolon-Ends r e)
                                                (λ _. egg_compound-Ends r e)))))))))))

  -- The loop over code ends at the end, or at a fence.
  egg_code-Ends :
      (n : ℕ) (ts : Tokens) (r : Reader)
      → left r < n
      → Ends
          (λ x. (left x.1 ≤ left r) × ((at_end x.1 ≡ true) ⊎ (is_fence x.1 ≡ ok true)))
          (egg_code n u ts r)
  unfolding egg_code
  egg_code-Ends zero ts r f = absurd (omega arith)
  egg_code-Ends (suc n) ts r f =
      Ends-if (at_end r) (λ h. returns (omega arith, inl h))
        (λ e. Ends-bind (Ends-self (is_fence-Ends r)) (λ b (_, q).
          Ends-if b (λ h. returns (omega arith, inr (rw h at q)))
            (λ _. Ends-bind (egg_token-Ends r e) (λ (t, s) k.
              Ends-imp (λ x (a, c). (omega arith, c)) (egg_code-Ends n _ s (omega arith))))))

  egg_fenced-Ends : (ts : Tokens) (r : Reader) → Ends (Settles r) (egg_fenced u ts r)
  unfolding egg_fenced Settles
  egg_fenced-Ends ts r =
      Ends-bind (egg_code-Ends (rounds r) ts r (left-rounds r)) (λ (t, s) (le, k).
        Ends-bind (Ends-self (is_fence-Ends s)) (λ b (tick, q).
          Ends-if b
            (λ h.
              let c = tick h in
              Ends-bind (egg_line-Ends s (open_at s c) (ground arith))
                (λ (l, z) lt. returns (inl (omega arith))))
            (λ h. returns (inr (at_end_of s k (rw h at q))))))
    where
      open_at : (s : Reader) → look s ≡ 96 → at_end s ≡ false
      open_at s c = seen s (λ x. x == 96) refl (rw c)

      at_end_of :
          (s : Reader)
          → (at_end s ≡ true) ⊎ (is_fence s ≡ ok true)
          → is_fence s ≡ ok false
          → at_end s ≡ true
      at_end_of s (inl h) q = h
      at_end_of s (inr h) q = absurd cc

  egg_loop-Ends :
      (n : ℕ) (text : Bool) (ts : Tokens) (r : Reader)
      → (left r < n) ⊎ ((at_end r ≡ true) × (0 < n))
      → Ends (λ t. Unit) (egg_loop n u text ts r)
  unfolding egg_loop Settles
  egg_loop-Ends zero text ts r f = absurd (ground arith)
  egg_loop-Ends (suc n) text ts r f =
      Ends-if (at_end r) (λ _. returns tt)
        (λ e.
          Ends-bind {P = Settles r}
            (Ends-if text (λ _. Ends-imp (λ x lt. inl lt) (egg_text-Ends ts r e))
              (λ _. egg_fenced-Ends ts r))
            (λ (_, s) k. egg_loop-Ends n _ _ s (next r s n e (in_buffer r e) f k)))
    where
      next :
          (r s : Reader) (n : ℕ)
          → at_end r ≡ false
          → r.index < length r.buffer
          → (left r < suc n) ⊎ ((at_end r ≡ true) × (0 < suc n))
          → (left s < left r) ⊎ (at_end s ≡ true)
          → (left s < n) ⊎ ((at_end s ≡ true) × (0 < n))
      next r s n e room (inl lt) (inl less) = inl (omega arith)
      next r s n e room (inl lt) (inr over) = inr (over, omega arith)
      next r s n e room (inr (h, _)) k = absurd cc

  -- From every reader the tokenizer of literate source ends within the rounds it is given: it
  -- gives tokens, or a lexical error, or has read past the end of the buffer. The properties of
  -- characters that ICU has do not hold of the character 0, which the reader shows at the end.
  pub tokenize_from_egg_reader_total : (r : Reader) → tokenize_from_egg_reader u r ≢ out_of_fuel
  unfolding tokenize_from_egg_reader
  tokenize_from_egg_reader_total r h =
      Ends-fuel (egg_loop-Ends (rounds r) true _ r (inl (left-rounds r))) h
