-- ===== src/Lexical/Scan/Quoted/Total.antt =====
-- The tokenizer of src/lexical.hpp ends: the scan of what is in quotes.
use egel.Prelude.{ℕ, zero, suc, ◌≤◌, ◌<◌, false, not, [], ◌∷◌, ◌++◌, ◌≡◌}
use egel.Prelude.{arith, Bool-cases, inl, inr}
use egel.Prelude.Text.{Text}
use egel.Reader.{Position, Reader, at_end, look, skip, position}
use egel.Lexical.Chars.{is_eol, is_quote, is_dquote, is_backslash, is_escaped}
use egel.Lexical.Scan.Loops.{rounds}
use egel.Lexical.Scan.Quoted.{
  stops, char_error, string_error, scan_escaped, scan_quote, scan_char, is_block_end,
  scan_block_loop, scan_block, scan_backslash, scan_text_loop, scan_text, scan_string,
}
use egel.Lexical.Scan.Measure.{
  left, Ends, returns, raises, Ends-bind, Ends-if, Within, Shrinks, weaken, stricter, left-skip,
  left-skip_lt, left-rounds, ahead-Ends, skip_closed,
}

char_error-Ends : {A : Type 0} (P : A → Type 0) (r : Reader) → Ends P (char_error r)
unfolding char_error
char_error-Ends P r = raises

string_error-Ends : {A : Type 0} (P : A → Type 0) (r : Reader) → Ends P (string_error r)
unfolding string_error
string_error-Ends P r = raises

stops_open : (r : Reader) → stops r ≡ false → at_end r ≡ false
unfolding stops
stops_open r h = ground arith

scan_escaped-Ends : (str : Text) (r : Reader) → Ends (Within (left r)) (scan_escaped str r)
unfolding scan_escaped
scan_escaped-Ends str r =
    Ends-if (not (is_backslash (look r))) (λ _. returns (omega arith))
      (λ _.
        Ends-if (stops (skip r)) (λ _. char_error-Ends _ (skip r))
          (λ _.
            Ends-if (not (is_escaped (look (skip r)))) (λ _. char_error-Ends _ (skip r))
              (λ _. returns (left-skip r))))

scan_quote-Ends :
    (p : Position) (str : Text) (r : Reader) → Ends (Within (left r)) (scan_quote p str r)
unfolding scan_quote
scan_quote-Ends p str r =
    Ends-if (stops r) (λ _. char_error-Ends _ r)
      (λ _.
        Ends-if (not (is_quote (look r))) (λ _. char_error-Ends _ r) (λ _. returns (left-skip r)))

pub scan_char-Ends : (r : Reader) → at_end r ≡ false → Ends (Shrinks r) (scan_char r)
unfolding scan_char
scan_char-Ends r e =
    Ends-if (stops (skip r)) (λ _. char_error-Ends _ (skip r))
      (λ _. Ends-bind (scan_escaped-Ends (look r ∷ look (skip r) ∷ []) (skip r)) (λ (str, s) h.
        let lt = left-skip_lt r e in
        stricter r (omega (arith, left-skip s)) (scan_quote-Ends (position r) str (skip s))))

is_block_end-Ends : (r : Reader) → Ends (λ b. Unit) (is_block_end r)
unfolding is_block_end
is_block_end-Ends r = Ends-bind (ahead-Ends 0 r) (λ c _.
    Ends-if (not (is_dquote c)) (λ _. returns tt)
      (λ _. Ends-bind (ahead-Ends 1 r) (λ d _.
        Ends-if (not (is_dquote d)) (λ _. returns tt)
          (λ _. Ends-bind (ahead-Ends 2 r) (λ e _. returns tt)))))

pub scan_block_loop-Ends :
    (n : ℕ) (str : Text) (r : Reader)
    → left r < n
    → Ends (Within (left r)) (scan_block_loop n str r)
unfolding scan_block_loop
scan_block_loop-Ends zero str r f = absurd (omega arith)
scan_block_loop-Ends (suc n) str r f = Ends-bind (is_block_end-Ends r) (λ b _.
    Ends-if b (λ _. returns (omega arith))
      (λ _.
        Ends-if (at_end r) (λ _. string_error-Ends _ r)
          (λ e.
            let lt = left-skip_lt r e in
            weaken (omega arith)
              (scan_block_loop-Ends n (str ++ (look r ∷ [])) (skip r) (omega arith)))))

pub left-skip_four : (r : Reader) → left (skip (skip (skip (skip r)))) ≤ left (skip r)
left-skip_four r =
    omega (arith, left-skip (skip r), left-skip (skip (skip r)), left-skip (skip (skip (skip r))))

scan_block-Ends : (r : Reader) → at_end r ≡ false → Ends (Shrinks r) (scan_block r)
unfolding scan_block
scan_block-Ends r e =
    let lt = left-skip_lt r e in
    let four = left-skip_four r in
    Ends-bind
      (scan_block_loop-Ends (rounds r) (look r ∷ []) (skip (skip (skip (skip r))))
        (omega (arith, left-rounds r)))
      (λ (str, s) h. returns (omega (arith, left-skip_four s, left-skip s)))

scan_backslash-Ends : (str : Text) (r : Reader) → Ends (Within (left r)) (scan_backslash str r)
unfolding scan_backslash
scan_backslash-Ends str r =
    Ends-if (not (is_backslash (look r))) (λ _. returns (omega arith))
      (λ _.
        Ends-if (stops (skip r)) (λ _. string_error-Ends _ (skip r))
          (λ _.
            Ends-if (not (is_escaped (look (skip r)))) (λ _. string_error-Ends _ (skip r))
              (λ _. returns (left-skip r))))

-- Where the reader is not at the end after a skip, it was not before.
open_before : (r : Reader) → at_end (skip r) ≡ false → at_end r ≡ false
open_before r h = elim (Bool-cases (at_end r)) [
  | inl e ↦ let same : at_end r ≡ false = rw (skip_closed r e) at h in same
  | inr e ↦ e
]

scan_text_loop-Ends :
    (n : ℕ) (str : Text) (r : Reader) → left r < n → Ends (Within (left r)) (scan_text_loop n str r)
unfolding scan_text_loop
scan_text_loop-Ends zero str r f = absurd (omega arith)
scan_text_loop-Ends (suc n) str r f =
    Ends-if (is_dquote (look r)) (λ _. returns (omega arith))
      (λ _. Ends-bind (scan_backslash-Ends str r) (λ (t, s) h.
        Ends-if (stops (skip s)) (λ _. string_error-Ends _ (skip s))
          (λ e.
            let lt = left-skip_lt s (open_before s (stops_open (skip s) e)) in
            weaken (omega arith)
              (scan_text_loop-Ends n (t ++ (look s ∷ [])) (skip s) (omega arith)))))

pub scan_text-Ends : (r : Reader) → at_end r ≡ false → Ends (Shrinks r) (scan_text r)
unfolding scan_text
scan_text-Ends r e =
    let lt = left-skip_lt r e in
    Ends-if (stops (skip r)) (λ _. string_error-Ends _ (skip r))
      (λ _.
        Ends-bind
          (scan_text_loop-Ends (rounds r) (look r ∷ []) (skip r) (omega (arith, left-rounds r)))
          (λ (str, s) h. returns (omega (arith, left-skip s))))

pub scan_string-Ends : (r : Reader) → at_end r ≡ false → Ends (Shrinks r) (scan_string r)
unfolding scan_string
scan_string-Ends r e = Ends-bind (ahead-Ends 1 r) (λ c _.
    Ends-if (not (is_dquote c)) (λ _. scan_text-Ends r e)
      (λ _. Ends-bind (ahead-Ends 2 r) (λ d _.
        Ends-if (not (is_dquote d)) (λ _. scan_text-Ends r e)
          (λ _.
            Ends-bind (ahead-Ends 3 r)
              (λ g _. Ends-if (is_eol g) (λ _. scan_block-Ends r e) (λ _. scan_text-Ends r e))))))
