-- ===== src/Lexical/Scan/Names.antt =====
-- The operators and the names that the tokenizer of src/lexical.hpp reads.
use egel.Prelude.{ℕ, ◌<◌, Bool, true, false, [], ◌∷◌, ◌≡◌, ◌≢◌, refl, ap}
use egel.Prelude.{length, length-append, arith, if◌then◌else◌, Bool-cases, inl, inr, ◌||◌}
use egel.Prelude.Text.{Text}
use egel.Reader.{Reader, look, position}
use egel.Reader.Positions.{IsAt, look-IsAt}
use egel.Lexical.Chars.{Properties, is_operator, is_uppercase, is_lowercase, is_letter}
use egel.Lexical.Token.{Tag, Token, token_operator, token_uppercase, token_lowercase}
use egel.Lexical.Scan.{scan_run, scan_name}
use egel.Lexical.Scan.Loops.{Lexed, ok, rounds}
use egel.Lexical.Scan.Munch.{IsRun, while_in_lem}

enough : (r : Reader) (done left : Text) → IsAt r done left → length left < rounds r
unfolding rounds
enough r done left h = omega (arith, ap length h.splits, length-append done left)

-- The result of a scan: a token with the longest run of a class as its text, at the position of
-- the reader, which stands behind the run afterwards.
unfoldable pub Scans : Tag → (ℕ → Bool) → Reader → Text → Text → Lexed (Token × Reader) → Type 0
Scans g p r done left e =
    (run : Text) × (rest : Text) × (s : Reader) × (e
      ≡ ok (record { tag = g; position = position r; text = run }, s))
    × IsRun p s done left run rest

scan_run_lem :
    (g : Tag) (p : ℕ → Bool) (r : Reader) (done left : Text)
    → p 0 ≡ false
    → IsAt r done left
    → Scans g p r done left (scan_run g p r)
unfolding scan_run Scans
scan_run_lem g p r done left z h =
    let (run, rest, s, q, i) =
      while_in_lem (rounds r) p [] r done left z (enough r done left h) h in
    (run, rest, s, rw q, i)

-- The tag and the class of what begins with a character.
unfoldable pub name_class : Properties → ℕ → Tag × (ℕ → Bool)
name_class u c =
    if is_operator c
    then (token_operator, is_operator)
    else if is_uppercase u c
    then (token_uppercase, is_letter u)
    else (token_lowercase, is_letter u)

-- Where the next character is one of an operator, or an uppercase or a lowercase one, the scan
-- ends with an operator token, or else an uppercase or else a lowercase token. The text of the
-- token is the longest run of characters of an operator, or else of letters, and the reader stands
-- behind it. The character 0 is taken to be no letter, and 65535 marks the end.
pub scan_name_lem :
    (u : Properties) (r : Reader) (done : Text) (c : ℕ) (left : Text)
    → is_letter u 0 ≡ false
    → c ≢ 65535
    → IsAt r done (c ∷ left)
    → (is_operator c || is_uppercase u c || is_lowercase u c) ≡ true
    → Scans (name_class u c).0 (name_class u c).1 r done (c ∷ left) (scan_name u r)
unfolding scan_name name_class
scan_name_lem u r done c left z ne h k =
    let l = look-IsAt c ne h in
    elim (Bool-cases (is_operator c)) [
      | inl o ↦
          let o' : is_operator (look r) ≡ true = rw l o in
          rw (o, o')
            (scan_run_lem token_operator is_operator r done (c ∷ left) (unfold is_operator in refl)
              h)
      | inr o ↦
          let o' : is_operator (look r) ≡ false = rw l o in
          elim (Bool-cases (is_uppercase u c)) [
            | inl i ↦
                let i' : is_uppercase u (look r) ≡ true = rw l i in
                rw (o, o', i, i') (scan_run_lem token_uppercase (is_letter u) r done (c ∷ left) z h)
            | inr i ↦
                let i' : is_uppercase u (look r) ≡ false = rw l i in
                let j' : is_lowercase u (look r) ≡ true = rw l (rw (o, i) at k) in
                rw (o, o', i, i', j')
                  (scan_run_lem token_lowercase (is_letter u) r done (c ∷ left) z h)
          ]
    ]
