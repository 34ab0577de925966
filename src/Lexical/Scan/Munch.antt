-- ===== src/Lexical/Scan/Munch.antt =====
-- The loop of the tokenizer of src/lexical.hpp that reads the characters of a class.
use egel.Prelude.{ℕ, zero, suc, ◌<◌, Bool, true, false, [], ◌∷◌, ◌++◌, ◌≡◌, refl, ap, ◌∙◌}
use egel.Prelude.{inl, inr, ℕ_discrete, length, append_assoc, append-nil, arith, Bool-cases}
use egel.Prelude.Text.{Text}
use egel.Reader.{Reader, look, skip}
use egel.Reader.Positions.{IsAt, look-IsAt, skip-IsAt, look_end, look_mark}
use egel.Lexical.Scan.Loops.{ok, while_in}

-- All characters are of a class.
unfoldable pub AreIn : (ℕ → Bool) → Text → Type 0
AreIn p [] = Unit
AreIn p (c ∷ s) = (p c ≡ true) × AreIn p s

-- What the loop comes to: the longest run of characters of the class is taken, and the reader
-- stands behind it.
pub record IsRun (p : ℕ → Bool) (r : Reader) (done left run rest : Text) : Type 0 where
  pub splits : left ≡ run ++ rest
  pub members : AreIn p run
  pub stops : p (look r) ≡ false
  pub at : IsAt r (done ++ run) rest

-- A run of a number of rounds of the loop that ends with a run.
Runs : (n : ℕ) (p : ℕ → Bool) (str : Text) (r : Reader) (done left : Text) → Type 0
Runs n p str r done left =
    (run : Text) × (rest : Text) × (s : Reader) × (while_in n p str r ≡ ok (str ++ run, s))
    × IsRun p s done left run rest

run_none :
    (n : ℕ) (p : ℕ → Bool) (str : Text) (r : Reader) (done left : Text)
    → p (look r) ≡ false
    → IsAt r done left
    → Runs (suc n) p str r done left
unfolding while_in AreIn Runs
run_none n p str r done left e h = (
  [],
  left,
  r,
  rw (e, append-nil str) refl,
  record { splits = refl; members = tt; stops = e; at = rw (append-nil done) h },
)

run_one :
    (n : ℕ) (p : ℕ → Bool) (str : Text) (r : Reader) (done : Text) (c : ℕ) (left : Text)
    → look r ≡ c
    → p c ≡ true
    → Runs n p (str ++ (c ∷ [])) (skip r) (done ++ (c ∷ [])) left
    → Runs (suc n) p str r done (c ∷ left)
unfolding while_in AreIn Runs
run_one n p str r done c left l e (run, rest, s, q, i) = (
  c ∷ run,
  rest,
  s,
  rw (l, e) (q ∙ ap (λ t. ok (t, s)) (append_assoc str (c ∷ []) run)),
  record {
    splits = ap (λ t. c ∷ t) i.splits;
    members = (e, i.members);
    stops = i.stops;
    at = rw (append_assoc done (c ∷ []) run) at i.at;
  },
)

-- If the class has not the character 0, and there are more rounds than characters left, then the
-- loop ends, with the longest run of characters of the class behind what was read, and the reader
-- at the position behind it.
pub while_in_lem :
    (n : ℕ) (p : ℕ → Bool) (str : Text) (r : Reader) (done left : Text)
    → p 0 ≡ false
    → length left < n
    → IsAt r done left
    → (run : Text) × (rest : Text) × (s : Reader) × (while_in n p str r ≡ ok (str ++ run, s))
      × IsRun p s done left run rest
unfolding Runs
while_in_lem zero p str r done left z f h = absurd (omega arith)
while_in_lem (suc n) p str r done [] z f h = run_none n p str r done [] (rw (look_end h) z) h
while_in_lem (suc n) p str r done (c ∷ left) z f h = elim (ℕ_discrete c 65535) [
  | yes e ↦ run_none n p str r done (c ∷ left) (rw (look_mark (rw e at h)) z) h
  | no ne ↦ elim (Bool-cases (p c)) [
    | inl e ↦ run_one n p str r done c left (look-IsAt c ne h) e (
        while_in_lem n p (str ++ (c ∷ [])) (skip r) (done ++ (c ∷ [])) left z (omega arith)
          (skip-IsAt c ne h))
    | inr e ↦ run_none n p str r done (c ∷ left) (rw (look-IsAt c ne h) e) h
  ]
]
