-- ===== src/Lexical/Scan/Loops.antt =====
-- The results and the inner loops of the tokenizer of src/lexical.hpp.
use egel.Prelude.{ℕ, zero, suc, Bool, not, ◌&&◌, [], ◌∷◌, ◌++◌, length}
use egel.Prelude.{if◌then◌else◌}
use egel.Prelude.Text.{Text}
use egel.Prelude.Outcome
use egel.Reader.{Position, Reader, at_end, look, look_ahead, skip}

-- `lexical_error` is the `ErrorLexical` that is thrown. `out_of_range` is a read past the end of
-- the buffer and `out_of_fuel` a loop that was not given enough rounds.
pub data Lexed {ℓ} (A : Type ℓ) : Type ℓ where
  ok : A → Lexed A
  lexical_error : Position → Text → Lexed A
  out_of_range : Lexed A
  out_of_fuel : Lexed A

infixl 5 ◌>>=◌
abbrev pub ◌>>=◌ {ℓ κ} : {A : Type ℓ} {B : Type κ} → Lexed A → (A → Lexed B) → Lexed B
ok a >>= f = f a
lexical_error p s >>= f = lexical_error p s
out_of_range >>= f = out_of_range
out_of_fuel >>= f = out_of_fuel

-- A loop that skips a character in each round takes at most so many.
unfoldable pub rounds : Reader → ℕ
rounds r = suc (length r.buffer)

-- `look(n)`
unfoldable pub ahead : ℕ → Reader → Lexed ℕ
unfolding look_ahead
ahead n r = elim (look_ahead n r) [ Outcome.ok c ↦ ok c | _ ↦ out_of_range ]

-- `while (p(c)) { str += c; reader.skip(); c = reader.look(); }`
unfoldable pub while_in : ℕ → (ℕ → Bool) → Text → Reader → Lexed (Text × Reader)
while_in zero p str r = out_of_fuel
while_in (suc n) p str r =
    let rest = while_in n p (str ++ (look r ∷ [])) (skip r) in
    if p (look r) then rest else ok (str, r)

-- `while (!reader.end() && p(reader.look())) { str += reader.look(); reader.skip(); }`
unfoldable pub while_until : ℕ → (ℕ → Bool) → Text → Reader → Lexed (Text × Reader)
while_until zero p str r = out_of_fuel
while_until (suc n) p str r =
    let rest = while_until n p (str ++ (look r ∷ [])) (skip r) in
    if not (at_end r) && p (look r) then rest else ok (str, r)
