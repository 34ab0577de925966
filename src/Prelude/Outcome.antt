-- ===== src/Prelude/Outcome.antt =====
-- What a run of the C++ code can come to.

-- `panic` is the PANIC or the ASSERT macro, which abort. `out_of_range` is a read or write past the
-- end of a vector and `null_pointer` a call through a null pointer, for which C++ promises nothing.
-- `out_of_fuel` is a loop that was not given enough rounds.
pub data Outcome {ℓ} (A : Type ℓ) : Type ℓ where
  ok : A → Outcome A
  panic : Outcome A
  out_of_range : Outcome A
  null_pointer : Outcome A
  out_of_fuel : Outcome A

infixl 5 ◌>>=◌
abbrev pub ◌>>=◌ {ℓ κ} : {A : Type ℓ} {B : Type κ} → Outcome A → (A → Outcome B) → Outcome B
ok a >>= f = f a
panic >>= f = panic
out_of_range >>= f = out_of_range
null_pointer >>= f = null_pointer
out_of_fuel >>= f = out_of_fuel
