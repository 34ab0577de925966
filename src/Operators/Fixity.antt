-- ===== src/Operators/Fixity.antt =====
-- What the table of src/operators.hpp says of where an operator may stand.
use egel.Prelude.{ℕ, ◌≡◌, arith, Bool, true, false, not, ◌||◌, ◌∷◌, if◌then◌else◌}
use egel.Prelude.Outcome.{Outcome, ok, ◌>>=◌}
use egel.Prelude.Text.{Text}
use egel.Operators.{operator_char_entry, operator_is_infix, operator_is_prefix, operator_is_postfix}
use egel.Operators.{
  operator_is_left_associative, operator_is_right_associative, operator_is_not_associative,
}
use egel.Operators.{operator_char_attributes, operator_head_char}

-- No operator is postfix.
pub operator_is_postfix_lem : (c : ℕ) (o : Text) → operator_is_postfix (c ∷ o) ≡ ok false
unfolding operator_is_postfix operator_char_attributes operator_head_char operator_char_entry
operator_is_postfix_lem c o = ground arith

-- The answers of the predicates on one operator.
pub record Fixity : Type 0 where
  pub left : Bool
  pub right : Bool
  pub neither : Bool
  pub before : Bool
  pub between : Bool

unfoldable pub fixity : Text → Outcome Fixity
fixity o = do
  l ← operator_is_left_associative o
  r ← operator_is_right_associative o
  n ← operator_is_not_associative o
  p ← operator_is_prefix o
  i ← operator_is_infix o
  ok (record { left = l; right = r; neither = n; before = p; between = i })

abbrev exactly_one : Bool → Bool → Bool → Bool
exactly_one l r n = if l then not (r || n) else if r then not n else n

-- The predicates answered, and an operator that may stand before or between its operands has
-- exactly one associativity, any other none.
abbrev pub IsConsistent : Outcome Fixity → Type 0
IsConsistent (ok f) =
    (if f.before || f.between
      then exactly_one f.left f.right f.neither
      else not (f.left || (f.right || f.neither)))
    ≡ true
IsConsistent _ = ⊥

-- On every operator that is not empty all predicates answer, and exactly one associativity goes
-- with each operator that is prefix or infix; one that is neither has none.
pub fixity_lem : (c : ℕ) (o : Text) → IsConsistent (fixity (c ∷ o))
unfolding fixity operator_is_left_associative operator_is_right_associative
    operator_is_not_associative operator_is_prefix operator_is_infix operator_char_attributes
    operator_head_char operator_char_entry
fixity_lem c o = ground arith
