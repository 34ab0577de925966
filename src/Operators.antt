-- ===== src/Operators.antt =====
-- src/operators.hpp: the order of the operators by their characters, and what may stand where.
pub mod Order
pub mod Fixity
pub mod Compare
use Prim.Native.Nat.{bit_and, bit_or}
use egel.Prelude.{ℕ, zero, suc, ◌+◌, Bool, true, false, ◌&&◌, List, [], ◌∷◌, Option, none, some}
use egel.Prelude.{get_elem?, ltb, ◌==◌, if◌then◌else◌}
use egel.Prelude.Int.{ℤ, pos, negsuc, ltb_ℤ}
use egel.Prelude.Outcome.{Outcome, ok, panic, out_of_range, ◌>>=◌}
use egel.Prelude.Text.{Text}

abbrev pub left_assoc : ℕ
left_assoc = 1

abbrev pub right_assoc : ℕ
right_assoc = 2

abbrev pub none_assoc : ℕ
none_assoc = 4

abbrev pub prefix : ℕ
prefix = 8

abbrev pub postfix : ℕ
postfix = 16

abbrev pub infix_flag : ℕ
infix_flag = 32

-- `operator_t`, without the translation, which nothing reads.
pub record Operator : Type 0 where
  pub name : ℕ
  pub attribute : ℕ

abbrev entry_of : ℕ → ℕ → Operator
entry_of c f = record { name = c; attribute = f }

-- The table. `|` on flags is `bit_or`.
abbrev pub operators : List Operator
operators =
    entry_of b'=' (bit_or none_assoc infix_flag)
    ∷ entry_of b'!' (bit_or none_assoc prefix)
    ∷ entry_of b'&' (bit_or left_assoc infix_flag)
    ∷ entry_of b'|' (bit_or left_assoc infix_flag)
    ∷ entry_of b'<' (bit_or right_assoc infix_flag)
    ∷ entry_of b'>' (bit_or right_assoc infix_flag)
    ∷ entry_of b'+' (bit_or (bit_or left_assoc prefix) infix_flag)
    ∷ entry_of b'-' (bit_or (bit_or left_assoc prefix) infix_flag)
    ∷ entry_of b'/' (bit_or left_assoc infix_flag)
    ∷ entry_of b'*' (bit_or left_assoc infix_flag)
    ∷ entry_of b'^' (bit_or left_assoc infix_flag)
    ∷ entry_of b'#' (bit_or right_assoc infix_flag)
    ∷ entry_of b'%' (bit_or right_assoc infix_flag)
    ∷ entry_of b'~' (bit_or (bit_or none_assoc prefix) infix_flag)
    ∷ entry_of b'$' (bit_or left_assoc infix_flag)
    ∷ entry_of b'@' (bit_or right_assoc infix_flag)
    ∷ entry_of b'.' (bit_or left_assoc infix_flag)
    ∷ []

-- The loop over the table from entry `i` on, and -1 if no entry has the character.
unfoldable pub char_entry_from : List Operator → ℕ → ℕ → ℤ
char_entry_from [] i c = negsuc 0
char_entry_from (o ∷ os) i c = if o.name == c then pos i else char_entry_from os (i + 1) c

unfoldable pub operator_char_entry : ℕ → ℤ
unfolding char_entry_from
operator_char_entry c = char_entry_from operators 0 c

-- `operators[i].attribute`
unfoldable pub operator_char_attributes : ℕ → Outcome ℕ
operator_char_attributes i = elim (get_elem? operators i) [
  | none ↦ out_of_range
  | some o ↦ ok o.attribute
]

-- The results -1, 0 and 1 of a comparison.
pub data Sign : Type 0 where
  less equal greater : Sign

-- The ladder that both halves of `operator_char_compare` have.
abbrev pub sign_ℕ : ℕ → ℕ → Sign
sign_ℕ a b = if ltb a b then less else if ltb b a then greater else equal

abbrev pub sign_ℤ : ℤ → ℤ → Sign
sign_ℤ a b = if ltb_ℤ a b then less else if ltb_ℤ b a then greater else equal

unfoldable pub operator_char_compare : ℕ → ℕ → Sign
operator_char_compare c0 c1 =
    let i0 = operator_char_entry c0 in
    let i1 = operator_char_entry c1 in
    if ltb_ℤ i0 (pos 0) && ltb_ℤ i1 (pos 0) then sign_ℕ c0 c1 else sign_ℤ i0 i1

-- `length()` of a text counts UTF-16 code units: a code point above 0xFFFF takes two.
abbrev pub units : ℕ → ℕ
units c = if ltb c 0x1_0000 then 1 else 2

unfoldable pub unit_length : Text → ℕ
unit_length [] = 0
unit_length (c ∷ t) = units c + unit_length t

-- `char32At` past the end is 0xFFFF, where `moveIndex32` stays.
abbrev pub char_at : Text → ℕ
char_at [] = 0xffff
char_at (c ∷ t) = c

abbrev pub move_on : Text → Text
move_on [] = []
move_on (c ∷ t) = t

-- The loop, with the rounds that both lengths leave.
unfoldable pub compare_loop : ℕ → Text → Text → Sign
compare_loop zero o0 o1 = equal
compare_loop (suc n) o0 o1 = elim (operator_char_compare (char_at o0) (char_at o1)) [
  | less ↦ less
  | greater ↦ greater
  | equal ↦ compare_loop n (move_on o0) (move_on o1)
]

abbrev min_length : ℕ → ℕ → ℕ
min_length a b = if ltb a b then a else b

unfoldable pub operator_compare : Text → Text → Outcome Sign
unfolding compare_loop
operator_compare [] o1 = panic
operator_compare (c ∷ o0) [] = panic
operator_compare (c ∷ o0) (d ∷ o1) =
    let l0 = unit_length (c ∷ o0) in
    let l1 = unit_length (d ∷ o1) in
    elim (compare_loop (min_length l0 l1) (c ∷ o0) (d ∷ o1)) [
      | less ↦ ok less
      | greater ↦ ok greater
      | equal ↦ ok (sign_ℕ l0 l1)
    ]

unfoldable pub operator_head_char : Text → Outcome ℕ
operator_head_char [] = panic
operator_head_char (c ∷ o) = ok c

-- The six predicates differ in the flag alone.
abbrev has_flag : ℕ → ℕ → Outcome Bool
has_flag flag c = elim (operator_char_entry c) [
  | negsuc n ↦ ok false
  | pos i ↦ (operator_char_attributes i >>= λ f. ok (bit_and f flag == flag))
]

unfoldable pub operator_is_infix : Text → Outcome Bool
operator_is_infix o = do c ← operator_head_char o; has_flag infix_flag c

unfoldable pub operator_is_prefix : Text → Outcome Bool
operator_is_prefix o = do c ← operator_head_char o; has_flag prefix c

unfoldable pub operator_is_postfix : Text → Outcome Bool
operator_is_postfix o = do c ← operator_head_char o; has_flag postfix c

unfoldable pub operator_is_left_associative : Text → Outcome Bool
operator_is_left_associative o = do c ← operator_head_char o; has_flag left_assoc c

unfoldable pub operator_is_right_associative : Text → Outcome Bool
operator_is_right_associative o = do c ← operator_head_char o; has_flag right_assoc c

unfoldable pub operator_is_not_associative : Text → Outcome Bool
operator_is_not_associative o = do c ← operator_head_char o; has_flag none_assoc c
