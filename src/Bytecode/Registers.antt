-- ===== src/Bytecode/Registers.antt =====
-- `Registers` of src/bytecode.hpp: an array for the first registers, a map for all others.
use egel.Prelude.{ℕ, zero, suc, ◌≡◌, arith, List, [], ◌∷◌, Option, none, some, length}
use egel.Prelude.{get_elem?, set, ltb, ◌==◌, if◌then◌else◌}
use egel.Prelude.{length-set, get_elem?-set_self, get_elem?-set_ne, ==_self, ℕ_discrete}
use egel.Machine.Object.{Value, null}

abbrev pub max_registers : ℕ
max_registers = 64

pub record Registers : Type 0 where
  pub fast : List Value
  pub fallback : List (ℕ × Value)

abbrev pub replicate_null : ℕ → List Value
replicate_null zero = []
replicate_null (suc n) = null ∷ replicate_null n

-- The constructor leaves every pointer null.
abbrev pub empty : Registers
empty = record { fast = replicate_null max_registers; fallback = [] }

-- `_fast[n]`, which is read below the size of the array only.
abbrev pub or_null : Option Value → Value
or_null none = null
or_null (some v) = v

-- `_fallback[n]`: a missing register reads as a null pointer.
unfoldable pub find_register : ℕ → List (ℕ × Value) → Value
find_register n [] = null
find_register n ((k, v) ∷ m) = if k == n then v else find_register n m

unfoldable pub get : Registers → ℕ → Value
unfolding find_register
get r n = if ltb n max_registers then or_null (get_elem? r.fast n) else find_register n r.fallback

unfoldable pub put : Registers → ℕ → Value → Registers
put r n v =
    if ltb n max_registers
    then record r { fast = set r.fast n v }
    else record r { fallback = (n, v) ∷ r.fallback }

-- The array keeps its size.
abbrev pub IsValid : Registers → Type 0
IsValid r = length r.fast ≡ max_registers

pub put-IsValid : (r : Registers) (n : ℕ) (v : Value) → IsValid r → IsValid (put r n v)
unfolding put
put-IsValid r n v h = ground (arith, length-set r.fast n v)

get-put_self : (r : Registers) (n : ℕ) (v : Value) → IsValid r → get (put r n v) n ≡ v
unfolding put get
get-put_self r n v h = ground (arith, get_elem?-set_self r.fast n v)

-- The two stores together are one store: a register reads what was last put there, and no other
-- register changes, on both sides of the limit.
pub get-put :
    (r : Registers) (n k : ℕ) (v : Value)
    → IsValid r
    → get (put r n v) k ≡ (if n == k then v else get r k)
unfolding put get
get-put r n k v h = elim (ℕ_discrete n k) [
  | yes e ↦ rw (← e, ==_self n) (get-put_self r n v h)
  | no ne ↦ ground (arith, get_elem?-set_ne r.fast n k v ne)
]
