-- ===== src/Machine/DataTable.antt =====
-- `DataTable` of src/machine.hpp. The `std::map` with `LessVMObjectPtr` is an association list that
-- is searched, as the map is, up to the equivalence `!(a < b) && !(b < a)`.
pub mod Order
pub mod Intern
pub mod Define
pub mod Constants
use egel.Prelude.{ℕ, ◌+◌, ◌^◌, ◌%◌, Bool, true, false, not, ◌&&◌, List, [], ◌∷◌, ◌++◌}
use egel.Prelude.{Option, none, some, length, get_elem?, set, ltb, if◌then◌else◌}
use egel.Prelude.Outcome.{Outcome, ok, out_of_range}

pub record DataTable (A : Type 0) : Type 0 where
  pub to : List A
  pub from : List (A × ℕ)

abbrev pub empty : {A : Type 0} → DataTable A
empty = record { to = []; from = [] }

module _ {A : Type 0} (less : A → A → Bool) where
  -- The equivalence by which a `std::map` tells its keys apart.
  abbrev pub same : A → A → Bool
  same a b = not (less a b) && not (less b a)

  unfoldable pub find : A → List (A × ℕ) → Option ℕ
  find a [] = none
  find a ((b, n) ∷ m) = if same a b then some n else find a m

  -- `_to.size()` is kept in a `data_t`, of 32 bits.
  abbrev pub append : DataTable A → A → DataTable A × ℕ
  append t s =
      let n = length t.to % 2 ^ 32 in (record { to = t.to ++ (s ∷ []); from = (s, n) ∷ t.from }, n)

  unfoldable pub enter : DataTable A → A → DataTable A × ℕ
  enter t s = elim (find s t.from) [ none ↦ append t s | some n ↦ (t, n) ]

  -- The write `_to[n] = s` is undefined past the end of the vector.
  unfoldable pub define : DataTable A → A → Outcome (DataTable A × ℕ)
  define t s = elim (find s t.from) [
    | none ↦ ok (enter t s)
    | some n ↦ if ltb n (length t.to) then ok (record t { to = set t.to n s }, n) else out_of_range
  ]

  unfoldable pub has : DataTable A → A → Bool
  has t s = elim (find s t.from) [ none ↦ false | some n ↦ true ]

  -- `get(o)` reads by the map's `operator[]`, which enters a missing key with the value 0.
  unfoldable pub get_data : DataTable A → A → DataTable A × ℕ
  get_data t s = elim (find s t.from) [
    | none ↦ (record t { from = (s, 0) ∷ t.from }, 0)
    | some n ↦ (t, n)
  ]

-- `get(d)`: a read past the end of the vector has no value.
abbrev pub get_object : {A : Type 0} → DataTable A → ℕ → Option A
get_object t d = get_elem? t.to d

unfoldable pub size : {A : Type 0} → DataTable A → ℕ
size t = length t.to % 2 ^ 32
