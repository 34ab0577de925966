-- ===== src/Machine/Object.antt =====
-- The objects of src/runtime.hpp as a machine sees them: `VMObjectPtr`, the tags, `symbol()` and
-- `CompareVMObjectPtr`. An array is an address of the heap, since arrays are shared and written in
-- place; all other objects are never changed, so they are values.
use egel.Prelude.{
  ℕ, zero, suc, Bool, true, false, List, [], ◌∷◌, Option, none, some, get_elem?, length,
}
use egel.Prelude.{ltb, if◌then◌else◌}
use egel.Prelude.Int.{ℤ, ltb_ℤ}
use egel.Prelude.Outcome.{Outcome, ok, out_of_range, null_pointer, out_of_fuel, ◌>>=◌}

-- A double is its bit pattern, a text the list of its UTF-16 code units; an opaque object has a
-- symbol and an identity.
pub data Value : Type 0 where
  null : Value
  integer : ℤ → Value
  float : ℕ → Value
  complex : ℕ → ℕ → Value
  char : ℕ → Value
  text : List ℕ → Value
  opaque : ℕ → ℕ → Value
  combinator : ℕ → Value
  array : ℕ → Value

abbrev pub Heap : Type 0
Heap = List (List Value)

-- The members of the array at an address.
unfoldable pub members : Heap → ℕ → Outcome (List Value)
members h a = elim (get_elem? h a) [ none ↦ out_of_range | some xs ↦ ok xs ]

-- `tag()`, as the number of its enumerator.
unfoldable pub tag : Value → Outcome ℕ
tag null = null_pointer
tag (integer i) = ok 0
tag (float f) = ok 1
tag (complex r i) = ok 2
tag (char c) = ok 3
tag (text t) = ok 4
tag (opaque s k) = ok 5
tag (combinator s) = ok 6
tag (array a) = ok 7

-- `symbol()`.
unfoldable pub symbol : Value → Outcome ℕ
symbol null = null_pointer
symbol (integer i) = ok 0
symbol (float f) = ok 1
symbol (complex r i) = ok 2
symbol (char c) = ok 3
symbol (text t) = ok 4
symbol (opaque s k) = ok s
symbol (combinator s) = ok s
symbol (array a) = ok 5

-- `VMObjectArray::test`, with the address.
unfoldable pub is_array : Value → Outcome (Option ℕ)
is_array null = null_pointer
is_array (array a) = ok (some a)
is_array (integer i) = ok none
is_array (float f) = ok none
is_array (complex r i) = ok none
is_array (char c) = ok none
is_array (text t) = ok none
is_array (opaque s k) = ok none
is_array (combinator s) = ok none

-- The result of a comparison: -1, 0 or 1.
pub data Sign : Type 0 where
  lt eq gt : Sign

-- What the comparison takes from the floating point unit and from an opaque class.
pub record Primitives : Type 0 where
  pub float_less : ℕ → ℕ → Bool
  pub opaque_compare : ℕ → ℕ → Sign

-- `if (v0 < v1) return -1; else if (v1 < v0) return 1; else return 0;`
abbrev pub by_less {ℓ} : {A : Type ℓ} → (A → A → Bool) → A → A → Sign
by_less less a b = if less a b then lt else if less b a then gt else eq

-- `operator<` on texts, by code units.
unfoldable pub text_less : List ℕ → List ℕ → Bool
text_less [] [] = false
text_less [] (y ∷ ys) = true
text_less (x ∷ xs) [] = false
text_less (x ∷ xs) (y ∷ ys) = if ltb x y then true else if ltb y x then false else text_less xs ys

-- The loop over the members of two arrays of one size.
unfoldable pub compare_members :
    (Value → Value → Outcome Sign) → List Value → List Value → Outcome Sign
compare_members compare (x ∷ xs) (y ∷ ys) = do
  c ← compare x y
  elim c [ lt ↦ ok lt | gt ↦ ok gt | eq ↦ compare_members compare xs ys ]
compare_members compare _ _ = ok eq

abbrev then_compare : Sign → Sign → Sign
then_compare lt s = lt
then_compare gt s = gt
then_compare eq s = s

-- `s == -1`
abbrev pub is_lt : Sign → Bool
is_lt lt = true
is_lt eq = false
is_lt gt = false

module _ (prims : Primitives) where
  -- The cases of the `switch`, for two objects with one tag.
  unfoldable pub compare_same_tag :
      (Value → Value → Outcome Sign) → Heap → Value → Value → Outcome Sign
  compare_same_tag rec h (integer i) (integer j) = ok (by_less ltb_ℤ i j)
  compare_same_tag rec h (float f) (float g) = ok (by_less prims.float_less f g)
  compare_same_tag rec h (complex r i) (complex s j) =
      ok (then_compare (by_less prims.float_less r s) (by_less prims.float_less i j))
  compare_same_tag rec h (char c) (char d) = ok (by_less ltb c d)
  compare_same_tag rec h (text t) (text u) = ok (by_less text_less t u)
  compare_same_tag rec h (opaque s k) (opaque t l) =
      ok (then_compare (by_less ltb s t) (prims.opaque_compare k l))
  compare_same_tag rec h (combinator s) (combinator t) = ok (by_less ltb s t)
  compare_same_tag rec h (array a) (array b) = do
    xs ← members h a
    ys ← members h b
    elim (by_less ltb (length xs) (length ys)) [
      | lt ↦ ok lt
      | gt ↦ ok gt
      | eq ↦ compare_members rec xs ys
    ]
  compare_same_tag rec h _ _ = ok eq

  -- `CompareVMObjectPtr`. The fuel bounds how deep arrays lie in one another.
  unfoldable pub compare : ℕ → Heap → Value → Value → Outcome Sign
  unfolding tag compare_same_tag compare_members members text_less
  compare zero h v w = out_of_fuel
  compare (suc fuel) h v w = do
    t0 ← tag v
    t1 ← tag w
    elim (by_less ltb t0 t1) [
      | lt ↦ ok lt
      | gt ↦ ok gt
      | eq ↦ compare_same_tag (compare fuel h) h v w
    ]

  -- `EqualVMObjectPtr`
  unfoldable pub equals : ℕ → Heap → Value → Value → Outcome Bool
  equals fuel h v w = do
    c ← compare fuel h v w
    elim c [ lt ↦ ok false | eq ↦ ok true | gt ↦ ok false ]

  -- `LessVMObjectPtr`, the order of the maps that have objects for keys.
  unfoldable pub less : ℕ → Heap → Value → Value → Outcome Bool
  less fuel h v w = compare fuel h v w >>= λ c. ok (is_lt c)
