-- ===== src/Machine/DataTable/Constants.antt =====
-- The data table of src/machine.hpp at the constants of code, in the order of LessVMObjectPtr of
-- src/runtime.hpp: integers, characters, texts and combinators. Doubles are left out, since NaN is
-- not told apart from any double.
use egel.Prelude.{ℕ, suc, ◌<◌, ◌^◌, ◌≡◌, ◌≢◌, ◌↔◌, refl, ap, ◌∙◌, arith}
use egel.Prelude.{Bool, true, false, not, ◌&&◌, List, [], ◌∷◌, some, none, length, set, ltb}
use egel.Prelude.{Bool-cases, inl, inr, if◌then◌else◌}
use egel.Prelude.Int.{ℤ, ltb_ℤ}
use egel.Prelude.Outcome.{Outcome, ok, out_of_range}
use egel.Machine.Object.{
  Value, Heap, Primitives, tag, compare, compare_same_tag, text_less, by_less, is_lt, less,
}
use egel.Machine.DataTable.{DataTable, same, find, enter, define, get_data, get_object}
use egel.Machine.DataTable.Order.{IsWeakOrder}
use egel.Machine.DataTable.Intern.{IsValid, enter-same_iff, enter-get_object}
use egel.Machine.DataTable.Define.{define_lem, define-get_data_missing}

-- A combinator has a symbol and an identity, which the comparison does not look at.
pub data Constant : Type 0 where
  integer : ℤ → Constant
  char : ℕ → Constant
  text : List ℕ → Constant
  combinator : ℕ → ℕ → Constant

-- What the comparison sees of a constant.
unfoldable pub value : Constant → Value
value (integer i) = Value.integer i
value (char c) = Value.char c
value (text t) = Value.text t
value (combinator s k) = Value.combinator s

abbrev pub holds : Outcome Bool → Bool
holds (ok b) = b
holds _ = false

text_less_irrefl : (t : List ℕ) → text_less t t ≡ false
unfolding text_less
text_less_irrefl [] = refl
text_less_irrefl (x ∷ t) = ground (arith, text_less_irrefl t)

text_less_connex : (t u : List ℕ) → text_less t u ≡ false → text_less u t ≡ false → t ≡ u
unfolding text_less
text_less_connex [] [] h k = refl
text_less_connex [] (y ∷ u) h k = absurd cc
text_less_connex (x ∷ t) [] h k = absurd cc
text_less_connex (x ∷ t) (y ∷ u) h k = elim (Bool-cases (ltb x y)) [
  | inl e ↦ let g : true ≡ false = rw e at h in absurd cc
  | inr e ↦ elim (Bool-cases (ltb y x)) [
    | inl d ↦ let g : true ≡ false = rw d at k in absurd cc
    | inr d ↦
        let xy : x ≡ y = ground arith in
        let below : text_less t u ≡ false = rw (e, d) at h in
        let above : text_less u t ≡ false = rw (d, e) at k in
        rw (xy, text_less_connex t u below above) refl
  ]
]

is_lt-by_less : {A : Type 0} (f : A → A → Bool) (a b : A) → is_lt (by_less f a b) ≡ f a b
is_lt-by_less f a b = elim (Bool-cases (f a b)) [
  | inl e ↦ rw e refl
  | inr e ↦ elim (Bool-cases (f b a)) [ inl d ↦ rw (e, d) refl | inr d ↦ rw (e, d) refl ]
]

-- Two keys of one kind are not told apart.
abbrev level : {A : Type 0} → (A → A → Bool) → A → A → Bool
level f a b = same (λ c d. is_lt (by_less f c d)) a b

level_connex :
    {A : Type 0} (f : A → A → Bool) (a b : A)
    → (f a b ≡ false → f b a ≡ false → a ≡ b)
    → level f a b ≡ true
    → a ≡ b
level_connex f a b c h =
    let g : (not (f a b) && not (f b a)) ≡ true =
      rw (is_lt-by_less f a b, is_lt-by_less f b a) at h in
    c (ground arith) (ground arith)

level_irrefl : {A : Type 0} (f : A → A → Bool) (a : A) → f a a ≡ false → level f a a ≡ true
level_irrefl f a h = rw (is_lt-by_less f a a, h) refl

ltb_ℤ_connex : (i j : ℤ) → ltb_ℤ i j ≡ false → ltb_ℤ j i ≡ false → i ≡ j
ltb_ℤ_connex i j h k = ground arith

ltb_connex : (i j : ℕ) → ltb i j ≡ false → ltb j i ≡ false → i ≡ j
ltb_connex i j h k = ground arith

module _ (prims : Primitives) (h : Heap) where
  abbrev less_value : Value → Value → Bool
  less_value v w = holds (less prims 1 h v w)

  unfoldable pub less_constant : Constant → Constant → Bool
  unfolding less compare compare_same_tag tag text_less value
  less_constant a b = less_value (value a) (value b)

  -- The comparison of two constants has a result.
  less-ok : (a b : Constant) → less prims 1 h (value a) (value b) ≡ ok (less_constant a b)
  unfolding less_constant
  less-ok (integer i) (integer i') = refl
  less-ok (integer i) (char c') = refl
  less-ok (integer i) (text s') = refl
  less-ok (integer i) (combinator n' k') = refl
  less-ok (char c) (integer i') = refl
  less-ok (char c) (char c') = refl
  less-ok (char c) (text s') = refl
  less-ok (char c) (combinator n' k') = refl
  less-ok (text s) (integer i') = refl
  less-ok (text s) (char c') = refl
  less-ok (text s) (text s') = refl
  less-ok (text s) (combinator n' k') = refl
  less-ok (combinator n k) (integer i') = refl
  less-ok (combinator n k) (char c') = refl
  less-ok (combinator n k) (text s') = refl
  less-ok (combinator n k) (combinator n' k') = refl

  same→value : (a b : Constant) → same less_constant a b ≡ true → value a ≡ value b
  unfolding less_constant
  same→value (integer i) (integer i') h =
      ap Value.integer (level_connex ltb_ℤ i i' (ltb_ℤ_connex i i') h)
  same→value (integer i) (char c') h = absurd cc
  same→value (integer i) (text s') h = absurd cc
  same→value (integer i) (combinator n' k') h = absurd cc
  same→value (char c) (integer i') h = absurd cc
  same→value (char c) (char c') h = ap Value.char (level_connex ltb c c' (ltb_connex c c') h)
  same→value (char c) (text s') h = absurd cc
  same→value (char c) (combinator n' k') h = absurd cc
  same→value (text s) (integer i') h = absurd cc
  same→value (text s) (char c') h = absurd cc
  same→value (text s) (text s') h =
      ap Value.text (level_connex text_less s s' (text_less_connex s s') h)
  same→value (text s) (combinator n' k') h = absurd cc
  same→value (combinator n k) (integer i') h = absurd cc
  same→value (combinator n k) (char c') h = absurd cc
  same→value (combinator n k) (text s') h = absurd cc
  same→value (combinator n k) (combinator n' k') h =
      ap Value.combinator (level_connex ltb n n' (ltb_connex n n') h)

  same_self : (a : Constant) → not (less_value (value a) (value a)) ≡ true
  unfolding less_constant
  same_self (integer i) = rw (is_lt-by_less ltb_ℤ i i) (ground arith)
  same_self (char c) = rw (is_lt-by_less ltb c c) (ground arith)
  same_self (text s) = rw (is_lt-by_less text_less s s, text_less_irrefl s) refl
  same_self (combinator n k) = rw (is_lt-by_less ltb n n) (ground arith)

  -- The map does not tell two constants apart exactly if the comparison sees the same value.
  pub same_iff : (a b : Constant) → (same less_constant a b ≡ true) ↔ (value a ≡ value b)
  same_iff a b =
      (same→value a b, λ e. unfold less_constant in rw e (let p = same_self b in ground (arith, p)))

  pub order : IsWeakOrder less_constant
  order = record {
    same_refl = λ a. (same_iff a a).1 refl;
    same_trans = λ a b c h k. (same_iff a c).1 ((same_iff a b).0 h ∙ (same_iff b c).0 k);
  }

  -- Two constants that are entered one after the other into a valid table, whose numbers fit 32
  -- bits, get the same number exactly if the comparison sees the same value: equal integers,
  -- characters or texts, or combinators with one symbol.
  pub enter-value_iff :
      (t : DataTable Constant) (a b : Constant)
      → suc (length t.to) < 2 ^ 32
      → IsValid order t
      → ((enter less_constant t a).1 ≡ (enter less_constant (enter less_constant t a).0 b).1)
        ↔ (value a ≡ value b)
  enter-value_iff t a b fits v =
      let (to, from) = enter-same_iff order t a b fits v in
      (λ e. (same_iff a b).0 (to e), λ e. from ((same_iff a b).1 e))

  -- In a valid table, whose numbers fit 32 bits, the number of an entered constant reads back a
  -- constant in which the comparison sees the same value.
  pub enter-value :
      (t : DataTable Constant) (s : Constant)
      → length t.to < 2 ^ 32
      → IsValid order t
      → (b : Constant) × (get_object (enter less_constant t s).0 (enter less_constant t s).1
          ≡ some b)
        × (value s ≡ value b)
  enter-value t s fits v =
      let (b, at, e) = enter-get_object order t s fits v in (b, at, (same_iff s b).0 e)

  -- To define a constant in a valid table, whose numbers fit 32 bits, has a result: the table is
  -- valid again, the number reads back the constant itself, and every other number reads what it
  -- did.
  pub define-value :
      (t : DataTable Constant) (s : Constant)
      → length t.to < 2 ^ 32
      → IsValid order t
      → (r : DataTable Constant × ℕ) × (define less_constant t s ≡ ok r)
        × IsValid order r.0
        × (get_object r.0 r.1 ≡ some s)
        × ((k : ℕ) (b : Constant) → k ≢ r.1 → get_object t k ≡ some b → get_object r.0 k ≡ some b)
  define-value = define_lem order

  -- Asking a table for the number of a constant that is not in it answers 0 and breaks it: to define
  -- the constant then overwrites slot 0 and adds no slot, or writes past the end of an empty vector.
  pub define-get_data :
      (t : DataTable Constant) (s : Constant)
      → find less_constant s t.from ≡ none
      → ((get_data less_constant t s).1 ≡ 0)
        × (define less_constant (get_data less_constant t s).0 s ≡ (
            if ltb 0 (length t.to)
            then ok (record { to = set t.to 0 s; from = (s, 0) ∷ t.from }, 0)
            else out_of_range))
  define-get_data = define-get_data_missing order
