-- ===== src/Machine/DataTable/Intern.antt =====
-- The data table interns: an object keeps its number, and one number stands for one class of
-- objects that the map does not tell apart.
use egel.Prelude.{
  ℕ, suc, ◌%◌, ◌+◌, ◌^◌, ◌<◌, ◌≤◌, ◌≡◌, refl, sym, ap, ◌∙◌, arith, Bool, true, false,
}
use egel.Prelude.{List, [], ◌∷◌, ◌↔◌, none, some, length, get_elem?, inl, inr}
use egel.Prelude.{Bool-cases, Option-cases, length-append}
use egel.Prelude.{get_elem?-append, get_elem?-append_left, get_elem?-concat}
use egel.Machine.DataTable.{DataTable, same, append, find, enter, get_object}
use egel.Machine.DataTable.Order.{IsWeakOrder, same_symm, same_cong}

module _ {A : Type 0} {less : A → A → Bool} (w : IsWeakOrder less) where
  -- The two halves of the table agree.
  pub record IsValid (t : DataTable A) : Type 0 where
    pub sound :
        (a : A) (n : ℕ)
        → find less a t.from ≡ some n
        → (b : A) × (get_elem? t.to n ≡ some b) × (same less a b ≡ true)
    pub complete : (n : ℕ) (b : A) → get_elem? t.to n ≡ some b → find less b t.from ≡ some n

  pub find-same :
      (a b : A) (m : List (A × ℕ)) → same less a b ≡ true → find less a m ≡ find less b m
  unfolding find
  find-same a b [] h = refl
  find-same a b ((c, n) ∷ m) h = rw (same_cong w a b c h, find-same a b m h)

  append_sound :
      (t : DataTable A) (s : A)
      → length t.to < 2 ^ 32
      → IsValid t
      → (a : A) (k : ℕ) → find less a (append less t s).0.from ≡ some k
      → (b : A) × (get_elem? (append less t s).0.to k ≡ some b) × (same less a b ≡ true)
  unfolding find
  append_sound t s fits v a k e = elim (Bool-cases (same less a s)) [
    | inl eq ↦
        let at : some (length t.to % 2 ^ 32) ≡ some k = rw eq at e in
        let here : length t.to % 2 ^ 32 ≡ k = cc in
        (s, get_elem?-append t.to (s ∷ []) k 0 (omega arith), eq)
    | inr ne ↦
        let old : find less a t.from ≡ some k = rw ne at e in
        let (b, at, eq) = v.sound a k old in (b, get_elem?-append_left t.to (s ∷ []) k at, eq)
  ]

  find_ne :
      (b s : A) (m : List (A × ℕ)) {k : ℕ}
      → find less b m ≡ some k
      → find less s m ≡ none
      → same less b s ≡ false
  find_ne b s m f g = elim (Bool-cases (same less b s)) [
    | inl eq ↦ cc (find-same b s m eq)
    | inr ne ↦ ne
  ]

  append_complete :
      (t : DataTable A) (s : A)
      → length t.to < 2 ^ 32
      → find less s t.from ≡ none
      → IsValid t
      → (k : ℕ) (b : A) → get_elem? (append less t s).0.to k ≡ some b
      → find less b (append less t s).0.from ≡ some k
  append_complete t s fits new v k b e = elim (get_elem?-concat t.to s k e) [
    | inl old ↦
        let found = v.complete k b old in unfold find in rw (find_ne b s t.from found new) found
    | inr (at, eq) ↦
        let wrapped : length t.to % 2 ^ 32 ≡ k = omega arith in
        unfold find in rw (← eq, w.same_refl s, wrapped)
  ]

  pub append-IsValid :
      (t : DataTable A) (s : A)
      → length t.to < 2 ^ 32
      → find less s t.from ≡ none
      → IsValid t
      → IsValid (append less t s).0
  append-IsValid t s fits new v = record {
    sound = append_sound t s fits v;
    complete = append_complete t s fits new v;
  }

  -- Entering an object keeps the table valid, while its numbers fit 32 bits.
  pub enter-IsValid :
      (t : DataTable A) (s : A) → length t.to < 2 ^ 32 → IsValid t → IsValid (enter less t s).0
  unfolding enter
  enter-IsValid t s fits v = elim (Option-cases (find less s t.from)) [
    | inl new ↦ rw (new, enter) (append-IsValid t s fits new v)
    | inr (n, old) ↦ rw (old, enter) v
  ]

  -- In a valid table, whose numbers fit 32 bits, an entered object's number reads back an object
  -- that the map does not tell apart from it.
  pub enter-get_object :
      (t : DataTable A) (s : A)
      → length t.to < 2 ^ 32
      → IsValid t
      → (b : A) × (get_object (enter less t s).0 (enter less t s).1 ≡ some b)
        × (same less s b ≡ true)
  enter-get_object t s fits v = elim (Option-cases (find less s t.from)) [
    | inl new ↦
        let at : length t.to % 2 ^ 32 ≡ length t.to + 0 = omega arith in
        unfold enter in rw (new, enter) (s, get_elem?-append t.to (s ∷ []) _ 0 at, w.same_refl s)
    | inr (n, old) ↦ unfold enter in rw (old, enter) (v.sound s n old)
  ]

  -- Entering an object moves no other: every number in use still reads the same object.
  pub get_object-enter :
      (t : DataTable A) (s : A) (n : ℕ) (b : A)
      → get_object t n ≡ some b
      → get_object (enter less t s).0 n ≡ some b
  get_object-enter t s n b h = elim (Option-cases (find less s t.from)) [
    | inl new ↦ unfold enter in rw (new, enter) (get_elem?-append_left t.to (s ∷ []) n h)
    | inr (k, old) ↦ unfold enter in rw (old, enter) h
  ]

  find-enter :
      (t : DataTable A) (a : A) → find less a (enter less t a).0.from ≡ some (enter less t a).1
  find-enter t a = elim (Option-cases (find less a t.from)) [
    | inl new ↦ unfold enter in rw (new, enter) (unfold find in rw (w.same_refl a))
    | inr (k, old) ↦ unfold enter in rw (old, enter) old
  ]

  enter_found :
      (t : DataTable A) (b : A) {n : ℕ} → find less b t.from ≡ some n → enter less t b ≡ (t, n)
  enter_found t b h = unfold enter in rw (h, enter)

  length-enter : (t : DataTable A) (a : A) → length (enter less t a).0.to ≤ suc (length t.to)
  length-enter t a = elim (Option-cases (find less a t.from)) [
    | inl new ↦ unfold enter in rw (new, enter) (omega (arith, length-append t.to (a ∷ [])))
    | inr (k, old) ↦ unfold enter in rw (old, enter) (omega arith)
  ]

  same_of_number :
      (t : DataTable A) (a b : A)
      → suc (length t.to) < 2 ^ 32
      → IsValid t
      → (enter less t a).1 ≡ (enter less (enter less t a).0 b).1
      → same less a b ≡ true
  same_of_number t a b fits v e =
      let t' = (enter less t a).0 in
      let (c, at, ac) = enter-get_object t a (omega arith) v in
      let valid = enter-IsValid t a (omega arith) v in
      let (d, at', bd) = enter-get_object t' b (omega (arith, length-enter t a)) valid in
      let kept = get_object-enter t' b (enter less t a).1 c at in
      let kept' : get_object (enter less t' b).0 (enter less t' b).1 ≡ some c = rw (← e) kept in
      let cd : d ≡ c = cc in w.same_trans a c b ac (same_symm less b c (rw (← cd) bd))

  -- Two objects that are entered one after the other get the same number exactly when the map
  -- does not tell them apart, for a valid table whose numbers fit 32 bits.
  pub enter-same_iff :
      (t : DataTable A) (a b : A)
      → suc (length t.to) < 2 ^ 32
      → IsValid t
      → ((enter less t a).1 ≡ (enter less (enter less t a).0 b).1) ↔ (same less a b ≡ true)
  enter-same_iff t a b fits v = (
    same_of_number t a b fits v,
    λ h.
        let found = find-same b a (enter less t a).0.from (same_symm less a b h) ∙ find-enter t a in
        sym (ap (λ (r : DataTable A × ℕ). r.1) (enter_found (enter less t a).0 b found)),
  )
