-- ===== src/Machine/DataTable/Define.antt =====
-- `define` of src/machine.hpp, and what `get` of a missing object does to the table.
use egel.Prelude.{
  ℕ, ◌%◌, ◌+◌, ◌^◌, ◌<◌, ◌≡◌, ◌≢◌, refl, sym, ap, ◌∙◌, arith, Bool, true, [], ◌∷◌, none, some, inl,
  inr, length, get_elem?, set, ltb, lt→ltb, if◌then◌else◌,
}
use egel.Prelude.{Option-cases, ℕ_discrete, get_elem?_lt}
use egel.Prelude.{get_elem?-append, get_elem?-append_left, get_elem?-set_self, get_elem?-set_ne}
use egel.Prelude.Outcome.{ok, out_of_range}
use egel.Machine.DataTable.{DataTable, same, append, find, enter, define, get_data, get_object}
use egel.Machine.DataTable.Order.{IsWeakOrder, same_symm}
use egel.Machine.DataTable.Intern.{IsValid, append-IsValid}

module _ {A : Type 0} {less : A → A → Bool} (w : IsWeakOrder less) where
  replace_sound :
      (t : DataTable A) (s : A) (n : ℕ)
      → find less s t.from ≡ some n
      → IsValid w t
      → (a : A) (k : ℕ) → find less a t.from ≡ some k
      → (b : A) × (get_elem? (set t.to n s) k ≡ some b) × (same less a b ≡ true)
  replace_sound t s n old v a k e = elim (ℕ_discrete n k) [
    | yes eq ↦
        let (b, at, ab) = v.sound a k e in
        let (c, at', sc) = v.sound s n old in
        let bc : b ≡ c = cc in
        (
          s,
          rw (← eq) (get_elem?-set_self t.to n s (get_elem?_lt t.to n at')),
          w.same_trans a b s ab (rw bc (same_symm less s c sc)),
        )
    | no ne ↦ let (b, at, ab) = v.sound a k e in (b, get_elem?-set_ne t.to n k s ne ∙ at, ab)
  ]

  replace_complete :
      (t : DataTable A) (s : A) (n : ℕ)
      → find less s t.from ≡ some n
      → IsValid w t
      → (k : ℕ) (b : A) → get_elem? (set t.to n s) k ≡ some b
      → find less b t.from ≡ some k
  replace_complete t s n old v k b e = elim (ℕ_discrete n k) [
    | yes eq ↦
        let (c, at, sc) = v.sound s n old in
        let self = get_elem?-set_self t.to n s (get_elem?_lt t.to n at) in
        let here : s ≡ b = cc in rw (← here, ← eq) old
    | no ne ↦ v.complete k b (sym (get_elem?-set_ne t.to n k s ne) ∙ e)
  ]

  -- To define an object of a valid table has a result: the table is valid again, the number reads
  -- back the object itself, and every other number reads what it did.
  pub define_lem :
      (t : DataTable A) (s : A)
      → length t.to < 2 ^ 32
      → IsValid w t
      → (r : DataTable A × ℕ) × (define less t s ≡ ok r)
        × IsValid w r.0
        × (get_object r.0 r.1 ≡ some s)
        × ((k : ℕ) (b : A) → k ≢ r.1 → get_object t k ≡ some b → get_object r.0 k ≡ some b)
  define_lem t s fits v = elim (Option-cases (find less s t.from)) [
    | inl new ↦
        let at : length t.to % 2 ^ 32 ≡ length t.to + 0 = omega arith in
        (
          append less t s,
          unfold define in rw (new, define) (ap ok (unfold enter in rw (new, enter) refl)),
          append-IsValid w t s fits new v,
          get_elem?-append t.to (s ∷ []) _ 0 at,
          λ k b _ h. get_elem?-append_left t.to (s ∷ []) k h,
        )
    | inr (n, old) ↦
        let (c, at, _) = v.sound s n old in
        let room = get_elem?_lt t.to n at in
        (
          (record t { to = set t.to n s }, n),
          unfold define in rw (old, define) (rw (lt→ltb n (length t.to) room) refl),
          record { sound = replace_sound t s n old v; complete = replace_complete t s n old v },
          get_elem?-set_self t.to n s room,
          λ k b ne h. get_elem?-set_ne t.to n k s (λ e. ne (sym e)) ∙ h,
        )
  ]

  get_data_missing :
      (t : DataTable A) (s : A)
      → find less s t.from ≡ none
      → get_data less t s ≡ (record t { from = (s, 0) ∷ t.from }, 0)
  get_data_missing t s new = unfold get_data in rw (new, get_data)

  -- Asking a table for the number of an object that is not in it answers 0 and breaks it: the next
  -- definition of that object overwrites slot 0 and grows nothing, or writes past the end of an
  -- empty vector.
  pub define-get_data_missing :
      (t : DataTable A) (s : A)
      → find less s t.from ≡ none
      → ((get_data less t s).1 ≡ 0)
        × (define less (get_data less t s).0 s ≡ (
            if ltb 0 (length t.to)
            then ok (record { to = set t.to 0 s; from = (s, 0) ∷ t.from }, 0)
            else out_of_range))
  define-get_data_missing t s new =
      rw (get_data_missing t s new) (refl, unfold define find in rw (w.same_refl s, define) refl)
