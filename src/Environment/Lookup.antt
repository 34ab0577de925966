-- ===== src/Environment/Lookup.antt =====
-- Lookup after the declarations and the redeclarations of src/environment.hpp.
use egel.Prelude.{true, false, List, [], ◌∷◌, none, some, ◌⊎◌, inl, inr, ◌≡◌, refl}
use egel.Prelude.{if◌then◌else◌, Bool-cases, Option-cases}
use egel.Prelude.Text.{Text, text_eq, text_eq_iff, text_eq_refl, find}
use egel.Environment.{Frame, Scope, ok, redeclaration, ◌>>=◌, get, declare}
use egel.Environment.{redeclare, assign, enter_scope, leave_scope}

pub get-bind :
    (k v j : Text) (f : Frame) (s : Scope)
    → get j (record f { names = (k, v) ∷ f.names } ∷ s) ≡ (if text_eq k j then v else get j (f ∷ s))
unfolding get find
get-bind k v j f s = elim (Bool-cases (text_eq k j)) [
  | inl e ↦ rw (e, get, find)
  | inr e ↦ rw (e, get, find)
]

pub declare_fresh :
    (k v : Text) (f : Frame) (s : Scope)
    → find k f.names ≡ none
    → declare k v (f ∷ s) ≡ ok (record f { names = (k, v) ∷ f.names } ∷ s)
unfolding declare
declare_fresh k v f s e = rw (e, declare)

-- A declaration in a scope succeeds exactly if the innermost frame does not have the name; the
-- name then has its value, and every other name the one it had. Otherwise it is an error with the
-- name.
pub get-declare :
    (k v : Text) (f : Frame) (s : Scope)
    → ((find k f.names ≡ none)
        × (t : Scope) × (declare k v (f ∷ s) ≡ ok t)
        × ((j : Text) → get j t ≡ (if text_eq k j then v else get j (f ∷ s))))
      ⊎ ((w : Text) × (find k f.names ≡ some w) × (declare k v (f ∷ s) ≡ redeclaration k))
unfolding declare
get-declare k v f s = elim (Option-cases (find k f.names)) [
  | inl e ↦ inl (
    e,
    record f { names = (k, v) ∷ f.names } ∷ s,
    declare_fresh k v f s e,
    λ j. get-bind k v j f s,
  )
  | inr (w, e) ↦ inr (w, e, rw (e, declare))
]

different : (i j k : Text) → text_eq i j ≡ true → text_eq i k ≡ false → text_eq k j ≡ false
different i j k e h = elim (Bool-cases (text_eq k j)) [
  | inl q ↦
      let p = (text_eq_iff i j).0 e in let r = (text_eq_iff k j).0 q in let u = text_eq_refl j in cc
  | inr q ↦ q
]

find-assign :
    (k v j : Text) (m : List (Text × Text))
    → find j (assign k v m) ≡ (if text_eq k j then some v else find j m)
unfolding find assign
find-assign k v j [] = refl
find-assign k v j ((i, w) ∷ m) = elim (Bool-cases (text_eq i k)) [
  | inl e ↦
      let p = (text_eq_iff i k).0 e in
      rw (e, p) (elim (Bool-cases (text_eq k j)) [ inl h ↦ rw h | inr h ↦ rw h ])
  | inr e ↦ elim (Bool-cases (text_eq i j)) [
    | inl h ↦ rw (e, h, different i j k h e)
    | inr h ↦ rw (e, h) (find-assign k v j m)
  ]
]

-- A redeclaration always succeeds: the name then has the new value, whether it was declared or
-- not, and every other name the one it had.
pub get-redeclare :
    (k v j : Text) (f : Frame) (s : Scope)
    → (t : Scope) × (redeclare k v (f ∷ s) ≡ ok t)
      × (get j t ≡ (if text_eq k j then v else get j (f ∷ s)))
unfolding redeclare get
get-redeclare k v j f s = (
  record f { names = assign k v f.names } ∷ s,
  refl,
  rw (find-assign k v j f.names, get)
      (elim (Bool-cases (text_eq k j)) [ inl h ↦ rw h | inr h ↦ rw (h, get) ]),
)

-- What is declared in a scope that was entered is gone when it is left.
pub leave_scope-declare :
    (k v : Text) (f : Frame) (s : Scope)
    → (enter_scope (f ∷ s) >>= declare k v >>= leave_scope) ≡ ok (f ∷ s)
unfolding enter_scope declare leave_scope find
leave_scope-declare k v f s = refl
