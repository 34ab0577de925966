-- ===== src/Semantical/Fresh.antt =====
-- The declarations of a module in the global scope, by `declare` of src/semantical.hpp: when they
-- succeed, and what is then visible.
use egel.Prelude.{
  Bool-cases, Option-cases, List, [], ◌∷◌, ◌++◌, ◌≡◌, refl, ap, ◌⊎◌, inl, inr, none, some,
}
use egel.Prelude.Text.{Text, text_eq, text_eq_iff, text_eq_refl, find}
use egel.Syntax.{Ast}
use egel.Environment.{Frame, Scope, get, declare_global}
use egel.Environment
use egel.Semantical.{Visited, ok, redeclaration, declare, caught}
use egel.Semantical.Declared.{Declaration, declared, declare_one, declare_list, declare-list}

-- The names of a frame behind the declarations.
unfoldable pub extend : List Declaration → List (Text × Text) → List (Text × Text)
extend [] m = m
extend (d ∷ ds) m = extend ds ((d.name, d.name) ∷ m)

-- No name of the list is bound where it is declared.
unfoldable pub AreFresh : List Declaration → List (Text × Text) → Type 0
AreFresh [] m = Unit
AreFresh (d ∷ ds) m = (find d.name m ≡ none) × AreFresh ds ((d.name, d.name) ∷ m)

-- Every name of the list is visible, and stands for itself.
unfoldable pub AreVisible : List Declaration → Scope → Type 0
AreVisible [] s = Unit
AreVisible (d ∷ ds) s = (get d.name s ≡ d.name) × AreVisible ds s

-- All is declared, or the first name that is bound already is the error.
unfoldable pub Declares : List Declaration → Frame → Visited Scope → Type 0
Declares ds f r =
    (AreFresh ds f.names
      × (r ≡ ok (record f { names = extend ds f.names } ∷ []))
      × AreVisible ds (record f { names = extend ds f.names } ∷ []))
    ⊎ ((before : List Declaration) × (d : Declaration) × (after : List Declaration) × (v : Text)
        × (ds ≡ before ++ (d ∷ after))
        × AreFresh before f.names
        × (find d.name (extend before f.names) ≡ some v)
        × (r ≡ redeclaration d.at d.short))

find_same : (k n : Text) (m : List (Text × Text)) → find k m ≡ some k → find k ((n, n) ∷ m) ≡ some k
unfolding find
find_same k n m h = elim (Bool-cases (text_eq n k)) [
  | inl e ↦ rw (e, (text_eq_iff n k).0 e) refl
  | inr e ↦ rw (e, h) refl
]

find-extend :
    (k : Text) (ds : List Declaration) (m : List (Text × Text))
    → find k m ≡ some k
    → find k (extend ds m) ≡ some k
unfolding extend
find-extend k [] m h = h
find-extend k (d ∷ ds) m h = find-extend k ds _ (find_same k d.name m h)

get-extend :
    (d : Declaration) (ds : List Declaration) (f : Frame)
    → get d.name (record f { names = extend (d ∷ ds) f.names } ∷ []) ≡ d.name
unfolding find get extend
get-extend d ds f = rw (find-extend d.name ds _ (found d.name f.names), get, extend) refl
  where
    found : (k : Text) (m : List (Text × Text)) → find k ((k, k) ∷ m) ≡ some k
    found k m = rw (text_eq_refl k, find) refl

declare_one-fresh :
    (d : Declaration) (f : Frame)
    → find d.name f.names ≡ none
    → declare_one d (f ∷ []) ≡ ok (record f { names = (d.name, d.name) ∷ f.names } ∷ [])
unfolding declare_one caught declare_global Environment.declare
declare_one-fresh d f h = rw (h, declare_one, declare_global, Environment.declare, caught) refl

declare_one-bound :
    (d : Declaration) (f : Frame) (v : Text)
    → find d.name f.names ≡ some v
    → declare_one d (f ∷ []) ≡ redeclaration d.at d.short
unfolding declare_one caught declare_global Environment.declare
declare_one-bound d f v h = rw (h, declare_one, declare_global, Environment.declare, caught) refl

cons-Declares :
    (d : Declaration) (ds : List Declaration) (f : Frame) (r : Visited Scope)
    → find d.name f.names ≡ none
    → Declares ds (record f { names = (d.name, d.name) ∷ f.names }) r
    → Declares (d ∷ ds) f r
unfolding Declares AreFresh AreVisible extend
cons-Declares d ds f r e (inl (fresh, h, seen)) = inl ((e, fresh), h, (get-extend d ds f, seen))
cons-Declares d ds f r e (inr (before, b, after, v, h, fresh, bound, k)) =
    inr (d ∷ before, b, after, v, ap (λ (l : List Declaration). d ∷ l) h, (e, fresh), bound, k)

declare_list-Declares :
    (ds : List Declaration) (f : Frame) → Declares ds f (declare_list ds (f ∷ []))
unfolding Declares declare_list AreFresh AreVisible extend
declare_list-Declares [] f = inl (tt, refl, tt)
declare_list-Declares (d ∷ ds) f = elim (Option-cases (find d.name f.names)) [
  | inl e ↦ rw (declare_one-fresh d f e) (cons-Declares d ds f _ e (declare_list-Declares ds _))
  | inr (v, e) ↦ inr ([], d, ds, v, refl, tt, e, rw (declare_one-bound d f v e) refl)
]

-- In the global scope, a module either declares all that it defines, where no qualified name is bound
-- when its turn comes, and each of them is then visible and stands for itself; or it fails at the
-- first definition whose qualified name is bound, with the position and short name of that.
pub declare_lem : (f : Frame) (a : Ast) → Declares (declared [] a) f (declare (f ∷ []) a)
declare_lem f a = rw (declare-list (f ∷ []) a) (declare_list-Declares (declared [] a) f)
