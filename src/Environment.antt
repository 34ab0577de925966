-- ===== src/Environment.antt =====
-- The scopes of src/environment.hpp. A scope that was entered points to the one around it, which
-- lives on and is seen through it; a chain of scopes is the list of its frames, innermost first. A text
-- is a list of code points; where the code counts UTF-16 code units, the model counts them too.
pub mod Lookup
pub mod Namespaces
use egel.Prelude.{ℕ, zero, suc, ◌+◌, Bool, true, false, ◌&&◌, List, [], ◌∷◌, ◌++◌, map}
use egel.Prelude.{Option, none, some, length, ◌==◌, if◌then◌else◌}
use egel.Prelude.Text.{Text, text_eq, find}
use egel.Prelude.Units.{units, drop_units}
use egel.Machine.Object.{text_less}

-- One `Scope` without its outer one.
pub record Frame : Type 0 where
  pub names : List (Text × Text)
  pub namespace : Text

abbrev pub Scope : Type 0
Scope = List Frame

-- A result, the `ErrorSemantical` on a redeclaration with its name, or a call through a null
-- pointer.
pub data Result {ℓ} (A : Type ℓ) : Type ℓ where
  ok : A → Result A
  redeclaration : Text → Result A
  null_pointer : Result A

infixl 5 ◌>>=◌
abbrev pub ◌>>=◌ {ℓ κ} : {A : Type ℓ} {B : Type κ} → Result A → (A → Result B) → Result B
ok a >>= f = f a
redeclaration k >>= f = redeclaration k
null_pointer >>= f = null_pointer

unfoldable pub scope_global : Scope
scope_global = record { names = []; namespace = [] } ∷ []

-- `Scope(scope)`: no names, and the namespace of the outer scope.
unfoldable pub enter_scope : Scope → Result Scope
enter_scope [] = null_pointer
enter_scope (f ∷ s) = ok (record { names = []; namespace = f.namespace } ∷ f ∷ s)

-- `outer()`; the outer scope of the global one is a null pointer.
unfoldable pub leave_scope : Scope → Result Scope
leave_scope [] = null_pointer
leave_scope (f ∷ s) = ok s

abbrev pub dcolon : Text
dcolon = b':' ∷ b':' ∷ []

unfoldable pub extended : Text → Text → Text
extended [] s = s
extended (c ∷ n) s = (c ∷ n) ++ (dcolon ++ s)

unfoldable pub extend_namespace : Text → Scope → Result Scope
unfolding extended
extend_namespace n [] = null_pointer
extend_namespace n (f ∷ s) = ok (record f { namespace = extended f.namespace n } ∷ s)

unfoldable pub declare : Text → Text → Scope → Result Scope
declare k v [] = null_pointer
declare k v (f ∷ s) = elim (find k f.names) [
  | some w ↦ redeclaration k
  | none ↦ ok (record f { names = (k, v) ∷ f.names } ∷ s)
]

-- The assignment to a key of a map, which keeps one entry of the key.
unfoldable pub assign : Text → Text → List (Text × Text) → List (Text × Text)
assign k v [] = (k, v) ∷ []
assign k v ((j, w) ∷ m) =
    let rest = assign k v m in if text_eq j k then (k, v) ∷ m else (j, w) ∷ rest

unfoldable pub redeclare : Text → Text → Scope → Result Scope
unfolding assign
redeclare k v [] = null_pointer
redeclare k v (f ∷ s) = ok (record f { names = assign k v f.names } ∷ s)

-- The innermost declaration; the empty text for a name that is not declared.
unfoldable pub get : Text → Scope → Text
get k [] = []
get k (f ∷ s) = let outer = get k s in elim (find k f.names) [ some v ↦ v | none ↦ outer ]

-- The outermost frame, and what is around it: nothing.
unfoldable pub get_global_scope : Scope → Scope
get_global_scope [] = []
get_global_scope (f ∷ []) = f ∷ []
get_global_scope (f ∷ g ∷ s) = get_global_scope (g ∷ s)

unfoldable pub get_global : Text → Scope → Text
unfolding get_global_scope get
get_global k s = get k (get_global_scope s)

unfoldable pub declare_local : Text → Scope → Result Scope
declare_local k = declare k k

-- The global scope is shared by all that lie in it: its frame is replaced.
unfoldable pub declare_global : Text → Scope → Result Scope
declare_global k [] = null_pointer
declare_global k (f ∷ []) = declare k k (f ∷ [])
declare_global k (f ∷ g ∷ s) = let rest = declare_global k (g ∷ s) in rest >>= λ r. ok (f ∷ r)

-- `startsWith`
unfoldable pub starts_with : Text → Text → Bool
starts_with [] t = true
starts_with (c ∷ p) [] = false
starts_with (c ∷ p) (d ∷ t) = c == d && starts_with p t

-- A `std::map` is iterated in the order of its keys, which compares code units.
unfoldable pub insert_key : Text → List Text → List Text
unfolding text_less units
insert_key k [] = k ∷ []
insert_key k (j ∷ kk) =
    let rest = insert_key k kk in if text_less (units j) (units k) then j ∷ rest else k ∷ j ∷ kk

-- The keys of a map that begin with a text, in their order. A map has each key once.
unfoldable pub keys_with : Text → List (Text × Text) → List Text
unfolding starts_with insert_key
keys_with ns [] = []
keys_with ns ((k, v) ∷ m) =
    let rest = keys_with ns m in if starts_with ns k then insert_key k rest else rest

unfoldable pub get_namespace : Text → Scope → List Text
unfolding keys_with get_global_scope
get_namespace ns s = elim (get_global_scope s) [ [] ↦ [] | f ∷ r ↦ keys_with ns f.names ]

-- The loop of `enter_namespace`: each key is declared without its first `l` code units.
unfoldable pub rename_all : ℕ → List Text → Scope → Result Scope
unfolding drop_units
rename_all l [] s = ok s
rename_all l (k ∷ kk) s = do r ← declare (drop_units l k) k s; rename_all l kk r

-- The length of the namespace is counted in code points.
unfoldable pub enter_namespace : Text → Scope → Result Scope
unfolding enter_scope extend_namespace rename_all
enter_namespace n s = do
  inner ← enter_scope s
  sc ← extend_namespace n inner
  elim sc [
    | [] ↦ null_pointer
    | f ∷ r ↦ rename_all (length f.namespace + 2) (get_namespace f.namespace s) (f ∷ r)
  ]
