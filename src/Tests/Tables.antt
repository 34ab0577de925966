-- ===== src/Tests/Tables.antt =====
-- The theorems on the tables of src/machine.hpp and the scopes of src/environment.hpp at concrete
-- tables and scopes.
use egel.Prelude.{ℕ, suc, ◌<◌, ◌^◌, ◌≡◌, ◌↔◌, refl, arith, [], ◌∷◌, length, set, some}
use egel.Prelude.{ltb, if◌then◌else◌}
use egel.Prelude.Text
use egel.Prelude.Units.{AreUnits, units, drop_units}
use egel.Prelude.Text.{Text, codes, text_eq}
use egel.Machine.DataTable.{DataTable, find, enter, define, get_data, get_object}
use egel.Machine.DataTable
use egel.Machine.DataTable.Intern.{IsValid, enter-IsValid}
use egel.Machine.DataTable.Constants.{
  Constant, integer, char, combinator, value, less_constant, order, enter-value_iff, enter-value,
  define-value, define-get_data,
}
use egel.Machine.Object.{Primitives, Sign, text_less, less, compare, compare_same_tag, tag}
use egel.Prelude.{Bool, ◌≢◌}
use egel.Prelude.Int.{pos}
use egel.Prelude.Outcome
use egel.Prelude.Outcome.{out_of_range}
use egel.Machine.SymbolTable
use egel.Machine.SymbolTable.{SymbolTable, get, enter_path, enter_qualified, join_path}
use egel.Machine.SymbolTable.Names
use egel.Machine.SymbolTable.Names.{get-enter, get-enter_old, enter-eq_iff, enter_path-cons}
use egel.Environment
use egel.Environment.{
  Frame, Scope, Result, ok, redeclaration, declare, redeclare, extended, get_namespace,
  enter_namespace, starts_with, keys_with, get_global_scope, insert_key,
}
use egel.Environment.Namespaces.{
  qualify, qualify_all, mem, AreDistinct, enter_namespace_lem, enter_namespace_clash,
}

-- What the machine takes from floating point and opaque objects, which no constant is.
abbrev prims : Primitives
prims = record { float_less = ltb; opaque_compare = λ k l. Sign.eq }

abbrev below : Constant → Constant → Bool
below = less_constant prims []

-- The table that holds 5 and a combinator with symbol 7.
abbrev first : DataTable Constant
first = (enter below DataTable.empty (integer (pos 5))).0

abbrev constants : DataTable Constant
constants = (enter below first (combinator 7 0)).0

empty-IsValid : IsValid (order prims []) DataTable.empty
unfolding find
empty-IsValid = record { sound = λ a n h. absurd cc; complete = λ n b h. absurd cc }

first_size : length first.to < 2 ^ 32
unfolding enter find
first_size = omega arith

constants_size : suc (length constants.to) < 2 ^ 32
unfolding enter find less_constant less compare compare_same_tag tag value
constants_size = omega arith

constants-IsValid : IsValid (order prims []) constants
constants-IsValid =
    enter-IsValid (order prims []) first (combinator 7 0) first_size
      (enter-IsValid (order prims []) DataTable.empty (integer (pos 5)) (omega arith) empty-IsValid)

enter-value_iff_example :
    ((enter below constants (combinator 7 1)).1
      ≡ (enter below (enter below constants (combinator 7 1)).0 (char 7)).1)
    ↔ (value (combinator 7 1) ≡ value (char 7))
enter-value_iff_example =
    enter-value_iff prims [] constants (combinator 7 1) (char 7) constants_size constants-IsValid

enter-value_example :
    (b : Constant) × (get_object
        (enter below constants (combinator 7 1)).0
        (enter below constants (combinator 7 1)).1
      ≡ some b)
    × (value (combinator 7 1) ≡ value b)
enter-value_example =
    enter-value prims [] constants (combinator 7 1) (omega (arith, constants_size))
      constants-IsValid

-- The combinator that the table has is replaced by another one with its symbol.
define-value_example :
    (r : DataTable Constant × ℕ) × (define below constants (combinator 7 1) ≡ Outcome.ok r)
    × IsValid (order prims []) r.0
    × (get_object r.0 r.1 ≡ some (combinator 7 1))
    × ((k : ℕ) (b : Constant)
        → k ≢ r.1
        → get_object constants k ≡ some b
        → get_object r.0 k ≡ some b)
define-value_example =
    define-value prims [] constants (combinator 7 1) (omega (arith, constants_size))
      constants-IsValid

define-get_data_example :
    ((get_data below constants (char 7)).1 ≡ 0)
    × (define below (get_data below constants (char 7)).0 (char 7) ≡ (
        if ltb 0 (length constants.to)
        then Outcome.ok
            (record { to = set constants.to 0 (char 7); from = (char 7, 0) ∷ constants.from }, 0)
        else out_of_range))
define-get_data_example =
    define-get_data prims [] constants (char 7)
      (unfold enter find less_constant less compare compare_same_tag tag value in refl)

-- The table that holds `f`.
abbrev names : SymbolTable
names = (SymbolTable.enter SymbolTable.empty (codes "f")).0

no_names-IsValid : Names.IsValid SymbolTable.empty
unfolding Text.find
no_names-IsValid = record { sound = λ a n h. absurd cc; complete = λ n b h. absurd cc }

names-IsValid : Names.IsValid names
names-IsValid = Names.enter-IsValid SymbolTable.empty (codes "f") (omega arith) no_names-IsValid

enter-eq_iff_example :
    ((SymbolTable.enter names (codes "f")).1
      ≡ (SymbolTable.enter (SymbolTable.enter names (codes "f")).0 (codes "g")).1)
    ↔ (codes "f" ≡ codes "g")
enter-eq_iff_example =
    enter-eq_iff names (codes "f") (codes "g") (unfold SymbolTable.enter Text.find in omega arith)
      names-IsValid

get-enter_example :
    get (SymbolTable.enter names (codes "g")).0 (SymbolTable.enter names (codes "g")).1
    ≡ some (codes "g")
get-enter_example =
    get-enter names (codes "g") (unfold SymbolTable.enter Text.find in omega arith) names-IsValid

get-enter_old_example : get (SymbolTable.enter names (codes "g")).0 0 ≡ some (codes "f")
get-enter_old_example =
    get-enter_old names (codes "g") 0 (codes "f") (unfold get SymbolTable.enter Text.find in refl)

-- The global scope after `Foo::c` and `d` were declared.
abbrev globals : Frame
globals = record {
  names = (codes "Foo::c", codes "Foo::c") ∷ (codes "d", codes "d") ∷ [];
  namespace = [];
}

enter_namespace_lem_example :
    (t : Scope) × (enter_namespace (codes "Foo") (globals ∷ []) ≡ ok t)
    × ((j : Text)
        → Environment.get j t ≡ (
            if mem j (codes "c" ∷ [])
            then qualify (extended [] (codes "Foo")) j
            else Environment.get j (globals ∷ [])))
enter_namespace_lem_example =
    enter_namespace_lem (codes "Foo") globals [] (codes "c" ∷ [])
      (unfold extended AreUnits in (omega arith, (omega arith, (omega arith, tt))))
      (unfold get_namespace keys_with starts_with get_global_scope extended qualify_all qualify
          insert_key in
        refl)
      (unfold AreDistinct mem in (refl, tt))

-- `Foo::c` and `Fooabc` begin with the same namespace, and with `Foo::` cut off both are `c`.
abbrev clashing : Frame
clashing = record {
  names = (codes "Foo::c", codes "Foo::c") ∷ (codes "Fooabc", codes "Fooabc") ∷ [];
  namespace = [];
}

enter_namespace_clash_example :
    (x : Text) × (enter_namespace (codes "Foo") (clashing ∷ []) ≡ redeclaration x)
enter_namespace_clash_example =
    enter_namespace_clash (codes "Foo") (codes "Foo::c") (codes "Fooabc") clashing [] [] [] []
      (unfold get_namespace keys_with starts_with get_global_scope extended insert_key text_less
          units in
        refl)
      (unfold extended drop_units in refl)
