-- ===== src/Machine/SymbolTable.antt =====
-- `SymbolTable` of src/machine.hpp: it numbers the names of combinators, which are texts in
-- which the parts of a qualified name are joined by `::`.
pub mod Names
use egel.Prelude.{ℕ, ◌+◌, ◌%◌, ◌^◌, Bool, true, false, List, [], ◌∷◌, ◌++◌, Option, none, some}
use egel.Prelude.{length, get_elem?}
use egel.Prelude.Text.{Text, codes, find}

pub record SymbolTable : Type 0 where
  pub to : List Text
  pub from : List (Text × ℕ)

abbrev pub empty : SymbolTable
empty = record { to = []; from = [] }

abbrev pub dcolon : Text
dcolon = b':' ∷ b':' ∷ []

unfoldable pub member : SymbolTable → Text → Bool
member t s = elim (find s t.from) [ none ↦ false | some n ↦ true ]

-- `_to.size()` is kept in a `symbol_t`, of 32 bits.
unfoldable pub enter : SymbolTable → Text → SymbolTable × ℕ
enter t s = elim (find s t.from) [
  | none ↦
      let n = length t.to % 2 ^ 32 in (record { to = t.to ++ (s ∷ []); from = (s, n) ∷ t.from }, n)
  | some n ↦ (t, n)
]

-- The name that the overload on two texts enters.
unfoldable pub qualified : Text → Text → Text
qualified n0 n1 = n0 ++ (dcolon ++ n1)

unfoldable pub enter_qualified : SymbolTable → Text → Text → SymbolTable × ℕ
unfolding qualified
enter_qualified t n0 n1 = enter t (qualified n0 n1)

-- The loop of the overload on a list of texts: `s` is what was joined so far.
unfoldable pub join_path : Text → List Text → Text
join_path s [] = s
join_path s (n0 ∷ nn) = join_path (s ++ (n0 ++ dcolon)) nn

unfoldable pub enter_path : SymbolTable → List Text → Text → SymbolTable × ℕ
unfolding join_path
enter_path t nn n = enter t (join_path [] nn ++ n)

unfoldable pub size : SymbolTable → ℕ
size t = length t.to

-- `get`: a read past the end of the vector has no value.
unfoldable pub get : SymbolTable → ℕ → Option Text
get t s = get_elem? t.to s
