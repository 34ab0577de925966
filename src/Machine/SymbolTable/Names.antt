-- ===== src/Machine/SymbolTable/Names.antt =====
-- The symbol table is a bijection between the names that were entered and the numbers below its
-- size.
use egel.Prelude.{ℕ, suc, ◌%◌, ◌+◌, ◌^◌, ◌<◌, ◌≤◌, ◌≡◌, refl, sym, ap, arith}
use egel.Prelude.{List, [], ◌∷◌, ◌++◌, ◌↔◌, none, some, length, get_elem?, inl, inr}
use egel.Prelude.{Bool-cases, Option-cases, length-append, append_assoc, append-nil}
use egel.Prelude.{get_elem?-append, get_elem?-append_left, get_elem?-concat}
use egel.Prelude.Text.{Text, find, text_eq, text_eq_iff, text_eq_refl}
use egel.Machine.SymbolTable.{
  SymbolTable, enter, get, dcolon, join_path, enter_path, enter_qualified,
}

-- The vector and the map are inverse to one another.
pub record IsValid (t : SymbolTable) : Type 0 where
  pub sound : (s : Text) (n : ℕ) → find s t.from ≡ some n → get_elem? t.to n ≡ some s
  pub complete : (n : ℕ) (s : Text) → get_elem? t.to n ≡ some s → find s t.from ≡ some n

new_sound :
    (t : SymbolTable) (s : Text)
    → length t.to < 2 ^ 32
    → IsValid t
    → (a : Text) (k : ℕ) → find a ((s, length t.to % 2 ^ 32) ∷ t.from) ≡ some k
    → get_elem? (t.to ++ (s ∷ [])) k ≡ some a
unfolding find
new_sound t s fits v a k e = elim (Bool-cases (text_eq s a)) [
  | inl eq ↦
      let at : some (length t.to % 2 ^ 32) ≡ some k = rw eq at e in
      let here : length t.to % 2 ^ 32 ≡ k = cc in
      rw (← (text_eq_iff s a).0 eq) (get_elem?-append t.to (s ∷ []) k 0 (omega arith))
  | inr ne ↦ get_elem?-append_left t.to (s ∷ []) k (v.sound a k (rw ne at e))
]

new_complete :
    (t : SymbolTable) (s : Text)
    → length t.to < 2 ^ 32
    → find s t.from ≡ none
    → IsValid t
    → (k : ℕ) (b : Text) → get_elem? (t.to ++ (s ∷ [])) k ≡ some b
    → find b ((s, length t.to % 2 ^ 32) ∷ t.from) ≡ some k
unfolding find
new_complete t s fits new v k b e = elim (get_elem?-concat t.to s k e) [
  | inl old ↦ elim (Bool-cases (text_eq s b)) [
    | inl eq ↦ let found = v.complete k b old in let same = (text_eq_iff s b).0 eq in cc
    | inr ne ↦ rw ne (v.complete k b old)
  ]
  | inr (at, eq) ↦
      let wrapped : length t.to % 2 ^ 32 ≡ k = omega arith in rw (← eq, text_eq_refl s, wrapped)
]

-- Entering a name keeps the two halves inverse, while the numbers fit 32 bits.
pub enter-IsValid :
    (t : SymbolTable) (s : Text) → length t.to < 2 ^ 32 → IsValid t → IsValid (enter t s).0
enter-IsValid t s fits v = elim (Option-cases (find s t.from)) [
  | inl new ↦
      unfold enter in
      rw (new, enter)
        (record { sound = new_sound t s fits v; complete = new_complete t s fits new v })
  | inr (n, old) ↦ unfold enter in rw (old, enter) v
]

-- In a valid table whose numbers fit 32 bits the number of an entered name reads back that name.
pub get-enter :
    (t : SymbolTable) (s : Text)
    → length t.to < 2 ^ 32
    → IsValid t
    → get (enter t s).0 (enter t s).1 ≡ some s
unfolding get
get-enter t s fits v = elim (Option-cases (find s t.from)) [
  | inl new ↦
      let at : length t.to % 2 ^ 32 ≡ length t.to + 0 = omega arith in
      unfold enter in rw (new, enter) (get_elem?-append t.to (s ∷ []) _ 0 at)
  | inr (n, old) ↦ unfold enter in rw (old, enter) (v.sound s n old)
]

-- Every number in use still reads its own name after another was entered.
pub get-enter_old :
    (t : SymbolTable) (s : Text) (n : ℕ) (r : Text)
    → get t n ≡ some r
    → get (enter t s).0 n ≡ some r
unfolding get
get-enter_old t s n r h = elim (Option-cases (find s t.from)) [
  | inl new ↦ unfold enter in rw (new, enter) (get_elem?-append_left t.to (s ∷ []) n h)
  | inr (k, old) ↦ unfold enter in rw (old, enter) h
]

length-enter : (t : SymbolTable) (a : Text) → length (enter t a).0.to ≤ suc (length t.to)
length-enter t a = elim (Option-cases (find a t.from)) [
  | inl new ↦ unfold enter in rw (new, enter) (omega (arith, length-append t.to (a ∷ [])))
  | inr (k, old) ↦ unfold enter in rw (old, enter) (omega arith)
]

find-enter : (t : SymbolTable) (a : Text) → find a (enter t a).0.from ≡ some (enter t a).1
find-enter t a = elim (Option-cases (find a t.from)) [
  | inl new ↦ unfold enter in rw (new, enter) (unfold find in rw (text_eq_refl a))
  | inr (k, old) ↦ unfold enter in rw (old, enter) old
]

enter_found : (t : SymbolTable) (b : Text) {n : ℕ} → find b t.from ≡ some n → enter t b ≡ (t, n)
enter_found t b h = unfold enter in rw (h, enter)

-- Two names that are entered one after the other get the same number exactly when they are the
-- same text, in a valid table whose numbers fit 32 bits.
pub enter-eq_iff :
    (t : SymbolTable) (a b : Text)
    → suc (length t.to) < 2 ^ 32
    → IsValid t
    → ((enter t a).1 ≡ (enter (enter t a).0 b).1) ↔ (a ≡ b)
enter-eq_iff t a b fits v = (
  λ e.
      let t' = (enter t a).0 in
      let first = get-enter t a (omega arith) v in
      let valid = enter-IsValid t a (omega arith) v in
      let second = get-enter t' b (omega (arith, length-enter t a)) valid in
      let kept = get-enter_old t' b (enter t a).1 a first in
      let kept' : get (enter t' b).0 (enter t' b).1 ≡ some a = rw (← e) kept in cc,
  λ e.
      let found : find b (enter t a).0.from ≡ some (enter t a).1 = rw (← e) (find-enter t a) in
      sym (ap (λ (r : SymbolTable × ℕ). r.1) (enter_found (enter t a).0 b found)),
)

join_path-append : (nn : List Text) (s r : Text) → join_path (s ++ r) nn ≡ s ++ join_path r nn
unfolding join_path
join_path-append [] s r = refl
join_path-append (n0 ∷ nn) s r =
    rw (append_assoc s r (n0 ++ dcolon)) (join_path-append nn s (r ++ (n0 ++ dcolon)))

join_path-cons :
    (n0 : Text) (nn : List Text) (n : Text)
    → join_path [] (n0 ∷ nn) ++ n ≡ n0 ++ (dcolon ++ (join_path [] nn ++ n))
join_path-cons n0 nn n =
    let pulled : join_path (n0 ++ dcolon) nn ≡ (n0 ++ dcolon) ++ join_path [] nn =
      rw append-nil at (join_path-append nn (n0 ++ dcolon) []) in
    unfold join_path in
    rw (
      pulled,
      append_assoc (n0 ++ dcolon) (join_path [] nn) n,
      append_assoc n0 dcolon (join_path [] nn ++ n),
    )

-- The overloads agree on how a name is joined: a path enters its first part, qualified by `::`,
-- in front of what the rest of the path enters.
pub enter_path-cons :
    (t : SymbolTable) (n0 : Text) (nn : List Text) (n : Text)
    → enter_path t (n0 ∷ nn) n ≡ enter_qualified t n0 (join_path [] nn ++ n)
unfolding enter_path enter_qualified
enter_path-cons t n0 nn n = ap (enter t) (join_path-cons n0 nn n)
