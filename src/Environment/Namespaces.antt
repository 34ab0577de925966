-- ===== src/Environment/Namespaces.antt =====
-- `enter_namespace` of src/environment.hpp: the names of a namespace, without its prefix.
use egel.Prelude.{◌+◌, Bool, true, false, ◌||◌, List, [], ◌∷◌, ◌++◌, none, some, Option-cases}
use egel.Prelude.{inl, inr, ◌≡◌, refl, ◌∙◌, if◌then◌else◌, Bool-cases, length, ℕ}
use egel.Prelude.Units.{AreUnits, drop_units, drop_units-append}
use egel.Prelude.Text.{Text, text_eq, text_eq_iff, text_eq_refl, find}
use egel.Environment.{Frame, Scope, Result, ok, redeclaration, get, declare, dcolon, extended}
use egel.Environment.{get_namespace, rename_all, enter_namespace, enter_scope, extend_namespace}
use egel.Environment.Lookup.{get-bind, declare_fresh}

-- The name `n` of the namespace `ns`.
unfoldable pub qualify : Text → Text → Text
qualify ns n = ns ++ (dcolon ++ n)

unfoldable pub qualify_all : Text → List Text → List Text
qualify_all ns [] = []
qualify_all ns (n ∷ nn) = qualify ns n ∷ qualify_all ns nn

unfoldable pub mem : Text → List Text → Bool
mem j [] = false
mem j (n ∷ nn) = text_eq n j || mem j nn

unfoldable pub AreDistinct : List Text → Type 0
AreDistinct [] = Unit
AreDistinct (n ∷ nn) = (mem n nn ≡ false) × AreDistinct nn

drop-qualify : (ns n : Text) → AreUnits ns → drop_units (length ns + 2) (qualify ns n) ≡ n
unfolding qualify drop_units
drop-qualify ns n h = drop_units-append ns (dcolon ++ n) (length ns + 2) 2 refl h

mem-distinct :
    (n m : Text) (nn : List Text) → mem n nn ≡ false → mem m nn ≡ true → text_eq n m ≡ false
mem-distinct n m nn e h = elim (Bool-cases (text_eq n m)) [
  | inl q ↦ let p = (text_eq_iff n m).0 q in cc
  | inr q ↦ q
]

fresh_after :
    (n w : Text) (nn : List Text) (m : List (Text × Text))
    → mem n nn ≡ false
    → ((j : Text) → mem j (n ∷ nn) ≡ true → find j m ≡ none)
    → (j : Text) → mem j nn ≡ true
    → find j ((n, w) ∷ m) ≡ none
unfolding mem find
fresh_after n w nn m d h j q =
    rw (mem-distinct n j nn d q, find) (h j (rw (mem-distinct n j nn d q) q))

mem_step :
    (ns n j : Text) (nn : List Text) (r : Text)
    → (if mem j nn then qualify ns j else if text_eq n j then qualify ns n else r)
      ≡ (if mem j (n ∷ nn) then qualify ns j else r)
unfolding mem
mem_step ns n j nn r = elim (Bool-cases (text_eq n j)) [
  | inl e ↦
      let p = (text_eq_iff n j).0 e in
      rw (e, p) (elim (Bool-cases (mem j nn)) [ inl h ↦ rw h | inr h ↦ rw h ])
  | inr e ↦ rw e
]

rename_all_lem :
    (ns : Text) (nn : List Text) (f : Frame) (s : Scope)
    → AreUnits ns
    → AreDistinct nn
    → ((m : Text) → mem m nn ≡ true → find m f.names ≡ none)
    → (t : Scope) × (rename_all (length ns + 2) (qualify_all ns nn) (f ∷ s) ≡ ok t)
      × ((j : Text) → get j t ≡ (if mem j nn then qualify ns j else get j (f ∷ s)))
unfolding rename_all qualify_all mem AreDistinct
rename_all_lem ns [] f s u d h = (f ∷ s, refl, λ j. refl)
rename_all_lem ns (n ∷ nn) f s u (d, dd) h =
    let (t, e, k) =
      rename_all_lem ns nn (record f { names = (n, qualify ns n) ∷ f.names }) s u dd
        (fresh_after n (qualify ns n) nn f.names d h) in
    (
      t,
      rw (drop-qualify ns n u, declare_fresh n (qualify ns n) f s (h n (rw (text_eq_refl n)))) e,
      λ j. k j ∙ rw (get-bind n (qualify ns n) j f s) (mem_step ns n j nn (get j (f ∷ s))),
    )

-- Let each character of a namespace take one code unit, and let the global names that begin with
-- the text of the namespace be its members, each once: no other global name begins with that text.
-- Then to enter the namespace succeeds: each member is found under its short name, which hides what
-- the name stood for outside, and every other name is what it was.
pub enter_namespace_lem :
    (n : Text) (f : Frame) (s : Scope) (nn : List Text)
    → AreUnits (extended f.namespace n)
    → get_namespace (extended f.namespace n) (f ∷ s) ≡ qualify_all (extended f.namespace n) nn
    → AreDistinct nn
    → (t : Scope) × (enter_namespace n (f ∷ s) ≡ ok t)
      × ((j : Text)
          → get j t ≡ (if mem j nn then qualify (extended f.namespace n) j else get j (f ∷ s)))
unfolding enter_namespace enter_scope extend_namespace find get
enter_namespace_lem n f s nn u e d =
    let ns : Text = extended f.namespace n in
    let (t, run, k) =
      rename_all_lem ns nn (record { names = []; namespace = ns }) (f ∷ s) u d (λ m h. refl) in
    (t, rw e run, k)

abbrev Fails : Result Scope → Type 0
Fails r = (x : Text) × (r ≡ redeclaration x)

find-bound :
    (k v j w : Text) (m : List (Text × Text))
    → find j m ≡ some w
    → (u : Text) × (find j ((k, v) ∷ m) ≡ some u)
unfolding find
find-bound k v j w m h = elim (Bool-cases (text_eq k j)) [
  | inl e ↦ (v, rw e refl)
  | inr e ↦ (w, rw e h)
]

-- One name is declared, or it is bound.
rename_all-Fails :
    (l : ℕ) (k : Text) (kk : List Text) (f : Frame) (s : Scope)
    → (find (drop_units l k) f.names ≡ none
        → Fails (rename_all l kk (record f { names = (drop_units l k, k) ∷ f.names } ∷ s)))
    → Fails (rename_all l (k ∷ kk) (f ∷ s))
unfolding rename_all declare
rename_all-Fails l k kk f s go = elim (Option-cases (find (drop_units l k) f.names)) [
  | inl e ↦ rw (e, declare) (go e)
  | inr (w, e) ↦ rw (e, declare) (drop_units l k, refl)
]

-- A name that the frame has is among those to declare.
rename_all_bound :
    (l : ℕ) (j w : Text) (bb dd : List Text) (f : Frame) (s : Scope)
    → find (drop_units l j) f.names ≡ some w
    → Fails (rename_all l (bb ++ (j ∷ dd)) (f ∷ s))
rename_all_bound l j w [] dd f s h = rename_all-Fails l j dd f s (λ e. absurd cc)
rename_all_bound l j w (b ∷ bb) dd f s h = rename_all-Fails l b (bb ++ (j ∷ dd)) f s (λ e.
    let (u, g) = find-bound (drop_units l b) b (drop_units l j) w f.names h in
    rename_all_bound l j u bb dd _ s g)

rename_all_clash :
    (l : ℕ) (k j : Text) (aa bb dd : List Text) (f : Frame) (s : Scope)
    → drop_units l k ≡ drop_units l j
    → Fails (rename_all l (aa ++ (k ∷ (bb ++ (j ∷ dd)))) (f ∷ s))
unfolding find
rename_all_clash l k j [] bb dd f s h =
    rename_all-Fails l k (bb ++ (j ∷ dd)) f s
      (λ e. rename_all_bound l j k bb dd _ s (rw (h, text_eq_refl (drop_units l j)) refl))
rename_all_clash l k j (a ∷ aa) bb dd f s h =
    rename_all-Fails l a (aa ++ (k ∷ (bb ++ (j ∷ dd)))) f s
      (λ e. rename_all_clash l k j aa bb dd _ s h)

-- If two of the global names that begin with the text of a namespace agree behind as many code units
-- as the text has code points and two more, then to enter the namespace is an error.
pub enter_namespace_clash :
    (n k j : Text) (f : Frame) (s : Scope) (aa bb dd : List Text)
    → get_namespace (extended f.namespace n) (f ∷ s) ≡ aa ++ (k ∷ (bb ++ (j ∷ dd)))
    → drop_units (length (extended f.namespace n) + 2) k
      ≡ drop_units (length (extended f.namespace n) + 2) j
    → (x : Text) × (enter_namespace n (f ∷ s) ≡ redeclaration x)
unfolding enter_namespace enter_scope extend_namespace
enter_namespace_clash n k j f s aa bb dd e h = rw e (rename_all_clash _ k j aa bb dd _ (f ∷ s) h)
