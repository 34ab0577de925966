-- ===== src/Machine/DataTable/Order.antt =====
-- What `std::map` asks of its comparison: the keys that it does not tell apart form classes.
use egel.Prelude.{◌≡◌, sym, ◌∙◌, Bool, true, arith, Bool-cases, inl, inr}
use egel.Machine.DataTable.{same}

pub record IsWeakOrder {A : Type 0} (less : A → A → Bool) : Type 0 where
  pub same_refl : (a : A) → same less a a ≡ true
  pub same_trans : (a b c : A) → same less a b ≡ true → same less b c ≡ true → same less a c ≡ true

pub same_symm :
    {A : Type 0} (less : A → A → Bool) (a b : A) → same less a b ≡ true → same less b a ≡ true
same_symm less a b h = ground arith

pub same_cong :
    {A : Type 0} {less : A → A → Bool} (w : IsWeakOrder less) (a b c : A)
    → same less a b ≡ true
    → same less a c ≡ same less b c
same_cong {less = less} w a b c h = elim (Bool-cases (same less a c)) [
  | inl ac ↦ ac ∙ sym (w.same_trans b a c (same_symm less a b h) ac)
  | inr ac ↦ elim (Bool-cases (same less b c)) [
    | inl bc ↦ w.same_trans a b c h bc ∙ sym bc
    | inr bc ↦ ac ∙ sym bc
  ]
]
