-- ===== src/Prelude/Units.antt =====
-- The UTF-16 code units of a text, by which `UnicodeString` of ICU counts where it does not count
-- code points. A cut through a pair of surrogates leaves the surrogate on its other side.
use Prim.Native.Nat.{ℕ, zero, suc, ◌+◌, ◌-◌, ◌/◌, ◌%◌, ◌<◌}
use mathlib.Core.Path.{◌≡◌, refl, ◌∙◌}
use mathlib.Core.List.{List, [], ◌∷◌, ◌++◌}
use native.Mathlib.Omega.{arith}
use egel.Prelude.Tests.{ltb, if◌then◌else◌, lt→ltb}
use egel.Prelude.Lists.{length}
use egel.Prelude.Text.{Text}

unfoldable pub lead : ℕ → ℕ
lead c = 0xd800 + (c - 0x10000) / 0x400

unfoldable pub trail : ℕ → ℕ
trail c = 0xdc00 + (c - 0x10000) % 0x400

unfoldable pub units : Text → List ℕ
unfolding lead trail
units [] = []
units (c ∷ t) = let rest = units t in if ltb c 0x10000 then c ∷ rest else lead c ∷ trail c ∷ rest

-- `removeBetween(0, n)`: the text without its first `n` units.
unfoldable pub drop_units : ℕ → Text → Text
unfolding trail
drop_units zero t = t
drop_units (suc n) [] = []
drop_units (suc zero) (c ∷ t) = if ltb c 0x10000 then t else trail c ∷ t
drop_units (suc (suc n)) (c ∷ t) =
    let one : Text = drop_units (suc n) t in
    let two : Text = drop_units n t in if ltb c 0x10000 then one else two

-- The first `n` units of a text.
unfoldable pub take_units : ℕ → Text → Text
unfolding lead
take_units zero t = []
take_units (suc n) [] = []
take_units (suc zero) (c ∷ t) = if ltb c 0x10000 then c ∷ [] else lead c ∷ []
take_units (suc (suc n)) (c ∷ t) =
    let one : Text = take_units (suc n) t in
    let two : Text = take_units n t in if ltb c 0x10000 then c ∷ one else c ∷ two

-- Each character takes one unit.
unfoldable pub AreUnits : Text → Type 0
AreUnits [] = Unit
AreUnits (c ∷ t) = (c < 0x10000) × AreUnits t

drop_units-cons : (n c : ℕ) (t : Text) → c < 0x10000 → drop_units (suc n) (c ∷ t) ≡ drop_units n t
unfolding drop_units
drop_units-cons zero c t h = rw (lt→ltb c 0x10000 h) refl
drop_units-cons (suc n) c t h = rw (lt→ltb c 0x10000 h) refl

pub drop_units-append :
    (s t : Text) (m n : ℕ) → m ≡ length s + n → AreUnits s → drop_units m (s ++ t) ≡ drop_units n t
unfolding AreUnits
drop_units-append [] t m n e h = let q : m ≡ n = omega arith in rw q refl
drop_units-append (c ∷ s) t zero n e h = absurd (omega arith)
drop_units-append (c ∷ s) t (suc m) n e (b, h) =
    drop_units-cons m c (s ++ t) b ∙ drop_units-append s t m n (omega arith) h
