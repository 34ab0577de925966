-- ===== src/Bytecode/Reduce/Match.antt =====
-- The instructions by which a pattern takes an array apart.
use egel.Prelude.{ℕ, zero, suc, ◌+◌, ◌-◌, ◌^◌, ◌<◌, ◌≤◌, ◌≡◌, refl, arith, List, lt→ltb}
use egel.Prelude.{
  length, get_elem?, some, Bool, true, false, ◌&&◌, ltb, leb, ◌==◌, if◌then◌else◌, get_elem?-some,
  dec_lt, ℕ_discrete,
}
use egel.Prelude.Int.{pos, signed32, leb_ℤ, eqb_ℤ, ◌-ℤ◌}
use egel.Prelude.Outcome.{ok}
use egel.Bytecode.Instr.{split, takex}
use egel.Bytecode.Registers.{Registers, get, put, or_null, IsValid, get-put, put-IsValid}
use egel.Bytecode.Reduce.{
  CodeData, Frame, continue, exec, load_range, exec_take, at, int_count, exec_split, exec_takex,
}
use egel.Machine.Object.{Value, members, is_array}

pub at_some :
    {A : Type 0} (xs : List A) (i : ℕ)
    → i < length xs
    → (a : A) × (get_elem? xs i ≡ some a) × (at xs i ≡ ok a)
at_some xs i h = let (a, there) = get_elem?-some xs i h in (a, there, unfold at in rw (there, at))

-- The registers from `x` on hold the members from `i` on, `n` of them, and the others are as before.
load_range_reg :
    (n : ℕ) (r : Registers) (x : ℕ) (zs : List Value) (i : ℕ) (a : Value) (k : ℕ) {v w : Value}
    → get_elem? zs i ≡ some a
    → w ≡ (if x == k then a else get r k)
    → v ≡ (
        if leb (x + 1) k && ltb k (x + 1 + n)
        then or_null (get_elem? zs (k - (x + 1) + (i + 1)))
        else w)
    → v ≡ (if leb x k && ltb k (x + suc n) then or_null (get_elem? zs (k - x + i)) else get r k)
load_range_reg n r x zs i a k there put same = elim (dec_lt x k) [
  | yes lt ↦ let e : k - (x + 1) + (i + 1) ≡ k - x + i = omega arith in ground (arith, e)
  | no ge ↦ elim (ℕ_discrete x k) [
    | yes eq ↦ let e : k - x + i ≡ i = omega arith in ground (arith, e)
    | no ne ↦ ground arith
  ]
]

load_range_lem :
    (n : ℕ) (r : Registers) (x : ℕ) (zs : List Value) (i : ℕ)
    → IsValid r
    → i + n ≤ length zs
    → (r' : Registers) × (load_range n r x zs i ≡ ok r')
      × IsValid r'
      × ((k : ℕ)
          → get r' k
            ≡ (if leb x k && ltb k (x + n) then or_null (get_elem? zs (k - x + i)) else get r k))
unfolding load_range
load_range_lem zero r x zs i v h = (r, refl, v, λ k. ground arith)
load_range_lem (suc n) r x zs i v h =
    let (a, there, got) = at_some zs i (omega arith) in
    let (r', run, v', same) =
      load_range_lem n (put r x a) (x + 1) zs (i + 1) (put-IsValid r x a v) (omega arith) in
    (r', rw got run, v', λ k. load_range_reg n r x zs i a k there (get-put r x k a v) (same k))

-- The `int` tests of the code, on registers and sizes that an `int` holds.
split_test :
    (x y n : ℕ)
    → x < 2 ^ 31
    → y < 2 ^ 31
    → n < 2 ^ 31
    → eqb_ℤ (int_count x y) (signed32 n) ≡ ((y + 1) == (x + n))
split_test x y n hx hy hn = ground arith

takex_test :
    (x y n i : ℕ)
    → x < 2 ^ 31
    → y < 2 ^ 31
    → n < 2 ^ 31
    → leb_ℤ (int_count x y) (signed32 n -ℤ pos i) ≡ leb (y + 1 + i) (x + n)
takex_test x y n i hx hy hn = ground arith

-- What a match leaves: the flag, and where it is up the members from `i` on in the registers from
-- `x` to `y`. All other registers, the counter and the heap are as before.
pub record Matched (f g : Frame) (x y i : ℕ) (zs : List Value) (up : Bool) : Type 0 where
  pub flag : g.flag ≡ up
  pub pc : g.pc ≡ f.pc
  pub heap : g.heap ≡ f.heap
  pub reg :
      (k : ℕ)
      → get g.reg k
        ≡ (if up && (leb x k && leb k y) then or_null (get_elem? zs (k - x + i)) else get f.reg k)

exec_take-Matched :
    (up : Bool) (x y : ℕ) (zs : List Value) (i : ℕ) (f : Frame)
    → y < 2 ^ 31
    → IsValid f.reg
    → (up ≡ true → (x ≤ y + 1) × (i + (y + 1 - x) ≤ length zs))
    → (g : Frame) × (exec_take up x y zs i f ≡ ok (continue g)) × Matched f g x y i zs up
unfolding exec_take
exec_take-Matched false x y zs i f hy v h = (
  record f { flag = false },
  refl,
  record { flag = refl; pc = refl; heap = refl; reg = λ k. refl },
)
exec_take-Matched true x y zs i f hy v h =
    let (le, room) = h refl in
    let (r, run, _, same) = load_range_lem (y + 1 - x) f.reg x zs i v room in
    let e : x + (y + 1 - x) ≡ y + 1 = omega arith in
    (
      record f { reg = r; flag = true },
      rw (lt→ltb y (2 ^ 32 - 1) (omega arith)) (rw run refl),
      record { flag = refl; pc = refl; heap = refl; reg = λ k. ground (arith, same k, e) },
    )

module _ (d : CodeData) (f : Frame) (x y z a : ℕ) (zs : List Value) (valid : IsValid f.reg)
    (there : get f.reg z ≡ Value.array a) (held : members f.heap a ≡ ok zs) (hx : x < 2 ^ 31)
    (hy : y < 2 ^ 31) (hz : length zs < 2 ^ 31) where
  -- `split` on an array succeeds exactly when the registers from `x` to `y` are as many as its
  -- members, and then loads them all, in order. The registers are in use, so their numbers and
  -- the array's size fit an `int`.
  pub split_lem :
      (g : Frame) × (exec d (split x y z) f ≡ ok (continue g))
      × Matched f g x y 0 zs ((y + 1) == (x + length zs))
  unfolding exec exec_split is_array
  split_lem =
      let up : Bool = (y + 1) == (x + length zs) in
      let (g, run, m) = exec_take-Matched up x y zs 0 f hy valid (λ h. ground arith) in
      (g, rw (there, held, split_test x y (length zs) hx hy hz) run, m)

  -- `takex` on an array succeeds exactly when there are as many members from `i` on as registers
  -- from `x` to `y`, or more, and then loads the first of these. The range may be empty, and the
  -- numbers of the registers and the array's size fit an `int`.
  pub takex_lem :
      (i : ℕ)
      → x ≤ y + 1
      → (g : Frame) × (exec d (takex x y z i) f ≡ ok (continue g))
        × Matched f g x y i zs (leb (y + 1 + i) (x + length zs))
  unfolding exec exec_takex is_array
  takex_lem i le =
      let up : Bool = leb (y + 1 + i) (x + length zs) in
      let (g, run, m) = exec_take-Matched up x y zs i f hy valid (λ h. ground arith) in
      (g, rw (there, held, takex_test x y (length zs) i hx hy hz) run, m)
