-- ===== src/Bytecode/Reduce.antt =====
-- `VMObjectBytecode::reduce` of src/bytecode.hpp, the interpreter of a combinator's code.
pub mod Step
pub mod Match
pub mod Concat
use egel.Prelude.{
  ℕ, zero, suc, ◌+◌, ◌-◌, ◌%◌, ◌^◌, Bool, true, false, not, ◌&&◌, List, [], ◌∷◌, ◌++◌,
}
use egel.Prelude.{Option, none, some, length, get_elem?, set, drop, ltb, leb, ◌==◌, if◌then◌else◌}
use egel.Prelude.Int.{ℤ, pos, negsuc, ◌+ℤ◌, ◌-ℤ◌, leb_ℤ, eqb_ℤ, signed32}
use egel.Prelude.Outcome.{Outcome, ok, panic, out_of_range, null_pointer, out_of_fuel, ◌>>=◌}
use egel.Bytecode.Instr.{Opcode, byte_opcode, Instr, nil, mov, datum, set_at, takex, split, array}
use egel.Bytecode.Instr.{concatx, test, tag, fail, return}
use egel.Bytecode.Coder.{Code}
use egel.Bytecode.Fetch.{fetch_i8, fetch_operands}
use egel.Bytecode.Registers.{Registers, get, put, empty}
use egel.Machine.DataTable.{DataTable, get_object}
use egel.Machine.Object.{Value, null, Heap, members, is_array, symbol, Primitives, equals}
use egel.Machine.Object

-- The locals of `reduce`, and the heap of arrays.
pub record Frame : Type 0 where
  pub reg : Registers
  pub pc : ℕ
  pub flag : Bool
  pub heap : Heap

-- `reduce` goes round its loop, or returns a pointer.
pub data Next : Type 0 where
  continue : Frame → Next
  done : Value → Heap → Next

abbrev pub assign : Frame → ℕ → Value → Frame
assign f x v = record f { reg = put f.reg x v }

-- The element at an index that is past the end is not there.
unfoldable pub at {ℓ} : {A : Type ℓ} → List A → ℕ → Outcome A
at xs i = elim (get_elem? xs i) [ none ↦ out_of_range | some v ↦ ok v ]

-- A new array on the heap, and its address.
abbrev pub allocate : Heap → List Value → Heap × Value
allocate h xs = (h ++ (xs ∷ []), Value.array (length h))

-- `for (reg_t n = x; n <= y; n++) reg.set(n, zz->get(n - x + i));` on the rounds that are left.
unfoldable pub load_range : ℕ → Registers → ℕ → List Value → ℕ → Outcome Registers
load_range zero r x zs i = ok r
load_range (suc n) r x zs i = do v ← at zs i; load_range n (put r x v) (x + 1) zs (i + 1)

-- `for (reg_t n = y; n <= z; n++) oo->set(n - y, reg[n]);`
unfoldable pub read_range : ℕ → Registers → ℕ → List Value
read_range zero r y = []
read_range (suc n) r y = get r y ∷ read_range n r (y + 1)

-- `(int)y - (int)x + 1`
abbrev pub int_count : ℕ → ℕ → ℤ
int_count x y = signed32 y -ℤ signed32 x +ℤ pos 1

-- The rounds of `for (n = x; n <= y; n++)`. At the greatest number the test holds for ever, and the
-- loop goes on until it reads past the end of the members.
abbrev pub load_rounds : ℕ → ℕ → List Value → ℕ
load_rounds x y zs = if ltb y (2 ^ 32 - 1) then y + 1 - x else suc (length zs)

-- The registers from `x` to `y` are loaded from the members at `i` on, if the flag says so.
unfoldable pub exec_take : Bool → ℕ → ℕ → List Value → ℕ → Frame → Outcome Next
exec_take false x y zs i f = ok (continue (record f { flag = false }))
exec_take true x y zs i f = do
  r ← load_range (load_rounds x y zs) f.reg x zs i
  ok (continue (record f { reg = r; flag = true }))

-- `xv->set(yv, z0)`: the index is an `int64_t` that is passed on as an `unsigned int`.
abbrev pub unsigned_index : ℤ → ℕ
unsigned_index (pos n) = n % 2 ^ 32
unsigned_index (negsuc n) = 2 ^ 32 - 1 - n % 2 ^ 32

unfoldable pub exec_set : Value → Value → Value → Frame → Outcome Next
exec_set (Value.array a) (Value.integer i) z f = do
  xs ← members f.heap a
  _ ← at xs (unsigned_index i)
  ok (continue (record f { heap = set f.heap a (set xs (unsigned_index i) z) }))
exec_set Value.null y z f = null_pointer
exec_set (Value.array a) Value.null z f = null_pointer
exec_set (Value.array a) _ z f = panic
exec_set _ y z f = panic

-- `OP_SPLIT` and `OP_TAKEX` on what `reg[z]` holds.
unfoldable pub exec_split : Option ℕ → ℕ → ℕ → Frame → Outcome Next
exec_split none x y f = ok (continue (record f { flag = false }))
exec_split (some a) x y f = do
  zs ← members f.heap a
  exec_take (eqb_ℤ (int_count x y) (signed32 (length zs))) x y zs 0 f

unfoldable pub exec_takex : Option ℕ → ℕ → ℕ → ℕ → Frame → Outcome Next
exec_takex none x y i f = ok (continue (record f { flag = false }))
exec_takex (some a) x y i f = do
  zs ← members f.heap a
  exec_take (leb_ℤ (int_count x y) (signed32 (length zs) -ℤ pos i)) x y zs i f

-- `OP_ARRAY`: the size `z - y + 1` is a `size_t`, and the array's own size is an `int`. At the
-- greatest number of a register the loop does not end and writes past the end of the array.
unfoldable pub exec_array : ℕ → ℕ → ℕ → Frame → Outcome Next
exec_array x y z f =
    if leb y (z + 1) && (ltb (z + 1 - y) (2 ^ 31) && ltb z (2 ^ 32 - 1))
    then (let (h, v) = allocate f.heap (read_range (z + 1 - y) f.reg y) in
        ok (continue (assign (record f { heap = h }) x v)))
    else out_of_range

-- What `OP_CONCATX` puts into `x` where members of `z` are to be copied.
unfoldable pub concat_copy : ℕ → List Value → List Value → ℕ → Frame → Outcome Next
concat_copy x ys zs i f =
    if ltb 1 (length ys + length zs - i)
    then (let (h, v) = allocate f.heap (ys ++ drop i zs) in
        ok (continue (assign (record f { heap = h }) x v)))
    else (do v ← at zs i; ok (continue (assign f x v)))

unfoldable pub concat_arrays : ℕ → Value → List Value → List Value → ℕ → Frame → Outcome Next
concat_arrays x y0 ys zs i f =
    if ltb i (length zs)
    then concat_copy x ys zs i f
    else if (length ys == 1)
    then (do v ← at ys 0; ok (continue (assign f x v)))
    else ok (continue (assign f x y0))

unfoldable pub concat_value : ℕ → Value → List Value → ℕ → Frame → Outcome Next
concat_value x y0 zs i f =
    if ltb i (length zs) then concat_copy x (y0 ∷ []) zs i f else ok (continue (assign f x y0))

-- The tests on `y0` and `z0`; `&&` does not look at `z0` if `y0` is no array.
unfoldable pub concat_case : Option ℕ → Option ℕ → ℕ → Value → ℕ → Frame → Outcome Next
concat_case (some a) (some b) x y0 i f = do
  ys ← members f.heap a
  zs ← members f.heap b
  concat_arrays x y0 ys zs i f
concat_case none (some b) x y0 i f = do zs ← members f.heap b; concat_value x y0 zs i f
concat_case _ none x y0 i f = panic

-- `OP_FAIL`
unfoldable pub exec_fail : ℕ → Frame → Next
exec_fail l f = continue (record f { pc = if f.flag then f.pc else l; flag = false })

-- What a combinator brings along: its data slots and the machine's table, and what the comparison
-- needs. The fuel is for comparisons.
pub record CodeData : Type 0 where
  pub slots : List ℕ
  pub table : DataTable Value
  pub prims : Primitives
  pub fuel : ℕ

-- The action of each case of the `switch`, after its operands were fetched.
unfoldable pub exec : CodeData → Instr → Frame → Outcome Next
unfolding exec_fail
exec d (nil x) f = ok (continue (assign f x Value.null))
exec d (mov x y) f = ok (continue (assign f x (get f.reg y)))
exec d (datum x i) f = do
  n ← at d.slots i
  v ← elim (get_object d.table n) [ none ↦ out_of_range | some v ↦ ok v ]
  ok (continue (assign f x v))
exec d (set_at x y z) f = exec_set (get f.reg x) (get f.reg y) (get f.reg z) f
exec d (takex x y z i) f = do za ← is_array (get f.reg z); exec_takex za x y i f
exec d (split x y z) f = do za ← is_array (get f.reg z); exec_split za x y f
exec d (array x y z) f = exec_array x y z f
exec d (concatx x y z i) f = do
  ya ← is_array (get f.reg y)
  za ← is_array (get f.reg z)
  concat_case ya za x (get f.reg y) i f
exec d (test x y) f = do
  b ← equals d.prims d.fuel f.heap (get f.reg x) (get f.reg y)
  ok (continue (record f { flag = b }))
exec d (tag x y) f = do
  s0 ← symbol (get f.reg x)
  s1 ← symbol (get f.reg y)
  ok (continue (record f { flag = s0 == s1 }))
exec d (fail l) f = ok (exec_fail l f)
exec d (return x) f = ok (done (get f.reg x) f.heap)

-- The `switch`: a byte that is no opcode is passed over.
unfoldable pub step_case : CodeData → Code → Option Opcode → Frame → Outcome Next
step_case d c none f = ok (continue f)
step_case d c (some op) f = do (i, pc) ← fetch_operands op c f.pc; exec d i (record f { pc = pc })

-- One round of the loop; `LOOK_op` reads the opcode and moves the counter behind it.
unfoldable pub step : CodeData → Code → Frame → Outcome Next
unfolding step_case
step d c f = do (b, pc) ← fetch_i8 c f.pc; step_case d c (byte_opcode b) (record f { pc = pc })

-- The frame at the start: the thunk is in register 0.
abbrev pub entry : Value → Heap → Frame
entry thunk h = record { reg = put empty 0 thunk; pc = 0; flag = false; heap = h }

-- The loop. The code may loop for ever, so the rounds are counted.
unfoldable pub reduce : ℕ → CodeData → Code → Frame → Outcome (Value × Heap)
reduce zero d c f = out_of_fuel
reduce (suc fuel) d c f = do
  n ← step d c f
  elim n [ continue f' ↦ reduce fuel d c f' | done v h ↦ ok (v, h) ]
