-- ===== src/Bytecode/Relabel.antt =====
-- `Coder::relabel` of src/bytecode.hpp: it walks over the code and puts the address of each label
-- in place of its number.
pub mod Resolve
pub mod Jumps
use egel.Prelude.{
  ℕ, zero, suc, ◌+◌, ◌*◌, ◌%◌, ◌^◌, Bool, true, false, Option, none, some, List, ◌∷◌,
}
use egel.Prelude.{length, ltb, set, byte_at, if◌then◌else◌}
use egel.Prelude.Outcome.{Outcome, ok, panic, out_of_fuel, ◌>>=◌}
use egel.Bytecode.Instr.{Opcode, byte_opcode}
use egel.Bytecode.Instr.{op_nil, op_mov, op_data, op_set, op_takex, op_split, op_array, op_concatx}
use egel.Bytecode.Instr.{op_test, op_tag, op_fail, op_return}
use egel.Bytecode.Coder.{Code, Labels, find_label, Coder}
use egel.Bytecode.Fetch.{read, advance, fetch_i32}

-- `_labels[l]`, which enters a missing label at address 0.
unfoldable pub label_at : ℕ → Labels → Labels × ℕ
label_at l m = elim (find_label l m) [ none ↦ ((l, 0) ∷ m, 0) | some a ↦ (m, a) ]

-- The four bytes from `pc` on are overwritten.
unfoldable pub store_i32 : ℕ → ℕ → Code → Code
store_i32 n pc c =
    let c = set c (advance pc 0) (byte_at n 24) in
    let c = set c (advance pc 1) (byte_at n 16) in
    let c = set c (advance pc 2) (byte_at n 8) in set c (advance pc 3) (n % 256)

-- The case of `OP_FAIL`.
unfoldable pub relabel_fail : ℕ → Code → Labels → Outcome (ℕ × Code × Labels)
relabel_fail pc c m = do
  let pc = advance pc 1
  (l0, _) ← fetch_i32 c pc
  let (m', l1) = label_at l0 m
  ok (advance pc 4, store_i32 l1 pc c, m')

-- The cases of the `switch`.
unfoldable pub relabel_case : Option Opcode → ℕ → Code → Labels → Outcome (ℕ × Code × Labels)
relabel_case none pc c m = panic
relabel_case (some op_nil) pc c m = ok (advance pc (1 + 1 * 4), c, m)
relabel_case (some op_mov) pc c m = ok (advance pc (1 + 2 * 4), c, m)
relabel_case (some op_data) pc c m = ok (advance pc (1 + 1 * 4 + 4), c, m)
relabel_case (some op_set) pc c m = ok (advance pc (1 + 3 * 4), c, m)
relabel_case (some op_takex) pc c m = ok (advance pc (1 + 3 * 4 + 2), c, m)
relabel_case (some op_concatx) pc c m = ok (advance pc (1 + 3 * 4 + 2), c, m)
relabel_case (some op_split) pc c m = ok (advance pc (1 + 3 * 4), c, m)
relabel_case (some op_array) pc c m = ok (advance pc (1 + 3 * 4), c, m)
relabel_case (some op_test) pc c m = ok (advance pc (1 + 2 * 4), c, m)
relabel_case (some op_tag) pc c m = ok (advance pc (1 + 2 * 4), c, m)
relabel_case (some op_fail) pc c m = relabel_fail pc c m
relabel_case (some op_return) pc c m = ok (advance pc (1 + 1 * 4), c, m)

unfoldable pub relabel_step : ℕ → Code → Labels → Outcome (ℕ × Code × Labels)
relabel_step pc c m = do b ← read c pc; relabel_case (byte_opcode b) pc c m

unfoldable pub relabel_loop : ℕ → ℕ → Code → Labels → Outcome (Code × Labels)
relabel_loop zero pc c m = if ltb pc (length c) then out_of_fuel else ok (c, m)
relabel_loop (suc fuel) pc c m = elim (ltb pc (length c)) [
  | false ↦ ok (c, m)
  | true ↦ do (pc', c', m') ← relabel_step pc c m; relabel_loop fuel pc' c' m'
]

-- Each round moves on by five bytes at least, so as many rounds as there are bytes are enough.
unfoldable pub relabel : Coder → Outcome Coder
relabel k = do
  (c, m) ← relabel_loop (length k.code) 0 k.code k.labels
  ok (record k { code = c; labels = m })
