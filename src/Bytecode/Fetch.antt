-- ===== src/Bytecode/Fetch.antt =====
-- The FETCH macros of src/bytecode.hpp, and the same reads of `Disassembler`: they read a number
-- at the program counter and move it on. The counter has 32 bits.
pub mod Operands
use egel.Prelude.{ℕ, ◌+◌, ◌%◌, ◌^◌, Option, none, some, get_elem?, join_u32, join_u16}
use egel.Prelude.Outcome.{Outcome, ok, out_of_range, ◌>>=◌}
use egel.Bytecode.Instr.{Opcode, Instr}
use egel.Bytecode.Instr.{op_nil, op_mov, op_data, op_set, op_takex, op_split, op_array, op_concatx}
use egel.Bytecode.Instr.{op_test, op_tag, op_fail, op_return, nil, mov, datum, set_at, takex, split}
use egel.Bytecode.Instr.{array, concatx, test, tag, fail, return}
use egel.Bytecode.Coder.{Code}

-- `c[pc]`
unfoldable pub read : Code → ℕ → Outcome ℕ
read c pc = elim (get_elem? c pc) [ none ↦ out_of_range | some b ↦ ok b ]

abbrev pub advance : ℕ → ℕ → ℕ
advance pc n = (pc + n) % 2 ^ 32

unfoldable pub fetch_i8 : Code → ℕ → Outcome (ℕ × ℕ)
fetch_i8 c pc = do a ← read c pc; ok (a, advance pc 1)

unfoldable pub fetch_i16 : Code → ℕ → Outcome (ℕ × ℕ)
fetch_i16 c pc = do a ← read c pc; b ← read c (advance pc 1); ok (join_u16 a b, advance pc 2)

unfoldable pub fetch_i32 : Code → ℕ → Outcome (ℕ × ℕ)
fetch_i32 c pc = do
  a ← read c pc
  b ← read c (advance pc 1)
  d ← read c (advance pc 2)
  e ← read c (advance pc 3)
  ok (join_u32 a b d e, advance pc 4)

fetch_two : (ℕ → ℕ → Instr) → Code → ℕ → Outcome (Instr × ℕ)
fetch_two make c pc = do (x, pc) ← fetch_i32 c pc; (y, pc) ← fetch_i32 c pc; ok (make x y, pc)

fetch_three : (ℕ → ℕ → ℕ → Instr) → Code → ℕ → Outcome (Instr × ℕ)
fetch_three make c pc = do
  (x, pc) ← fetch_i32 c pc
  (y, pc) ← fetch_i32 c pc
  (z, pc) ← fetch_i32 c pc
  ok (make x y z, pc)

fetch_indexed : (ℕ → ℕ → ℕ → ℕ → Instr) → Code → ℕ → Outcome (Instr × ℕ)
fetch_indexed make c pc = do
  (x, pc) ← fetch_i32 c pc
  (y, pc) ← fetch_i32 c pc
  (z, pc) ← fetch_i32 c pc
  (i, pc) ← fetch_i16 c pc
  ok (make x y z i, pc)

fetch_one : (ℕ → Instr) → Code → ℕ → Outcome (Instr × ℕ)
fetch_one make c pc = do (x, pc) ← fetch_i32 c pc; ok (make x, pc)

-- The operands that a case of the `switch` fetches, in the order in which it does.
unfoldable pub fetch_operands : Opcode → Code → ℕ → Outcome (Instr × ℕ)
unfolding fetch_one fetch_two fetch_three fetch_indexed
fetch_operands op_nil = fetch_one nil
fetch_operands op_mov = fetch_two mov
fetch_operands op_data = fetch_two datum
fetch_operands op_set = fetch_three set_at
fetch_operands op_takex = fetch_indexed takex
fetch_operands op_split = fetch_three split
fetch_operands op_array = fetch_three array
fetch_operands op_concatx = fetch_indexed concatx
fetch_operands op_test = fetch_two test
fetch_operands op_tag = fetch_two tag
fetch_operands op_fail = fetch_one fail
fetch_operands op_return = fetch_one return
