-- ===== src/Bytecode/Disassembler.antt =====
-- The code section of `Disassembler::write` in src/bytecode.hpp. A line of output is its address
-- and the instruction that was read there; how the numbers are printed is not modelled.
pub mod Listing
use Prim.Native.String.{String}
use egel.Prelude.{ℕ, zero, suc, Bool, true, false, List, [], ◌∷◌, Option, none, some, length, leb}
use egel.Prelude.{if◌then◌else◌}
use egel.Prelude.Outcome.{Outcome, ok, out_of_fuel, ◌>>=◌}
use egel.Bytecode.Instr.{Opcode, Instr, byte_opcode}
use egel.Bytecode.Instr.{op_nil, op_mov, op_data, op_set, op_takex, op_split, op_array, op_concatx}
use egel.Bytecode.Instr.{op_test, op_tag, op_fail, op_return}
use egel.Bytecode.Coder.{Code}
use egel.Bytecode.Fetch.{read, fetch_i8, fetch_operands}

-- The table of mnemonics.
unfoldable pub opcode_to_text : Opcode → String
opcode_to_text op_nil = "nil"
opcode_to_text op_mov = "mov"
opcode_to_text op_data = "data"
opcode_to_text op_set = "set"
opcode_to_text op_takex = "takex"
opcode_to_text op_split = "split"
opcode_to_text op_array = "array"
opcode_to_text op_concatx = "concatx"
opcode_to_text op_test = "test"
opcode_to_text op_tag = "tag"
opcode_to_text op_fail = "fail"
opcode_to_text op_return = "return"

unfoldable pub is_end : Code → ℕ → Bool
is_end c pc = leb (length c) pc

-- The cases of the `switch`. A byte that is no opcode matches no case, and nothing is fetched.
unfoldable pub write_case : Option Opcode → Code → ℕ → Outcome (Option Instr × ℕ)
write_case none c pc = ok (none, pc)
write_case (some op) c pc = do
  (_, pc) ← fetch_i8 c pc
  (i, pc) ← fetch_operands op c pc
  ok (some i, pc)

-- One round of the loop.
unfoldable pub write_line : Code → ℕ → Outcome (Option Instr × ℕ)
unfolding write_case
write_line c pc = do b ← read c pc; write_case (byte_opcode b) c pc

unfoldable pub write_code : ℕ → Code → ℕ → Outcome (List (ℕ × Option Instr))
write_code zero c pc = if is_end c pc then ok [] else out_of_fuel
write_code (suc fuel) c pc = elim (is_end c pc) [
  | true ↦ ok []
  | false ↦ do (i, next) ← write_line c pc; rest ← write_code fuel c next; ok ((pc, i) ∷ rest)
]
