-- ===== src/Tests/Runs.antt =====
-- A run of the interpreter of src/bytecode.hpp on code that was emitted and relabelled.
use egel.Prelude.{ltb, [], ◌∷◌, ◌≡◌, refl}
use egel.Prelude.Outcome.{Outcome, ok, ◌>>=◌}
use egel.Bytecode.Instr.{opcode_byte, byte_opcode}
use egel.Bytecode.Coder.{
  Coder, start, emit_label, emit_op_fail, emit_op_return, emit_op_split, emit_op_concatx,
  find_label,
}
use egel.Bytecode.Fetch.{fetch_operands, fetch_i8, fetch_i16, fetch_i32, read}
use egel.Bytecode.Relabel.{
  relabel, label_at, store_i32, relabel_fail, relabel_case, relabel_step, relabel_loop,
}
use egel.Bytecode.Registers.{get, put, find_register}
use egel.Bytecode.Reduce.{
  CodeData, at, load_range, exec_take, exec_split, concat_copy, concat_value, concat_case,
  exec_fail, exec, step_case, step, entry, reduce,
}
use egel.Machine.Object.{Value, Heap, eq, members, is_array}

-- A pair is taken apart and built again; anything else is given back.
coder : Coder
unfolding emit_label emit_op_fail emit_op_return emit_op_split emit_op_concatx opcode_byte
coder = emit_op_return 0 (
    emit_label 0
      (emit_op_return 3 (emit_op_concatx 3 1 0 1 (emit_op_fail 0 (emit_op_split 1 2 0 start)))))

abbrev code_data : CodeData
code_data = record {
  slots = [];
  table = record { to = []; from = [] };
  fuel = 10;
  prims = record { float_less = ltb; opaque_compare = λ a b. eq };
}

run : Value → Heap → Outcome (Value × Heap)
unfolding coder relabel relabel_loop relabel_step relabel_case relabel_fail label_at store_i32
    find_label byte_opcode opcode_byte fetch_operands fetch_i8 fetch_i16 fetch_i32 read get put
    find_register at load_range exec_take exec_split concat_copy concat_value concat_case exec_fail
    exec step_case step reduce members is_array
run v h = do k ← relabel coder; reduce 10 code_data k.code (entry v h)

pair_run :
    run (Value.array 0) ((Value.char 97 ∷ Value.char 98 ∷ []) ∷ [])
    ≡ ok (
      Value.array 1,
      (Value.char 97 ∷ Value.char 98 ∷ []) ∷ (Value.char 97 ∷ Value.char 98 ∷ []) ∷ [],
    )
unfolding run
pair_run = refl

char_run : run (Value.char 97) [] ≡ ok (Value.char 97, [])
unfolding run
char_run = refl
