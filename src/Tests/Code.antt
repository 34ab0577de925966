-- ===== src/Tests/Code.antt =====
-- The theorems on the code of src/bytecode.hpp at concrete programs, frames and heaps.
use egel.Prelude.{
  ℕ, ◌+◌, ◌<◌, ◌≡◌, refl, arith, List, [], ◌∷◌, ◌++◌, map, length, drop, false, inl, if◌then◌else◌,
  ◌==◌, ltb, leb, ◌^◌,
}
use egel.Prelude.Int.{pos}
use egel.Prelude.Outcome.{ok, out_of_fuel}
use egel.Bytecode.Instr.{
  Instr, mov, fail, return, takex, split, concatx, encode, size, AreInstrs, opcode, operands,
  opcode_byte, byte_opcode,
}
use egel.Bytecode.Coder.{Coder, start, Labels, emit_label, emit_op_fail, emit_op_return, find_label}
use egel.Bytecode.Coder.Emit.{emit, emit_all, emit_all-encode}
use egel.Bytecode.Fetch.{fetch_operands, fetch_i32, read}
use egel.Bytecode.Fetch.Operands.{behind, fetch_operands-operands}
use egel.Bytecode.Disassembler.{write_code}
use egel.Bytecode.Disassembler.Listing.{addressed, write_code-emit_all, write_code_unknown}
use egel.Bytecode.Relabel.{
  relabel, label_at, store_i32, relabel_fail, relabel_case, relabel_step, relabel_loop,
}
use egel.Bytecode.Relabel.Resolve.{address, resolve, relabel-encode}
use egel.Bytecode.Relabel.Jumps.{Item, instr, instrs, items, emitted, emit_items, relabel-address}
use egel.Bytecode.Registers.{Registers, empty, get, put, get-put, IsValid, put-IsValid}
use egel.Bytecode.Reduce.{CodeData, Frame, continue, exec, step}
use egel.Bytecode.Reduce.Step.{step-encode, step_fail}
use egel.Bytecode.Reduce.Match.{Matched, split_lem, takex_lem}
use egel.Bytecode.Reduce.Concat.{Built, concatx_lem}
use egel.Machine.Object.{Value}
use egel.Machine.Object.{eq, members}

abbrev front : List Item
front = instr (fail 0) ∷ instr (return 1) ∷ []

abbrev back : List Item
back = instr (return 2) ∷ []

abbrev program : List Instr
program = fail 0 ∷ return 1 ∷ return 2 ∷ []

program-AreInstrs : AreInstrs program
program-AreInstrs = (omega arith, (omega arith, (omega arith, tt)))

emitted_size : length (emitted 0 front back).code < 2 ^ 32
unfolding emit_items emit_label emit emit_op_fail emit_op_return opcode_byte
emitted_size = omega arith

relabel-address_example :
    (k : Coder) × (relabel (emitted 0 front back) ≡ ok k)
    × (k.code ≡ encode (map (resolve (emitted 0 front back).labels) (instrs (items 0 front back))))
    × (drop (address (emitted 0 front back).labels 0) k.code
        ≡ encode (map (resolve (emitted 0 front back).labels) (instrs back)))
relabel-address_example = relabel-address 0 front back program-AreInstrs emitted_size tt

abbrev code_data : CodeData
code_data = record {
  slots = [];
  table = record { to = []; from = [] };
  fuel = 10;
  prims = record { float_less = ltb; opaque_compare = λ a b. eq };
}

-- Register 9 holds the array at address 0, register 8 the integer 7.
abbrev registers : Registers
registers = put (put empty 8 (Value.integer (pos 7))) 9 (Value.array 0)

registers-IsValid : IsValid registers
registers-IsValid =
    put-IsValid (put empty 8 (Value.integer (pos 7))) 9 (Value.array 0)
      (put-IsValid empty 8 (Value.integer (pos 7)) refl)

abbrev pair : List Value
pair = Value.char 97 ∷ Value.char 98 ∷ []

abbrev frame : Frame
frame = record { reg = registers; pc = 0; flag = false; heap = pair ∷ [] }

there : get registers 9 ≡ Value.array 0
unfolding get put
there = refl

held : members (pair ∷ []) 0 ≡ ok pair
unfolding members
held = refl

step-encode_example :
    (step code_data (encode program) frame
      ≡ exec code_data (fail 0) (record frame { pc = 0 + size (fail 0) }))
    × (drop (0 + size (fail 0)) (encode program) ≡ encode (return 1 ∷ return 2 ∷ []))
step-encode_example =
    step-encode code_data (encode program) frame (fail 0) (return 1 ∷ return 2 ∷ [])
      (unfold opcode_byte in omega arith) (omega arith) refl

-- The code of the program after its label was resolved.
abbrev resolved : List Instr
resolved = fail 10 ∷ return 1 ∷ return 2 ∷ []

abbrev coder : Coder
coder = record (emitted 0 front back) { code = encode resolved }

runs : relabel (emitted 0 front back) ≡ ok coder
unfolding emit_items emit_label emit emit_op_fail emit_op_return opcode_byte byte_opcode find_label
    label_at store_i32 relabel_fail relabel_case relabel_step relabel_loop relabel fetch_i32 read
    resolve address
runs = refl

at_fail : drop 0 coder.code ≡ encode (map (resolve (emitted 0 front back).labels) program)
unfolding emit_items emit_label emit emit_op_fail emit_op_return opcode_byte byte_opcode find_label
    label_at store_i32 relabel_fail relabel_case relabel_step relabel_loop relabel fetch_i32 read
    resolve address
at_fail = refl

step_fail_example :
    (n : ℕ) × (step code_data coder.code frame
      ≡ ok (continue (record frame { pc = n; flag = false })))
    × (drop n coder.code
        ≡ encode (
            map
              (resolve (emitted 0 front back).labels)
              (if frame.flag then return 1 ∷ return 2 ∷ [] else instrs back)))
step_fail_example =
    step_fail 0 front back coder code_data frame (return 1 ∷ return 2 ∷ []) program-AreInstrs
      emitted_size tt runs at_fail

split_lem_example :
    (g : Frame) × (exec code_data (split 1 2 9) frame ≡ ok (continue g))
    × Matched frame g 1 2 0 pair ((2 + 1) == (1 + length pair))
split_lem_example =
    split_lem code_data frame 1 2 9 0 pair registers-IsValid there held (omega arith) (omega arith)
      (omega arith)

takex_lem_example :
    (g : Frame) × (exec code_data (takex 1 1 9 1) frame ≡ ok (continue g))
    × Matched frame g 1 1 1 pair (leb (1 + 1 + 1) (1 + length pair))
takex_lem_example =
    takex_lem code_data frame 1 1 9 0 pair registers-IsValid there held (omega arith) (omega arith)
      (omega arith) 1 (omega arith)

concatx_lem_example :
    (g : Frame) × (exec code_data (concatx 1 9 9 1) frame ≡ ok (continue g))
    × Built frame g 1 (pair ++ drop 1 pair)
concatx_lem_example =
    concatx_lem code_data frame 1 9 9 1 0 pair pair registers-IsValid (inl (0, there, held)) there
      held

write_code-emit_all_example :
    write_code (length program) (emit_all program start).code 0 ≡ ok (addressed 0 program)
write_code-emit_all_example =
    write_code-emit_all program program-AreInstrs
      (rw (emit_all-encode program program-AreInstrs) (unfold opcode_byte in omega arith))

relabel-encode_example :
    (m : Labels) × (relabel (record start { code = encode program; labels = (0, 10) ∷ [] })
      ≡ ok (record start { code = encode (map (resolve ((0, 10) ∷ [])) program); labels = m }))
relabel-encode_example =
    relabel-encode program (record start { code = encode program; labels = (0, 10) ∷ [] }) refl
      program-AreInstrs (unfold opcode_byte in omega arith)

emit_all-encode_example : (emit_all program start).code ≡ encode program
emit_all-encode_example = emit_all-encode program program-AreInstrs

fetch_operands-operands_example :
    (fetch_operands (opcode (mov 3 4)) (operands (mov 3 4) []) 0 ≡ ok (mov 3 4, behind (mov 3 4) 0))
    × (drop (behind (mov 3 4) 0) (operands (mov 3 4) []) ≡ [])
fetch_operands-operands_example =
    fetch_operands-operands (mov 3 4) (operands (mov 3 4) []) 0 [] (omega arith)
      (omega arith, omega arith) refl

get-put_example :
    get (put registers 70 (Value.char 97)) 9 ≡ (if 70 == 9 then Value.char 97 else get registers 9)
get-put_example = get-put registers 70 9 (Value.char 97) registers-IsValid

write_code_unknown_example : write_code 5 (12 ∷ []) 0 ≡ out_of_fuel
write_code_unknown_example = write_code_unknown 5 (12 ∷ []) 0 12 refl (unfold byte_opcode in refl)

program_size : length (emit_all program start).code < 2 ^ 32
unfolding emit_all emit emit_op_fail emit_op_return opcode_byte
program_size = omega arith
