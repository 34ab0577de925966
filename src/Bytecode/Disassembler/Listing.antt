-- ===== src/Bytecode/Disassembler/Listing.antt =====
-- The disassembler lists what the coder wrote.
use egel.Prelude.{ℕ, zero, suc, ◌+◌, ◌^◌, ◌<◌, ◌≤◌, ◌≡◌, ap, arith, List, [], ◌∷◌}
use egel.Prelude.{
  length, drop, get_elem?, Option, none, some, true, false, length-drop, get_elem?_lt,
}
use egel.Prelude.Outcome.{ok, out_of_fuel}
use egel.Bytecode.Instr.{Instr, nil, opcode, opcode_byte, byte_opcode, size}
use egel.Bytecode.Instr.{encode, IsInstr, AreInstrs, byte_opcode-opcode_byte}
use egel.Bytecode.Coder.{Code, start}
use egel.Bytecode.Coder.Emit.{emit_all, emit_all-encode}
use egel.Bytecode.Fetch.{read, advance, fetch_i8}
use egel.Bytecode.Fetch.Operands.{drop-cons, behind, fetch_operands-operands}
use egel.Bytecode.Disassembler.{write_line, write_code, is_end}

-- The instructions of a program with their addresses.
unfoldable pub addressed : ℕ → List Instr → List (ℕ × Option Instr)
addressed pc [] = []
addressed pc (i ∷ p) = (pc, some i) ∷ addressed (pc + size i) p

pub behind-size : (i : Instr) (pc : ℕ) → behind i (suc pc) ≡ pc + size i
behind-size (nil x) pc = omega arith
behind-size _ pc = omega arith

-- At an instruction, `write_line` gives it and moves the counter to what follows.
pub write_line-encode :
    (i : Instr) (p : List Instr) (c : Code) (pc : ℕ)
    → length c < 2 ^ 32
    → IsInstr i
    → drop pc c ≡ encode (i ∷ p)
    → (write_line c pc ≡ ok (some i, pc + size i)) × (drop (pc + size i) c ≡ encode p)
write_line-encode i p c pc fits v h =
    let (at, next, lt) = drop-cons c pc _ _ h in
    let (fetched, rest) = fetch_operands-operands i c (suc pc) (encode p) fits v next in
    let moved : advance pc 1 ≡ suc pc = omega arith in
    let got : read c pc ≡ ok (opcode_byte (opcode i)) = unfold read in rw (at, read) in
    let opened : fetch_i8 c pc ≡ ok (opcode_byte (opcode i), suc pc) =
      unfold fetch_i8 in rw (got, moved) in
    (
      unfold write_line in
          rw (got, byte_opcode-opcode_byte (opcode i), opened, fetched, behind-size i pc),
      rw (← behind-size i pc) rest,
    )

drop-nil : (c : Code) (pc : ℕ) → drop pc c ≡ [] → length c ≤ pc
drop-nil c pc h = omega (arith, length-drop pc c, ap length h)

is_end-true : (c : Code) (pc : ℕ) → length c ≤ pc → is_end c pc ≡ true
unfolding is_end
is_end-true c pc h = ground arith

is_end-false : (c : Code) (pc : ℕ) → pc < length c → is_end c pc ≡ false
unfolding is_end
is_end-false c pc h = ground arith

write_code-encode :
    (p : List Instr) (fuel : ℕ) (c : Code) (pc : ℕ)
    → length c < 2 ^ 32
    → AreInstrs p
    → length p ≤ fuel
    → drop pc c ≡ encode p
    → write_code fuel c pc ≡ ok (addressed pc p)
unfolding write_code addressed
write_code-encode [] zero c pc fits v enough h = rw (is_end-true c pc (drop-nil c pc h), write_code)
write_code-encode [] (suc fuel) c pc fits v enough h =
    rw (is_end-true c pc (drop-nil c pc h), write_code)
write_code-encode (i ∷ p) zero c pc fits v enough h = elim enough [ ]
write_code-encode (i ∷ p) (suc fuel) c pc fits (hi, hp) enough h =
    let (_, _, lt) = drop-cons c pc _ _ h in
    let more = is_end-false c pc lt in
    let (line, next) = write_line-encode i p c pc fits hi h in
    rw (more, write_code)
      (rw (line, write_code-encode p fuel c (pc + size i) fits hp (omega arith) next))

-- The disassembler lists the code of any program that the coder was given, each instruction at its
-- address, where the operands fit their types and the code is shorter than 2 ^ 32 bytes.
pub write_code-emit_all :
    (p : List Instr)
    → AreInstrs p
    → length (emit_all p start).code < 2 ^ 32
    → write_code (length p) (emit_all p start).code 0 ≡ ok (addressed 0 p)
write_code-emit_all p v fits =
    write_code-encode p (length p) _ 0 fits v (omega arith) (emit_all-encode p v)

-- A byte that is no opcode holds the disassembler: the loop ends for no number of rounds.
pub write_code_unknown :
    (fuel : ℕ) (c : Code) (pc b : ℕ)
    → get_elem? c pc ≡ some b
    → byte_opcode b ≡ none
    → write_code fuel c pc ≡ out_of_fuel
unfolding write_code
write_code_unknown zero c pc b at unknown =
    rw (is_end-false c pc (get_elem?_lt c pc at), write_code)
write_code_unknown (suc fuel) c pc b at unknown =
    let more = is_end-false c pc (get_elem?_lt c pc at) in
    let got : read c pc ≡ ok b = unfold read in rw (at, read) in
    let line : write_line c pc ≡ ok (none, pc) = unfold write_line in rw (got, unknown) in
    rw (more, write_code) (rw (line, write_code_unknown fuel c pc b at unknown))
