-- ===== src/Bytecode/Reduce/Step.antt =====
-- The interpreter over bytes acts as the instructions that the bytes stand for.
use egel.Prelude.{ℕ, suc, ◌+◌, ◌^◌, ◌<◌, ◌≡◌, arith, List, ◌∷◌, map}
use egel.Prelude.{length, drop, Bool, true, false, if◌then◌else◌}
use egel.Prelude.Outcome.{ok}
use egel.Bytecode.Instr.{Instr, fail, opcode, opcode_byte, size, encode, IsInstr, AreInstrs}
use egel.Bytecode.Instr.{byte_opcode-opcode_byte}
use egel.Bytecode.Coder.{Code, Coder, Labels}
use egel.Bytecode.Disassembler.Listing.{behind-size}
use egel.Bytecode.Fetch.{read, advance, fetch_i8}
use egel.Bytecode.Fetch.Operands.{drop-cons, fetch_operands-operands}
use egel.Bytecode.Relabel.{relabel}
use egel.Bytecode.Relabel.Resolve.{address, resolve}
use egel.Bytecode.Relabel.Jumps.{Item, instrs, Lacks, items, emitted, relabel-address}
use egel.Bytecode.Relabel.Jumps.{address_fits, resolved_fits}
use egel.Bytecode.Reduce.{CodeData, Frame, continue, exec, step}

-- Where the counter stands at an instruction, a round of the interpreter is the action of that
-- instruction, with the counter moved behind it, and what follows stands at the counter then.
pub step-encode :
    (d : CodeData) (c : Code) (f : Frame) (i : Instr) (p : List Instr)
    → length c < 2 ^ 32
    → IsInstr i
    → drop f.pc c ≡ encode (i ∷ p)
    → (step d c f ≡ exec d i (record f { pc = f.pc + size i }))
      × (drop (f.pc + size i) c ≡ encode p)
step-encode d c f i p fits v h =
    let (at, next, lt) = drop-cons c f.pc _ _ h in
    let (fetched, rest) = fetch_operands-operands i c (suc f.pc) (encode p) fits v next in
    let moved : advance f.pc 1 ≡ suc f.pc = omega arith in
    let got : read c f.pc ≡ ok (opcode_byte (opcode i)) = unfold read in rw (at, read) in
    let opened : fetch_i8 c f.pc ≡ ok (opcode_byte (opcode i), suc f.pc) =
      unfold fetch_i8 in rw (got, moved) in
    (
      unfold step in rw (opened, byte_opcode-opcode_byte (opcode i), fetched, behind-size i f.pc),
      rw (← behind-size i f.pc) rest,
    )

branch_drop :
    (b : Bool) (m : Labels) (c : Code) (n a : ℕ) (p q : List Instr)
    → drop n c ≡ encode (map (resolve m) p)
    → drop a c ≡ encode (map (resolve m) q)
    → drop (if b then n else a) c ≡ encode (map (resolve m) (if b then p else q))
branch_drop true m c n a p q h g = h
branch_drop false m c n a p q h g = g

-- In relabelled code a `fail` to a label that was emitted, where the flag is down, leads to the
-- code of what was emitted behind the label; where the flag is up the run goes on behind the
-- `fail`. Either way the flag is down afterwards, and nothing else has changed.
pub step_fail :
    (l : ℕ) (front back : List Item) (k : Coder) (d : CodeData) (f : Frame) (p : List Instr)
    → AreInstrs (instrs (items l front back))
    → length (emitted l front back).code < 2 ^ 32
    → Lacks l back
    → relabel (emitted l front back) ≡ ok k
    → drop f.pc k.code ≡ encode (map (resolve (emitted l front back).labels) (fail l ∷ p))
    → (n : ℕ) × (step d k.code f ≡ ok (continue (record f { pc = n; flag = false })))
      × (drop n k.code
          ≡ encode
              (map (resolve (emitted l front back).labels) (if f.flag then p else instrs back)))
unfolding exec
step_fail l front back k d f p v fits last run h =
    let (k', run', code, jumps) = relabel-address l front back v fits last in
    let same : k' ≡ k = cc in
    let m : Labels = (emitted l front back).labels in
    let small : length k.code < 2 ^ 32 =
      rw (← same, code) (resolved_fits l front back v fits last) in
    let (acts, next) =
      step-encode d k.code f (fail (address m l)) (map (resolve m) p) small
        (address_fits l front back v fits last) (unfold resolve in h) in
    let jumps' : drop (address m l) k.code ≡ encode (map (resolve m) (instrs back)) =
      rw (← same) jumps in
    (
      (if f.flag then f.pc + 5 else address m l),
      acts,
      branch_drop f.flag m k.code _ _ p (instrs back) next jumps',
    )
