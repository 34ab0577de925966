-- ===== src/Bytecode/Fetch/Operands.antt =====
-- Fetching reads back what the byte format holds at the program counter.
use egel.Prelude.{ℕ, zero, suc, ◌+◌, ◌-◌, ◌%◌, ◌^◌, ◌<◌, ◌≡◌, refl, arith, [], ◌∷◌}
use egel.Prelude.{byte_at, join_u32, join_u16, join_u32-byte_at, join_u16-byte_at}
use egel.Prelude.{length, drop, get_elem?, some, IsU16, IsU32}
use egel.Prelude.Outcome.{Outcome, ok}
use egel.Bytecode.Instr.{Instr, nil, mov, datum, set_at, takex, split, array, concatx}
use egel.Bytecode.Instr.{test, tag, fail, return, opcode, operands, size, i16, i32, IsInstr}
use egel.Bytecode.Coder.{Code}
use egel.Bytecode.Fetch.{read, advance, fetch_i16, fetch_i32, fetch_operands}
use egel.Bytecode.Fetch.{fetch_one, fetch_two, fetch_three, fetch_indexed}

pub drop-cons :
    (c : Code) (pc b : ℕ) (rest : Code)
    → drop pc c ≡ b ∷ rest
    → (get_elem? c pc ≡ some b) × (drop (suc pc) c ≡ rest) × (pc < length c)
drop-cons [] zero b rest h = cc
drop-cons [] (suc pc) b rest h = cc
drop-cons (x ∷ c) zero b rest h = (cc, cc, omega arith)
drop-cons (x ∷ c) (suc pc) b rest h =
    let (at, next, lt) = drop-cons c pc b rest h in (at, next, omega arith)

-- `pc'` is the counter as the code computes it.
read-drop :
    (c : Code) (pc pc' b : ℕ) (rest : Code)
    → length c < 2 ^ 32
    → drop pc c ≡ b ∷ rest
    → pc' ≡ pc
    → (read c pc' ≡ ok b) × (drop (suc pc) c ≡ rest) × (pc < length c)
unfolding read
read-drop c pc pc' b rest fits h e =
    let (at, next, lt) = drop-cons c pc b rest h in (rw (e, read) (rw (at, read)), next, lt)

pub fetch_i32-drop :
    (c : Code) (pc n : ℕ) (rest : Code)
    → length c < 2 ^ 32
    → IsU32 n
    → drop pc c ≡ i32 n rest
    → (fetch_i32 c pc ≡ ok (n, pc + 4)) × (drop (pc + 4) c ≡ rest)
fetch_i32-drop c pc n rest fits hn h =
    let (a, h1, l1) = read-drop c pc pc _ _ fits h refl in
    let (b, h2, l2) = read-drop c (suc pc) (advance pc 1) _ _ fits h1 (omega arith) in
    let (d, h3, l3) = read-drop c (suc (suc pc)) (advance pc 2) _ _ fits h2 (omega arith) in
    let (e, h4, l4) = read-drop c (suc (suc (suc pc))) (advance pc 3) _ _ fits h3 (omega arith) in
    let last : pc + 4 ≡ suc (suc (suc (suc pc))) = omega arith in
    let moved : advance pc 4 ≡ pc + 4 = omega arith in
    let word : ℕ = join_u32 (byte_at n 24) (byte_at n 16) (byte_at n 8) (n % 256) in
    let joined : ◌≡◌ {A = Outcome (ℕ × ℕ)} (ok (word, advance pc 4)) (ok (n, pc + 4)) =
      rw (join_u32-byte_at n hn, moved) in
    (unfold fetch_i32 in rw (a, b, d, e) joined, rw last h4)

fetch_i16-drop :
    (c : Code) (pc n : ℕ) (rest : Code)
    → length c < 2 ^ 32
    → IsU16 n
    → drop pc c ≡ i16 n rest
    → (fetch_i16 c pc ≡ ok (n, pc + 2)) × (drop (pc + 2) c ≡ rest)
fetch_i16-drop c pc n rest fits hn h =
    let (a, h1, l1) = read-drop c pc pc _ _ fits h refl in
    let (b, h2, l2) = read-drop c (suc pc) (advance pc 1) _ _ fits h1 (omega arith) in
    let last : pc + 2 ≡ suc (suc pc) = omega arith in
    let moved : advance pc 2 ≡ pc + 2 = omega arith in
    let joined : ◌≡◌ {A = Outcome (ℕ × ℕ)} (ok (join_u16 (byte_at n 8) (n % 256), advance pc 2))
        (ok (n, pc + 2)) =
      rw (join_u16-byte_at n hn, moved) in
    (unfold fetch_i16 in rw (a, b) joined, rw last h2)

module _ (c : Code) (pc : ℕ) (rest : Code) (fits : length c < 2 ^ 32) where
  fetch_one-drop :
      (make : ℕ → Instr) (x : ℕ)
      → IsU32 x
      → drop pc c ≡ i32 x rest
      → (fetch_one make c pc ≡ ok (make x, pc + 4)) × (drop (pc + 4) c ≡ rest)
  fetch_one-drop make x hx h =
      let (a, h1) = fetch_i32-drop c pc x rest fits hx h in (unfold fetch_one in rw a, h1)

  fetch_two-drop :
      (make : ℕ → ℕ → Instr) (x y : ℕ)
      → IsU32 x × IsU32 y
      → drop pc c ≡ i32 x (i32 y rest)
      → (fetch_two make c pc ≡ ok (make x y, pc + 8)) × (drop (pc + 8) c ≡ rest)
  fetch_two-drop make x y (hx, hy) h =
      let (a, h1) = fetch_i32-drop c pc x _ fits hx h in
      let (b, h2) = fetch_i32-drop c (pc + 4) y _ fits hy h1 in
      let last : pc + 8 ≡ pc + 4 + 4 = omega arith in
      (unfold fetch_two in rw (a, b, last), rw last h2)

  fetch_three-drop :
      (make : ℕ → ℕ → ℕ → Instr) (x y z : ℕ)
      → IsU32 x × IsU32 y × IsU32 z
      → drop pc c ≡ i32 x (i32 y (i32 z rest))
      → (fetch_three make c pc ≡ ok (make x y z, pc + 12)) × (drop (pc + 12) c ≡ rest)
  fetch_three-drop make x y z (hx, hy, hz) h =
      let (a, h1) = fetch_i32-drop c pc x _ fits hx h in
      let (b, h2) = fetch_i32-drop c (pc + 4) y _ fits hy h1 in
      let (d, h3) = fetch_i32-drop c (pc + 4 + 4) z _ fits hz h2 in
      let last : pc + 12 ≡ pc + 4 + 4 + 4 = omega arith in
      (unfold fetch_three in rw (a, b, d, last), rw last h3)

  fetch_indexed-drop :
      (make : ℕ → ℕ → ℕ → ℕ → Instr) (x y z i : ℕ)
      → IsU32 x × IsU32 y × IsU32 z × IsU16 i
      → drop pc c ≡ i32 x (i32 y (i32 z (i16 i rest)))
      → (fetch_indexed make c pc ≡ ok (make x y z i, pc + 14)) × (drop (pc + 14) c ≡ rest)
  fetch_indexed-drop make x y z i (hx, hy, hz, hi) h =
      let (a, h1) = fetch_i32-drop c pc x _ fits hx h in
      let (b, h2) = fetch_i32-drop c (pc + 4) y _ fits hy h1 in
      let (d, h3) = fetch_i32-drop c (pc + 4 + 4) z _ fits hz h2 in
      let (e, h4) = fetch_i16-drop c (pc + 4 + 4 + 4) i _ fits hi h3 in
      let last : pc + 14 ≡ pc + 4 + 4 + 4 + 2 = omega arith in
      (unfold fetch_indexed in rw (a, b, d, e, last), rw last h4)

-- Where the counter stands after the operands.
abbrev pub behind : Instr → ℕ → ℕ
behind i pc = pc + (size i - 1)

-- Fetching the operands of an instruction that stands at the counter gives the instruction, and
-- leaves the counter behind it.
pub fetch_operands-operands :
    (i : Instr) (c : Code) (pc : ℕ) (rest : Code)
    → length c < 2 ^ 32
    → IsInstr i
    → drop pc c ≡ operands i rest
    → (fetch_operands (opcode i) c pc ≡ ok (i, behind i pc)) × (drop (behind i pc) c ≡ rest)
unfolding fetch_operands
fetch_operands-operands (nil x) c pc rest f v h = fetch_one-drop c pc rest f nil x v h
fetch_operands-operands (mov x y) c pc rest f v h = fetch_two-drop c pc rest f mov x y v h
fetch_operands-operands (datum x i) c pc rest f v h = fetch_two-drop c pc rest f datum x i v h
fetch_operands-operands (set_at x y z) c pc rest f v h =
    fetch_three-drop c pc rest f set_at x y z v h
fetch_operands-operands (takex x y z i) c pc rest f v h =
    fetch_indexed-drop c pc rest f takex x y z i v h
fetch_operands-operands (split x y z) c pc rest f v h = fetch_three-drop c pc rest f split x y z v h
fetch_operands-operands (array x y z) c pc rest f v h = fetch_three-drop c pc rest f array x y z v h
fetch_operands-operands (concatx x y z i) c pc rest f v h =
    fetch_indexed-drop c pc rest f concatx x y z i v h
fetch_operands-operands (test x y) c pc rest f v h = fetch_two-drop c pc rest f test x y v h
fetch_operands-operands (tag x y) c pc rest f v h = fetch_two-drop c pc rest f tag x y v h
fetch_operands-operands (fail l) c pc rest f v h = fetch_one-drop c pc rest f fail l v h
fetch_operands-operands (return x) c pc rest f v h = fetch_one-drop c pc rest f return x v h
