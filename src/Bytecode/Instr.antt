-- ===== src/Bytecode/Instr.antt =====
-- The instruction set of src/bytecode.hpp (`opcode_t` and the operand table above it).
use egel.Prelude.{ℕ, zero, suc, ◌+◌, ◌≡◌, refl, Option, none, some, List, [], ◌∷◌, ◌++◌, length}
use egel.Prelude.{IsU16, IsU32, byte_at, arith, ◌%◌}

pub data Opcode : Type 0 where
  op_nil op_mov op_data op_set op_takex op_split op_array op_concatx op_test : Opcode
  op_tag op_fail op_return : Opcode

-- The value of an enumerator.
unfoldable pub opcode_byte : Opcode → ℕ
opcode_byte op_nil = 0
opcode_byte op_mov = 1
opcode_byte op_data = 2
opcode_byte op_set = 3
opcode_byte op_takex = 4
opcode_byte op_split = 5
opcode_byte op_array = 6
opcode_byte op_concatx = 7
opcode_byte op_test = 8
opcode_byte op_tag = 9
opcode_byte op_fail = 10
opcode_byte op_return = 11

-- The case of a `switch` on a byte of code that is taken, if one is.
unfoldable pub byte_opcode : ℕ → Option Opcode
byte_opcode zero = some op_nil
byte_opcode (suc zero) = some op_mov
byte_opcode (suc (suc zero)) = some op_data
byte_opcode (suc (suc (suc zero))) = some op_set
byte_opcode (suc (suc (suc (suc zero)))) = some op_takex
byte_opcode (suc (suc (suc (suc (suc zero))))) = some op_split
byte_opcode (suc (suc (suc (suc (suc (suc zero)))))) = some op_array
byte_opcode (suc (suc (suc (suc (suc (suc (suc zero))))))) = some op_concatx
byte_opcode (suc (suc (suc (suc (suc (suc (suc (suc zero)))))))) = some op_test
byte_opcode (suc (suc (suc (suc (suc (suc (suc (suc (suc zero))))))))) = some op_tag
byte_opcode (suc (suc (suc (suc (suc (suc (suc (suc (suc (suc zero)))))))))) = some op_fail
byte_opcode (suc (suc (suc (suc (suc (suc (suc (suc (suc (suc (suc zero))))))))))) = some op_return
byte_opcode (suc (suc (suc (suc (suc (suc (suc (suc (suc (suc (suc (suc n)))))))))))) = none

pub byte_opcode-opcode_byte : (o : Opcode) → byte_opcode (opcode_byte o) ≡ some o
unfolding byte_opcode opcode_byte
byte_opcode-opcode_byte op_nil = refl
byte_opcode-opcode_byte _ = refl

-- An instruction with its operands: registers, an index, a data slot or a label.
pub data Instr : Type 0 where
  nil : (x : ℕ) → Instr
  mov : (x y : ℕ) → Instr
  datum : (x i : ℕ) → Instr
  set_at : (x y z : ℕ) → Instr
  takex : (x y z i : ℕ) → Instr
  split : (x y z : ℕ) → Instr
  array : (x y z : ℕ) → Instr
  concatx : (x y z i : ℕ) → Instr
  test : (x y : ℕ) → Instr
  tag : (x y : ℕ) → Instr
  fail : (l : ℕ) → Instr
  return : (x : ℕ) → Instr

abbrev pub opcode : Instr → Opcode
opcode (nil x) = op_nil
opcode (mov x y) = op_mov
opcode (datum x i) = op_data
opcode (set_at x y z) = op_set
opcode (takex x y z i) = op_takex
opcode (split x y z) = op_split
opcode (array x y z) = op_array
opcode (concatx x y z i) = op_concatx
opcode (test x y) = op_test
opcode (tag x y) = op_tag
opcode (fail l) = op_fail
opcode (return x) = op_return

-- The operands fit their types: `reg_t`, `uint32_t` and `label_t` have 32 bits, `index_t` has 16.
abbrev pub IsInstr : Instr → Type 0
IsInstr (nil x) = IsU32 x
IsInstr (mov x y) = IsU32 x × IsU32 y
IsInstr (datum x i) = IsU32 x × IsU32 i
IsInstr (set_at x y z) = IsU32 x × IsU32 y × IsU32 z
IsInstr (takex x y z i) = IsU32 x × IsU32 y × IsU32 z × IsU16 i
IsInstr (split x y z) = IsU32 x × IsU32 y × IsU32 z
IsInstr (array x y z) = IsU32 x × IsU32 y × IsU32 z
IsInstr (concatx x y z i) = IsU32 x × IsU32 y × IsU32 z × IsU16 i
IsInstr (test x y) = IsU32 x × IsU32 y
IsInstr (tag x y) = IsU32 x × IsU32 y
IsInstr (fail l) = IsU32 l
IsInstr (return x) = IsU32 x

-- The byte format: the opcode, then each operand with its highest byte first.
abbrev pub i16 : ℕ → List ℕ → List ℕ
i16 n rest = byte_at n 8 ∷ (n % 256) ∷ rest

abbrev pub i32 : ℕ → List ℕ → List ℕ
i32 n rest = byte_at n 24 ∷ byte_at n 16 ∷ byte_at n 8 ∷ (n % 256) ∷ rest

-- The operands of an instruction, in front of `rest`.
abbrev pub operands : Instr → List ℕ → List ℕ
operands (nil x) rest = i32 x rest
operands (mov x y) rest = i32 x (i32 y rest)
operands (datum x i) rest = i32 x (i32 i rest)
operands (set_at x y z) rest = i32 x (i32 y (i32 z rest))
operands (takex x y z i) rest = i32 x (i32 y (i32 z (i16 i rest)))
operands (split x y z) rest = i32 x (i32 y (i32 z rest))
operands (array x y z) rest = i32 x (i32 y (i32 z rest))
operands (concatx x y z i) rest = i32 x (i32 y (i32 z (i16 i rest)))
operands (test x y) rest = i32 x (i32 y rest)
operands (tag x y) rest = i32 x (i32 y rest)
operands (fail l) rest = i32 l rest
operands (return x) rest = i32 x rest

-- The number of bytes of an instruction.
abbrev pub size : Instr → ℕ
size (nil x) = 5
size (mov x y) = 9
size (datum x i) = 9
size (set_at x y z) = 13
size (takex x y z i) = 15
size (split x y z) = 13
size (array x y z) = 13
size (concatx x y z i) = 15
size (test x y) = 9
size (tag x y) = 9
size (fail l) = 5
size (return x) = 5

-- The bytes of a program.
abbrev pub encode : List Instr → List ℕ
encode [] = []
encode (i ∷ p) = opcode_byte (opcode i) ∷ operands i (encode p)

abbrev pub AreInstrs : List Instr → Type 0
AreInstrs [] = Unit
AreInstrs (i ∷ p) = IsInstr i × AreInstrs p

pub length-encode-cons :
    (i : Instr) (p : List Instr) → length (encode (i ∷ p)) ≡ size i + length (encode p)
length-encode-cons (nil x) p = omega arith
length-encode-cons _ p = omega arith

pub operands-append : (i : Instr) (xs ys : List ℕ) → operands i xs ++ ys ≡ operands i (xs ++ ys)
operands-append (nil x) xs ys = refl
operands-append _ xs ys = refl

pub encode-append : (p q : List Instr) → encode (p ++ q) ≡ encode p ++ encode q
encode-append [] q = refl
encode-append (i ∷ p) q = simp (encode-append p q, operands-append)
