-- ===== src/Bytecode/Coder.antt =====
-- `Coder` of src/bytecode.hpp: it appends instructions to a byte sequence, numbers labels and
-- registers, and keeps the data slots of a combinator. `Code` and `Data` are lists.
pub mod Emit
use egel.Prelude.{
  ℕ, ◌+◌, ◌-◌, ◌%◌, ◌^◌, Bool, List, [], ◌∷◌, ◌++◌, Option, none, some, length, ◌==◌,
}
use egel.Prelude.{if◌then◌else◌, byte_at}
use egel.Machine.DataTable.{DataTable, enter}
use egel.Bytecode.Instr.{Opcode, opcode_byte}
use egel.Bytecode.Instr.{op_nil, op_mov, op_data, op_set, op_takex, op_split, op_array, op_concatx}
use egel.Bytecode.Instr.{op_test, op_tag, op_fail, op_return}

abbrev pub Code : Type 0
Code = List ℕ

-- `std::map<label_t, uint32_t>`
abbrev pub Labels : Type 0
Labels = List (ℕ × ℕ)

unfoldable pub find_label : ℕ → Labels → Option ℕ
find_label l [] = none
find_label l ((k, a) ∷ m) = if k == l then some a else find_label l m

-- `_labels[l] = a`
unfoldable pub set_label : ℕ → ℕ → Labels → Labels
set_label l a m = (l, a) ∷ m

pub record Coder : Type 0 where
  pub code : Code
  pub data_slots : List ℕ
  pub label_counter : ℕ
  pub register_counter : ℕ
  pub index_counter : ℕ
  pub labels : Labels

-- The state after the constructor, and after `reset`.
abbrev pub start : Coder
start = record {
  code = [];
  data_slots = [];
  label_counter = 0;
  register_counter = 0;
  index_counter = 0;
  labels = [];
}

unfoldable pub reset : Coder → Coder
reset c = start

-- The counters are of type `int`; what is handed out has 32 bits.
unfoldable pub generate_label : Coder → Coder × ℕ
generate_label c = (record c { label_counter = c.label_counter + 1 }, c.label_counter % 2 ^ 32)

unfoldable pub generate_index : Coder → Coder × ℕ
generate_index c = (record c { index_counter = c.index_counter + 1 }, c.index_counter % 2 ^ 32)

unfoldable pub generate_register : Coder → Coder × ℕ
generate_register c =
    (record c { register_counter = c.register_counter + 1 }, c.register_counter % 2 ^ 32)

unfoldable pub peek_register : Coder → ℕ
peek_register c = c.register_counter % 2 ^ 32

unfoldable pub restore_register : ℕ → Coder → Coder
restore_register r c = record c { register_counter = r }

abbrev push_back : ℕ → Coder → Coder
push_back b c = record c { code = c.code ++ (b ∷ []) }

unfoldable pub emit_i8 : ℕ → Coder → Coder
emit_i8 b c = push_back (b % 256) c

unfoldable pub emit_i16 : ℕ → Coder → Coder
emit_i16 n c = push_back (n % 256) (push_back (byte_at n 8) c)

unfoldable pub emit_i32 : ℕ → Coder → Coder
emit_i32 n c =
    let c = push_back (byte_at n 24) c in
    let c = push_back (byte_at n 16) c in push_back (n % 256) (push_back (byte_at n 8) c)

unfoldable pub emit_op : Opcode → Coder → Coder
unfolding emit_i8
emit_op op = emit_i8 (opcode_byte op)

unfoldable pub emit_reg : ℕ → Coder → Coder
unfolding emit_i32
emit_reg r = emit_i32 r

unfoldable pub emit_lbl : ℕ → Coder → Coder
unfolding emit_i32
emit_lbl l = emit_i32 l

-- The index is cast to 16 bits.
unfoldable pub emit_idx : ℕ → Coder → Coder
unfolding emit_i16
emit_idx i = emit_i16 (i % 2 ^ 16)

unfoldable pub emit_op_nil : ℕ → Coder → Coder
unfolding emit_op emit_reg
emit_op_nil x c = emit_reg x (emit_op op_nil c)

unfoldable pub emit_op_mov : ℕ → ℕ → Coder → Coder
unfolding emit_op emit_reg
emit_op_mov x y c = emit_reg y (emit_reg x (emit_op op_mov c))

unfoldable pub emit_op_data : ℕ → ℕ → Coder → Coder
unfolding emit_op emit_reg emit_i32
emit_op_data x i c = emit_i32 i (emit_reg x (emit_op op_data c))

unfoldable pub emit_op_set : ℕ → ℕ → ℕ → Coder → Coder
unfolding emit_op emit_reg
emit_op_set x y z c = emit_reg z (emit_reg y (emit_reg x (emit_op op_set c)))

unfoldable pub emit_op_takex : ℕ → ℕ → ℕ → ℕ → Coder → Coder
unfolding emit_op emit_reg emit_idx
emit_op_takex x y z i c = emit_idx i (emit_reg z (emit_reg y (emit_reg x (emit_op op_takex c))))

unfoldable pub emit_op_split : ℕ → ℕ → ℕ → Coder → Coder
unfolding emit_op emit_reg
emit_op_split x y z c = emit_reg z (emit_reg y (emit_reg x (emit_op op_split c)))

unfoldable pub emit_op_array : ℕ → ℕ → ℕ → Coder → Coder
unfolding emit_op emit_reg
emit_op_array x y z c = emit_reg z (emit_reg y (emit_reg x (emit_op op_array c)))

unfoldable pub emit_op_concatx : ℕ → ℕ → ℕ → ℕ → Coder → Coder
unfolding emit_op emit_reg emit_idx
emit_op_concatx x y z i c = emit_idx i (emit_reg z (emit_reg y (emit_reg x (emit_op op_concatx c))))

unfoldable pub emit_op_test : ℕ → ℕ → Coder → Coder
unfolding emit_op emit_reg
emit_op_test x y c = emit_reg y (emit_reg x (emit_op op_test c))

unfoldable pub emit_op_tag : ℕ → ℕ → Coder → Coder
unfolding emit_op emit_reg
emit_op_tag x y c = emit_reg y (emit_reg x (emit_op op_tag c))

unfoldable pub emit_op_fail : ℕ → Coder → Coder
unfolding emit_op emit_lbl
emit_op_fail l c = emit_lbl l (emit_op op_fail c)

unfoldable pub emit_op_return : ℕ → Coder → Coder
unfolding emit_op emit_reg
emit_op_return x c = emit_reg x (emit_op op_return c)

-- `_code.size()` is kept in a `uint32_t`.
unfoldable pub emit_label : ℕ → Coder → Coder
unfolding set_label
emit_label l c = record c { labels = set_label l (length c.code % 2 ^ 32) c.labels }

-- `emit_data` enters the object into the machine's table, and always takes a new slot for it.
unfoldable pub emit_data :
    {A : Type 0} → (A → A → Bool) → A → DataTable A → Coder → DataTable A × Coder × ℕ
unfolding enter
emit_data less o t c =
    let (t', d) = enter less t o in
    let c' = record c { data_slots = c.data_slots ++ (d ∷ []) } in
    (t', c', (length c'.data_slots - 1) % 2 ^ 32)
