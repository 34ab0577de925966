-- ===== src/Bytecode/Coder/Emit.antt =====
-- The coder writes the byte format of src/bytecode.hpp: what each `emit_op_*` appends.
use egel.Prelude.{◌≡◌, List, [], ◌∷◌, ◌++◌, append_assoc, ap, ◌%◌, ◌^◌, arith, ◌∙◌, append-nil}
use egel.Bytecode.Instr.{
  Instr, nil, mov, datum, set_at, takex, split, array, concatx, test, tag, fail,
}
use egel.Bytecode.Instr.{return, encode, IsInstr, AreInstrs, opcode_byte, encode-append}
use egel.Bytecode.Coder.{
  Coder, start, emit_op_nil, emit_op_mov, emit_op_data, emit_op_set, emit_op_takex,
}
use egel.Bytecode.Coder.{emit_op_split, emit_op_array, emit_op_concatx, emit_op_test, emit_op_tag}
use egel.Bytecode.Coder.{emit_op_fail, emit_op_return}

-- The call that emits an instruction.
unfoldable pub emit : Instr → Coder → Coder
unfolding emit_op_nil emit_op_mov emit_op_data emit_op_set emit_op_takex emit_op_split emit_op_array
    emit_op_concatx emit_op_test emit_op_tag emit_op_fail emit_op_return
emit (nil x) = emit_op_nil x
emit (mov x y) = emit_op_mov x y
emit (datum x i) = emit_op_data x i
emit (set_at x y z) = emit_op_set x y z
emit (takex x y z i) = emit_op_takex x y z i
emit (split x y z) = emit_op_split x y z
emit (array x y z) = emit_op_array x y z
emit (concatx x y z i) = emit_op_concatx x y z i
emit (test x y) = emit_op_test x y
emit (tag x y) = emit_op_tag x y
emit (fail l) = emit_op_fail l
emit (return x) = emit_op_return x

unfoldable pub emit_all : List Instr → Coder → Coder
emit_all [] c = c
emit_all (i ∷ p) c = emit_all p (emit i c)

-- Emitting an instruction whose operands fit their types appends its bytes, and changes nothing
-- else of the coder.
pub emit-encode :
    (i : Instr) (c : Coder) → IsInstr i → emit i c ≡ record c { code = c.code ++ encode (i ∷ []) }
unfolding emit opcode_byte
emit-encode (nil x) c h = simp append_assoc
emit-encode (takex x y z i) c h =
    let small : i % 2 ^ 16 ≡ i = omega arith in rw small (simp append_assoc)
emit-encode (concatx x y z i) c h =
    let small : i % 2 ^ 16 ≡ i = omega arith in rw small (simp append_assoc)
emit-encode _ c h = simp append_assoc

emit_all-code :
    (p : List Instr) (c : Coder)
    → AreInstrs p
    → emit_all p c ≡ record c { code = c.code ++ encode p }
unfolding emit_all
emit_all-code [] c h = rw append-nil
emit_all-code (i ∷ p) c (hi, hp) = rw (emit-encode i c hi) (
    emit_all-code p _ hp
    ∙ rw (append_assoc c.code (encode (i ∷ [])) (encode p), ← encode-append (i ∷ []) p))

-- A program that is emitted from the start is its byte format.
pub emit_all-encode : (p : List Instr) → AreInstrs p → (emit_all p start).code ≡ encode p
emit_all-encode p h = ap (λ (c : Coder). c.code) (emit_all-code p start h)
