-- ===== src/Bytecode/Relabel/Resolve.antt =====
-- On the code of a program, `relabel` gives the code of the program with its labels resolved.
use egel.Prelude.{
  ℕ, zero, suc, ◌+◌, ◌%◌, ◌^◌, ◌<◌, ◌≤◌, ◌≡◌, refl, ap, ◌∙◌, sym, arith, List, [], ◌∷◌,
}
use egel.Prelude.{◌++◌, map, fun_ext, length, drop, byte_at, some, append_assoc}
use mathlib.Core.Path.{subst}
use egel.Prelude.{drop-append, get_elem?-append, set-append, length-append, IsU32}
use egel.Prelude.{lt→ltb}
use egel.Prelude.Outcome.{ok}
use egel.Bytecode.Instr.{Instr, opcode, opcode_byte, operands, size, i32}
use egel.Bytecode.Instr.{
  nil, mov, datum, set_at, takex, split, array, concatx, test, tag, fail, return,
}
use egel.Bytecode.Instr.{
  encode, IsInstr, AreInstrs, byte_opcode-opcode_byte, length-encode-cons, encode-append,
}
use egel.Bytecode.Coder.{Code, Coder, Labels, find_label}
use egel.Bytecode.Fetch.{read, advance}
use egel.Bytecode.Fetch.Operands.{fetch_i32-drop}
use egel.Bytecode.Relabel.{
  label_at, store_i32, relabel_fail, relabel_case, relabel_step, relabel_loop, relabel,
}

-- The address of a label; 0 for a label that was never emitted.
unfoldable pub address : Labels → ℕ → ℕ
unfolding label_at
address m l = (label_at l m).1

unfoldable pub resolve : Labels → Instr → Instr
resolve m (fail l) = fail (address m l)
resolve m (nil x) = nil x
resolve m (mov x y) = mov x y
resolve m (datum x i) = datum x i
resolve m (set_at x y z) = set_at x y z
resolve m (takex x y z i) = takex x y z i
resolve m (split x y z) = split x y z
resolve m (array x y z) = array x y z
resolve m (concatx x y z i) = concatx x y z i
resolve m (test x y) = test x y
resolve m (tag x y) = tag x y
resolve m (return x) = return x

pub address-found : (m : Labels) (l : ℕ) {a : ℕ} → find_label l m ≡ some a → address m l ≡ a
unfolding address label_at
address-found m l h = rw (h, address)

-- Reading a missing label changes no address.
address-label_at : (m : Labels) (l k : ℕ) → address (label_at l m).0 k ≡ address m k
unfolding address find_label
address-label_at m l k = ground arith

store_i32-operands :
    (n l b : ℕ) (pre rest : Code)
    → length (pre ++ b ∷ i32 l rest) < 2 ^ 32
    → store_i32 n (advance (length pre) 1) (pre ++ b ∷ i32 l rest) ≡ pre ++ b ∷ i32 n rest
unfolding store_i32
store_i32-operands n l b pre rest fits =
    let len = length-append pre (b ∷ i32 l rest) in
    rw (
      set-append pre (b ∷ i32 l rest) (advance (advance (length pre) 1) 0) 1 (byte_at n 24)
          (omega (arith, len)),
      set-append pre _ (advance (advance (length pre) 1) 1) 2 (byte_at n 16) (omega (arith, len)),
      set-append pre _ (advance (advance (length pre) 1) 2) 3 (byte_at n 8) (omega (arith, len)),
      set-append pre _ (advance (advance (length pre) 1) 3) 4 (n % 256) (omega (arith, len)),
    )

-- What the map holds after a round on an instruction.
unfoldable pub after : Instr → Labels → Labels
after (fail l) m = (label_at l m).0
after (nil x) m = m
after (mov x y) m = m
after (datum x i) m = m
after (set_at x y z) m = m
after (takex x y z i) m = m
after (split x y z) m = m
after (array x y z) m = m
after (concatx x y z i) m = m
after (test x y) m = m
after (tag x y) m = m
after (return x) m = m

address-after : (i : Instr) (m : Labels) (k : ℕ) → address (after i m) k ≡ address m k
unfolding after
address-after (fail l) m k = address-label_at m l k
address-after _ m k = refl

read-append : (pre rest : Code) (b : ℕ) → read (pre ++ b ∷ rest) (length pre) ≡ ok b
read-append pre rest b =
    let at = get_elem?-append pre (b ∷ rest) (length pre) 0 (omega arith) in
    unfold read in rw (at, read)

relabel_fail-append :
    (l b : ℕ) (pre rest : Code) (m : Labels)
    → IsU32 l
    → length (pre ++ b ∷ i32 l rest) < 2 ^ 32
    → relabel_fail (length pre) (pre ++ b ∷ i32 l rest) m
      ≡ ok (length pre + 5, pre ++ b ∷ i32 (address m l) rest, (label_at l m).0)
unfolding relabel_fail address
relabel_fail-append l b pre rest m hl fits =
    let c : Code = pre ++ b ∷ i32 l rest in
    let len = length-append pre (b ∷ i32 l rest) in
    let at : drop (advance (length pre) 1) c ≡ i32 l rest =
      drop-append pre (b ∷ i32 l rest) _ 1 (omega (arith, len)) in
    let (got, _) = fetch_i32-drop c (advance (length pre) 1) l rest fits hl at in
    let moved : advance (advance (length pre) 1) 4 ≡ length pre + 5 = omega (arith, len) in
    let stored = store_i32-operands (label_at l m).1 l b pre rest fits in rw (got, stored, moved)

advance-size :
    (i : Instr) (p : List Instr) (pre : Code)
    → length (pre ++ encode (i ∷ p)) < 2 ^ 32
    → advance (length pre) (size i) ≡ length pre + size i
advance-size i p pre fits =
    omega (arith, length-append pre (encode (i ∷ p)), length-encode-cons i p)

-- One round: the instruction at the counter is resolved in place.
relabel_case-encode :
    (i : Instr) (p : List Instr) (pre : Code) (m : Labels)
    → IsInstr i
    → length (pre ++ encode (i ∷ p)) < 2 ^ 32
    → relabel_case (some (opcode i)) (length pre) (pre ++ encode (i ∷ p)) m
      ≡ ok (length pre + size i, pre ++ encode (resolve m i ∷ p), after i m)
unfolding relabel_case resolve after
relabel_case-encode (fail l) p pre m v fits = relabel_fail-append l _ pre (encode p) m v fits
relabel_case-encode i p pre m v fits = rw (advance-size i p pre fits)

relabel_step-encode :
    (i : Instr) (p : List Instr) (pre : Code) (m : Labels)
    → IsInstr i
    → length (pre ++ encode (i ∷ p)) < 2 ^ 32
    → relabel_step (length pre) (pre ++ encode (i ∷ p)) m
      ≡ ok (length pre + size i, pre ++ encode (resolve m i ∷ p), after i m)
relabel_step-encode i p pre m v fits =
    let got = read-append pre (operands i (encode p)) (opcode_byte (opcode i)) in
    unfold relabel_step in
    rw (got, byte_opcode-opcode_byte (opcode i), relabel_case-encode i p pre m v fits)

pub size-resolve : (i : Instr) (m : Labels) → size (resolve m i) ≡ size i
unfolding resolve
size-resolve (nil x) m = refl
size-resolve _ m = refl

resolve-after : (i : Instr) (m : Labels) (j : Instr) → resolve (after i m) j ≡ resolve m j
unfolding resolve
resolve-after i m (fail l) = ap fail (address-after i m l)
resolve-after i m (nil x) = refl
resolve-after i m _ = refl

-- The front of the code after a round.
front :
    (i : Instr) (p : List Instr) (pre : Code) (m : Labels)
    → (pre ++ encode (resolve m i ∷ p) ≡ (pre ++ encode (resolve m i ∷ [])) ++ encode p)
      × (length (pre ++ encode (resolve m i ∷ [])) ≡ length pre + size i)
front i p pre m =
    let r = resolve m i in
    (
      rw (append_assoc pre (encode (r ∷ [])) (encode p), ← encode-append (r ∷ []) p),
      omega (arith, length-append pre (encode (r ∷ [])), length-encode-cons r [], size-resolve i m),
    )

relabel_loop_done :
    (fuel pc : ℕ) (c : Code) (m : Labels) → length c ≤ pc → relabel_loop fuel pc c m ≡ ok (c, m)
unfolding relabel_loop
relabel_loop_done zero pc c m h = ground arith
relabel_loop_done (suc fuel) pc c m h = ground arith

relabel_loop_step :
    (fuel pc : ℕ) (c : Code) (m : Labels) {pc' : ℕ} {c' : Code} {m' : Labels}
    → pc < length c
    → relabel_step pc c m ≡ ok (pc', c', m')
    → relabel_loop (suc fuel) pc c m ≡ relabel_loop fuel pc' c' m'
relabel_loop_step fuel pc c m h e =
    unfold relabel_loop in rw (lt→ltb pc (length c) h, relabel_loop) (rw e)

relabel_loop-encode :
    (p : List Instr) (fuel : ℕ) (pre : Code) (m : Labels)
    → AreInstrs p
    → length p ≤ fuel
    → length (pre ++ encode p) < 2 ^ 32
    → (m' : Labels) × (relabel_loop fuel (length pre) (pre ++ encode p) m
        ≡ ok (pre ++ encode (map (resolve m) p), m'))
relabel_loop-encode [] fuel pre m v enough fits =
    (m, relabel_loop_done fuel (length pre) (pre ++ []) m (omega (arith, length-append pre [])))
relabel_loop-encode (i ∷ p) zero pre m v enough fits = elim enough [ ]
relabel_loop-encode (i ∷ p) (suc fuel) pre m (hi, hp) enough fits =
    let pre' : Code = pre ++ encode (resolve m i ∷ []) in
    let (split_at, len) = front i p pre m in
    let total = length-append pre (encode (i ∷ p)) in
    let fits' : length (pre' ++ encode p) < 2 ^ 32 =
      omega (arith, length-append pre' (encode p), len, total, length-encode-cons i p) in
    let (m', rest) = relabel_loop-encode p fuel pre' (after i m) hp (omega arith) fits' in
    let lt : length pre < length (pre ++ encode (i ∷ p)) = omega (arith, total) in
    let go = relabel_loop_step fuel (length pre) _ m lt (relabel_step-encode i p pre m hi fits) in
    let same_labels = fun_ext (resolve-after i m) in
    let whole : pre' ++ encode (map (resolve (after i m)) p)
        ≡ pre ++ encode (map (resolve m) (i ∷ p)) =
      rw same_labels (sym (front i (map (resolve m) p) pre m).0) in
    (m', go ∙ rw (split_at, ← len, ← whole) rest)

size_pos : (i : Instr) → 1 ≤ size i
size_pos (nil x) = omega arith
size_pos _ = omega arith

encode_ge : (p : List Instr) → length p ≤ length (encode p)
encode_ge [] = omega arith
encode_ge (i ∷ p) = omega (arith, length-encode-cons i p, encode_ge p, size_pos i)

relabel_whole :
    (k : Coder) (p : List Instr) (m : Labels) {r : Code}
    → k.code ≡ encode p
    → relabel_loop (length k.code) 0 (encode p) k.labels ≡ ok (r, m)
    → relabel_loop (length k.code) 0 k.code k.labels ≡ ok (r, m)
relabel_whole k p m {r} e =
    subst (λ (c : Code). relabel_loop (length k.code) 0 c k.labels ≡ ok (r, m)) (sym e)

-- On a coder that holds the code of a program, `relabel` ends, and leaves the code of the same
-- program with each label's number replaced by its address, where the operands fit their types and
-- the code is shorter than 2 ^ 32 bytes. Labels that were never emitted get address 0.
pub relabel-encode :
    (p : List Instr) (k : Coder)
    → k.code ≡ encode p
    → AreInstrs p
    → length k.code < 2 ^ 32
    → (m : Labels) × (relabel k
        ≡ ok (record k { code = encode (map (resolve k.labels) p); labels = m }))
relabel-encode p k e v fits =
    let enough : length p ≤ length k.code = omega (arith, encode_ge p, ap length e) in
    let (m, done) = relabel_loop-encode p (length k.code) [] k.labels v enough (rw e at fits) in
    (m, unfold relabel in rw (relabel_whole k p m e done))
