-- ===== src/Bytecode/Reduce/Concat.antt =====
-- `concatx` builds the application of two terms: a term is a list of values, of which one alone
-- stands for itself and any other number for an array.
use egel.Prelude.{
  ◌⊎◌, ℕ, zero, suc, ◌+◌, ◌-◌, ◌<◌, ◌≤◌, ◌≡◌, ◌≢◌, refl, sym, arith, List, [], ◌∷◌, ◌++◌,
}
use egel.Prelude.{
  length, drop, get_elem?, some, none, true, false, ltb, ◌==◌, if◌then◌else◌, inl, inr,
}
use egel.Prelude.{get_elem?_lt, get_elem?-append, append-nil, length-append, length-drop, dec_lt}
use egel.Prelude.Outcome.{ok, ◌>>=◌}
use egel.Bytecode.Instr.{concatx}
use egel.Bytecode.Registers.{get, IsValid, get-put}
use egel.Bytecode.Reduce.{
  CodeData, Frame, continue, exec, at, assign, allocate, concat_copy, concat_arrays, concat_value,
  concat_case,
}
use egel.Bytecode.Reduce.Match.{at_some}
use egel.Machine.Object.{Value, Heap, members, is_array}

-- The value stands for the list.
abbrev pub Denotes : Heap → List Value → Value → Type 0
Denotes h (x ∷ []) v = v ≡ x
Denotes h xs v = (a : ℕ) × (v ≡ Value.array a) × (members h a ≡ ok xs)

Denotes-array :
    (h : Heap) (xs : List Value) (a : ℕ)
    → length xs ≢ 1
    → members h a ≡ ok xs
    → Denotes h xs (Value.array a)
Denotes-array h [] a ne m = (a, refl, m)
Denotes-array h (x ∷ []) a ne m = absurd (ne refl)
Denotes-array h (x ∷ y ∷ xs) a ne m = (a, refl, m)

-- What the instruction leaves: register `x` holds a value that stands for `xs`; the other
-- registers, the flag and the counter are as before, and the heap has at most grown.
pub record Built (f g : Frame) (x : ℕ) (xs : List Value) : Type 0 where
  pub value : Value
  pub denotes : Denotes g.heap xs value
  pub reg : (k : ℕ) → get g.reg k ≡ (if x == k then value else get f.reg k)
  pub flag : g.flag ≡ f.flag
  pub pc : g.pc ≡ f.pc
  pub grown : (more : Heap) × (g.heap ≡ f.heap ++ more)

drop-all : {A : Type 0} (i : ℕ) (xs : List A) → length xs ≤ i → drop i xs ≡ []
drop-all zero [] h = refl
drop-all zero (x ∷ xs) h = absurd (omega arith)
drop-all (suc i) [] h = refl
drop-all (suc i) (x ∷ xs) h = drop-all i xs (omega arith)

drop-last :
    {A : Type 0} (i : ℕ) (xs : List A) (v : A)
    → get_elem? xs i ≡ some v
    → length xs ≡ suc i
    → drop i xs ≡ v ∷ []
drop-last i [] v h e = cc
drop-last zero (x ∷ []) v h e = cc
drop-last zero (x ∷ y ∷ xs) v h e = absurd (omega arith)
drop-last (suc i) (x ∷ xs) v h e = drop-last i xs v h (omega arith)

members-allocate : (h : Heap) (xs : List Value) → members (allocate h xs).0 (length h) ≡ ok xs
members-allocate h xs =
    let found = get_elem?-append h (xs ∷ []) (length h) 0 (omega arith) in
    unfold members in rw (found, members)

-- A register is given a value that stands for the list in the heap as it is.
keep :
    (f : Frame) (x : ℕ) (xs : List Value) (v : Value)
    → IsValid f.reg
    → Denotes f.heap xs v
    → Built f (assign f x v) x xs
keep f x xs v valid den = record {
  value = v;
  denotes = den;
  reg = λ k. get-put f.reg x k v valid;
  flag = refl;
  pc = refl;
  grown = ([], sym (append-nil f.heap));
}

sole_member :
    (ys zs : List Value) (i : ℕ) (v : Value)
    → get_elem? zs i ≡ some v
    → ¬ (1 < length ys + length zs - i)
    → ys ++ drop i zs ≡ v ∷ []
sole_member [] zs i v there one = drop-last i zs v there (omega (arith, get_elem?_lt zs i there))
sole_member (y ∷ ys) zs i v there one = absurd (omega (arith, get_elem?_lt zs i there))

-- A register is given a new array of the list.
fresh :
    (f : Frame) (x : ℕ) (xs : List Value)
    → IsValid f.reg
    → length xs ≢ 1
    → Built f (assign (record f { heap = (allocate f.heap xs).0 }) x (allocate f.heap xs).1) x xs
fresh f x xs valid ne = record {
  value = Value.array (length f.heap);
  denotes = Denotes-array _ xs (length f.heap) ne (members-allocate f.heap xs);
  reg = λ k. get-put f.reg x k _ valid;
  flag = refl;
  pc = refl;
  grown = (xs ∷ [], refl);
}

concat_copy-Built :
    (x : ℕ) (ys zs : List Value) (i : ℕ) (f : Frame)
    → IsValid f.reg
    → i < length zs
    → (g : Frame) × (concat_copy x ys zs i f ≡ ok (continue g)) × Built f g x (ys ++ drop i zs)
concat_copy-Built x ys zs i f valid lt = elim (dec_lt 1 (length ys + length zs - i)) [
  | yes many ↦
      let several : ltb 1 (length ys + length zs - i) ≡ true = ground arith in
      let ne : length (ys ++ drop i zs) ≢ 1 =
        omega (arith, length-append ys (drop i zs), length-drop i zs) in
      let out : Frame =
        assign (record f { heap = (allocate f.heap (ys ++ drop i zs)).0 }) x
          (allocate f.heap (ys ++ drop i zs)).1 in
      (out, unfold concat_copy in rw several, fresh f x (ys ++ drop i zs) valid ne)
  | no one ↦
      let several : ltb 1 (length ys + length zs - i) ≡ false = ground arith in
      let (v, there, got) = at_some zs i lt in
      let sole : ys ++ drop i zs ≡ v ∷ [] = sole_member ys zs i v there one in
      (
        assign f x v,
        unfold concat_copy in rw several (rw got),
        rw sole (keep f x (v ∷ []) v valid refl),
      )
]

-- Where nothing of `z` is left, `y` alone is copied.
concat_none :
    (x : ℕ) (b : ℕ) (ys : List Value) (f : Frame)
    → IsValid f.reg
    → members f.heap b ≡ ok ys
    → (g : Frame) × ((if length ys == 1
          then (at ys 0 >>= λ v. ok (continue (assign f x v)))
          else ok (continue (assign f x (Value.array b))))
        ≡ ok (continue g))
      × Built f g x ys
concat_none x b [] f valid held =
    (assign f x (Value.array b), refl, keep f x [] (Value.array b) valid (b, refl, held))
concat_none x b (y ∷ []) f valid held =
    (assign f x y, unfold at in refl, keep f x (y ∷ []) y valid refl)
concat_none x b (y ∷ z ∷ ys) f valid held = (
  assign f x (Value.array b),
  ground arith,
  keep f x (y ∷ z ∷ ys) (Value.array b) valid (b, refl, held),
)

concat_arrays-Built :
    (x : ℕ) (b : ℕ) (ys zs : List Value) (i : ℕ) (f : Frame)
    → IsValid f.reg
    → members f.heap b ≡ ok ys
    → (g : Frame) × (concat_arrays x (Value.array b) ys zs i f ≡ ok (continue g))
      × Built f g x (ys ++ drop i zs)
concat_arrays-Built x b ys zs i f valid held = elim (dec_lt i (length zs)) [
  | yes lt ↦
      let some_left : ltb i (length zs) ≡ true = ground arith in
      let (g, run, built) = concat_copy-Built x ys zs i f valid lt in
      (g, unfold concat_arrays in rw some_left run, built)
  | no ge ↦
      let none_left : ltb i (length zs) ≡ false = ground arith in
      let whole : ys ++ drop i zs ≡ ys = rw (drop-all i zs (omega arith), append-nil) in
      let (g, run, built) = concat_none x b ys f valid held in
      (g, unfold concat_arrays in rw none_left run, rw whole built)
]

concat_value-Built :
    (x : ℕ) (y0 : Value) (zs : List Value) (i : ℕ) (f : Frame)
    → IsValid f.reg
    → (g : Frame) × (concat_value x y0 zs i f ≡ ok (continue g)) × Built f g x (y0 ∷ drop i zs)
concat_value-Built x y0 zs i f valid = elim (dec_lt i (length zs)) [
  | yes lt ↦
      let some_left : ltb i (length zs) ≡ true = ground arith in
      let (g, run, built) = concat_copy-Built x (y0 ∷ []) zs i f valid lt in
      (g, unfold concat_value in rw some_left run, built)
  | no ge ↦
      let none_left : ltb i (length zs) ≡ false = ground arith in
      let sole : y0 ∷ drop i zs ≡ y0 ∷ [] = rw (drop-all i zs (omega arith)) in
      (
        assign f x y0,
        unfold concat_value in rw none_left,
        rw sole (keep f x (y0 ∷ []) y0 valid refl),
      )
]

-- The list that a value is read as: an array as its members, any other object as itself alone.
abbrev pub Holds : Heap → Value → List Value → Type 0
Holds h v xs =
    ((a : ℕ) × (v ≡ Value.array a) × (members h a ≡ ok xs))
    ⊎ ((is_array v ≡ ok none) × (xs ≡ v ∷ []))

-- `concatx x y z i` with an array in `z` always succeeds, whether `y` holds an array or not, and
-- puts into `x` a value that stands for the list of `y` followed by the members of `z` from `i` on.
-- Other registers, the flag, the counter and the arrays that exist are as before.
pub concatx_lem :
    (d : CodeData) (f : Frame) (x y z i c : ℕ) (ys zs : List Value)
    → IsValid f.reg
    → Holds f.heap (get f.reg y) ys
    → get f.reg z ≡ Value.array c
    → members f.heap c ≡ ok zs
    → (g : Frame) × (exec d (concatx x y z i) f ≡ ok (continue g)) × Built f g x (ys ++ drop i zs)
unfolding exec concat_case
concatx_lem d f x y z i c ys zs valid (inl (b, is_b, held)) there zs_held =
    let (g, run, built) = concat_arrays-Built x b ys zs i f valid held in
    let first : is_array (get f.reg y) ≡ ok (some b) = unfold is_array in rw is_b in
    let second : is_array (get f.reg z) ≡ ok (some c) = unfold is_array in rw there in
    (g, rw (first, second) (rw (held, zs_held) (rw is_b run)), built)
concatx_lem d f x y z i c ys zs valid (inr (single, eq)) there zs_held =
    let (g, run, built) = concat_value-Built x (get f.reg y) zs i f valid in
    let second : is_array (get f.reg z) ≡ ok (some c) = unfold is_array in rw there in
    (g, rw (single, second) (rw zs_held run), rw eq built)
