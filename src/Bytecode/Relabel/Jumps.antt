-- ===== src/Bytecode/Relabel/Jumps.antt =====
-- Where the jumps of relabelled code lead: a run of the coder emits labels and instructions, and
-- `relabel` resolves them.
use egel.Prelude.{
  ℕ, ◌%◌, ◌^◌, ◌<◌, ◌≡◌, refl, ap, ◌∙◌, sym, arith, List, [], ◌∷◌, ◌++◌, map, map-append,
}
use egel.Prelude.{
  length, drop, some, append_assoc, append-nil, length-append, drop-append, ==_self, ◌==◌, false,
}
use egel.Prelude.Outcome.{ok}
use egel.Bytecode.Instr.{Instr, encode, AreInstrs, length-encode-cons, encode-append}
use egel.Bytecode.Coder.{Coder, Labels, start, find_label, emit_label}
use egel.Bytecode.Coder.Emit.{emit, emit-encode}
use egel.Bytecode.Relabel.{relabel}
use egel.Bytecode.Relabel.Resolve.{address, address-found, resolve, relabel-encode, size-resolve}

-- What a client hands the coder: a label at the place that is reached, or an instruction.
pub data Item : Type 0 where
  label : ℕ → Item
  instr : Instr → Item

unfoldable pub emit_items : List Item → Coder → Coder
emit_items [] c = c
emit_items (label l ∷ r) c = emit_items r (emit_label l c)
emit_items (instr i ∷ r) c = emit_items r (emit i c)

abbrev pub instrs : List Item → List Instr
instrs [] = []
instrs (label l ∷ r) = instrs r
instrs (instr i ∷ r) = i ∷ instrs r

-- The label is not emitted among the items.
abbrev pub Lacks : ℕ → List Item → Type 0
Lacks l [] = Unit
Lacks l (label k ∷ r) = ((k == l) ≡ false) × Lacks l r
Lacks l (instr i ∷ r) = Lacks l r

emit_items-code :
    (its : List Item) (c : Coder)
    → AreInstrs (instrs its)
    → (emit_items its c).code ≡ c.code ++ encode (instrs its)
unfolding emit_items emit_label
emit_items-code [] c v = sym (append-nil c.code)
emit_items-code (label l ∷ r) c v = emit_items-code r (emit_label l c) v
emit_items-code (instr i ∷ r) c (hi, hr) =
    emit_items-code r (emit i c) hr
    ∙ rw (
      emit-encode i c hi,
      append_assoc c.code (encode (i ∷ [])) (encode (instrs r)),
      ← encode-append (i ∷ []) (instrs r),
    )

find_label-emit_items :
    (l : ℕ) (its : List Item) (c : Coder)
    → AreInstrs (instrs its)
    → Lacks l its
    → find_label l (emit_items its c).labels ≡ find_label l c.labels
unfolding emit_items
find_label-emit_items l [] c v h = refl
find_label-emit_items l (label k ∷ r) c v (ne, h) =
    find_label-emit_items l r (emit_label k c) v h ∙ unfold emit_label find_label in rw ne
find_label-emit_items l (instr i ∷ r) c (hi, hr) h =
    find_label-emit_items l r (emit i c) hr h ∙ rw (emit-encode i c hi)

emit_items-append :
    (a b : List Item) (c : Coder) → emit_items (a ++ b) c ≡ emit_items b (emit_items a c)
unfolding emit_items
emit_items-append [] b c = refl
emit_items-append (label l ∷ a) b c = emit_items-append a b (emit_label l c)
emit_items-append (instr i ∷ a) b c = emit_items-append a b (emit i c)

instrs-append : (a b : List Item) → instrs (a ++ b) ≡ instrs a ++ instrs b
instrs-append [] b = refl
instrs-append (label l ∷ a) b = instrs-append a b
instrs-append (instr i ∷ a) b = ap (◌∷◌ i) (instrs-append a b)

find_label-here :
    (l : ℕ) (its : List Item) (c : Coder)
    → AreInstrs (instrs its)
    → Lacks l its
    → find_label l (emit_items (label l ∷ its) c).labels ≡ some (length c.code % 2 ^ 32)
find_label-here l its c v h =
    unfold emit_items in
    find_label-emit_items l its (emit_label l c) v h
    ∙ unfold emit_label find_label in rw (==_self l)

AreInstrs-append : (p q : List Instr) → AreInstrs (p ++ q) → AreInstrs p × AreInstrs q
AreInstrs-append [] q v = (tt, v)
AreInstrs-append (i ∷ p) q (hi, v) = let (a, b) = AreInstrs-append p q v in ((hi, a), b)

length-encode-resolve :
    (m : Labels) (p : List Instr) → length (encode (map (resolve m) p)) ≡ length (encode p)
length-encode-resolve m [] = refl
length-encode-resolve m (i ∷ p) = omega (
  arith,
  length-encode-cons i p,
  length-encode-cons (resolve m i) (map (resolve m) p),
  size-resolve i m,
  length-encode-resolve m p,
)

module _ (l : ℕ) (front back : List Item) where
  -- The label `l` stands between `front` and `back`.
  abbrev pub items : List Item
  items = front ++ (label l ∷ back)

  -- The coder after the items were emitted.
  abbrev pub emitted : Coder
  emitted = emit_items items start

module _ (l : ℕ) (front back : List Item) (v : AreInstrs (instrs (items l front back)))
    (fits : length (emitted l front back).code < 2 ^ 32) (last : Lacks l back) where
  parts : AreInstrs (instrs front) × AreInstrs (instrs back)
  parts =
      AreInstrs-append (instrs front) (instrs back) (rw (instrs-append front (label l ∷ back)) at v)

  emitted-code : (emitted l front back).code ≡ encode (instrs (items l front back))
  emitted-code = emit_items-code (items l front back) start v

  code_parts : encode (instrs (items l front back)) ≡ encode (instrs front) ++ encode (instrs back)
  code_parts =
      ap encode (instrs-append front (label l ∷ back)) ∙ encode-append (instrs front) (instrs back)

  -- The address of a label is where the code of the items behind it begins.
  address-emit_items : address (emitted l front back).labels l ≡ length (encode (instrs front))
  address-emit_items =
      let c : Coder = emit_items front start in
      let code_front : c.code ≡ encode (instrs front) = emit_items-code front start parts.0 in
      let len : length c.code % 2 ^ 32 ≡ length (encode (instrs front)) = omega (
        arith,
        ap length code_front,
        ap length emitted-code,
        ap length code_parts,
        length-append (encode (instrs front)) (encode (instrs back)),
      ) in
      rw (emit_items-append front (label l ∷ back) start)
        (address-found _ l (find_label-here l back c parts.1 last) ∙ len)

  -- Neither an address nor the resolved code leaves 32 bits.
  pub address_fits : address (emitted l front back).labels l < 2 ^ 32
  address_fits = omega (
    arith,
    address-emit_items,
    ap length emitted-code,
    ap length code_parts,
    length-append (encode (instrs front)) (encode (instrs back)),
  )

  pub resolved_fits :
      length (encode (map (resolve (emitted l front back).labels) (instrs (items l front back))))
      < 2 ^ 32
  resolved_fits = omega (
    arith,
    ap length emitted-code,
    length-encode-resolve (emitted l front back).labels (instrs (items l front back)),
  )

  -- After `relabel` a label's address is where the code of what was emitted behind it stands, if
  -- it is emitted once from there on: the run ends, the code is that of the instructions with
  -- their labels resolved, and dropping the bytes before the address leaves those behind the label.
  pub relabel-address :
      (k : Coder) × (relabel (emitted l front back) ≡ ok k)
      × (k.code
          ≡ encode (map (resolve (emitted l front back).labels) (instrs (items l front back))))
      × (drop (address (emitted l front back).labels l) k.code
          ≡ encode (map (resolve (emitted l front back).labels) (instrs back)))
  relabel-address =
      let r = resolve (emitted l front back).labels in
      let (m, done) =
        relabel-encode (instrs (items l front back)) (emitted l front back) emitted-code v fits in
      (
        record (emitted l front back) {
          code = encode (map r (instrs (items l front back)));
          labels = m;
        },
        done,
        refl,
        rw
            (
              instrs-append front (label l ∷ back),
              map-append r (instrs front) (instrs back),
              encode-append (map r (instrs front)) (map r (instrs back)),
            )
            (drop-append (encode (map r (instrs front))) _ (address (emitted l front back).labels l)
              0
              (omega (
                arith,
                address-emit_items,
                length-encode-resolve (emitted l front back).labels (instrs front),
              ))),
      )
