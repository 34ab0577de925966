-- ===== src/Reader/Positions.antt =====
-- The reader's position is the row and the column of what was read.
use egel.Prelude.{ℕ, ◌+◌, ◌≡◌, ◌≢◌, refl, sym, ◌∙◌, arith, false, [], ◌∷◌, ◌++◌}
use egel.Prelude.{
  some, length, get_elem?, get_elem?-append, length-append, append_assoc, ◌==◌, if◌then◌else◌,
  Bool-cases, inl, inr,
}
use egel.Prelude.Text.{Text}
use egel.Reader.{Reader, create, at_end, look, skip, reset}

-- The newlines of a text, and the characters behind the last of them.
unfoldable pub newlines : Text → ℕ
newlines [] = 0
newlines (c ∷ t) = (if c == b'\n' then 1 else 0) + newlines t

-- The column behind a text that begins at a given column.
unfoldable pub column_after : ℕ → Text → ℕ
column_after k [] = k
column_after k (c ∷ t) = column_after (if c == b'\n' then 1 else k + 1) t

newlines-append : (s t : Text) → newlines (s ++ t) ≡ newlines s + newlines t
unfolding newlines
newlines-append [] t = omega arith
newlines-append (c ∷ s) t = omega (arith, newlines-append s t)

column_after-append :
    (s t : Text) (k : ℕ) → column_after k (s ++ t) ≡ column_after (column_after k s) t
unfolding column_after
column_after-append [] t k = refl
column_after-append (c ∷ s) t k = column_after-append s t _

newlines_snoc :
    (s : Text) (c : ℕ) → newlines (s ++ (c ∷ [])) ≡ newlines s + (if c == b'\n' then 1 else 0)
newlines_snoc s c = newlines-append s (c ∷ []) ∙ unfold newlines in omega arith

column_snoc :
    (s : Text) (c k : ℕ)
    → column_after k (s ++ (c ∷ [])) ≡ (if c == b'\n' then 1 else column_after k s + 1)
column_snoc s c k = column_after-append s (c ∷ []) k ∙ unfold column_after in refl

-- The reader has read `done` and `left` is still to come, and the row and the column tell where
-- that is.
pub record IsAt (r : Reader) (done left : Text) : Type 0 where
  pub splits : r.buffer ≡ done ++ left
  pub index : r.index ≡ length done
  pub row : r.row ≡ 1 + newlines done
  pub column : r.column ≡ column_after 1 done

-- A new reader, and one that is reset, stands at the start of the content.
pub create-IsAt : (resource content : Text) → IsAt (create resource content) [] content
unfolding create newlines column_after
create-IsAt resource content = record { splits = refl; index = refl; row = refl; column = refl }

pub reset-IsAt : (r : Reader) → IsAt (reset r) [] r.buffer
unfolding reset newlines column_after
reset-IsAt r = record { splits = refl; index = refl; row = refl; column = refl }

pub get_elem?-IsAt :
    {r : Reader} {done left : Text} (i : ℕ)
    → IsAt r done left
    → get_elem? r.buffer (r.index + i) ≡ get_elem? left i
get_elem?-IsAt {r} {done} {left} i h =
    rw h.splits (get_elem?-append done left (r.index + i) i (omega (arith, h.index)))

not_mark : (c : ℕ) → c ≢ 65535 → (c == 65535) ≡ false
not_mark c ne = ground arith

module _ {r : Reader} {done : Text} (c : ℕ) {left : Text} (ne : c ≢ 65535)
    (h : IsAt r done (c ∷ left)) where
  current : get_elem? r.buffer r.index ≡ some c
  current = let e : r.index + 0 ≡ r.index = omega arith in rw e at (get_elem?-IsAt 0 h)

  pub at_end-IsAt : at_end r ≡ false
  unfolding at_end
  at_end-IsAt = rw (current, at_end) (not_mark c ne)

  pub look-IsAt : look r ≡ c
  unfolding look
  look-IsAt = rw (current, look) (rw (not_mark c ne))

  -- At a character that is not the mark of the end, skipping moves the reader over that character,
  -- with the row and the column that a text editor would show.
  pub skip-IsAt : IsAt (skip r) (done ++ (c ∷ [])) left
  skip-IsAt =
      let rows = newlines_snoc done c in
      let columns = column_snoc done c 1 in
      let len = length-append done (c ∷ []) in
      let whole : r.buffer ≡ (done ++ (c ∷ [])) ++ left =
        h.splits ∙ sym (append_assoc done (c ∷ []) left) in
      elim (Bool-cases (c == b'\n')) [
        | inl newline ↦
            unfold skip in
            rw (at_end-IsAt, look-IsAt, newline)
              (record {
                splits = whole;
                index = omega (arith, len, h.index);
                row = ground (arith, rows, h.row);
                column = ground (arith, columns);
              })
        | inr other ↦
            unfold skip in
            rw (at_end-IsAt, look-IsAt, other)
              (record {
                splits = whole;
                index = omega (arith, len, h.index);
                row = ground (arith, rows, h.row);
                column = ground (arith, columns, h.column);
              })
      ]

-- What is seen at the end, and at the mark of the end.
pub look_end : {r : Reader} {done : Text} → IsAt r done [] → look r ≡ 0
unfolding look
look_end {r} h =
    let e : r.index + 0 ≡ r.index = omega arith in
    let g = rw e at (get_elem?-IsAt 0 h) in rw (g, look)

pub look_mark : {r : Reader} {done left : Text} → IsAt r done (65535 ∷ left) → look r ≡ 0
unfolding look
look_mark {r} h =
    let e : r.index + 0 ≡ r.index = omega arith in
    let g = rw e at (get_elem?-IsAt 0 h) in rw (g, look)
