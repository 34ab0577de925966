-- ===== src/Reader.antt =====
-- `StringCharReader` of src/reader.hpp and the `Position` of src/position.hpp.
pub mod Positions
use egel.Prelude.{
  ℕ, ◌+◌, Bool, true, false, not, List, Option, none, some, length, get_elem?, leb, ◌==◌,
}
use egel.Prelude.{if◌then◌else◌}
use egel.Prelude.Outcome.{Outcome, ok, out_of_range}
use egel.Prelude.Text.{Text}

pub record Position : Type 0 where
  pub resource : Text
  pub row : ℕ
  pub column : ℕ

-- `_buffer` holds the code points of the content; `_length` is its size.
pub record Reader : Type 0 where
  pub resource : Text
  pub buffer : List ℕ
  pub index : ℕ
  pub row : ℕ
  pub column : ℕ

-- The constructor, which fills the buffer.
unfoldable pub create : Text → Text → Reader
create resource content = record {
  resource = resource;
  buffer = content;
  index = 0;
  row = 1;
  column = 1;
}

unfoldable pub position : Reader → Position
position r = record { resource = r.resource; row = r.row; column = r.column }

-- The end is reached behind the last character, or at a character 65535.
unfoldable pub at_end : Reader → Bool
at_end r = elim (get_elem? r.buffer r.index) [ none ↦ true | some c ↦ c == 65535 ]

unfoldable pub look : Reader → ℕ
look r = elim (get_elem? r.buffer r.index) [ none ↦ 0 | some c ↦ if c == 65535 then 0 else c ]

-- `look(n)` reads the buffer with no test.
unfoldable pub look_ahead : ℕ → Reader → Outcome ℕ
look_ahead n r = elim (get_elem? r.buffer (r.index + n)) [ none ↦ out_of_range | some c ↦ ok c ]

unfoldable pub skip : Reader → Reader
skip r =
    if at_end r
    then r
    else if look r == b'\n'
    then record r { index = r.index + 1; column = 1; row = r.row + 1 }
    else record r { index = r.index + 1; column = r.column + 1 }

unfoldable pub eol : Reader → Bool
eol r = if at_end r then false else look r == b'\n'

unfoldable pub reset : Reader → Reader
reset r = record r { index = 0; row = 1; column = 1 }
