-- ===== src/Lexical/Scan/Number.antt =====
-- The numbers of the tokenizer of src/lexical.hpp.
pub mod Total
use egel.Prelude.{not, ◌&&◌, [], ◌∷◌, ◌++◌, ◌==◌}
use egel.Prelude.{if◌then◌else◌}
use egel.Prelude.Text.{Text, codes, text_eq}
use egel.Reader.{Position, Reader, position, at_end, look, skip}
use egel.Lexical.Chars.{
  Properties, is_digit, is_hexdigit, is_dot, is_exponent, is_imaginary, is_minus,
}
use egel.Lexical.Token.{Tag, Token, token_integer, token_float, token_imaginary}
use egel.Lexical.Scan.Loops.{Lexed, ok, lexical_error, ◌>>=◌, rounds, while_in}

-- `str += c; reader.skip()`
unfoldable pub taken : Text → Reader → Text
taken str r = str ++ (look r ∷ [])

unfoldable pub token : Tag → Position → Text × Reader → Lexed (Token × Reader)
token g p (str, r) = ok (record { tag = g; position = p; text = str }, r)

-- Behind the `0x`.
unfoldable pub scan_hexint : Properties → Position → Text → Reader → Lexed (Token × Reader)
scan_hexint u p str r =
    if at_end r
    then lexical_error (position r) (codes "error in hexadecimal int")
    else if not (is_hexdigit u (look r))
    then lexical_error (position r) (codes "error in hexadecimal int")
    else while_in (rounds r) (is_hexdigit u) str r >>= token token_integer p

-- A minus, and what follows it.
unfoldable pub scan_minus : Text → Reader → Text × Reader
scan_minus str r = if is_minus (look r) then (taken str r, skip r) else (str, r)

-- Behind the `e`: the exponent, and an `i` or a `j`.
unfoldable pub scan_exponent : Properties → Position → Text → Reader → Lexed (Token × Reader)
scan_exponent u p str r =
    if at_end r
    then lexical_error (position r) (codes "error in float")
    else let (signed, s) = scan_minus str r in
      if at_end s
      then lexical_error (position s) (codes "error in float")
      else while_in (rounds s) (is_digit u) signed s >>= λ (t, q).
          if is_imaginary (look q)
          then token token_imaginary p (taken t q, skip q)
          else token token_float p (t, q)

-- Behind the dot.
unfoldable pub scan_fraction : Properties → Position → Text → Reader → Lexed (Token × Reader)
scan_fraction u p str r =
    if at_end r
    then token token_float p (str, r)
    else while_in (rounds r) (is_digit u) str r >>= λ (t, q).
        if is_imaginary (look q)
        then token token_imaginary p (taken t q, skip q)
        else if not (is_exponent (look q))
        then token token_float p (t, q)
        else scan_exponent u p (taken t q) (skip q)

unfoldable pub scan_number : Properties → Reader → Lexed (Token × Reader)
scan_number u r =
    let (signed, s) = scan_minus [] r in
    while_in (rounds s) (is_digit u) signed s >>= λ (t, q).
    if text_eq t (codes "0") && look q == b'x'
    then scan_hexint u (position r) (taken t q) (skip q)
    else if not (is_dot (look q))
    then token token_integer (position r) (t, q)
    else scan_fraction u (position r) (taken t q) (skip q)
