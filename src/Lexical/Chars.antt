-- ===== src/Lexical/Chars.antt =====
-- The character classes of src/lexical.hpp. The properties of characters that ICU has are a
-- parameter.
use egel.Prelude.{ℕ, Bool, ◌&&◌, ◌||◌, leb, ◌==◌}

-- The functions of `unicode/uchar.h` that are called.
pub record Properties : Type 0 where
  pub u_is_uwhite_space : ℕ → Bool
  pub u_isdigit : ℕ → Bool
  pub u_is_ulowercase : ℕ → Bool
  pub u_is_uuppercase : ℕ → Bool

unfoldable pub is_whitespace : Properties → ℕ → Bool
is_whitespace u c = u.u_is_uwhite_space c

unfoldable pub is_eol : ℕ → Bool
is_eol c = c == b'\n'

unfoldable pub is_hash : ℕ → Bool
is_hash c = c == b'#'

unfoldable pub is_dot : ℕ → Bool
is_dot c = c == b'.'

unfoldable pub is_comma : ℕ → Bool
is_comma c = c == b','

unfoldable pub is_eq : ℕ → Bool
is_eq c = c == b'='

unfoldable pub is_lparen : ℕ → Bool
is_lparen c = c == b'('

unfoldable pub is_rparen : ℕ → Bool
is_rparen c = c == b')'

unfoldable pub is_lsquare : ℕ → Bool
is_lsquare c = c == b'['

unfoldable pub is_rsquare : ℕ → Bool
is_rsquare c = c == b']'

unfoldable pub is_lcurly : ℕ → Bool
is_lcurly c = c == b'{'

unfoldable pub is_rcurly : ℕ → Bool
is_rcurly c = c == b'}'

unfoldable pub is_colon : ℕ → Bool
is_colon c = c == b':'

unfoldable pub is_semicolon : ℕ → Bool
is_semicolon c = c == b';'

unfoldable pub is_bar : ℕ → Bool
is_bar c = c == b'|'

unfoldable pub is_underscore : ℕ → Bool
is_underscore c = c == b'_'

unfoldable pub is_digit : Properties → ℕ → Bool
is_digit u c = u.u_isdigit c

unfoldable pub is_hexdigit : Properties → ℕ → Bool
is_hexdigit u c =
    u.u_isdigit c || c == b'a' || c == b'b' || c == b'c' || c == b'd' || c == b'e' || c == b'f'

unfoldable pub is_lowercase : Properties → ℕ → Bool
is_lowercase u c = u.u_is_ulowercase c

unfoldable pub is_uppercase : Properties → ℕ → Bool
is_uppercase u c = u.u_is_uuppercase c

unfoldable pub is_letter : Properties → ℕ → Bool
is_letter u c = u.u_is_uuppercase c || u.u_is_ulowercase c || u.u_isdigit c || c == b'_'

unfoldable pub is_quote : ℕ → Bool
is_quote c = c == 39

unfoldable pub is_dquote : ℕ → Bool
is_dquote c = c == 34

unfoldable pub is_backslash : ℕ → Bool
is_backslash c = c == b'\\'

unfoldable pub is_minus : ℕ → Bool
is_minus c = c == b'-'

unfoldable pub is_exponent : ℕ → Bool
is_exponent c = c == b'e' || c == b'E'

unfoldable pub is_imaginary : ℕ → Bool
is_imaginary c = c == b'i' || c == b'j'

unfoldable pub is_escaped : ℕ → Bool
is_escaped c = c == b'\\' || c == b't' || c == 39 || c == 34 || c == b'r' || c == b'n'

unfoldable pub is_math : ℕ → Bool
is_math c =
    (leb 8704 c && leb c 8959)
    || (leb 10176 c && leb c 10223)
    || (leb 10624 c && leb c 10751)
    || (leb 10752 c && leb c 11007)
    || (leb 8448 c && leb c 8527)
    || (leb 8968 c && leb c 8971)
    || (leb 9632 c && leb c 9727)
    || (leb 11056 c && leb c 11084)
    || (leb 8592 c && leb c 8703)
    || (leb 119808 c && leb c 120831)

unfoldable pub is_operator : ℕ → Bool
is_operator c =
    c == b'~'
    || c == b'!'
    || c == b'@'
    || c == b'$'
    || c == b'%'
    || c == b'^'
    || c == b'&'
    || c == b'*'
    || c == b'-'
    || c == b'+'
    || c == b'='
    || c == b'|'
    || c == b'\\'
    || c == b'/'
    || c == b'?'
    || c == b'<'
    || c == b'>'
    || c == b'.'
