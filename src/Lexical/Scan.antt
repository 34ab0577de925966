-- ===== src/Lexical/Scan.antt =====
-- `tokenize_from_reader` of src/lexical.hpp: a function for each branch that reads more than one
-- character, and the loop. What a `while` loop does is computed on as many rounds as there are
-- characters in the buffer, and one more.
pub mod Number
pub mod Quoted
pub mod Loops
pub mod Munch
pub mod Measure
pub mod Total
pub mod Names
use egel.Prelude.{ℕ, zero, suc, Bool, true, false, not, ◌&&◌, ◌||◌, List, [], ◌∷◌, ◌++◌, length}
use egel.Prelude.{if◌then◌else◌, ◌==◌}
use egel.Prelude.Text.{Text, codes}
use egel.Reader.{Position, Reader, position, at_end, look, skip}
use egel.Lexical.Chars.{
  Properties, is_whitespace, is_eol, is_hash, is_comma, is_lparen, is_rparen, is_lsquare,
  is_rsquare,
}
use egel.Lexical.Chars.{
  is_lcurly, is_rcurly, is_colon, is_semicolon, is_math, is_quote, is_dquote, is_digit, is_minus,
}
use egel.Lexical.Chars.{is_operator, is_uppercase, is_lowercase, is_letter, is_underscore}
use egel.Lexical.Token.{
  Tag, Token, Tokens, no_tokens, push, token_whitespace, token_comment, token_comma, token_lparen,
}
use egel.Lexical.Token.{
  token_rparen, token_lsquare, token_rsquare, token_lcurly, token_rcurly, token_colon, token_dcolon,
}
use egel.Lexical.Token.{
  token_semicolon, token_dsemicolon, token_operator, token_uppercase, token_lowercase, token_eof,
}
use egel.Lexical.Scan.Loops.{
  Lexed, ok, lexical_error, out_of_fuel, ◌>>=◌, rounds, ahead, while_in, while_until,
}
use egel.Lexical.Scan.Number.{scan_number}
use egel.Lexical.Scan.Quoted.{scan_char, scan_string}

-- A token of the character that is seen.
unfoldable pub single : Tag → Reader → Lexed (Token × Reader)
single g r = ok (record { tag = g; position = position r; text = look r ∷ [] }, skip r)

unfoldable pub scan_whitespace : Properties → Reader → Lexed (Token × Reader)
scan_whitespace u r = do
  (str, s) ← while_until (rounds r) (is_whitespace u) [] r
  ok (record { tag = token_whitespace; position = position r; text = str }, s)

unfoldable pub scan_comment : Reader → Lexed (Token × Reader)
scan_comment r = do
  (str, s) ← while_until (rounds r) (λ c. not (is_eol c)) (look r ∷ []) (skip r)
  ok (record { tag = token_comment; position = position r; text = str }, s)

unfoldable pub scan_colon : Reader → Lexed (Token × Reader)
scan_colon r =
    if is_colon (look (skip r))
    then ok (record { tag = token_dcolon; position = position r; text = codes "::" }, skip (skip r))
    else ok (record { tag = token_colon; position = position r; text = codes ":" }, skip r)

unfoldable pub scan_semicolon : Reader → Lexed (Token × Reader)
scan_semicolon r =
    if is_semicolon (look (skip r))
    then ok
        (record { tag = token_dsemicolon; position = position r; text = codes ";;" }, skip (skip r))
    else ok (record { tag = token_semicolon; position = position r; text = codes ";" }, skip r)

-- An operator or a name: all characters of a class.
unfoldable pub scan_run : Tag → (ℕ → Bool) → Reader → Lexed (Token × Reader)
scan_run g p r = do
  (str, s) ← while_in (rounds r) p [] r
  ok (record { tag = g; position = position r; text = str }, s)

-- `is_digit(c) || (is_minus(c) && is_digit(reader.look(1)))`
unfoldable pub starts_number : Properties → Reader → Lexed Bool
starts_number u r =
    if is_digit u (look r)
    then ok true
    else if not (is_minus (look r))
    then ok false
    else do c ← ahead 1 r; ok (is_digit u c)

-- The branches from the operators on.
unfoldable pub scan_name : Properties → Reader → Lexed (Token × Reader)
scan_name u r =
    let c : ℕ = look r in
    if is_operator c
    then scan_run token_operator is_operator r
    else if is_uppercase u c
    then scan_run token_uppercase (is_letter u) r
    else if is_lowercase u c
    then scan_run token_lowercase (is_letter u) r
    else if is_underscore c
    then single token_lowercase r
    else lexical_error (position r) (codes "unrecognized lexeme " ++ (c ∷ []))

-- The branches from the mathematical characters on.
unfoldable pub scan_compound : Properties → Reader → Lexed (Token × Reader)
scan_compound u r =
    let c : ℕ = look r in
    if is_math c
    then single token_lowercase r
    else if is_quote c
    then scan_char r
    else if is_dquote c
    then scan_string r
    else starts_number u r >>= λ b. if b then scan_number u r else scan_name u r

-- The body of the loop.
unfoldable pub scan_token : Properties → Reader → Lexed (Token × Reader)
scan_token u r =
    let c : ℕ = look r in
    if is_whitespace u c
    then scan_whitespace u r
    else if is_hash c
    then scan_comment r
    else if is_comma c
    then single token_comma r
    else if is_lparen c
    then single token_lparen r
    else if is_rparen c
    then single token_rparen r
    else if is_lsquare c
    then single token_lsquare r
    else if is_rsquare c
    then single token_rsquare r
    else if is_lcurly c
    then single token_lcurly r
    else if is_rcurly c
    then single token_rcurly r
    else if is_colon c
    then scan_colon r
    else if is_semicolon c
    then scan_semicolon r
    else scan_compound u r

unfoldable pub tokenize_loop : ℕ → Properties → Tokens → Reader → Lexed Tokens
tokenize_loop zero u tt r = out_of_fuel
tokenize_loop (suc n) u tt r =
    if at_end r
    then ok (push (record { tag = token_eof; position = position r; text = codes "EOF" }) tt)
    else scan_token u r >>= λ (t, s). tokenize_loop n u (push t tt) s

unfoldable pub tokenize_from_reader : Properties → Reader → Lexed Tokens
tokenize_from_reader u r = tokenize_loop (rounds r) u no_tokens r
