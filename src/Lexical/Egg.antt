-- ===== src/Lexical/Egg.antt =====
-- `tokenize_from_egg_reader` of src/lexical.hpp, which reads literate source: lines of text, and
-- code between lines that begin with three backquotes. The code is read by the branches of
-- `tokenize_from_reader` but for the tokens of a colon, a semicolon and a block of text.
pub mod Total
use egel.Prelude.{ℕ, zero, suc, Bool, true, false, not, List, [], ◌∷◌, ◌++◌, if◌then◌else◌, ◌==◌}
use egel.Prelude.Text.{Text, codes}
use egel.Reader.{Position, Reader, position, at_end, look, skip, eol}
use egel.Lexical.Chars.{
  Properties, is_whitespace, is_hash, is_comma, is_lparen, is_rparen, is_lsquare, is_rsquare,
  is_lcurly, is_rcurly, is_colon, is_semicolon, is_eol, is_math, is_quote, is_dquote,
}
use egel.Lexical.Token.{
  Token, Tokens, no_tokens, push, token_comment, token_comma, token_lparen, token_rparen,
  token_lsquare, token_rsquare, token_lcurly, token_rcurly, token_colon, token_dcolon,
  token_semicolon, token_dsemicolon, token_lowercase, token_text, token_eof,
}
use egel.Lexical.Scan.{single, scan_whitespace, scan_comment, starts_number, scan_name}
use egel.Lexical.Scan.Loops.{Lexed, ok, out_of_fuel, ◌>>=◌, rounds, ahead, while_until}
use egel.Lexical.Scan.Number.{scan_number}
use egel.Lexical.Scan.Quoted.{scan_char, scan_text, scan_block_loop}

-- The text of the token of a single colon is the character behind it.
unfoldable pub egg_colon : Reader → Lexed (Token × Reader)
egg_colon r =
    if is_colon (look (skip r))
    then ok (record { tag = token_dcolon; position = position r; text = codes "::" }, skip (skip r))
    else ok (record { tag = token_colon; position = position r; text = look (skip r) ∷ [] }, skip r)

unfoldable pub egg_semicolon : Reader → Lexed (Token × Reader)
egg_semicolon r =
    if is_semicolon (look (skip r))
    then ok
        (record { tag = token_dsemicolon; position = position r; text = codes ";;" }, skip (skip r))
    else ok
        (record { tag = token_semicolon; position = position r; text = look (skip r) ∷ [] }, skip r)

-- A block is not escaped.
unfoldable pub egg_block : Reader → Lexed (Token × Reader)
egg_block r = do
  (str, s) ← scan_block_loop (rounds r) (look r ∷ []) (skip (skip (skip (skip r))))
  ok (
    record { tag = token_text; position = position r; text = str ++ (look s ∷ []) },
    skip (skip (skip (skip s))),
  )

unfoldable pub egg_string : Reader → Lexed (Token × Reader)
egg_string r = ahead 1 r >>= λ c.
    if not (is_dquote c)
    then scan_text r
    else (ahead 2 r >>= λ d.
        if not (is_dquote d)
        then scan_text r
        else (ahead 3 r >>= λ e. if is_eol e then egg_block r else scan_text r))

unfoldable pub egg_compound : Properties → Reader → Lexed (Token × Reader)
egg_compound u r =
    let c : ℕ = look r in
    if is_math c
    then single token_lowercase r
    else if is_quote c
    then scan_char r
    else if is_dquote c
    then egg_string r
    else starts_number u r >>= λ b. if b then scan_number u r else scan_name u r

-- The body of the loop over code.
unfoldable pub egg_token : Properties → Reader → Lexed (Token × Reader)
egg_token u r =
    let c : ℕ = look r in
    if is_whitespace u c
    then scan_whitespace u r
    else if is_hash c
    then scan_comment r
    else if is_comma c
    then single token_comma r
    else if is_lparen c
    then single token_lparen r
    else if is_rparen c
    then single token_rparen r
    else if is_lsquare c
    then single token_lsquare r
    else if is_rsquare c
    then single token_rsquare r
    else if is_lcurly c
    then single token_lcurly r
    else if is_rcurly c
    then single token_rcurly r
    else if is_colon c
    then egg_colon r
    else if is_semicolon c
    then egg_semicolon r
    else egg_compound u r

-- Three backquotes; `look(n)` has no test for the end.
unfoldable pub is_fence : Reader → Lexed Bool
is_fence r = ahead 0 r >>= λ c.
    if not (c == 96)
    then ok false
    else (ahead 1 r >>= λ d. if not (d == 96) then ok false else (ahead 2 r >>= λ e. ok (e == 96)))

-- The rest of a line, as a comment.
unfoldable pub egg_line : Reader → Lexed (Token × Reader)
egg_line r = do
  (str, s) ← while_until (rounds r) (λ c. not (c == b'\n')) [] r
  ok (record { tag = token_comment; position = position r; text = str }, s)

-- A round of the loop where text is read; the answer is whether the next round reads text.
unfoldable pub egg_text : Tokens → Reader → Lexed ((Bool × Tokens) × Reader)
egg_text tt r = is_fence r >>= λ b. egg_line r >>= λ (t, s).
    if b then ok ((false, push t tt), s) else ok ((true, push t tt), if eol s then skip s else s)

-- The loop over code.
unfoldable pub egg_code : ℕ → Properties → Tokens → Reader → Lexed (Tokens × Reader)
egg_code zero u tt r = out_of_fuel
egg_code (suc n) u tt r =
    if at_end r
    then ok (tt, r)
    else is_fence r >>= λ b.
        if b then ok (tt, r) else egg_token u r >>= λ (t, s). egg_code n u (push t tt) s

-- A round of the loop where code is read.
unfoldable pub egg_fenced : Properties → Tokens → Reader → Lexed ((Bool × Tokens) × Reader)
egg_fenced u tt r = egg_code (rounds r) u tt r >>= λ (tt', s). is_fence s >>= λ b.
    if b then (egg_line s >>= λ (t, q). ok ((true, push t tt'), q)) else ok ((false, tt'), s)

unfoldable pub egg_loop : ℕ → Properties → Bool → Tokens → Reader → Lexed Tokens
egg_loop zero u text tt r = out_of_fuel
egg_loop (suc n) u text tt r =
    if at_end r
    then ok (push (record { tag = token_eof; position = position r; text = codes "EOF" }) tt)
    else (if text then egg_text tt r else egg_fenced u tt r) >>= λ ((text', tt'), s).
        egg_loop n u text' tt' s

unfoldable pub tokenize_from_egg_reader : Properties → Reader → Lexed Tokens
tokenize_from_egg_reader u r = egg_loop (rounds r) u true no_tokens r
