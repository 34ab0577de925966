-- ===== src/Lexical/Scan/Quoted.antt =====
-- The characters and texts in quotes of the tokenizer of src/lexical.hpp.
pub mod Total
use egel.Prelude.{ℕ, zero, suc, ◌-◌, Bool, false, not, ◌||◌, [], ◌∷◌, ◌++◌, length}
use egel.Prelude.{if◌then◌else◌}
use egel.Prelude.Text.{Text, codes}
use egel.Prelude.Units.{take_units, drop_units}
use egel.Reader.{Position, Reader, position, at_end, look, skip}
use egel.Lexical.Chars.{is_eol, is_quote, is_dquote, is_backslash, is_escaped}
use egel.Lexical.Token.{Token, token_char, token_text}
use egel.Lexical.Escape.{unicode_escape}
use egel.Lexical.Scan.Loops.{Lexed, ok, lexical_error, out_of_fuel, ◌>>=◌, rounds, ahead}

-- `reader.end() || is_eol(reader.look())`
unfoldable pub stops : Reader → Bool
stops r = at_end r || is_eol (look r)

unfoldable pub char_error {ℓ} : {A : Type ℓ} → Reader → Lexed A
char_error r = lexical_error (position r) (codes "error in char")

unfoldable pub string_error {ℓ} : {A : Type ℓ} → Reader → Lexed A
string_error r = lexical_error (position r) (codes "error in string")

-- The character behind a backslash, if there is one: it must be one that is escaped.
unfoldable pub scan_escaped : Text → Reader → Lexed (Text × Reader)
scan_escaped str r =
    if not (is_backslash (look r))
    then ok (str, r)
    else if stops (skip r)
    then char_error (skip r)
    else if not (is_escaped (look (skip r)))
    then char_error (skip r)
    else ok (str ++ (look (skip r) ∷ []), skip r)

-- The closing quote.
unfoldable pub scan_quote : Position → Text → Reader → Lexed (Token × Reader)
scan_quote p str r =
    if stops r
    then char_error r
    else if not (is_quote (look r))
    then char_error r
    else ok (record { tag = token_char; position = p; text = str ++ (look r ∷ []) }, skip r)

unfoldable pub scan_char : Reader → Lexed (Token × Reader)
scan_char r = if stops (skip r) then char_error (skip r) else do
  (str, s) ← scan_escaped (look r ∷ look (skip r) ∷ []) (skip r)
  scan_quote (position r) str (skip s)

-- The three double quotes behind which a block stops; `look(n)` has no test for the end.
unfoldable pub is_block_end : Reader → Lexed Bool
is_block_end r = ahead 0 r >>= λ c.
    if not (is_dquote c)
    then ok false
    else (ahead 1 r >>= λ d.
        if not (is_dquote d) then ok false else (ahead 2 r >>= λ e. ok (is_dquote e)))

unfoldable pub scan_block_loop : ℕ → Text → Reader → Lexed (Text × Reader)
scan_block_loop zero str r = out_of_fuel
scan_block_loop (suc n) str r =
    let rest = scan_block_loop n (str ++ (look r ∷ [])) (skip r) in
    is_block_end r >>= λ b. if b then ok (str, r) else if at_end r then string_error r else rest

-- The token of a block: a quote is at both ends of the text that was read, and what is between
-- them is escaped. The text is counted in code points and cut by code units.
unfoldable pub block_text : Text → Text
unfolding take_units drop_units
block_text str = 34 ∷ (unicode_escape (take_units (length str - 2) (drop_units 1 str)) ++ (34 ∷ []))

-- A text between three double quotes.
unfoldable pub scan_block : Reader → Lexed (Token × Reader)
scan_block r = do
  (str, s) ← scan_block_loop (rounds r) (look r ∷ []) (skip (skip (skip (skip r))))
  ok (
    record { tag = token_text; position = position r; text = block_text (str ++ (look s ∷ [])) },
    skip (skip (skip (skip s))),
  )

-- The backslash in a text, and the character behind it.
unfoldable pub scan_backslash : Text → Reader → Lexed (Text × Reader)
scan_backslash str r =
    if not (is_backslash (look r))
    then ok (str, r)
    else if stops (skip r)
    then string_error (skip r)
    else if not (is_escaped (look (skip r)))
    then string_error (skip r)
    else ok (str ++ (look r ∷ []), skip r)

unfoldable pub scan_text_loop : ℕ → Text → Reader → Lexed (Text × Reader)
scan_text_loop zero str r = out_of_fuel
scan_text_loop (suc n) str r =
    if is_dquote (look r)
    then ok (str, r)
    else scan_backslash str r >>= λ (t, s).
        let rest = scan_text_loop n (t ++ (look s ∷ [])) (skip s) in
        if stops (skip s) then string_error (skip s) else rest

unfoldable pub scan_text : Reader → Lexed (Token × Reader)
scan_text r = if stops (skip r) then string_error (skip r) else do
  (str, s) ← scan_text_loop (rounds r) (look r ∷ []) (skip r)
  ok (record { tag = token_text; position = position r; text = str ++ (look s ∷ []) }, skip s)

-- A block starts with three double quotes and the end of a line.
unfoldable pub scan_string : Reader → Lexed (Token × Reader)
scan_string r = ahead 1 r >>= λ c.
    if not (is_dquote c)
    then scan_text r
    else (ahead 2 r >>= λ d.
        if not (is_dquote d)
        then scan_text r
        else (ahead 3 r >>= λ e. if is_eol e then scan_block r else scan_text r))
