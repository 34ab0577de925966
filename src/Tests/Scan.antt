-- ===== src/Tests/Scan.antt =====
-- The tokenizer of src/lexical.hpp on short texts, and its theorems at one.
use egel.Prelude.{◌≢◌, arith, ℕ, List, [], ◌∷◌, map, ◌≡◌, refl, leb, ◌&&◌}
use egel.Prelude.Text.{Text, codes, text_eq}
use egel.Reader.{create, position, at_end, look, look_ahead, skip}
use egel.Lexical.Chars.{
  Properties, is_whitespace, is_eol, is_hash, is_dot, is_comma, is_eq, is_lparen, is_rparen,
  is_lsquare, is_rsquare, is_lcurly, is_rcurly, is_colon, is_semicolon, is_bar, is_underscore,
  is_digit, is_hexdigit, is_lowercase, is_uppercase, is_letter, is_quote, is_dquote, is_backslash,
  is_minus, is_exponent, is_imaginary, is_escaped, is_math, is_operator,
}
use egel.Lexical.Token.{Token, Tokens, value, push, no_tokens}
use egel.Lexical.Scan.Loops.{
  Lexed, ok, out_of_fuel, lexical_error, out_of_range, rounds, ahead, while_in, while_until,
}
use egel.Lexical.Scan.Quoted.{
  stops, char_error, string_error, scan_escaped, scan_quote, scan_char, is_block_end,
  scan_block_loop, block_text, scan_block, scan_backslash, scan_text_loop, scan_text, scan_string,
}
use egel.Lexical.Scan.Number.{
  taken, token, scan_hexint, scan_minus, scan_exponent, scan_fraction, scan_number,
}
use egel.Lexical.Scan.{
  single, scan_whitespace, scan_comment, scan_colon, scan_semicolon, scan_run, starts_number,
  scan_name, scan_compound, scan_token, tokenize_loop, tokenize_from_reader,
}
use egel.Lexical.Scan.Number.Total.{IsPlain}
use egel.Lexical.Scan.Total.{tokenize_from_reader_total}
use egel.Lexical.Egg.{tokenize_from_egg_reader}
use egel.Lexical.Egg.Total.{tokenize_from_egg_reader_total}
use egel.Lexical.Escape.{escape_char, unicode_escape}
use egel.Lexical.Scan.Names.{Scans, name_class, scan_name_lem}
use egel.Reader.Positions.{create-IsAt}

-- The ASCII part of the properties of characters.
abbrev ascii : Properties
ascii = record {
  u_is_uwhite_space = λ c. leb c 32;
  u_isdigit = λ c. leb 48 c && leb c 57;
  u_is_ulowercase = λ c. leb 97 c && leb c 122;
  u_is_uuppercase = λ c. leb 65 c && leb c 90;
}

abbrev brief : Token → ℕ × Text
brief t = (value t.tag, t.text)

abbrev briefs : Lexed Tokens → Lexed (List (ℕ × Text))
briefs (ok tt) = ok (map brief tt.tokens)
briefs (lexical_error p s) = lexical_error p s
briefs out_of_range = out_of_range
briefs Lexed.out_of_fuel = Lexed.out_of_fuel

-- The tags and the texts of the tokens.
run : Text → Lexed (List (ℕ × Text))
unfolding is_whitespace is_eol is_hash is_dot is_comma is_eq is_lparen is_rparen is_lsquare
    is_rsquare is_lcurly is_rcurly is_colon is_semicolon is_bar is_underscore is_digit is_hexdigit
    is_lowercase is_uppercase is_letter is_quote is_dquote is_backslash is_minus is_exponent
    is_imaginary is_escaped is_math is_operator value push no_tokens rounds ahead while_in
    while_until stops char_error string_error scan_escaped scan_quote scan_char is_block_end
    scan_block_loop block_text scan_block scan_backslash scan_text_loop scan_text scan_string taken
    token scan_hexint scan_minus scan_exponent scan_fraction scan_number single scan_whitespace
    scan_comment scan_colon scan_semicolon scan_run starts_number scan_name scan_compound scan_token
    tokenize_loop tokenize_from_reader escape_char unicode_escape create position at_end look
    look_ahead skip text_eq
run s = briefs (tokenize_from_reader ascii (create [] s))

number_run :
    run (codes "f = -12.5e3")
    ≡ ok (
        (23, codes "f")
        ∷ (2, codes " ")
        ∷ (21, codes "=")
        ∷ (2, codes " ")
        ∷ (26, codes "-12.5e3")
        ∷ (1, codes "EOF")
        ∷ [])
unfolding run
number_run = refl

quoted_run :
    run (codes "x::'a'")
    ≡ ok ((23, codes "x") ∷ (15, codes "::") ∷ (28, codes "'a'") ∷ (1, codes "EOF") ∷ [])
unfolding run
quoted_run = refl

-- A minus at the end of a text is followed by a read past the end.
minus_run : run (codes "x-") ≡ out_of_range
unfolding run
minus_run = refl

-- The `z` behind a block is lost.
block_run :
    run (34 ∷ 34 ∷ 34 ∷ 10 ∷ b'a' ∷ 34 ∷ 34 ∷ 34 ∷ codes "zy")
    ≡ ok ((29, 34 ∷ b'a' ∷ 34 ∷ []) ∷ (23, codes "y") ∷ (1, codes "EOF") ∷ [])
unfolding run
block_run = refl

scan_name_lem_example :
    Scans
      (name_class ascii b'f').0
      (name_class ascii b'f').1
      (create [] (codes "f1 x"))
      []
      (codes "f1 x")
      (scan_name ascii (create [] (codes "f1 x")))
scan_name_lem_example =
    scan_name_lem ascii (create [] (codes "f1 x")) [] b'f' (codes "1 x")
      (unfold is_letter is_uppercase is_lowercase is_digit in refl) (omega arith)
      (create-IsAt [] (codes "f1 x")) (unfold is_operator is_uppercase is_lowercase in refl)

ascii-IsPlain : IsPlain ascii
ascii-IsPlain = record { digit = refl; lower = refl; upper = refl }

tokenize_from_reader_total_example :
    tokenize_from_reader ascii (create [] (codes "f1 x")) ≢ out_of_fuel
tokenize_from_reader_total_example =
    tokenize_from_reader_total ascii ascii-IsPlain (create [] (codes "f1 x"))

abbrev literate : Text
literate = codes "text\n```\nx:y\n```\n"

tokenize_from_egg_reader_total_example :
    tokenize_from_egg_reader ascii (create [] literate) ≢ out_of_fuel
tokenize_from_egg_reader_total_example =
    tokenize_from_egg_reader_total ascii ascii-IsPlain (create [] literate)
