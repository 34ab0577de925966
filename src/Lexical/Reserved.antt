-- ===== src/Lexical/Reserved.antt =====
-- The tables of src/lexical.hpp, and `sanitize`.
pub mod Sanitize
use egel.Prelude.{ℕ, Bool, true, false, not, ◌&&◌, List, [], ◌∷◌, ◌++◌, if◌then◌else◌}
use egel.Prelude.Text.{Text, codes, text_eq}
use egel.Lexical.Token.{Tag, tag_eq, Token, Tokens, set_tag, map_all, filter}
use egel.Lexical.Token.{
  token_arrow, token_assign, token_bar, token_catch, token_char, token_class, token_colon,
  token_comma,
}
use egel.Lexical.Token.{
  token_comment, token_data, token_dcolon, token_def, token_do, token_dot, token_dsemicolon,
  token_else,
}
use egel.Lexical.Token.{
  token_eof, token_eq, token_error, token_extends, token_float, token_hash, token_hexinteger,
  token_if,
}
use egel.Lexical.Token.{
  token_imaginary, token_import, token_in, token_integer, token_lambda, token_lcurly, token_let,
  token_lowercase,
}
use egel.Lexical.Token.{
  token_lparen, token_lsquare, token_namespace, token_operator, token_question, token_rcurly,
  token_rparen, token_rsquare,
}
use egel.Lexical.Token.{
  token_semicolon, token_text, token_then, token_throw, token_try, token_uppercase, token_using,
  token_val,
}
use egel.Lexical.Token.{token_whitespace, token_with}

-- `token_text_table`, in two halves.
abbrev pub token_text_table : List (Tag × Text)
token_text_table =
    (token_error, codes "error")
    ∷ (token_eof, codes "end of file")
    ∷ (token_whitespace, codes "whitespace")
    ∷ (token_comment, codes "comment")
    ∷ (token_dot, codes ".")
    ∷ (token_comma, codes ",")
    ∷ (token_eq, codes "=")
    ∷ (token_assign, codes "<-")
    ∷ (token_lparen, codes "(")
    ∷ (token_rparen, codes ")")
    ∷ (token_lsquare, codes "[")
    ∷ (token_rsquare, codes "]")
    ∷ (token_lcurly, codes "{")
    ∷ (token_rcurly, codes "}")
    ∷ (token_colon, codes ":")
    ∷ (token_dcolon, codes "::")
    ∷ (token_semicolon, codes ";")
    ∷ (token_dsemicolon, codes ";;")
    ∷ (token_hash, codes "#")
    ∷ (token_bar, codes "|")
    ∷ (token_question, codes "?")
    ∷ (token_operator, codes "operator")
    ∷ (token_lowercase, codes "lowercase")
    ∷ (token_uppercase, codes "uppercase")
    ∷ (token_integer, codes "integer")
    ∷ []

abbrev pub token_text_table_more : List (Tag × Text)
token_text_table_more =
    (token_hexinteger, codes "hexadecimal integer")
    ∷ (token_float, codes "float")
    ∷ (token_imaginary, codes "imaginary")
    ∷ (token_char, codes "char")
    ∷ (token_text, codes "text")
    ∷ (token_lambda, b'\\' ∷ [])
    ∷ (token_class, codes "class")
    ∷ (token_extends, codes "extends")
    ∷ (token_with, codes "with")
    ∷ (token_if, codes "if")
    ∷ (token_then, codes "then")
    ∷ (token_else, codes "else")
    ∷ (token_let, codes "let")
    ∷ (token_in, codes "in")
    ∷ (token_try, codes "try")
    ∷ (token_catch, codes "catch")
    ∷ (token_throw, codes "throw")
    ∷ (token_arrow, codes "->")
    ∷ (token_val, codes "val")
    ∷ (token_do, codes "do")
    ∷ (token_using, codes "using")
    ∷ (token_import, codes "import")
    ∷ (token_data, codes "data")
    ∷ (token_def, codes "def")
    ∷ (token_namespace, codes "namespace")
    ∷ []

unfoldable pub token_text_from : List (Tag × Text) → Tag → Text
token_text_from [] g = []
token_text_from ((t, s) ∷ table) g = if tag_eq g t then s else token_text_from table g

unfoldable pub tag_text : Tag → Text
unfolding token_text_from
tag_text g = token_text_from (token_text_table ++ token_text_table_more) g

abbrev pub reserved_table : List (Tag × Text)
reserved_table =
    (token_bar, codes "|")
    ∷ (token_eq, codes "=")
    ∷ (token_assign, codes "<-")
    ∷ (token_question, codes "?")
    ∷ (token_lambda, b'\\' ∷ [])
    ∷ (token_class, codes "class")
    ∷ (token_extends, codes "extends")
    ∷ (token_with, codes "with")
    ∷ (token_if, codes "if")
    ∷ (token_then, codes "then")
    ∷ (token_else, codes "else")
    ∷ (token_let, codes "let")
    ∷ (token_in, codes "in")
    ∷ (token_try, codes "try")
    ∷ (token_catch, codes "catch")
    ∷ (token_throw, codes "throw")
    ∷ (token_do, codes "do")
    ∷ (token_arrow, codes "->")
    ∷ (token_import, codes "import")
    ∷ (token_using, codes "using")
    ∷ (token_data, codes "data")
    ∷ (token_def, codes "def")
    ∷ (token_namespace, codes "namespace")
    ∷ (token_val, codes "val")
    ∷ []

-- The loop over the table: the first entry with the text gives the tag.
unfoldable pub reserve : List (Tag × Text) → Token → Token
unfolding set_tag
reserve [] t = t
reserve ((g, s) ∷ table) t =
    let rest = reserve table t in if text_eq t.text s then set_tag g t else rest

unfoldable pub is_relevant : Token → Bool
unfolding tag_eq
is_relevant t = not (tag_eq t.tag token_whitespace) && not (tag_eq t.tag token_comment)

unfoldable pub sanitize : Tokens → Tokens
unfolding map_all filter reserve is_relevant
sanitize tt = map_all (reserve reserved_table) (filter is_relevant tt)
