-- ===== src/Lexical/Token.antt =====
-- `token_t`, `Token` and `Tokens` of src/lexical.hpp.
use egel.Prelude.{ℕ, ◌+◌, ◌-◌, Bool, List, [], ◌∷◌, ◌++◌, none, some, ltb, length, get_elem?}
use egel.Prelude.{if◌then◌else◌, ◌==◌}
use egel.Prelude.Outcome.{Outcome, ok, out_of_range}
use egel.Prelude.Text.{Text}
use egel.Reader.{Position}

pub data Tag : Type 0 where
  token_error : Tag
  token_eof : Tag
  token_whitespace : Tag
  token_comment : Tag
  token_dot : Tag
  token_comma : Tag
  token_eq : Tag
  token_assign : Tag
  token_lparen : Tag
  token_rparen : Tag
  token_lsquare : Tag
  token_rsquare : Tag
  token_lcurly : Tag
  token_rcurly : Tag
  token_colon : Tag
  token_dcolon : Tag
  token_semicolon : Tag
  token_dsemicolon : Tag
  token_hash : Tag
  token_bar : Tag
  token_question : Tag
  token_operator : Tag
  token_uppercase : Tag
  token_lowercase : Tag
  token_integer : Tag
  token_hexinteger : Tag
  token_float : Tag
  token_imaginary : Tag
  token_char : Tag
  token_text : Tag
  token_lambda : Tag
  token_arrow : Tag
  token_class : Tag
  token_extends : Tag
  token_with : Tag
  token_if : Tag
  token_then : Tag
  token_else : Tag
  token_try : Tag
  token_catch : Tag
  token_throw : Tag
  token_let : Tag
  token_in : Tag
  token_do : Tag
  token_data : Tag
  token_def : Tag
  token_namespace : Tag
  token_val : Tag
  token_using : Tag
  token_import : Tag

-- The value of the enumerator.
unfoldable pub value : Tag → ℕ
value token_error = 0
value token_eof = 1
value token_whitespace = 2
value token_comment = 3
value token_dot = 4
value token_comma = 5
value token_eq = 6
value token_assign = 7
value token_lparen = 8
value token_rparen = 9
value token_lsquare = 10
value token_rsquare = 11
value token_lcurly = 12
value token_rcurly = 13
value token_colon = 14
value token_dcolon = 15
value token_semicolon = 16
value token_dsemicolon = 17
value token_hash = 18
value token_bar = 19
value token_question = 20
value token_operator = 21
value token_uppercase = 22
value token_lowercase = 23
value token_integer = 24
value token_hexinteger = 25
value token_float = 26
value token_imaginary = 27
value token_char = 28
value token_text = 29
value token_lambda = 30
value token_arrow = 31
value token_class = 32
value token_extends = 33
value token_with = 34
value token_if = 35
value token_then = 36
value token_else = 37
value token_try = 38
value token_catch = 39
value token_throw = 40
value token_let = 41
value token_in = 42
value token_do = 43
value token_data = 44
value token_def = 45
value token_namespace = 46
value token_val = 47
value token_using = 48
value token_import = 49

unfoldable pub tag_eq : Tag → Tag → Bool
unfolding value
tag_eq s t = value s == value t

pub record Token : Type 0 where
  pub tag : Tag
  pub position : Position
  pub text : Text

unfoldable pub is_tag : Tag → Token → Bool
unfolding tag_eq
is_tag g t = tag_eq t.tag g

unfoldable pub set_tag : Tag → Token → Token
set_tag g t = record t { tag = g }

pub record Tokens : Type 0 where
  pub tokens : List Token
  pub index : ℕ

unfoldable pub no_tokens : Tokens
no_tokens = record { tokens = []; index = 0 }

-- Behind the end the last token is seen, which is read with no test in an empty sequence.
unfoldable pub look : ℕ → Tokens → Outcome Token
look n tt =
    let i : ℕ =
      if ltb (tt.index + n) (length tt.tokens) then tt.index + n else length tt.tokens - 1 in
    elim (get_elem? tt.tokens i) [ none ↦ out_of_range | some t ↦ ok t ]

unfoldable pub skip : Tokens → Tokens
skip tt = record tt { index = tt.index + 1 }

unfoldable pub set_cursor : ℕ → Tokens → Tokens
set_cursor c tt = record tt { index = c }

unfoldable pub push : Token → Tokens → Tokens
push t tt = record tt { tokens = tt.tokens ++ (t ∷ []) }

-- The loops of `map` and `filter`.
unfoldable pub map_tokens : (Token → Token) → List Token → List Token
map_tokens f [] = []
map_tokens f (t ∷ tt) = f t ∷ map_tokens f tt

unfoldable pub filter_tokens : (Token → Bool) → List Token → List Token
filter_tokens p [] = []
filter_tokens p (t ∷ tt) = let rest = filter_tokens p tt in if p t then t ∷ rest else rest

unfoldable pub map_all : (Token → Token) → Tokens → Tokens
unfolding map_tokens
map_all f tt = record { tokens = map_tokens f tt.tokens; index = 0 }

unfoldable pub filter : (Token → Bool) → Tokens → Tokens
unfolding filter_tokens
filter p tt = record { tokens = filter_tokens p tt.tokens; index = 0 }
