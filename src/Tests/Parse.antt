-- ===== src/Tests/Parse.antt =====
-- The parser of src/syntactical.hpp on short sequences of tokens, and its theorems at concrete inputs.
use egel.Prelude.{◌≡◌, refl, List, [], ◌∷◌, ◌++◌, leb, ◌&&◌}
use egel.Prelude.Text.{Text, codes, text_eq}
use egel.Reader.{Position, create}
use egel.Operators.{
  operator_char_entry, operator_char_attributes, operator_char_compare, unit_length, compare_loop,
  operator_compare, operator_head_char, operator_is_infix, operator_is_prefix,
  operator_is_right_associative,
}
use egel.Lexical.Chars.{Properties}
use egel.Lexical.Token.{Tag, Token, Tokens, token_eof, token_integer, token_operator, tag_eq, value}
use egel.Lexical.Token.{look as look_at, skip as move_on}
use egel.Lexical.Scan.Number.Total.{IsPlain}
use egel.Syntax.{Ast, expr_integer, expr_combinator, expr_application}
use egel.Syntax.{position as position_of}
use egel.Syntax.Desugar.{three}
use egel.Syntactical.{
  Parsed, ok, lift, choose, look, skip, position, tag, text, is_at, error_at, error_here,
  check_token, force_token,
}
use egel.Syntactical.Names.{
  parse_leaf, parse_integer, qualifiers, is_variable, is_combinator, is_operator, peek_operator,
  parse_qualifiers, parse_qualified, parse_combinator, parse_operator, parse_prefix_operator,
}
use egel.Syntactical.Expressions.{
  starts_primary, is_primary, is_infix, is_prefix, climbs, binds, parse_name, primary_case,
  parse_primary, prefix_loop, parse_primary_prefix, arguments_loop, parse_primaries,
}
use egel.Syntactical.Arithmetic.{
  arithmetic_outer, arithmetic_inner, parse_arithmetic_expression_1, parse_arithmetic_expression,
  parse_sequence, expression, parse_expression,
}
use egel.Syntactical.Ends.{left, Ended, IsEnd, Ends}
use egel.Syntactical.Ends.Trees.Expressions.{IsExpr}
use egel.Syntactical.Ends.Arithmetic.{parse_expression-Ends}
use egel.Syntactical.Ends.Modules.{IsCommands}
use egel.Environment.{Frame}
use egel.Syntactical.Source.Core.{Compiles, read_source-Compiles}
use egel.Syntactical.Source.{read_source, read_line}
use egel.Syntactical.Source.Total.{Reads, IsModuleTree, read_source-Reads, read_line-Reads}

abbrev here : Position
here = record { resource = []; row = 1; column = 1 }

abbrev token : Tag → Text → Token
token g s = record { tag = g; position = here; text = s }

abbrev number : Text → Token
number s = token token_integer s

abbrev operator : Text → Token
operator s = token token_operator s

abbrev from : List Token → Tokens
from ts = record { tokens = ts; index = 0 }

abbrev final : Token
final = token token_eof (codes "EOF")

-- `1 + 2 * 3 - 4`
abbrev terms : List Token
terms =
    number (codes "1")
    ∷ operator (codes "+")
    ∷ number (codes "2")
    ∷ operator (codes "*")
    ∷ number (codes "3")
    ∷ operator (codes "-")
    ∷ number (codes "4")
    ∷ []

abbrev sum : Tokens
sum = from (terms ++ (final ∷ []))

abbrev tree_of : Parsed (Ast × Tokens) → List Ast
tree_of (ok (a, t)) = a ∷ []
tree_of _ = []

abbrev apply : Text → Ast → Ast → Ast
apply o a b = expr_application here (three (expr_combinator here [] o) a b)

abbrev literal : Text → Ast
literal s = expr_integer here s

-- A minus binds more than a plus.
grouped :
    tree_of (parse_expression (λ s. s) sum)
    ≡ apply (codes "+") (literal (codes "1")) (
        apply
          (codes "-")
          (apply (codes "*") (literal (codes "2")) (literal (codes "3")))
          (literal (codes "4")))
      ∷ []
unfolding operator_char_entry operator_char_attributes operator_char_compare unit_length
    compare_loop operator_compare operator_head_char operator_is_infix operator_is_prefix
    operator_is_right_associative tag_eq value look_at move_on position_of lift choose look skip
    position tag text is_at error_at error_here check_token force_token parse_leaf parse_integer
    qualifiers is_variable is_combinator is_operator peek_operator parse_qualifiers parse_qualified
    parse_combinator parse_operator parse_prefix_operator starts_primary is_primary is_infix
    is_prefix climbs binds parse_name primary_case parse_primary prefix_loop parse_primary_prefix
    arguments_loop parse_primaries arithmetic_outer arithmetic_inner parse_arithmetic_expression_1
    parse_arithmetic_expression parse_sequence expression parse_expression text_eq
grouped = refl

sum-Ended : Ended sum
unfolding Ended IsEnd text_eq
sum-Ended = (final, (refl, refl), terms, refl)

parse_expression-Ends_example : Ends IsExpr (left sum) (parse_expression (λ s. s) sum)
parse_expression-Ends_example = parse_expression-Ends (λ s. s) sum sum-Ended

-- The ASCII part of the properties of characters.
abbrev ascii : Properties
ascii = record {
  u_is_uwhite_space = λ c. leb c 32;
  u_isdigit = λ c. leb 48 c && leb c 57;
  u_is_ulowercase = λ c. leb 97 c && leb c 122;
  u_is_uuppercase = λ c. leb 65 c && leb c 90;
}

ascii-IsPlain : IsPlain ascii
ascii-IsPlain = record { digit = refl; lower = refl; upper = refl }

read_source-Reads_example :
    Reads IsModuleTree (read_source ascii (λ s. s) (create [] (codes "def f = [x -> g x]")))
read_source-Reads_example =
    read_source-Reads ascii ascii-IsPlain (λ s. s) (create [] (codes "def f = [x -> g x]"))

read_line-Reads_example :
    Reads IsCommands (read_line ascii (λ s. s) (create [] (codes "def f = g;;f 1")))
read_line-Reads_example =
    read_line-Reads ascii ascii-IsPlain (λ s. s) (create [] (codes "def f = g;;f 1"))

abbrev globals : Frame
globals = record { names = (codes "g", codes "g") ∷ (codes "f", codes "f") ∷ []; namespace = [] }

read_source-Compiles_example :
    Reads
      (Compiles 2 (globals ∷ []))
      (read_source ascii (λ s. s) (create [] (codes "def f = [x -> g x]")))
read_source-Compiles_example =
    read_source-Compiles ascii ascii-IsPlain (λ s. s) (create [] (codes "def f = [x -> g x]")) 0
      globals []
