-- ===== src/Tests/Front.antt =====
-- The theorems on the reader, the operators and the tokens at concrete texts.
use egel.Prelude.{ℕ, ◌≡◌, refl, arith, [], ◌∷◌, ◌++◌, Bool, ◌&&◌, leb}
use egel.Prelude.Outcome
use egel.Prelude.Text.{Text, codes}
use egel.Operators.{
  operator_compare, less, operator_char_compare, operator_char_entry, unit_length, compare_loop,
}
use egel.Operators.Fixity.{fixity, IsConsistent, fixity_lem}
use egel.Operators.Compare.{lex, operator_compare-lex}
use egel.Reader.{Reader, create, skip}
use egel.Reader.Positions.{IsAt, create-IsAt, skip-IsAt}
use egel.Lexical.Escape.{unicode_escape, unescaped, unescaped-unicode_escape}
use egel.Lexical.Token.{Tokens, token_comment, token_lowercase}
use egel.Lexical.Reserved.{sanitize}
use egel.Lexical.Reserved.Sanitize.{AreRelevant, texts, code_texts, sanitize-AreRelevant}
use egel.Lexical.Scan.Loops.{ok, while_in}
use egel.Lexical.Scan.Munch.{IsRun, while_in_lem}

fixity_lem_example : IsConsistent (fixity (codes "+"))
fixity_lem_example = fixity_lem b'+' []

operator_compare-lex_example :
    operator_compare (codes "+-") (codes "+") ≡ Outcome.ok (lex (codes "+-") (codes "+"))
operator_compare-lex_example =
    operator_compare-lex b'+' (b'-' ∷ []) b'+' [] (omega arith, (omega arith, tt)) (omega arith, tt)

below : operator_compare (codes "+") (codes "*") ≡ Outcome.ok less
unfolding operator_compare compare_loop unit_length operator_char_compare operator_char_entry
below = refl

above : operator_compare (codes "*") (codes "**") ≡ Outcome.ok less
unfolding operator_compare compare_loop unit_length operator_char_compare operator_char_entry
above = refl

abbrev reader : Reader
reader = create [] (codes "ab 1")

skip-IsAt_example : IsAt (skip reader) (b'a' ∷ []) (codes "b 1")
skip-IsAt_example = skip-IsAt b'a' (omega arith) (create-IsAt [] (codes "ab 1"))

unescaped-unicode_escape_example :
    unescaped (unicode_escape (34 ∷ b'a' ∷ 10 ∷ [])) ≡ 34 ∷ b'a' ∷ 10 ∷ []
unescaped-unicode_escape_example = unescaped-unicode_escape (34 ∷ b'a' ∷ 10 ∷ [])

abbrev tokens : Tokens
tokens = record {
  tokens =
      record {
        tag = token_comment;
        position = record { resource = []; row = 1; column = 1 };
        text = codes "#";
      }
      ∷ record {
        tag = token_lowercase;
        position = record { resource = []; row = 2; column = 1 };
        text = codes "def";
      }
      ∷ [];
  index = 1;
}

sanitize-AreRelevant_example :
    AreRelevant (sanitize tokens).tokens
    × (texts (sanitize tokens).tokens ≡ code_texts tokens.tokens)
    × ((sanitize tokens).index ≡ 0)
sanitize-AreRelevant_example = sanitize-AreRelevant tokens

-- The letters that are small.
abbrev small : ℕ → Bool
small c = leb 97 c && leb c 122

while_in_lem_example :
    (run : Text) × (rest : Text) × (s : Reader) × (while_in 5 small [] reader ≡ ok ([] ++ run, s))
    × IsRun small s [] (codes "ab 1") run rest
while_in_lem_example =
    while_in_lem 5 small [] reader [] (codes "ab 1") refl (omega arith)
      (create-IsAt [] (codes "ab 1"))
