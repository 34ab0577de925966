-- ===== src/Syntactical/Source.antt =====
-- How src/modules.hpp and src/eval.hpp read a source: its characters are made into tokens, these are
-- sanitized, and a module or a line is parsed.
pub mod Total
pub mod Core
use egel.Prelude.{Bool, true, false}
use egel.Prelude.Text.{Text}
use egel.Reader.{Reader}
use egel.Lexical.Chars.{Properties}
use egel.Lexical.Token.{Tokens}
use egel.Lexical.Reserved.{sanitize}
use egel.Lexical.Scan.{tokenize_from_reader}
use egel.Lexical.Scan.Loops.{Lexed, ok, ◌>>=◌}
use egel.Lexical.Egg.{tokenize_from_egg_reader}
use egel.Syntax.{Ast}
use egel.Syntactical.{Parsed, Parser}
use egel.Syntactical.Declarations.{parse, parse_line}

module _ (u : Properties) (trim : Text → Text) where
  -- `ModuleSource::syntactical`, to its tree.
  unfoldable pub read_source : Reader → Lexed (Parsed (Ast × Tokens))
  read_source r = tokenize_from_reader u r >>= λ tt. ok (parse trim (sanitize tt))

  -- `ModuleEgg::syntactical`, of literate source.
  unfoldable pub read_egg : Reader → Lexed (Parsed (Ast × Tokens))
  read_egg r = tokenize_from_egg_reader u r >>= λ tt. ok (parse trim (sanitize tt))

  -- The line of `eval_line`.
  unfoldable pub read_line : Reader → Lexed (Parsed (Ast × Tokens))
  read_line r = tokenize_from_reader u r >>= λ tt. ok (parse_line trim (sanitize tt))
