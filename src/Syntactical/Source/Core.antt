-- ===== src/Syntactical/Source/Core.antt =====
-- The passes of src/modules.hpp on a source one behind the other: reading, identification, desugaring.
use egel.Prelude.{ℕ, suc, ◌∷◌, ◌≡◌}
use egel.Prelude.Text.{Text}
use egel.Prelude.Outcome
use egel.Reader.{Reader}
use egel.Environment.{Frame, Scope}
use egel.Lexical.Chars.{Properties}
use egel.Lexical.Scan.Number.Total.{IsPlain}
use egel.Syntax.{Ast}
use egel.Syntax.Desugar.{desugar}
use egel.Syntax.Desugar.Desugared.{IsCore}
use egel.Semantical.Identify.{identify}
use egel.Semantical.Identify.Formed.{Keeps}
use egel.Semantical.Identify.Sources.{identify-IsCore}
use egel.Syntactical.Source.{read_source}
use egel.Syntactical.Source.Total.{Reads, Reads-map, IsModuleTree, read_source-Reads}

-- A tree is identified in the scope and brought to the core language, or identification throws an
-- error of the program.
unfoldable pub Compiles : ℕ → Scope → Ast → Type 0
Compiles k s a = Keeps (λ b. (c : Ast) × (desugar k b ≡ Outcome.ok c) × IsCore c) (identify s a)

-- From every reader, a source is read to a tree that is identified in every scope that is not empty,
-- and desugared to the core language; or a lexical, a syntactical or a semantical error is
-- thrown, or the tokenizer has read past the end of the buffer. No pass ends otherwise or does
-- anything undefined. The properties of characters that ICU has do not hold of the character 0.
pub read_source-Compiles :
    (u : Properties) (w : IsPlain u) (trim : Text → Text) (r : Reader) (k : ℕ) (f : Frame)
    (s : Scope)
    → Reads (Compiles (suc (suc k)) (f ∷ s)) (read_source u trim r)
unfolding Compiles IsModuleTree
read_source-Compiles u w trim r k f s =
    Reads-map (read_source-Reads u w trim r) (λ a (h, e, _). identify-IsCore k f s a h e)
