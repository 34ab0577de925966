-- ===== src/Syntactical/Source/Total.antt =====
-- Reading a source ends: the tokens that the tokenizers of src/lexical.hpp give end with the end of
-- file, also when they are sanitized, as the parser of src/syntactical.hpp needs it.
use egel.Prelude.{
  ℕ, zero, suc, ◌≡◌, ◌≢◌, refl, ap, Bool, true, false, List, [], ◌∷◌, ◌++◌, if◌then◌else◌,
}
use egel.Prelude.Text.{Text, codes, text_eq}
use egel.Reader.{Position, Reader, position, at_end}
use egel.Lexical.Chars.{Properties}
use egel.Lexical.Token.{
  Token, Tokens, no_tokens, push, token_eof, tag_eq, value, set_tag, map_tokens, filter_tokens,
  map_all, filter,
}
use egel.Lexical.Reserved.{reserve, reserved_table, is_relevant, sanitize}
use egel.Lexical.Scan.{tokenize_loop, tokenize_from_reader, scan_token}
use egel.Lexical.Scan.Loops.{Lexed, ok, lexical_error, out_of_range, out_of_fuel, ◌>>=◌, rounds}
use egel.Lexical.Egg.{tokenize_from_egg_reader, egg_loop, egg_text, egg_fenced}
use egel.Lexical.Scan.Number.Total.{IsPlain}
use egel.Lexical.Scan.Total.{tokenize_from_reader_total}
use egel.Lexical.Egg.Total.{tokenize_from_egg_reader_total}
use egel.Syntax.{Ast}
use egel.Syntax.Desugar.Desugared.{IsSource}
use egel.Semantical.Identify.Formed.{in_module, Formed}
use egel.Syntactical.{Parsed, syntactical_error, Parser}
use egel.Syntactical
use egel.Syntactical.Declarations.{parse, parse_line}
use egel.Syntactical.Source.{read_source, read_egg, read_line}
use egel.Syntactical.Ends.{Ended, IsEnd, Ends, returns, raises}
use egel.Syntactical.Ends.Trees.{tree}
use egel.Syntactical.Ends.Trees.Declarations.{IsDecl}
use egel.Syntactical.Ends.Modules.{IsCommands, parse-Ends, parse_line-Ends}
use egel.Syntactical.Ends.Modules.{IsModule}
use egel.Syntactical.Visits.{visit_docstring}
use egel.Syntactical.Visits.Docstrings.{HasDocstring, visit_docstring-HasDocstring}

-- The token at the end of all tokens.
unfoldable pub eof : Position → Token
eof p = record { tag = token_eof; position = p; text = codes "EOF" }

unfoldable pub Closed : Tokens → Type 0
Closed t = (p : Position) × (init : List Token) × (t.tokens ≡ init ++ (eof p ∷ []))

-- A result, when there is one, is as told.
unfoldable pub Gives {ℓ} : {A : Type ℓ} → (A → Type 0) → Lexed A → Type 0
Gives P (ok a) = P a
Gives P _ = Unit

module _ {ℓ κ} {A : Type ℓ} {B : Type κ} (P : B → Type 0) where
  Gives-bind : (m : Lexed A) (f : A → Lexed B) → ((a : A) → Gives P (f a)) → Gives P (m >>= f)
  unfolding Gives
  Gives-bind (ok a) f h = h a
  Gives-bind (lexical_error p s) f h = tt
  Gives-bind out_of_range f h = tt
  Gives-bind out_of_fuel f h = tt

Gives-if {ℓ} :
    {A : Type ℓ} (P : A → Type 0) (b : Bool) (x y : Lexed A)
    → Gives P x
    → Gives P y
    → Gives P (if b then x else y)
Gives-if P true x y g h = g
Gives-if P false x y g h = h

close : (ts : Tokens) (r : Reader) → Closed (push (eof (position r)) ts)
unfolding Closed push
close ts r = (position r, ts.tokens, refl)

tokenize_loop-Closed :
    (n : ℕ) (u : Properties) (ts : Tokens) (r : Reader) → Gives Closed (tokenize_loop n u ts r)
unfolding tokenize_loop Gives eof
tokenize_loop-Closed zero u ts r = tt
tokenize_loop-Closed (suc n) u ts r =
    Gives-if Closed (at_end r) _ _ (close ts r)
      (Gives-bind Closed (scan_token u r) _ (λ (t, s). tokenize_loop-Closed n u (push t ts) s))

egg_loop-Closed :
    (n : ℕ) (u : Properties) (text : Bool) (ts : Tokens) (r : Reader)
    → Gives Closed (egg_loop n u text ts r)
unfolding egg_loop Gives eof
egg_loop-Closed zero u text ts r = tt
egg_loop-Closed (suc n) u text ts r = Gives-if Closed (at_end r) _ _ (close ts r) (
    Gives-bind Closed (if text then egg_text ts r else egg_fenced u ts r) _
      (λ ((more, tt'), s). egg_loop-Closed n u more tt' s))

eof-relevant : (p : Position) → is_relevant (eof p) ≡ true
unfolding is_relevant eof tag_eq value
eof-relevant p = refl

eof-reserve : (p : Position) → reserve reserved_table (eof p) ≡ eof p
unfolding reserve eof text_eq set_tag
eof-reserve p = refl

eof-IsEnd : (p : Position) → IsEnd (eof p)
unfolding IsEnd eof text_eq
eof-IsEnd p = (refl, refl)

filter_last :
    (p : Position) (init : List Token)
    → filter_tokens is_relevant (init ++ (eof p ∷ []))
      ≡ filter_tokens is_relevant init ++ (eof p ∷ [])
unfolding filter_tokens
filter_last p [] = rw (eof-relevant p) refl
filter_last p (t ∷ init) = rw (filter_last p init) (if-append (is_relevant t) t _ _)
  where
    if-append :
        (b : Bool) (t : Token) (xs ys : List Token)
        → (if b then t ∷ (xs ++ ys) else xs ++ ys) ≡ (if b then t ∷ xs else xs) ++ ys
    if-append true t xs ys = refl
    if-append false t xs ys = refl

map_last :
    (p : Position) (init : List Token)
    → map_tokens (reserve reserved_table) (init ++ (eof p ∷ []))
      ≡ map_tokens (reserve reserved_table) init ++ (eof p ∷ [])
unfolding map_tokens
map_last p [] = rw (eof-reserve p) refl
map_last p (t ∷ init) = ap (λ ts. reserve reserved_table t ∷ ts) (map_last p init)

sanitize-Ended : (t : Tokens) → Closed t → Ended (sanitize t)
unfolding Closed Ended sanitize map_all filter
sanitize-Ended t (p, init, h) = (
  eof p,
  eof-IsEnd p,
  map_tokens (reserve reserved_table) (filter_tokens is_relevant init),
  rw (h, filter_last p init, map_last p _) refl,
)

-- A run of the tokenizer and the parser comes to a tree as told, to an error that the code throws, or
-- to a read past the end of the buffer by the tokenizer.
pub data Reads (P : Ast → Type 0) : Lexed (Parsed (Ast × Tokens)) → Type 0 where
  gives : {a : Ast} {t : Tokens} → P a → Reads P (ok (Syntactical.ok (a, t)))
  throws_syntactical : {p : Position} {s : Text} → Reads P (ok (syntactical_error p s))
  throws_lexical : {p : Position} {s : Text} → Reads P (lexical_error p s)
  reads_past : Reads P out_of_range

pub Reads-map :
    {P Q : Ast → Type 0} {r : Lexed (Parsed (Ast × Tokens))}
    → Reads P r
    → ((a : Ast) → P a → Q a)
    → Reads Q r
Reads-map (gives {a} h) f = gives (f a h)
Reads-map throws_syntactical f = throws_syntactical
Reads-map throws_lexical f = throws_lexical
Reads-map reads_past f = reads_past

-- A module as the later passes need it: what stands where, what its nodes are made of, and that the
-- visitor of docstrings finds one, which `syntactical` takes apart.
unfoldable pub IsModuleTree : Ast → Type 0
IsModuleTree a = Formed in_module a × IsSource a × HasDocstring (visit_docstring a)

Ends-Reads :
    {P Q : Ast → Type 0} {k : ℕ} {r : Parsed (Ast × Tokens)}
    → Ends P k r
    → ((a : Ast) → P a → Q a)
    → Reads Q (ok r)
Ends-Reads (returns {a} e l p) f = gives (f a p)
Ends-Reads raises f = throws_syntactical

split_decl : {a : Ast} → IsDecl a → Formed in_module a × IsSource a
unfolding IsSource
split_decl (tree f e) = (f, e)

module-IsModuleTree : (a : Ast) → IsModule a → IsModuleTree a
unfolding IsModuleTree IsModule
module-IsModuleTree a (h, d) = let (f, e) = split_decl h in (f, e, visit_docstring-HasDocstring a d)

Lexed-Reads :
    {P : Ast → Type 0} (m : Lexed Tokens) (q : Parser Ast)
    → Gives Closed m
    → m ≢ out_of_fuel
    → ((t : Tokens) → Ended t → Reads P (ok (q t)))
    → Reads P (m >>= λ tt. ok (q (sanitize tt)))
unfolding Gives
Lexed-Reads (ok t) q c n f = f (sanitize t) (sanitize-Ended t c)
Lexed-Reads (lexical_error p s) q c n f = throws_lexical
Lexed-Reads out_of_range q c n f = reads_past
Lexed-Reads out_of_fuel q c n f = absurd (n refl)

module _ (u : Properties) (w : IsPlain u) (trim : Text → Text) (r : Reader) where
  -- From every reader, a source is read to a module whose tree is well formed for the later
  -- passes and has a docstring, or to a lexical or a syntactical error, or the tokenizer has read past the end of the
  -- buffer: tokenizer and parser end within the rounds they are given, and the parser reads no
  -- token that is not there and asks no operator that is empty. The properties of characters that
  -- ICU has do not hold of the character 0.
  pub read_source-Reads : Reads IsModuleTree (read_source u trim r)
  unfolding read_source tokenize_from_reader
  read_source-Reads =
      Lexed-Reads (tokenize_from_reader u r) (parse trim)
        (tokenize_loop-Closed (rounds r) u no_tokens r) (tokenize_from_reader_total u w r)
        (λ t e. Ends-Reads (parse-Ends trim t e) module-IsModuleTree)

  -- The same of literate source.
  pub read_egg-Reads : Reads IsModuleTree (read_egg u trim r)
  unfolding read_egg tokenize_from_egg_reader
  read_egg-Reads =
      Lexed-Reads (tokenize_from_egg_reader u r) (parse trim)
        (egg_loop-Closed (rounds r) u true no_tokens r) (tokenize_from_egg_reader_total u w r)
        (λ t e. Ends-Reads (parse-Ends trim t e) module-IsModuleTree)

  -- From every reader, a line is read to a wrapper of well formed declarations, directives and
  -- expressions, or to an error as a source is. The properties of characters that ICU has do not
  -- hold of the character 0.
  pub read_line-Reads : Reads IsCommands (read_line u trim r)
  unfolding read_line tokenize_from_reader
  read_line-Reads =
      Lexed-Reads (tokenize_from_reader u r) (parse_line trim)
        (tokenize_loop-Closed (rounds r) u no_tokens r) (tokenize_from_reader_total u w r)
        (λ t e. Ends-Reads (parse_line-Ends trim t e) (λ _ x. x))
