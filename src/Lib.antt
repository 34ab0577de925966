-- ===== src/Lib.antt =====
-- The core of the Egel interpreter: from the characters of a source text to its tokens, the scopes
-- in which names are resolved, the syntax trees and their desugaring, the tables by which a
-- machine numbers names and objects, and the bytecode of combinators with its coder, disassembler
-- and interpreter.
--
-- How the parts interact. A reader (Reader.antt, src/reader.hpp and src/position.hpp) gives the
-- characters of a text with their positions to the tokenizer (Lexical.antt, src/lexical.hpp), whose
-- tokens a recursive descent parser makes into syntax trees (Syntactical.antt, src/syntactical.hpp);
-- how src/modules.hpp and src/eval.hpp put these together is in Syntactical/Source.antt, and what
-- the passes make of a source one behind the other in Syntactical/Source/Core.antt.
-- Operators are compared and classified by the table of src/operators.hpp (Operators.antt). Scopes
-- (Environment.antt, src/environment.hpp) map names to qualified names. Syntax trees (Syntax.antt,
-- src/ast.hpp) are rewritten by classes that override methods of Rewrite (Syntax/Rewrite.antt,
-- src/transform.hpp); those of src/desugar.hpp take the sugar away (Syntax/Desugar.antt); FreeVars
-- of src/transform.hpp is in Syntax/FreeVars.antt. What a module defines is declared in the global
-- scope (Semantical.antt, src/semantical.hpp), and names are resolved and the declarations
-- collected by RewriteIdentify (Semantical/Identify.antt, the same file). A machine numbers
-- qualified names in its symbol table and literals and combinators in its data table
-- (Machine/SymbolTable.antt and Machine/DataTable.antt, src/machine.hpp); objects and their
-- comparison are in Machine/Object.antt (src/runtime.hpp). The code of a combinator is written by
-- a Coder, whose labels are resolved by relabel, and run by VMObjectBytecode::reduce or listed by
-- the Disassembler (Bytecode.antt, src/bytecode.hpp).
--
-- How the state corresponds:
--   Reader/Reader is StringCharReader; `at_end` is end(), `look_ahead` is look(int).
--   Lexical/Token has token_t, Token and Tokens; Lexical/Chars the character classes; Lexical/Reserved
--   the tables, token_text (`tag_text`) and sanitize; Lexical/Escape unicode_escape; Lexical/Scan
--   tokenize_from_reader with a function for each branch, Lexical/Egg tokenize_from_egg_reader.
--   Syntax/Ast has a constructor for each constructor of a class of nodes, two for AstExprList. A class
--   derived from Rewrite is a function on nodes with a clause for each method it overrides, and `base`
--   for the others; the members of a node come with their rewritings, run where the code calls rewrite.
--   Syntactical/Parser is a function from the tokens with their cursor to a result with the tokens that
--   are left; Names, Patterns, Expressions, Arithmetic and Declarations have the functions of Parser
--   and LineParser under their names, and each loop a function of its own. A function that is part
--   of a cycle of calls takes the function that closes the cycle as a parameter `self`. Visits has the
--   classes that derive from Visit.
--   Environment/Scope is a chain of Scope objects, innermost first; the outer ones are shared, so an
--   operation gives the whole chain back.
--   Semantical/Declaring and Semantical/Identify/Identifying are the members of the two classes; a run
--   takes them and gives them back.
--   Machine/SymbolTable and Machine/DataTable have the vector `to` and the map `from`, an association
--   list in which the newest entry of a key is found. `get_data` and `get_object` are the two
--   overloads of DataTable::get.
--   Bytecode/Instr has opcode_t, the instructions and the byte format; Bytecode/Coder the fields of
--   Coder and its operations under their names; Bytecode/Relabel relabel; Bytecode/Fetch the FETCH
--   macros; Bytecode/Registers the class Registers; Bytecode/Reduce one function for each instruction
--   and the loop of reduce; Bytecode/Disassembler the code section of Disassembler::write.
--   Prelude has the results of runs (Outcome), integers with signs (Int), texts as lists of code points (Text), their
--   UTF-16 code units, by which UnicodeString of ICU cuts texts and orders keys (Units), and lemmas.
--
-- Integers. Numbers of names, objects, labels and registers wrap at 32 bits, the index of takex
-- and concatx at 16. The addresses of code wrap at 32 bits, and the theorems on code ask for code
-- of less than 2 ^ 32 bytes. Row, column and index of a reader are not bounded.
--
-- Loops. relabel takes as many rounds as the code has bytes, and each round takes at least five of
-- them; the tokenizer and its inner loops take one round more than the buffer has characters; the
-- interpreter and the comparison of objects take a number of rounds that the caller chooses. The
-- loops of the parser take one round more than there are tokens, and so deep may expressions,
-- patterns and namespaces be nested; the two loops over operators share twice as many rounds. The
-- list pass of desugar rewrites its results again; two such calls within each other are enough.
-- Running out of rounds is a result of its own, apart from every result of the code.
--
-- Parameters. The properties of characters that ICU has (Lexical/Chars, Properties), the order of
-- doubles and of opaque objects (Machine/Object, Primitives), and the function trim of ICU that the
-- parser calls. The definitions of the data table take the order of its map; the theorems that are
-- listed have that of LessVMObjectPtr, at the constants of code without doubles
-- (Machine/DataTable/Constants).
--
-- Not modelled: the comparison and printing of trees, the other passes on trees (src/lift.hpp,
-- src/emit.hpp, the rest of src/transform.hpp), the thunks and threads of the machine, the evaluator and modules, the machine code of src/lightning.hpp,
-- serialization, the builtins and the extensions, printing, and the Assembler.
pub mod Prelude
pub mod Bytecode
pub mod Machine
pub mod Operators
pub mod Reader
pub mod Syntax
pub mod Semantical
pub mod Syntactical
pub mod Environment
pub mod Lexical
pub mod Tests
