-- ===== src/Machine.antt =====
-- The tables of src/machine.hpp: the symbol table, which numbers the combinator names, and the
-- data table, which numbers the objects that code refers to.
pub mod DataTable
pub mod Object
pub mod SymbolTable
