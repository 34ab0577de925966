-- ===== src/Bytecode.antt =====
-- The bytecode of src/bytecode.hpp: the instructions and their byte format, the coder, the reader
-- of a byte sequence, the disassembler's listing and the resolution of labels.
pub mod Instr
pub mod Coder
pub mod Fetch
pub mod Disassembler
pub mod Relabel
pub mod Registers
pub mod Reduce
