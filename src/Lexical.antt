-- ===== src/Lexical.antt =====
-- The lexical analysis of src/lexical.hpp.
pub mod Token
pub mod Chars
pub mod Reserved
pub mod Escape
pub mod Scan
pub mod Egg
