-- ===== src/Query/Lexer.antt =====
-- `lexicalTokens` of src/query.cpp and what it calls. A view of the input is the list of the bytes
-- that are still to be read.
pub mod Word
pub mod Scan
pub mod Case
pub mod Shape
pub mod Relex
