-- ===== src/Query.antt =====
-- src/query.cpp: tokens, phrases and the intent of a query.
pub mod Chars
pub mod Lexer
pub mod Tokens
pub mod Phrases
pub mod Processor
