-- ===== src/Concepts.antt =====
-- src/concepts.cpp: the dictionary of concepts and the matches of its phrases.
pub mod Detect
pub mod Dictionary
pub mod Groups
pub mod Cycles
pub mod Load
