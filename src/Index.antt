-- ===== src/Index.antt =====
-- src/index.cpp: the inverted index and its fuzzy lookups.
pub mod Distance
pub mod Documents
pub mod Build
pub mod Candidates
