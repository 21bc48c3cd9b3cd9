-- ===== src/Search.antt =====
-- src/search.cpp: scores, results and the decision on them.
pub mod Doubles
pub mod Phrase
pub mod Fuzzy
pub mod Score
pub mod Engine
pub mod Policy
