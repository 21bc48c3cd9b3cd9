-- ===== src/Markdown.antt =====
-- src/markdown.cpp.
pub mod Text
pub mod Inline
pub mod Blocks
