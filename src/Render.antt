-- ===== src/Render.antt =====
-- src/render.cpp.
pub mod Utf8
pub mod Escape
pub mod Quoted
pub mod Any
pub mod Write
pub mod Number
pub mod Total
pub mod Json
pub mod Human
