-- ===== src/Tests.antt =====
-- The theorems at concrete inputs.
pub mod Query
pub mod Concepts
pub mod Load
pub mod Index
pub mod Search
pub mod Render
pub mod Cli
pub mod App
pub mod Validated
