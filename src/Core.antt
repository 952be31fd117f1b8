-- ===== src/Core.antt =====
-- crates/yams-core: pages as text, their chunks, ranking and selection.
pub mod Text
pub mod Chunk
pub mod Floats
pub mod Frontmatter
pub mod Rank
pub mod Sanitize
pub mod Snippet
pub mod Select
