-- ===== src/Wiki.antt =====
-- crates/yams-wiki: the guarded wiki of a corpus.
pub mod Schema
