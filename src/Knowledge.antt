-- ===== src/Knowledge.antt =====
-- src/knowledge_core.py: markdown files in chunks, an index of their words, and the search.
pub mod Chunks
pub mod Index
pub mod Searching
pub mod Counting
pub mod Finding
mod Examples
