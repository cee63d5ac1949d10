-- ===== src/Memory.antt =====
-- The memory module (packages/memory): summaries and their cache, trust, decay and consolidation, the
-- chunker, the indexer, and the search for paths between memories.
pub mod Cache
pub mod Chunker
pub mod Loader
pub mod Entries
pub mod Trust
pub mod Decay
pub mod Index
pub mod Traversal
mod Examples
mod Loading
mod Trusting
