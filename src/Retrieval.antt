-- ===== src/Retrieval.antt =====
-- core/retrieval: what a search may see, and what becomes of the nodes that it finds.
pub mod Collections
pub mod Filters
pub mod Citations
pub mod Dedup
pub mod Search
