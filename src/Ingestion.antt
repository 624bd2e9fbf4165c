-- ===== src/Ingestion.antt =====
-- ingestion: what is read of a source file before it is parsed.
pub mod FileHash
pub mod Metadata
pub mod Docx
pub mod Pdf
pub mod Pptx
pub mod Files
pub mod Stores
pub mod World
pub mod Pipeline
pub mod Memory
pub mod Bm25Index
pub mod Worker
pub mod Sync
pub mod Runner
pub mod Documents
pub mod Start
mod Tests
