-- ===== src/Memory.antt =====
-- bantu_os/memory/: the knowledge graph and the vector database.
mod Tests
pub mod Graph
pub mod Vectors
