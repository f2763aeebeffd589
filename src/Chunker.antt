-- ===== src/Chunker.antt =====
-- rag/chunker.py: how the blocks of a page become chunks.
pub mod Blocks
mod Units
mod Bands
mod Splitting
pub mod Citations
mod Tests
pub use Blocks.*
pub use Bands.*
pub use Units.*
pub use Splitting.*
