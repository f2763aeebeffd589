-- ===== src/Refresh.antt =====
-- rag/refresh_jobs.py: the refresh queue of the knowledge base. A table is the list of its rows, a
-- statement a function on rows; each method is one transaction, and `now` is its `NOW()`.
mod Rows
mod Queue
mod Outcomes
mod Tables
mod Fencing
mod Leases
mod Reach
mod Tests
pub use Rows.*
pub use Queue.*
pub use Outcomes.*
