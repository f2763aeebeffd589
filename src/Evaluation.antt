-- ===== src/Evaluation.antt =====
-- evaluation/: the quality evaluation of finished turns. Metadata is the snapshot and its facts
-- (models.py, facts.py), Patterns and Rules the deterministic checks (rules.py), Rows and Queue the
-- leased rows (repository.py), Worker the run over claimed rows (worker.py).
mod Metadata
mod Patterns
mod Rules
mod Rows
mod Queue
mod Worker
mod Reconciler
mod Verdicts
mod Orders
mod Leases
mod Reach
mod Settling
mod Capture
mod Tests
pub use Metadata.*
pub use Rules.*
pub use Rows.*
pub use Queue.*
pub use Worker.*
pub use Reconciler.*
