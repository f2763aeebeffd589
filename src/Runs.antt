-- ===== src/Runs.antt =====
-- agent_runtime/store.py: the runs of the supervisor, fenced by their owner, and what they write.
mod Rows
mod Turns
mod Trips
mod Fencing
mod Receipts
mod Replays
mod Single
mod Tests
