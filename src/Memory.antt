-- ===== src/Memory.antt =====
-- context/memory_repository.py and context/memory_service.py: the durable sessions and messages of
-- the users, and the recent messages that a cache holds besides. Rows are the tables, Sessions,
-- Messages, Attachments and Reading the repository's methods, Service what runs them with the cache.
mod Rows
mod Sessions
mod Attachments
mod Messages
mod Reading
mod Service
mod Order
mod Kept
mod Numbering
mod Appending
mod Reach
mod Outcomes
mod Newest
mod Retry
mod Recorded
mod Effects
mod Calls
mod Answers
mod Coherence
mod Recent
mod Events
mod Retired
mod Reopening
mod Gone
mod Tests
