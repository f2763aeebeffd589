-- ===== src/Parsing.antt =====
-- rag/block_parser.py and rag/heading_rules.py: the lines of a text as structural blocks. Rules are
-- the heading rules, Lines what one block reads, Walk the walker over all lines.
mod Rules
mod Lines
mod Walk
mod Headed
mod Kept
mod Shown
mod Ids
mod Tests
pub use Rules.*
pub use Lines.*
pub use Walk.*
