-- ===== src/Lib.antt =====
-- Hommey, an assistant for business trips: the parts that decide what is kept, who may write, and
-- when a turn, a job or a lease ends.
--
-- A turn of the supervisor runs under a lock of the user's session (Coordination). It opens a run
-- (Runs), which fences earlier workers; it shows the model the settled dialogue (Transcript), keeps
-- a plan of its steps (Plan) and counts its calls (Budget). A change of the trip goes through
-- `_apply` with a receipt. Trip requests are checked by Intake. Finished turns are
-- captured and evaluated by a queue of their own (Evaluation), whose checks and judge make the
-- verdict (Verdict). The knowledge base is refreshed by a queue of jobs (Refresh), whose worker cuts
-- documents into blocks (Parsing) along their headings (Headings), and these into chunks
-- (Chunker). Memory stores a session's messages, with the last turns in a
-- cache besides (ShortTerm). Registration mails codes (Verification).
--
-- The files and the code:
--   Prelude, Text   shared: lists, tables as lists of rows, dicts, results; texts as lists of code
--                   points with `strip`, `join` and decimal numbers
--   Runs            agent_runtime/store.py: Rows are its tables, Turns the methods from `_begin` to
--                   `_public_plans`, Trips `_apply`; an error value stands for the exception that
--                   rolls the transaction back
--   Plan            agent_runtime/execution_plan.py: `register`, `transition`, and in Plan/Turn
--                   `complete`, `settle`, `resume`, `snapshot`; Plan/Rights says when a
--                   step may move without the code's tests
--   Budget          core/execution_budget.py: `ExecutionBudget`
--   Transcript      agent_runtime/context_window.py: `settled_messages`, and in Window
--                   `conversation_window`
--   Refresh         rag/refresh_jobs.py: Rows, Queue and Outcomes are the repository's methods, as
--                   functions on the tables; the time of a call is an argument
--   Coordination    utils/redis_coordination.py: each Lua script is a function on a server that
--                   Coordination/Redis describes by its commands and their laws; the Python methods
--                   only pass their tokens to the scripts. Store is one such server. The scripts of
--                   the circuit breaker are functions on the values of its three keys
--   Chunker         rag/chunker.py: Units (`_build_units`), Splitting (`_split_unit`), Bands
--                   (`_band_table_block`), Citations (`_table_citation`, heading paths); Blocks has
--                   the types of rag/schemas.py and the token counts
--   Headings        rag/block_parser.py: `HeadingStack`, which gives blocks their heading paths
--   Parsing         rag/block_parser.py: Lines is what a block reads, Walk `_parse_blocks`, whose
--                   blocks the chunker cuts; Rules is rag/heading_rules.py. Each regular
--                   expression is a matcher on code points; Headed, Kept, Shown and Ids are proofs
--   Memory          context/memory_repository.py: Rows are the tables, Sessions, Messages,
--                   Attachments and Reading the transactions; Service is
--                   context/memory_service.py, which runs them beside ShortTerm's cache. Order,
--                   Kept, Numbering, Appending and Reach are proofs on the numbers of messages,
--                   Outcomes, Retry, Newest and Recorded on one append, Effects to Events
--                   on the cache, Retired, Reopening and Gone on deleted sessions
--   ShortTerm       context/short_term_memory.py: the methods on the memory backend, and on a Redis
--                   that ShortTerm/Lists describes by its commands and their laws
--   Verification    webui_new/auth/verification.py: `issue_code`, and `verify_code` as the commands
--                   that it awaits; Guesses is about calls one after another, Interleaving about
--                   calls at once
--   Intake          core/trip_intake.py: `evaluate_trip_intake`
--   Verdict         evaluation/decision.py: `decide`, with the types of evaluation/models.py
--   Evaluation      evaluation/: Metadata is the snapshot and its facts (models.py, facts.py), Rules
--                   `run_rules` (rules.py) with its regular expressions as matchers in Patterns,
--                   Rows and Queue the methods of repository.py as functions on the tables, Worker
--                   `run_once` (worker.py), Reconciler reconciler.py
--
-- Loops are structural recursion. Some run on fuel: `_merge_short_units` on the number of units,
-- since a round removes one; `settled_messages` on the number of messages, since a round takes one;
-- the `while` of `_parse_blocks` on the number of lines, since a round takes one; the `while` of
-- `_heading_path` on the length of the path, since a round pops one; and the digits
-- of a number on the number itself. Numbers do not overflow in the source, and are natural numbers
-- here; a difference is taken only where a test has put its terms in order. Times are numbers that
-- the caller gives, and fresh identifiers are arguments.
--
-- Not modelled: calls that run at the same time where the code relies on a row's lock or on one
-- writer of a session's cache, as their steps are whole transactions here; the contents of JSON
-- values beyond the fields that the code reads; redaction and hashes, which are parameters;
-- advisory locks of PostgreSQL; calls of models, mail, recognition and web services; the HTTP
-- routes; the Java backend. The texts of table cells are taken as they come out of `_cell_text`.
pub mod Budget
pub mod Chunker
pub mod Coordination
pub mod Evaluation
pub mod Headings
pub mod Intake
pub mod Memory
pub mod Parsing
pub mod Plan
pub mod Prelude
pub mod Refresh
pub mod Runs
pub mod ShortTerm
pub mod Text
pub mod Transcript
pub mod Verdict
pub mod Verification
