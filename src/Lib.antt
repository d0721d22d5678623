-- ===== src/Lib.antt =====
-- forkscanner watches the chain tips of several bitcoin nodes and records them in a database. A
-- scanner pass (src/scanner.rs) asks every node for its tips, stores blocks and tips, links the
-- tips of the nodes to one another, and looks for forks; the queries are in src/models.rs, and
-- src/service.rs answers clients from the same tables.
--
-- Prelude holds the shared notation, Boolean tests, lists and integers.
-- Models is src/models.rs. Models/Rows has the rows, Models/Query the database: tables as lists of
-- rows, a query as a function of a connection, and the list of the statements that the database
-- will fail, so that every statement of the source that answers a `Result` can fail here. Primary
-- and foreign keys are those of migrations/. Models/Chaintips and Models/Blocks have the queries
-- of `Chaintip` and of `Block`, a definition for each function of the source
-- that is modelled.
-- Models/Transactions, Models/Watches, Models/Lags, Models/Pools and Models/StaleCandidates have
-- those of the other tables that the scanner uses.
-- Scanner is src/scanner.rs. Scanner/Network has the nodes as a record of their calls, over a state
-- that a call may change, and the steps over nodes and tables; what the code takes from the bitcoin
-- crates (the parse of a hash, the bytes of a transaction id) is in the same record.
-- Scanner/Ancestry has `create_block_and_ancestors`, Scanner/Process `process_client` and
-- `fetch_transactions`, Scanner/Forks `find_fork_point` and its copy `find_branch_point`,
-- Scanner/Rollback `make_block_active` and its copy `set_tip_active`, Scanner/StaleCandidates
-- `find_stale_candidates`, Scanner/LagChecks `lag_checks`, Scanner/RollbackChecks `rollback_checks`,
-- Scanner/Branches `set_children` and `get_confirmed_in_one_branch`, and Scanner/Inflation
-- `calc_max_inflation`. Scanner/Linking has `match_children`, `check_parent` and
-- `match_parent` with their loops.
-- Tests has the theorems at concrete tables.
--
-- Rows have the order of the lists. A query with no ORDER BY answers in that order, and the model
-- of a property that depends on it says so. What the derive of `AsChangeset` writes for a field
-- that is `None` is a setting of the tables, `none_as_null`; the source does not set it, and the
-- documented default skips the column, which is `false` here.
-- Heights, node ids and times are natural numbers, since the program only stores values that it
-- converted from unsigned ones; a bound of the source that may lie below zero is written with the
-- subtraction moved to the other side.
-- Loops along parent hashes take fuel: one more than the height of the first block, which is
-- enough where a parent is lower than its child. Recursive queries take as many levels as one more
-- than the greatest height. The walk to the ancestors of a block has the bound of the source, 100
-- rounds. `set_tip_active` has no bound in the source while the calls of the node fail: its fuel is
-- an argument, and a run out of fuel is an error; 102 rounds are enough where they answer.
-- A `panicked` result stands for an `unwrap` or `expect` that fails, and for an overflow in a build
-- that checks it; whether it does is the setting `overflow_checks` of a network. Without the check a
-- subtraction wraps around, and a shift takes the distance modulo the width.
-- Service is src/service.rs. Service/Requests has the requests and replies, with the JSON library as
-- a record of functions; Service/Blocks shows blocks, Service/Checks has the validation checks,
-- Service/Rpc the endpoints and their dispatch. Service/Messages has the messages of the scanner and
-- what each handler does with one; Service/Subscriptions has the listener, the maps of topics and of
-- kill switches and the endpoints that subscribe; Service/Subscriptions/Run has the threads of the
-- handlers, and runs: sequences of events in any order, where the handling of a message, a call, and
-- a thread's way from one of its points to the next are one event each. A channel is the queue of
-- the thread that reads it. A notification is what is given to the sink; that the sink may fail
-- only adds a line to the log.
-- Not modelled: logging, the network clients and servers, the process start, the floats of
-- `set_conflicting_txs`; and, of src/scanner.rs, the block templates and fees, the inflation checks
-- against a mirror, the search for missing blocks, `process_stale_candidates` and
-- the loop of `run`.
mod Prelude
pub mod Models
pub mod Scanner
pub mod Service
mod Tests
