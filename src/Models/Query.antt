-- ===== src/Models/Query.antt =====
-- The database of src/models.rs: its tables as lists of rows, and a query as a statement on them.
-- `faults` is the environment: one entry for each statement that is sent, `true` where the
-- database fails instead of running it; after its end none fails. `none_as_null` is the setting of the
-- `AsChangeset` derive (`treat_none_as_null`): what `set(self)` writes for a field that is `None`.
pub mod Keeps
pub mod Results
pub mod Answers
pub mod Sound
pub mod Total
use forkscanner.Prelude.{ℕ, Bool, true, false, Option, none, some, List, [], ◌∷◌}
use forkscanner.Models.Rows.{
  DbError, QueryResult, ok, err, Chaintip, Block, InvalidBlock, ValidBlock, Node, Lags,
  StaleCandidate, StaleCandidateChildren, Transaction, TransactionAddress, Watched, Pool, Peer,
  SoftForks, InflatedBlock, FeeRate, BlockTemplate, TxOutset, RbfBy, DoubleSpentBy,
}

pub record Db : Type 0 where
  pub chaintips : List Chaintip
  -- the identity column of `chaintips`
  pub next_chaintip : ℕ
  pub blocks : List Block
  pub valid_blocks : List ValidBlock
  pub invalid_blocks : List InvalidBlock
  pub nodes : List Node
  pub lags : List Lags
  pub stale_candidates : List StaleCandidate
  pub stale_candidate_children : List StaleCandidateChildren
  pub transactions : List Transaction
  pub transaction_addresses : List TransactionAddress
  pub watched : List Watched
  pub pools : List Pool
  pub next_node : ℕ
  pub peers : List Peer
  pub next_peer : ℕ
  pub softforks : List SoftForks
  pub inflated_blocks : List InflatedBlock
  pub fee_rates : List FeeRate
  pub block_templates : List BlockTemplate
  pub tx_outsets : List TxOutset
  pub rbf_by : List RbfBy
  pub double_spent_by : List DoubleSpentBy
  pub none_as_null : Bool

abbrev pub empty_db : Db
empty_db = record {
  chaintips = [];
  next_chaintip = 0;
  blocks = [];
  valid_blocks = [];
  invalid_blocks = [];
  nodes = [];
  lags = [];
  stale_candidates = [];
  stale_candidate_children = [];
  transactions = [];
  transaction_addresses = [];
  watched = [];
  pools = [];
  next_node = 0;
  peers = [];
  next_peer = 0;
  softforks = [];
  inflated_blocks = [];
  fee_rates = [];
  block_templates = [];
  tx_outsets = [];
  rbf_by = [];
  double_spent_by = [];
  none_as_null = false;
}

pub record Conn : Type 0 where
  pub db : Db
  pub faults : List Bool

-- A connection on which no statement fails.
abbrev pub sound_conn : Db → Conn
sound_conn d = record { db = d; faults = [] }

abbrev pub Query {ℓ} : Type ℓ → Type ℓ
Query A = Conn → QueryResult A × Conn

-- A statement on the tables; it is atomic.
abbrev pub Statement {ℓ} : Type ℓ → Type ℓ
Statement A = Db → QueryResult A × Db

abbrev with_db {ℓ} : {A : Type ℓ} → Conn → QueryResult A × Db → QueryResult A × Conn
with_db c (r, d) = (r, record c { db = d })

abbrev run_statement {ℓ} : {A : Type ℓ} → List Bool → Statement A → Query A
run_statement [] q c = with_db c (q c.db)
run_statement (false ∷ rest) q c = with_db (record c { faults = rest }) (q c.db)
run_statement (true ∷ rest) q c = (err DbError.failed, record c { faults = rest })

unfoldable pub execute {ℓ} : {A : Type ℓ} → Statement A → Query A
execute q c = run_statement c.faults q c

abbrev pub select {ℓ} : {A : Type ℓ} → (Db → QueryResult A) → Query A
select q = execute (λ d. (q d, d))

-- The first row, or `NotFound`.
abbrev pub first_row {ℓ} : {A : Type ℓ} → Option A → QueryResult A
first_row none = err DbError.not_found
first_row (some a) = ok a

infixl 5 ◌>>=◌ ◌>>◌
abbrev continue {ℓ κ} : {A : Type ℓ} {B : Type κ} → (A → Query B) → QueryResult A → Query B
continue f (ok a) c = f a c
continue f (err e) c = (err e, c)

-- The operator `?`.
unfoldable pub ◌>>=◌ {ℓ κ} : {A : Type ℓ} {B : Type κ} → Query A → (A → Query B) → Query B
◌>>=◌ m f c = let (r, c') = m c in continue f r c'

abbrev pub ◌>>◌ {ℓ κ} : {A : Type ℓ} {B : Type κ} → Query A → Query B → Query B
m >> k = m >>= λ _. k

abbrev pub pure {ℓ} : {A : Type ℓ} → A → Query A
pure a c = (ok a, c)

abbrev pub fail {ℓ} : {A : Type ℓ} → DbError → Query A
fail e c = (err e, c)

-- The result of a query as a value, for a `match` on it.
abbrev pub try_query {ℓ} : {A : Type ℓ} → Query A → Query (QueryResult A)
try_query m c = let (r, c') = m c in (ok r, c')

-- `conn.transaction`: BEGIN, the body, COMMIT; where any of these fails the tables are as before.
abbrev rolled_back {ℓ} : {A : Type ℓ} → Conn → QueryResult A × Conn → QueryResult A × Conn
rolled_back c (ok a, c') = (ok a, c')
rolled_back c (err e, c') = (err e, record c' { db = c.db })

abbrev pub no_statement : Statement (Unit {0})
no_statement d = (ok tt, d)

unfoldable pub transaction {ℓ} : {A : Type ℓ} → Query A → Query A
unfolding ◌>>=◌ execute
transaction m c = rolled_back c ((do execute no_statement; a ← m; execute no_statement; pure a) c)

-- What `set(self)` writes to a nullable column that holds `old`.
abbrev pub set_column {ℓ} : {A : Type ℓ} → Bool → Option A → Option A → Option A
set_column none_as_null old (some v) = some v
set_column true old none = none
set_column false old none = old
