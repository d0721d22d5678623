-- ===== src/Scanner/Network.antt =====
-- The bitcoin nodes as the scanner sees them (`BtcClient` of src/scanner.rs), and the scanner's
-- steps over the tables and the nodes. The nodes are not part of the program: their answers, and
-- what a call does to them, are a parameter.
pub mod Keeps
pub mod Triples
pub mod Returns
use forkscanner.Prelude.{ℕ, Bool, Option, List, String, ◌≡◌, true, false, some, none}
use forkscanner.Prelude.Int.{ℤ}
use forkscanner.Models.Rows.{DbError, QueryResult}
use forkscanner.Models.Query.{Db, Conn, Query}
use forkscanner.Models.Blocks.{Header}

-- `bitcoincore_rpc::Error`: a JSON-RPC error with its code, or any other failure of the call.
pub data RpcError : Type 0 where
  code : ℤ → RpcError
  other : RpcError

pub data RpcResult {ℓ} (A : Type ℓ) : Type ℓ where
  ok : A → RpcResult A
  err : RpcError → RpcResult A

-- `GetChainTipsResultStatus`
pub data Status : Type 0 where
  invalid headers_only valid_headers valid_fork active : Status

-- The fields of `GetChainTipsResultTip` that the program reads.
pub record ChainTip : Type 0 where
  pub hash : String
  pub height : ℕ
  pub status : Status

-- The fields of `GetRawTransactionResult` that `create_block_and_ancestors` reads: the `coinbase`
-- of each input, and the value of each output in satoshi.
pub record RawTransaction : Type 0 where
  pub vin : List (Option (List ℕ))
  pub vout : List ℕ

-- A transaction of a block: its id, its serialization, and the script hash and the value in satoshi
-- of each output.
pub record BlockTransaction : Type 0 where
  pub txid : String
  pub hex : String
  pub output : List (String × ℕ)

-- A connection of a `ScannerClient`: the node with an id, or its mirror.
pub data Client : Type 0 where
  node mirror : ℕ → Client

-- `N` is the state of all nodes. A call answers and may change it.
pub record Network (N : Type 0) : Type 0 where
  pub get_chain_tips : Client → N → RpcResult (List ChainTip) × N
  pub get_block_header_info : Client → String → N → RpcResult Header × N
  -- the ids of the transactions of the block
  pub get_block_info : Client → String → N → RpcResult (List String) × N
  pub get_block : Client → String → N → RpcResult (List BlockTransaction) × N
  pub get_raw_transaction_info : Client → String → String → N → RpcResult RawTransaction × N
  pub get_block_hex : Client → String → N → RpcResult String × N
  pub submit_block : Client → String → String → N → RpcResult (Unit {0}) × N
  pub set_network_active : Client → Bool → N → RpcResult (Unit {0}) × N
  pub invalidate_block : Client → String → N → RpcResult (Unit {0}) × N
  pub reconsider_block : Client → String → N → RpcResult (Unit {0}) × N
  -- `BlockHash::from_str` and `to_string`
  pub parse_hash : String → Option String
  -- the 32 bytes of a transaction id
  pub txid_bytes : String → List ℕ
  -- `String::from_utf8_lossy(&message).find(&tag).is_some()`
  pub has_tag : List ℕ → String → Bool
  -- `format!("{:X?}", message)`
  pub debug_bytes : List ℕ → String
  -- whether the build checks arithmetic for overflow
  pub overflow_checks : Bool

pub record World (N : Type 0) : Type 0 where
  pub conn : Conn
  pub nodes : N

-- `ForkScannerError`, without the errors of the process start; `diverged` stands for a loop that
-- used up its fuel, and `panicked` for an `unwrap` or `expect` that fails
-- and for an overflow where it is checked.
pub data ScanError : Type 0 where
  rpc_client_error : RpcError → ScanError
  database_error : DbError → ScanError
  hex_error failed_rollback invalid_coinbase diverged panicked : ScanError

pub data ScanResult {ℓ} (A : Type ℓ) : Type ℓ where
  ok : A → ScanResult A
  err : ScanError → ScanResult A

abbrev pub Scan : Type 0 → Type 0 → Type 0
Scan N A = World N → ScanResult A × World N

module _ {N A : Type 0} where
  abbrev after_db : World N → QueryResult A × Conn → ScanResult A × World N
  after_db w (QueryResult.ok a, c) = (ScanResult.ok a, record w { conn = c })
  after_db w (QueryResult.err e, c) = (ScanResult.err (database_error e), record w { conn = c })

  -- A query, and the operator `?` on its error.
  unfoldable pub db : Query A → Scan N A
  db m w = after_db w (m w.conn)

  abbrev after_rpc : World N → RpcResult A × N → ScanResult A × World N
  after_rpc w (RpcResult.ok a, n) = (ScanResult.ok a, record w { nodes = n })
  after_rpc w (RpcResult.err e, n) = (ScanResult.err (rpc_client_error e), record w { nodes = n })

  unfoldable pub rpc : (N → RpcResult A × N) → Scan N A
  rpc call w = after_rpc w (call w.nodes)

  abbrev pub pure : A → Scan N A
  pure a w = (ScanResult.ok a, w)

  abbrev pub fail : ScanError → Scan N A
  fail e w = (ScanResult.err e, w)

  -- The result of a step as a value, for a `match` on it.
  abbrev pub try_scan : Scan N A → Scan N (ScanResult A)
  try_scan m w = let (r, w') = m w in (ScanResult.ok r, w')

  abbrev pub or_fail : Option A → ScanError → Scan N A
  or_fail none e = fail e
  or_fail (some a) e = pure a

module _ {N A B : Type 0} where
  infixl 5 ◌>>=◌ ◌>>◌
  abbrev continue : (A → Scan N B) → ScanResult A → Scan N B
  continue f (ScanResult.ok a) w = f a w
  continue f (ScanResult.err e) w = (ScanResult.err e, w)

  unfoldable pub ◌>>=◌ : Scan N A → (A → Scan N B) → Scan N B
  ◌>>=◌ m f w = let (r, w') = m w in continue f r w'

  abbrev pub ◌>>◌ : Scan N A → Scan N B → Scan N B
  m >> k = m >>= λ _. k
