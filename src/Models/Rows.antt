-- ===== src/Models/Rows.antt =====
-- The rows of src/models.rs, with the columns that the migrations give the tables. Hashes are the
-- texts that the tables hold. A node id and a height are numbers: both come from unsigned values.
-- A decimal column is a whole number of hundred-millionths, which every value that the program
-- writes is. Bytes are numbers, and a time is a number of milliseconds.
use forkscanner.Prelude.{ℕ, String, Bool, Option, List}
use forkscanner.Prelude.Int.{ℤ}

-- What the database answers instead of rows. `failed` is any error that does not come from the
-- statement itself: a lost connection, a timeout.
pub data DbError : Type 0 where
  not_found unique_violation foreign_key_violation failed : DbError

pub data QueryResult {ℓ} (A : Type ℓ) : Type ℓ where
  ok : A → QueryResult A
  err : DbError → QueryResult A

pub record Chaintip : Type 0 where
  pub id : ℕ
  pub node : ℕ
  pub status : String
  pub block : String
  pub height : ℕ
  pub parent_chaintip : Option ℕ

pub record Block : Type 0 where
  pub hash : String
  pub height : ℕ
  pub parent_hash : Option String
  pub connected : Bool
  pub first_seen_by : ℕ
  pub headers_only : Bool
  pub work : String
  pub txids : Option (List ℕ)
  pub txids_added : Option (List ℕ)
  pub txids_omitted : Option (List ℕ)
  pub pool_name : Option String
  pub template_txs_fee_diff : Option ℤ
  pub tx_omitted_fee_rates : Option ℤ
  pub lowest_template_fee_rate : Option ℤ
  pub total_fee : Option ℤ
  pub coinbase_message : Option (List ℕ)

-- A row of `invalid_blocks`.
pub record InvalidBlock : Type 0 where
  pub hash : String
  pub node : ℕ
  pub created_at : Option ℕ

-- A row of `valid_blocks`.
pub record ValidBlock : Type 0 where
  pub hash : String
  pub node : ℕ
  pub created_at : Option ℕ

pub record Node : Type 0 where
  pub id : ℕ
  pub node : String
  pub rpc_host : String
  pub rpc_port : ℕ
  pub mirror_rpc_port : Option ℕ
  pub rpc_user : String
  pub rpc_pass : String
  pub unreachable_since : Option ℕ
  pub last_polled : Option ℕ
  pub initial_block_download : Bool
  pub mirror_host : Option String
  pub mirror_last_polled : Option ℕ
  pub mirror_unreachable_since : Option ℕ
  pub archive : Bool

pub record Lags : Type 0 where
  pub node_id : ℕ
  pub created_at : ℕ
  pub deleted_at : Option ℕ
  pub updated_at : ℕ

-- Without the three float totals, which `create` sets to zero and only `set_conflicting_txs` reads
-- or writes after that.
pub record StaleCandidate : Type 0 where
  pub height : ℕ
  pub n_children : ℕ
  pub height_processed : Option ℕ
  pub created_at : ℕ

pub record StaleCandidateChildren : Type 0 where
  pub candidate_height : ℕ
  pub root_id : String
  pub tip_id : String
  pub len : ℕ

-- An amount is a float in the source, written from a number of satoshi.
pub record Transaction : Type 0 where
  pub block_id : String
  pub txid : String
  pub is_coinbase : Bool
  pub hex : String
  pub amount : ℕ
  pub swept : Option Bool

pub record TransactionAddress : Type 0 where
  pub hash : String
  pub txid : String
  pub address : String

pub record Watched : Type 0 where
  pub address : String
  pub created_at : ℕ
  pub watch_until : ℕ

pub record Pool : Type 0 where
  pub tag : String
  pub name : String
  pub url : String
  pub created_at : ℕ
  pub updated_at : ℕ

pub record Peer : Type 0 where
  pub id : ℕ
  pub node_id : ℕ
  pub peer_id : ℕ
  pub address : String
  pub version : ℕ

pub record SoftForks : Type 0 where
  pub node_id : ℕ
  pub fork_type : ℕ
  pub name : String
  pub bit : Option ℕ
  pub status : ℕ
  pub since : Option ℕ
  pub notified_at : ℕ
  pub created_at : ℕ
  pub updated_at : ℕ

pub record InflatedBlock : Type 0 where
  pub block_hash : String
  pub max_inflation : ℤ
  pub actual_inflation : ℤ
  pub notified_at : ℕ
  pub created_at : ℕ
  pub updated_at : ℕ
  pub node_id : ℕ
  pub dismissed_at : Option ℕ

pub record FeeRate : Type 0 where
  pub parent_block_hash : String
  pub node_id : ℕ
  pub fee_rate : ℤ
  pub omitted : Bool

pub record BlockTemplate : Type 0 where
  pub parent_block_hash : String
  pub node_id : ℕ
  pub fee_total : ℤ
  pub ts : ℕ
  pub height : ℕ
  pub created_at : ℕ
  pub updated_at : ℕ
  pub n_transactions : ℕ
  pub tx_ids : List ℕ
  pub lowest_fee_rate : ℤ

pub record TxOutset : Type 0 where
  pub block_hash : String
  pub node_id : ℕ
  pub txouts : ℕ
  pub total_amount : ℤ
  pub created_at : ℕ
  pub updated_at : ℕ
  pub inflated : Bool

pub record RbfBy : Type 0 where
  pub candidate_height : ℕ
  pub txid : String

pub record DoubleSpentBy : Type 0 where
  pub candidate_height : ℕ
  pub txid : String
