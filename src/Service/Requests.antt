-- ===== src/Service/Requests.antt =====
-- The requests and replies of src/service.rs. Parsing a request and writing a value are not part of
-- the program; they are the fields of `Json`. An id or a height of a request is a number; a
-- negative one matches no row, as a number does that no row has.
use forkscanner.Prelude.{ℕ, String, Bool, Option, none, some, List}
use forkscanner.Prelude.Int.{ℤ}
use forkscanner.Models.Rows.{Chaintip, Peer}
use forkscanner.Models.Query.{Query, pure}

pub record BlockUpload (B : Type 0) : Type 0 where
  pub node_id : ℕ
  pub block : B

pub record NodeId : Type 0 where
  pub id : ℕ

pub record GetBlockFromPeer : Type 0 where
  pub node_id : ℕ
  pub hash : String
  pub peer_id : ℕ

pub record TipArgs : Type 0 where
  pub active_only : Bool

pub record TxId : Type 0 where
  pub id : String

pub record NodeArgs : Type 0 where
  pub name : String
  pub rpc_host : String
  pub rpc_port : ℕ
  pub mirror_rpc_port : Option ℕ
  pub user : String
  pub pass : String
  pub mirror_host : Option String
  pub archive : Bool

pub record WatchedAddressUpdate : Type 0 where
  pub remove : List String
  pub add : List (String × ℕ)

pub data BlockQuery : Type 0 where
  height : ℕ → BlockQuery
  hash : String → BlockQuery

pub record SetTipQuery : Type 0 where
  pub node_id : ℕ
  pub hash : String

pub record ValidationCheck : Type 0 where
  pub tip : String
  pub tip_height : ℕ
  pub stale_height : ℕ
  pub height_difference : ℕ
  pub stale_timestamp : ℕ
  pub stale_branch_len : ℤ
  pub stale_branch_root : String

pub record BlockResult : Type 0 where
  pub hash : String
  pub height : ℕ
  pub parent_hash : Option String
  pub connected : Bool
  pub first_seen_by : ℕ
  pub headers_only : Bool
  pub work : String
  pub txids : Option (List String)
  pub txids_added : Option (List String)
  pub txids_omitted : Option (List String)
  pub pool_name : Option String
  pub template_txs_fee_diff : Option ℤ
  pub tx_omitted_fee_rates : Option ℤ
  pub lowest_template_fee_rate : Option ℤ
  pub total_fee : Option ℤ
  pub coinbase_message : Option (List ℕ)

-- `P` are the parameters of a call, `V` the values, and `B` the uploaded blocks.
pub record Json (P V B : Type 0) : Type 0 where
  pub tip_args : P → Option TipArgs
  pub node_args : P → Option NodeArgs
  pub node_id : P → Option NodeId
  pub block_query : P → Option BlockQuery
  pub block_from_peer : P → Option GetBlockFromPeer
  pub set_tip_query : P → Option SetTipQuery
  pub tx_id : P → Option TxId
  pub watched_update : P → Option WatchedAddressUpdate
  pub block_upload : P → Option (BlockUpload B)
  pub text : String → V
  pub number : ℕ → V
  pub boolean : Bool → V
  pub tips : List Chaintip → Option V
  pub peers : List Peer → Option V
  pub blocks : List BlockResult → Option V
  pub checks : List ValidationCheck → Option V
  -- `encode_hex`
  pub encode_hex : List ℕ → String

-- The errors of the library without their texts.
pub data JsonRpcError : Type 0 where
  internal_error invalid_params method_not_found : JsonRpcError

pub data Reply (V : Type 0) : Type 0 where
  value : V → Reply V
  error : JsonRpcError → Reply V

-- The answer of code with a loop; `diverged` is a loop out of fuel.
pub data Returned {ℓ} (A : Type ℓ) : Type ℓ where
  returned : A → Returned A
  diverged : Returned A

-- `serde_json::to_value`
abbrev pub value_or_internal : {V : Type 0} → Option V → Reply V
value_or_internal none = error internal_error
value_or_internal (some v) = value v

-- `params.parse()`
abbrev pub parsed : {A V : Type 0} → Option A → (A → Query (Reply V)) → Query (Reply V)
parsed none f = pure (error invalid_params)
parsed (some a) f = f a
