-- ===== src/Service/Rpc.antt =====
-- The RPC endpoints of src/service.rs. The client that a call makes for a node is a parameter.
pub mod Reads
pub mod Active
pub mod Commands
pub mod Watched
use forkscanner.Prelude.{
  ℕ, String, Bool, true, false, Option, none, some, List, [], ◌∷◌, ◌++◌, map, ◌==◌, if◌then◌else◌,
  find, exists, number_comparable, text_comparable,
}
use forkscanner.Models.Rows.{QueryResult, ok, err, Node, Block, Chaintip, Transaction}
use forkscanner.Models.Query.{Conn, Query, pure, ◌>>=◌}
use forkscanner.Models.Query.Answers.{or_answer}
use forkscanner.Models.Blocks.{get_at_height}
use forkscanner.Models.Blocks
use forkscanner.Models.Chaintips.{list_active}
use forkscanner.Models.Chaintips
use forkscanner.Models.Nodes.{has_id}
use forkscanner.Models.Nodes
use forkscanner.Models.Peers
use forkscanner.Models.Watches
use forkscanner.Models.Transactions.{tx_block_and_descendants}
use forkscanner.Service.Requests.{
  BlockUpload, NodeId, GetBlockFromPeer, TipArgs, TxId, NodeArgs, WatchedAddressUpdate, BlockQuery,
  height, hash, SetTipQuery, Json, JsonRpcError, internal_error, invalid_params, method_not_found,
  Reply, value, error, value_or_internal, parsed,
}
use forkscanner.Service.Blocks.{from_block}

-- `ScannerCommand`
pub data ScannerCommand : Type 0 where
  set_tip : ℕ → String → ScannerCommand

-- `bitcoincore_rpc::Client`: `none` is a failed connection or call. `N` is the state of the nodes.
pub record Clients (N V B : Type 0) : Type 0 where
  -- `Client::new`, from the host, the user and the password
  pub connects : String → String → String → Bool
  pub submit_block : String → B → N → Option (Unit {0}) × N
  pub get_block_from_peer : String → String → ℕ → N → Option V × N

-- What a call can change: the tables, the nodes, and the commands sent to the scanner.
pub record Server (N : Type 0) : Type 0 where
  pub conn : Conn
  pub nodes : N
  pub commands : List ScannerCommand
  -- The scanner still receives commands.
  pub receives : Bool

-- A reply, or the panic of an `expect`.
pub data Outcome (V : Type 0) : Type 0 where
  replied : Reply V → Outcome V
  panicked : Outcome V

abbrev reply_of : {V : Type 0} → QueryResult (Reply V) → Outcome V
reply_of (ok r) = replied r
reply_of (err e) = replied (error internal_error)

module _ {N V : Type 0} where
  -- A call that only uses the tables; it answers its errors as replies.
  abbrev pub on_tables : Query (Reply V) → Server N → Outcome V × Server N
  on_tables m s = let (r, c) = m s.conn in (reply_of r, record s { conn = c })

module _ {N V A : Type 0} where
  abbrev after_query :
      (A → Server N → Outcome V × Server N) → QueryResult A → Server N → Outcome V × Server N
  after_query f (ok a) s = f a s
  after_query f (err e) s = (replied (error invalid_params), s)

  -- What a call does with the answer of a query; where it fails the parameters are to blame.
  unfoldable pub with_answer :
      Query A → (A → Server N → Outcome V × Server N) → Server N → Outcome V × Server N
  with_answer m f s = let (r, c) = m s.conn in after_query f r (record s { conn = c })

module _ {P V B : Type 0} (json : Json P V B) where
  unfoldable pub get_tips : P → Query (Reply V)
  unfolding or_answer
  get_tips params = parsed (json.tip_args params) (λ t.
      or_answer (error invalid_params) (if t.active_only then list_active else Chaintips.list)
        (λ chaintips. pure (value_or_internal (json.tips chaintips))))

  unfoldable pub add_node : P → Query (Reply V)
  unfolding or_answer
  add_node params = parsed (json.node_args params) (λ args.
      or_answer (error internal_error)
        (Nodes.insert args.name args.rpc_host args.rpc_port args.mirror_rpc_port args.user args.pass
          args.mirror_host args.archive)
        (λ n. pure (value (json.number n.id))))

  unfoldable pub remove_node : P → Query (Reply V)
  unfolding or_answer
  remove_node params = parsed (json.node_id params) (λ id.
      or_answer (error internal_error) (Nodes.remove id.id) (λ _. pure (value (json.text "OK"))))

  abbrev show_blocks : List Block → Reply V
  show_blocks bs = value_or_internal (json.blocks (map (from_block json.encode_hex) bs))

  abbrev find_blocks : BlockQuery → Query (Reply V)
  find_blocks (height h) =
      or_answer (error internal_error) (get_at_height h) (λ result. pure (show_blocks result))
  find_blocks (hash h) =
      or_answer (error internal_error) (Blocks.get h) (λ result. pure (show_blocks (result ∷ [])))

  unfoldable pub get_block : P → Query (Reply V)
  unfolding or_answer from_block
  get_block params = parsed (json.block_query params) find_blocks

  abbrev pub is_tip : List Chaintip → Block → Bool
  is_tip tips b = exists (λ (t : Chaintip). t.block == b.hash) tips

  unfoldable pub tx_is_active : P → Query (Reply V)
  unfolding or_answer
  tx_is_active params = parsed (json.tx_id params) (λ id.
      or_answer (error internal_error) list_active (λ tips.
        or_answer (error internal_error) (tx_block_and_descendants id.id)
          (λ blocks. pure (value (json.boolean (exists (is_tip tips) blocks))))))

  unfoldable pub update_watched_addresses : ℕ → P → Query (Reply V)
  unfolding or_answer
  update_watched_addresses now params = parsed (json.watched_update params) (λ updates.
      or_answer (error internal_error) (Watches.remove updates.remove) (λ _.
        or_answer (error internal_error) (Watches.insert now updates.add)
          (λ _. pure (value (json.text "OK")))))

  unfoldable pub get_peers : P → Query (Reply V)
  unfolding or_answer
  get_peers params = parsed (json.node_id params) (λ id.
      or_answer (error internal_error) (Peers.list id.id)
        (λ peers. pure (value_or_internal (json.peers peers))))

  module _ {N : Type 0} where
    -- The command channel is broken if the scanner has ended.
    abbrev send : SetTipQuery → Option Node → Server N → Outcome V × Server N
    send query none s = (replied (error invalid_params), s)
    send query (some n) s =
        if s.receives
        then (
          replied (value (json.text "success")),
          record s { commands = s.commands ++ set_tip query.node_id query.hash ∷ [] },
        )
        else (panicked, s)

    abbrev set_tip_query : Option SetTipQuery → Server N → Outcome V × Server N
    set_tip_query none s = (replied (error invalid_params), s)
    set_tip_query (some query) s =
        with_answer Nodes.list (λ nodes. send query (find (has_id query.node_id) nodes)) s

    unfoldable pub set_tip_call : P → Server N → Outcome V × Server N
    unfolding with_answer
    set_tip_call params = set_tip_query (json.set_tip_query params)

    module _ (clients : Clients N V B) where
      abbrev connects_to : Node → Bool
      connects_to node = clients.connects node.rpc_host node.rpc_user node.rpc_pass

      abbrev submitted : Server N → Option (Unit {0}) × N → Outcome V × Server N
      submitted s (none, n) = (replied (error invalid_params), record s { nodes = n })
      submitted s (some u, n) = (replied (value (json.text "OK")), record s { nodes = n })

      abbrev submit_to : B → Node → Server N → Outcome V × Server N
      submit_to block node s =
          if connects_to node
          then submitted s (clients.submit_block node.rpc_host block s.nodes)
          else (replied (error invalid_params), s)

      abbrev upload : Option (BlockUpload B) → Server N → Outcome V × Server N
      upload none s = (replied (error invalid_params), s)
      upload (some u) s = with_answer (Nodes.get u.node_id) (submit_to u.block) s

      unfoldable pub submit_block : P → Server N → Outcome V × Server N
      unfolding with_answer
      submit_block params = upload (json.block_upload params)

      abbrev fetched : Server N → Option V × N → Outcome V × Server N
      fetched s (none, n) = (replied (error invalid_params), record s { nodes = n })
      fetched s (some v, n) = (replied (value v), record s { nodes = n })

      abbrev fetch_from : GetBlockFromPeer → Option Node → Server N → Outcome V × Server N
      fetch_from query none s = (replied (error invalid_params), s)
      fetch_from query (some node) s =
          if connects_to node
          then fetched s
              (clients.get_block_from_peer node.rpc_host query.hash query.peer_id s.nodes)
          else (replied (error invalid_params), s)

      abbrev fetch_query : Option GetBlockFromPeer → Server N → Outcome V × Server N
      fetch_query none s = (replied (error invalid_params), s)
      fetch_query (some query) s =
          with_answer Nodes.list (λ nodes. fetch_from query (find (has_id query.node_id) nodes)) s

      unfoldable pub get_block_from_peer : P → Server N → Outcome V × Server N
      unfolding with_answer
      get_block_from_peer params = fetch_query (json.block_from_peer params)

      -- The methods of the server; a call gets a connection of the pool.
      unfoldable pub call : ℕ → String → P → Server N → Outcome V × Server N
      unfolding get_tips add_node remove_node get_block get_block_from_peer set_tip_call
          tx_is_active get_peers submit_block update_watched_addresses
      call now method params s =
          if method == "get_tips"
          then on_tables (get_tips params) s
          else if method == "add_node"
          then on_tables (add_node params) s
          else if method == "remove_node"
          then on_tables (remove_node params) s
          else if method == "get_block"
          then on_tables (get_block params) s
          else if method == "get_block_from_peer"
          then get_block_from_peer params s
          else if method == "set_tip"
          then set_tip_call params s
          else if method == "tx_is_active"
          then on_tables (tx_is_active params) s
          else if method == "get_peers"
          then on_tables (get_peers params) s
          else if method == "submit_block"
          then submit_block params s
          else if method == "update_watched_addresses"
          then on_tables (update_watched_addresses now params) s
          else (replied (error method_not_found), s)
