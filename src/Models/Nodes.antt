-- ===== src/Models/Nodes.antt =====
-- `Node` of src/models.rs: the table `nodes`, and what a deleted node takes along.
pub mod Removed
pub mod Cascade
use forkscanner.Prelude.{
  ℕ, suc, String, Bool, true, false, not, ◌&&◌, Option, none, some, List, [], ◌∷◌, ◌++◌, map, ◌==◌,
  if◌then◌else◌, keep_if, find, exists, update_if, count_if, is_none, number_comparable,
}
use forkscanner.Models.Rows.{
  DbError, QueryResult, ok, err, Chaintip, InvalidBlock, ValidBlock, Node, Lags, Peer, SoftForks,
}
use forkscanner.Models.Query.{Db, Query, Statement, execute, select, first_row, set_column}
use forkscanner.Models.Chaintips.{drop_parent, node_exists}

abbrev pub has_id : ℕ → Node → Bool
has_id k n = n.id == k

unfoldable pub get : ℕ → Query Node
get node_id = select (λ d. first_row (find (has_id node_id) d.nodes))

unfoldable pub list : Query (List Node)
list = select (λ d. ok d.nodes)

unfoldable pub get_mirrors : Query (List Node)
get_mirrors = select (λ d. ok (keep_if (λ (n : Node). not (is_none n.mirror_rpc_port)) d.nodes))

unfoldable pub get_active_reachable : Query (List Node)
get_active_reachable = select (λ d. ok (
    keep_if
      (λ (n : Node).
        not (is_none n.mirror_rpc_port)
        && (not n.initial_block_download && is_none n.mirror_unreachable_since))
      d.nodes))

-- `set(self)`
abbrev pub update_row : Bool → Node → Node → Node
update_row null self n = record self {
  mirror_rpc_port = set_column null n.mirror_rpc_port self.mirror_rpc_port;
  unreachable_since = set_column null n.unreachable_since self.unreachable_since;
  last_polled = set_column null n.last_polled self.last_polled;
  mirror_host = set_column null n.mirror_host self.mirror_host;
  mirror_last_polled = set_column null n.mirror_last_polled self.mirror_last_polled;
  mirror_unreachable_since =
      set_column null n.mirror_unreachable_since self.mirror_unreachable_since;
}

unfoldable pub update_node : Node → Statement ℕ
update_node self d = (
  ok (count_if (has_id self.id) d.nodes),
  record d { nodes = update_if (has_id self.id) (update_row d.none_as_null self) d.nodes },
)

unfoldable pub update : Node → Query ℕ
unfolding update_node
update self = execute (update_node self)

-- The columns that the source does not name take the defaults of the migrations.
abbrev pub new_node :
    ℕ → String → String → ℕ → Option ℕ → String → String → Option String → Bool → Node
new_node id name host port mirror_port user pass mirror_hostname archiver = record {
  id = id;
  node = name;
  rpc_host = host;
  rpc_port = port;
  mirror_rpc_port = mirror_port;
  rpc_user = user;
  rpc_pass = pass;
  unreachable_since = none;
  last_polled = none;
  initial_block_download = true;
  mirror_host = mirror_hostname;
  mirror_last_polled = none;
  mirror_unreachable_since = none;
  archive = archiver;
}

unfoldable pub insert :
    String → String → ℕ → Option ℕ → String → String → Option String → Bool → Query Node
insert name host port mirror_port user pass mirror_hostname archiver = execute (λ d.
    let n = new_node d.next_node name host port mirror_port user pass mirror_hostname archiver in
    (ok n, record d { nodes = d.nodes ++ n ∷ []; next_node = suc d.next_node }))

abbrev pub other_tips : ℕ → List Chaintip → List Chaintip
other_tips k ts = keep_if (λ (t : Chaintip). not (t.node == k)) ts

-- The foreign keys to `nodes` delete the rows of the node (ON DELETE CASCADE), those to a deleted
-- tip become NULL, and that of `softforks` forbids the deletion.
unfoldable pub remove_node : ℕ → Statement ℕ
remove_node k d =
    if exists (λ (s : SoftForks). s.node_id == k) d.softforks && node_exists d k
    then (err DbError.foreign_key_violation, d)
    else (
      ok (count_if (has_id k) d.nodes),
      record d {
        nodes = keep_if (λ (n : Node). not (has_id k n)) d.nodes;
        chaintips =
            if node_exists d k
            then map (drop_parent (other_tips k d.chaintips)) (other_tips k d.chaintips)
            else d.chaintips;
        invalid_blocks =
            if node_exists d k
            then keep_if (λ (v : InvalidBlock). not (v.node == k)) d.invalid_blocks
            else d.invalid_blocks;
        valid_blocks =
            if node_exists d k
            then keep_if (λ (v : ValidBlock). not (v.node == k)) d.valid_blocks
            else d.valid_blocks;
        peers =
            if node_exists d k
            then keep_if (λ (p : Peer). not (p.node_id == k)) d.peers
            else d.peers;
        lags =
            if node_exists d k then keep_if (λ (l : Lags). not (l.node_id == k)) d.lags else d.lags;
      },
    )

unfoldable pub remove : ℕ → Query ℕ
unfolding remove_node
remove node_id = execute (remove_node node_id)
