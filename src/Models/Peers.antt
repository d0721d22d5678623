-- ===== src/Models/Peers.antt =====
-- `Peer` and `SoftForks` of src/models.rs.
use forkscanner.Prelude.{
  ℕ, suc, String, Bool, true, false, not, ◌&&◌, Option, none, some, List, [], ◌∷◌, ◌++◌, ◌==◌,
  if◌then◌else◌, keep_if, exists, count_if, update_if, length, number_comparable, text_comparable,
}
use forkscanner.Models.Rows.{DbError, ok, err, Peer, SoftForks}
use forkscanner.Models.Query.{Db, Query, Statement, execute, select, pure, set_column, ◌>>◌}
use forkscanner.Models.Chaintips.{node_exists}

-- The columns of `peers` without the identity.
pub record NewPeer : Type 0 where
  pub node_id : ℕ
  pub peer_id : ℕ
  pub address : String
  pub version : ℕ

abbrev is_peer_of : ℕ → Peer → Bool
is_peer_of n p = p.node_id == n

unfoldable pub delete_peers : ℕ → Statement ℕ
delete_peers n_id d = (
  ok (count_if (is_peer_of n_id) d.peers),
  record d { peers = keep_if (λ p. not (is_peer_of n_id p)) d.peers },
)

abbrev add_peers : ℕ → List NewPeer → List Peer
add_peers id [] = []
add_peers id (p ∷ ps) =
    record {
      id = id;
      node_id = p.node_id;
      peer_id = p.peer_id;
      address = p.address;
      version = p.version;
    }
    ∷ add_peers (suc id) ps

abbrev after_peers : ℕ → List NewPeer → ℕ
after_peers id [] = id
after_peers id (p ∷ ps) = after_peers (suc id) ps

abbrev all_nodes_exist : Db → List NewPeer → Bool
all_nodes_exist d [] = true
all_nodes_exist d (p ∷ ps) = node_exists d p.node_id && all_nodes_exist d ps

-- One statement for all rows.
unfoldable pub insert_peers : List NewPeer → Statement ℕ
insert_peers peer_list d =
    if all_nodes_exist d peer_list
    then (
      ok (length peer_list),
      record d {
        peers = d.peers ++ add_peers d.next_peer peer_list;
        next_peer = after_peers d.next_peer peer_list;
      },
    )
    else (err DbError.foreign_key_violation, d)

-- Two statements, in no transaction.
unfoldable pub update_peers : ℕ → List NewPeer → Query ℕ
unfolding delete_peers insert_peers
update_peers n_id peer_list = execute (delete_peers n_id) >> execute (insert_peers peer_list)

unfoldable pub list : ℕ → Query (List Peer)
list n_id = select (λ d. ok (keep_if (is_peer_of n_id) d.peers))

-- The fields of `Softfork` that the program reads.
pub record Softfork : Type 0 where
  -- `bip9`, and the `bit` in it
  pub bip9 : Option (Option ℕ)
  pub fork_type : ℕ
  pub active : Bool
  pub height : Option ℕ

abbrev fork_bit : Option (Option ℕ) → Option ℕ
fork_bit none = none
fork_bit (some bit) = bit

abbrev as_number : Bool → ℕ
as_number true = 1
as_number false = 0

abbrev soft_fork : ℕ → ℕ → String → Softfork → SoftForks
soft_fork now node_id name info = record {
  node_id = node_id;
  fork_type = info.fork_type;
  name = name;
  bit = fork_bit info.bip9;
  status = as_number info.active;
  since = info.height;
  notified_at = now;
  created_at = now;
  updated_at = now;
}

abbrev same_fork : SoftForks → SoftForks → Bool
same_fork a b = a.node_id == b.node_id && (a.fork_type == b.fork_type && a.name == b.name)

abbrev update_fork : Bool → SoftForks → SoftForks → SoftForks
update_fork null self s = record self {
  bit = set_column null s.bit self.bit;
  since = set_column null s.since self.since;
}

-- ON CONFLICT (node_id, fork_type, name) DO UPDATE
unfoldable pub upsert_fork : SoftForks → Statement ℕ
upsert_fork sf d =
    if exists (same_fork sf) d.softforks
    then (
      ok 1,
      record d { softforks = update_if (same_fork sf) (update_fork d.none_as_null sf) d.softforks },
    )
    else if node_exists d sf.node_id
    then (ok 1, record d { softforks = d.softforks ++ sf ∷ [] })
    else (err DbError.foreign_key_violation, d)

-- The forks in the order of the map's iteration.
unfoldable pub update_or_insert : ℕ → ℕ → List (String × Softfork) → Query (Unit {0})
unfolding upsert_fork
update_or_insert now node_id [] = pure tt
update_or_insert now node_id ((key, info) ∷ forks) =
    execute (upsert_fork (soft_fork now node_id key info)) >> update_or_insert now node_id forks
