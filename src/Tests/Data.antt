-- ===== src/Tests/Data.antt =====
-- A small chain: `g` at height 0, `a` and `b` above it at height 1, and `c` above `a` at height 2.
-- Node 1 is at `c`, node 2 at `a`.
use forkscanner.Prelude.{ℕ, String, false, Option, none, some, [], ◌∷◌}
use forkscanner.Models.Rows.{Block, Chaintip, Node}
use forkscanner.Models.Query.{Db, Conn, empty_db, sound_conn}
use forkscanner.Models.Blocks.{Header, new_block}

abbrev pub header : String → ℕ → Option String → Header
header hash height previous = record {
  hash = hash;
  height = height;
  previous_block_hash = previous;
  chainwork = "00";
}

abbrev pub block : String → ℕ → Option String → Block
block hash height previous = new_block false 1 (header hash height previous)

abbrev pub tip : ℕ → ℕ → String → String → ℕ → Option ℕ → Chaintip
tip id node status hash height parent = record {
  id = id;
  node = node;
  status = status;
  block = hash;
  height = height;
  parent_chaintip = parent;
}

abbrev pub node : ℕ → Node
node id = record {
  id = id;
  node = "n";
  rpc_host = "host";
  rpc_port = 8332;
  mirror_rpc_port = none;
  rpc_user = "user";
  rpc_pass = "pass";
  unreachable_since = none;
  last_polled = none;
  initial_block_download = false;
  mirror_host = none;
  mirror_last_polled = none;
  mirror_unreachable_since = none;
  archive = false;
}

abbrev pub block_g : Block
block_g = block "g" 0 none

abbrev pub block_a : Block
block_a = block "a" 1 (some "g")

abbrev pub block_b : Block
block_b = block "b" 1 (some "g")

abbrev pub block_c : Block
block_c = block "c" 2 (some "a")

abbrev pub tip_high : Chaintip
tip_high = tip 1 1 "active" "c" 2 none

abbrev pub tip_low : Chaintip
tip_low = tip 2 2 "active" "a" 1 none

abbrev pub forked : Db
forked = record empty_db {
  chaintips = tip_high ∷ tip_low ∷ [];
  next_chaintip = 3;
  blocks = block_g ∷ block_a ∷ block_b ∷ block_c ∷ [];
  nodes = node 1 ∷ node 2 ∷ [];
}

abbrev pub conn : Conn
conn = sound_conn forked

-- Node 2 follows node 1, and a third tip on the block of node 1 is invalid.
abbrev pub tip_linked : Chaintip
tip_linked = tip 2 2 "active" "a" 1 (some 1)

abbrev pub linked : Db
linked = record forked {
  chaintips = tip_high ∷ tip_linked ∷ tip 3 2 "invalid" "c" 2 none ∷ [];
  next_chaintip = 4;
}
