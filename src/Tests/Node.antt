-- ===== src/Tests/Node.antt =====
-- A node for the tests. Its state is the list of the blocks that were invalidated: it is at `a`
-- until `a` is invalidated, and then at `b`. It knows the blocks of the small chain and one more.
use forkscanner.Prelude.{
  ℕ, String, true, none, some, List, [], ◌∷◌, ◌++◌, ◌==◌, text_comparable, if◌then◌else◌,
}
use forkscanner.Models.Blocks.{Header}
use forkscanner.Scanner.Network.{ChainTip, Status, Network, RpcResult, World}
use forkscanner.Tests.Data.{header, conn}

abbrev chain_tip : String → ℕ → Status → ChainTip
chain_tip hash height status = record { hash = hash; height = height; status = status }

abbrev pub tips : List String → List ChainTip
tips [] = chain_tip "d" 3 Status.headers_only ∷ chain_tip "a" 1 Status.active ∷ []
tips (x ∷ xs) = chain_tip "b" 1 Status.active ∷ []

abbrev known_header : String → Header
known_header h =
    if h == "d"
    then header "d" 3 (some "c")
    else if h == "c"
    then header "c" 2 (some "a")
    else if h == "g"
    then header "g" 0 none
    else header h 1 (some "g")

abbrev pub net : Network (List String)
net = record {
  get_chain_tips = λ client n. (RpcResult.ok (tips n), n);
  get_block_header_info = λ client h n. (RpcResult.ok (known_header h), n);
  get_block_info = λ client h n. (RpcResult.ok ("t" ∷ []), n);
  get_block = λ client h n. (RpcResult.ok [], n);
  get_raw_transaction_info = λ client tx h n.
      (RpcResult.ok (record { vin = some (1 ∷ []) ∷ []; vout = 5_000_000_000 ∷ [] }), n);
  get_block_hex = λ client h n. (RpcResult.ok "00", n);
  submit_block = λ client hex h n. (RpcResult.ok tt, n);
  set_network_active = λ client active n. (RpcResult.ok tt, n);
  invalidate_block = λ client h n. (RpcResult.ok tt, n ++ h ∷ []);
  reconsider_block = λ client h n. (RpcResult.ok tt, []);
  parse_hash = some;
  txid_bytes = λ tx. 7 ∷ [];
  has_tag = λ message tag. true;
  debug_bytes = λ message. "message";
  overflow_checks = true;
}

abbrev pub world : World (List String)
world = record { conn = conn; nodes = [] }

-- The same chain, its blocks numbered from 10, and known to the node by headers but for one.
abbrev high_tips : List String → List ChainTip
high_tips [] = chain_tip "b" 11 Status.valid_headers ∷ chain_tip "a" 11 Status.active ∷ []
high_tips (x ∷ xs) = chain_tip "b" 11 Status.active ∷ []

abbrev pub high_net : Network (List String)
high_net = record net { get_chain_tips = λ client n. (RpcResult.ok (high_tips n), n) }
