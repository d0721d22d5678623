-- ===== src/Scanner/Ancestry.antt =====
-- `create_block_and_ancestors` of src/scanner.rs.
pub mod Kept
use forkscanner.Prelude.{
  ℕ, zero, suc, ◌+◌, String, Bool, true, false, Option, none, some, List, [], ◌∷◌, ◌++◌,
  if◌then◌else◌, find, is_none,
}
use forkscanner.Prelude.Int.{ℤ, pos, negsuc, sub_ℕ}
use forkscanner.Models.Rows.{Block, Pool}
use forkscanner.Models.Blocks
use forkscanner.Models.Blocks.{get_or_create}
use forkscanner.Models.Pools
use forkscanner.Scanner.Network.{
  Client, Network, RawTransaction, RpcError, ScanError, ScanResult, Scan, World, db, rpc, pure,
  fail, try_scan, or_fail, hex_error, invalid_coinbase, panicked, rpc_client_error, ◌>>=◌, ◌>>◌,
}
use forkscanner.Scanner.Inflation.{calc_max_inflation}

abbrev pub max_ancestry_depth : ℕ
max_ancestry_depth = 100

-- BLOCK_NOT_ON_DISK, -1
abbrev pub is_block_not_on_disk : ScanError → Bool
is_block_not_on_disk (rpc_client_error (RpcError.code (negsuc zero))) = true
is_block_not_on_disk _ = false

abbrev pub sum : List ℕ → ℕ
sum [] = 0
sum (x ∷ xs) = x + sum xs

abbrev pub concat_bytes : (String → List ℕ) → List String → List ℕ
concat_bytes f [] = []
concat_bytes f (x ∷ xs) = f x ++ concat_bytes f xs

module _ {N : Type 0} (net : Network N) where
  abbrev pub stop_at :
      List ℕ
      → Scan N (Option Pool × Option (List ℕ))
      → Option Pool
      → Scan N (Option Pool × Option (List ℕ))
  stop_at cb rest none = rest
  stop_at cb rest (some p) = pure (some p, some cb)

  -- The loop over the inputs: the last message that was looked at, and the pool that it names. The
  -- pools are listed anew for every input with a message.
  unfoldable pub find_pool :
      Option (List ℕ) → List (Option (List ℕ)) → Scan N (Option Pool × Option (List ℕ))
  find_pool message [] = pure (none, message)
  find_pool message (none ∷ vin) = find_pool message vin
  find_pool message (some cb ∷ vin) =
      let rest = find_pool (some cb) vin in
      (do pools ← db Pools.list; stop_at cb rest (find (λ (p : Pool). net.has_tag cb p.tag) pools))

  abbrev pub pool_name : Option Pool → Option (List ℕ) → String
  pool_name (some p) message = p.name
  pool_name none (some cb) = net.debug_bytes cb
  pool_name none none = net.debug_bytes (78 ∷ 79 ∷ 78 ∷ 69 ∷ [])

  abbrev pub check_vin : List (Option (List ℕ)) → Scan N (Unit {0})
  check_vin [] = fail invalid_coinbase
  check_vin (x ∷ xs) = pure tt

  -- The row with what its coinbase transaction says.
  abbrev pub with_coinbase :
      Block → List String → List ℕ → Option Pool → Option (List ℕ) → ℕ → Block
  with_coinbase b txs vout pool message max_inflation = record b {
    txids = some (concat_bytes net.txid_bytes txs);
    pool_name = some (pool_name pool message);
    total_fee = some (sub_ℕ (sum vout) max_inflation);
    coinbase_message = message;
  }

  -- A failed update is only logged, and so is a block without transactions.
  unfoldable pub record_coinbase : Client → String → Block → List String → Scan N (Unit {0})
  unfolding find_pool
  record_coinbase client hash b [] = pure tt
  record_coinbase client hash b (coinbase_tx ∷ rest_txs) = do
    info ← rpc (net.get_raw_transaction_info client coinbase_tx hash)
    check_vin info.vin
    (pool, message) ← find_pool none info.vin
    max_inflation ← or_fail (calc_max_inflation net.overflow_checks b.height) panicked
    try_scan (
        db (
          Blocks.update
            (with_coinbase b (coinbase_tx ∷ rest_txs) info.vout pool message max_inflation)))
    pure tt

  -- `none`: a pruned node no longer has the block.
  abbrev pub on_disk : ScanResult (List String) → Scan N (Option (List String))
  on_disk (ScanResult.ok txs) = pure (some txs)
  on_disk (ScanResult.err e) = if is_block_not_on_disk e then pure none else fail e

  abbrev pub record_block : Client → String → Block → Option (List String) → Scan N (Option String)
  record_block client hash b none = pure none
  record_block client hash b (some txs) = do record_coinbase client hash b txs; pure b.parent_hash

  -- One round of the loop: the hash of the next block to fetch, or `none` at its end.
  unfoldable pub fetch_block : Client → Bool → ℕ → String → Scan N (Option String)
  unfolding record_coinbase
  fetch_block client headers_only node_id hash = do
    bh ← rpc (net.get_block_header_info client hash)
    b ← db (get_or_create headers_only node_id bh)
    if b.connected then pure none else (do
      answer ← try_scan (rpc (net.get_block_info client hash))
      txs ← on_disk answer
      record_block client hash b txs)

  abbrev pub follow : (String → Scan N (Unit {0})) → Option String → Scan N (Unit {0})
  follow next none = pure tt
  follow next (some h) = or_fail (net.parse_hash h) hex_error >>= next

  unfoldable pub ancestors : ℕ → Client → Bool → ℕ → String → Scan N (Unit {0})
  unfolding fetch_block
  ancestors zero client headers_only node_id hash = pure tt
  ancestors (suc n) client headers_only node_id hash =
      let next = ancestors n client headers_only node_id in
      (do parent ← fetch_block client headers_only node_id hash; follow next parent)

  unfoldable pub create_block_and_ancestors : Client → Bool → String → ℕ → Scan N (Unit {0})
  unfolding ancestors
  create_block_and_ancestors client headers_only block_hash node_id = do
    hash ← or_fail (net.parse_hash block_hash) hex_error
    ancestors max_ancestry_depth client headers_only node_id hash
