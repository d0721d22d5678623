-- ===== src/Scanner/Process.antt =====
-- `process_client` and `fetch_transactions` of src/scanner.rs: what a node says of its chain tips
-- goes into the tables.
pub mod Preserved
pub mod Kept
use forkscanner.Prelude.{
  ℕ, zero, suc, ◌+◌, String, Bool, true, false, ◌||◌, Option, none, some, List, [], ◌∷◌, ◌++◌, map,
  ltb, if◌then◌else◌,
}
use forkscanner.Models.Rows.{Block, TransactionAddress}
use forkscanner.Models.Chaintips
use forkscanner.Models.Blocks
use forkscanner.Models.Transactions
use forkscanner.Scanner.Network.{
  Client, Network, ChainTip, Status, BlockTransaction, Scan, ScanError, ScanResult, World, db, rpc,
  pure, fail, try_scan, or_fail, panicked, ◌>>=◌, ◌>>◌,
}
use forkscanner.Scanner.Ancestry.{create_block_and_ancestors, is_block_not_on_disk}

abbrev pub total_value : List (String × ℕ) → ℕ
total_value [] = 0
total_value ((address, value) ∷ outputs) = value + total_value outputs

abbrev pub tx_addresses : String → List BlockTransaction → List TransactionAddress
tx_addresses hash [] = []
tx_addresses hash (tx ∷ txs) =
    map (λ (o : String × ℕ). record { hash = hash; txid = tx.txid; address = o.0 }) tx.output
    ++ tx_addresses hash txs

-- A failed insert is only logged.
unfoldable pub create_transactions :
    {N : Type 0} → String → ℕ → List BlockTransaction → Scan N (Unit {0})
create_transactions hash idx [] = pure tt
create_transactions hash idx (tx ∷ txs) =
    try_scan (db (Transactions.create false hash idx tx.txid tx.hex (total_value tx.output)))
    >> create_transactions hash (suc idx) txs

-- `first_client` is the first of the scanner's clients, and `now` the time of new rows.
module _ {N : Type 0} (net : Network N) (first_client : Option Client) (now : ℕ) where
  abbrev pub store_transactions : String → ScanResult (List BlockTransaction) → Scan N (Unit {0})
  store_transactions hash (ScanResult.err e) = pure tt
  store_transactions hash (ScanResult.ok txs) = do
    create_transactions hash 0 txs
    try_scan (db (Transactions.insert_addresses (tx_addresses hash txs)))
    pure tt

  abbrev pub fetch_unless : Block → ScanResult Bool → Scan N (Unit {0})
  fetch_unless b (ScanResult.err e) = pure tt
  fetch_unless b (ScanResult.ok true) = pure tt
  fetch_unless b (ScanResult.ok false) = do
    client ← or_fail first_client panicked
    hash ← or_fail (net.parse_hash b.hash) panicked
    txs ← try_scan (rpc (net.get_block client hash))
    store_transactions b.hash txs

  unfoldable pub fetch_transactions : Block → Scan N (Unit {0})
  unfolding create_transactions
  fetch_transactions b = do
    processed ← try_scan (db (Transactions.block_processed b.hash))
    fetch_unless b processed

  -- A block that a node lacks is no error for a tip of which only headers are known.
  abbrev pub tolerate : ScanResult (Unit {0}) → Scan N (Unit {0})
  tolerate (ScanResult.ok x) = pure tt
  tolerate (ScanResult.err e) = if is_block_not_on_disk e then pure tt else fail e

  -- The `match tip.status`; its answer is what the tip adds to `changed`.
  unfoldable pub record_tip : Client → ℕ → ChainTip → Status → Scan N Bool
  record_tip client node_id t Status.headers_only = do
    r ← try_scan (create_block_and_ancestors net client true t.hash node_id)
    tolerate r
    pure false
  record_tip client node_id t Status.valid_headers = do
    create_block_and_ancestors net client true t.hash node_id
    pure false
  record_tip client node_id t Status.invalid = do
    db (Chaintips.set_invalid_fork t.height t.hash node_id)
    create_block_and_ancestors net client false t.hash node_id
    db (Blocks.set_invalid t.hash node_id now)
    pure false
  record_tip client node_id t Status.valid_fork = do
    db (Chaintips.set_valid_fork t.height t.hash node_id)
    create_block_and_ancestors net client false t.hash node_id
    db (Blocks.set_valid t.hash node_id now)
    pure false
  record_tip client node_id t Status.active = do
    rows ← db (Chaintips.set_active_tip t.height t.hash node_id)
    create_block_and_ancestors net client false t.hash node_id
    db (Blocks.set_valid t.hash node_id now)
    pure (ltb 0 rows)

  abbrev pub watch_block : ScanResult Block → Scan N (Unit {0})
  watch_block (ScanResult.ok b) = fetch_transactions b
  watch_block (ScanResult.err e) = pure tt

  unfoldable pub process_tip : Bool → Client → ℕ → ChainTip → Scan N Bool
  unfolding record_tip fetch_transactions
  process_tip enable_address_watcher client node_id t = do
    changed ← record_tip client node_id t t.status
    if enable_address_watcher then try_scan (db (Blocks.get t.hash)) >>= watch_block else pure tt
    pure changed

  unfoldable pub process_tips : Bool → Client → ℕ → List ChainTip → Scan N Bool
  unfolding process_tip
  process_tips enable_address_watcher client node_id [] = pure false
  process_tips enable_address_watcher client node_id (t ∷ tips) =
      let rest = process_tips enable_address_watcher client node_id tips in
      (do
        changed ← process_tip enable_address_watcher client node_id t
        others ← rest
        pure (changed || others))

  unfoldable pub process_client : Bool → Client → ℕ → Scan N Bool
  unfolding process_tips
  process_client enable_address_watcher client node_id = do
    tips ← rpc (net.get_chain_tips client)
    process_tips enable_address_watcher client node_id tips
