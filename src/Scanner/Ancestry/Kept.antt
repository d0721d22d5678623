-- ===== src/Scanner/Ancestry/Kept.antt =====
-- What `create_block_and_ancestors` of src/scanner.rs keeps of the tables.
use forkscanner.Prelude.{
  ℕ, zero, suc, String, Bool, false, Option, none, some, List, [], ◌∷◌, ◌≡◌, refl,
}
use forkscanner.Models.Rows.{Block, Pool}
use forkscanner.Models.Query.{Db}
use forkscanner.Models.Query.Keeps.{Keeps, Keeps-select, Keeps-execute}
use forkscanner.Models.Pools
use forkscanner.Models.Blocks
use forkscanner.Models.Blocks.{get_or_create, update_block}
use forkscanner.Models.Blocks.Linked.{Linked, update_block-Linked}
use forkscanner.Scanner.Network.{Client, Network, Scan, ScanResult}
use forkscanner.Scanner.Network.Keeps.{
  ScanKeeps, ScanKeeps-db, ScanKeeps-rpc, ScanKeeps-done, ScanKeeps-error, ScanKeeps-caught,
  ScanKeeps-or_fail, ScanKeeps-branch, ScanKeeps-then,
}
use forkscanner.Scanner.Ancestry.{
  max_ancestry_depth, stop_at, find_pool, follow, check_vin, record_coinbase, on_disk, record_block,
  fetch_block, ancestors, create_block_and_ancestors,
}

-- What creating a row and writing a row that is not connected keep, the whole walk keeps.
module _ {N : Type 0} (net : Network N) (P : Db → Type 0)
    (created : (headers_only : Bool) (node_id : ℕ) (bh : Blocks.Header)
      → Keeps P (get_or_create headers_only node_id bh))
    (written : (b : Block) → b.connected ≡ false → Keeps P (Blocks.update b)) where
  stop_at-Keeps :
      (cb : List ℕ) (rest : Scan N (Option Pool × Option (List ℕ)))
      → ScanKeeps P rest
      → (found : Option Pool) → ScanKeeps P (stop_at net cb rest found)
  stop_at-Keeps cb rest k none = k
  stop_at-Keeps cb rest k (some p) = ScanKeeps-done _

  find_pool-Keeps :
      (message : Option (List ℕ)) (vin : List (Option (List ℕ)))
      → ScanKeeps P (find_pool net message vin)
  unfolding find_pool Pools.list
  find_pool-Keeps message [] = ScanKeeps-done _
  find_pool-Keeps message (none ∷ vin) = find_pool-Keeps message vin
  find_pool-Keeps message (some cb ∷ vin) =
      ScanKeeps-then _ _ (ScanKeeps-db _ (Keeps-select _))
        (λ pools. stop_at-Keeps cb _ (find_pool-Keeps (some cb) vin) _)

  check_vin-Keeps : (vin : List (Option (List ℕ))) → ScanKeeps P (check_vin net vin)
  check_vin-Keeps [] = ScanKeeps-error _
  check_vin-Keeps (x ∷ xs) = ScanKeeps-done _

  record_coinbase-Keeps :
      (client : Client) (hash : String) (b : Block) (txs : List String)
      → b.connected ≡ false
      → ScanKeeps P (record_coinbase net client hash b txs)
  unfolding record_coinbase
  record_coinbase-Keeps client hash b [] new = ScanKeeps-done _
  record_coinbase-Keeps client hash b (coinbase_tx ∷ rest_txs) new =
      ScanKeeps-then _ _ (ScanKeeps-rpc _) (λ info.
        ScanKeeps-then _ _ (check_vin-Keeps info.vin) (λ _.
          ScanKeeps-then _ _ (find_pool-Keeps none info.vin) (λ found.
            ScanKeeps-then _ _ (ScanKeeps-or_fail _ _) (λ inflation.
              ScanKeeps-then _ _ (ScanKeeps-caught _ (ScanKeeps-db _ (written _ new)))
                (λ _. ScanKeeps-done _)))))

  on_disk-Keeps : (answer : ScanResult (List String)) → ScanKeeps P (on_disk net answer)
  on_disk-Keeps (ScanResult.ok txs) = ScanKeeps-done _
  on_disk-Keeps (ScanResult.err e) =
      ScanKeeps-branch _ _ _ (λ _. ScanKeeps-done _) (λ _. ScanKeeps-error _)

  record_block-Keeps :
      (client : Client) (hash : String) (b : Block) (txs : Option (List String))
      → b.connected ≡ false
      → ScanKeeps P (record_block net client hash b txs)
  record_block-Keeps client hash b none new = ScanKeeps-done _
  record_block-Keeps client hash b (some txs) new =
      ScanKeeps-then _ _ (record_coinbase-Keeps client hash b txs new) (λ _. ScanKeeps-done _)

  fetch_block-Keeps :
      (client : Client) (headers_only : Bool) (node_id : ℕ) (hash : String)
      → ScanKeeps P (fetch_block net client headers_only node_id hash)
  unfolding fetch_block
  fetch_block-Keeps client headers_only node_id hash = ScanKeeps-then _ _ (ScanKeeps-rpc _) (λ bh.
      ScanKeeps-then _ _ (ScanKeeps-db _ (created headers_only node_id bh)) (λ b.
        ScanKeeps-branch b.connected _ _ (λ _. ScanKeeps-done _)
          (λ new. ScanKeeps-then _ _ (ScanKeeps-caught _ (ScanKeeps-rpc _)) (λ answer.
            ScanKeeps-then _ _ (on_disk-Keeps answer)
              (λ txs. record_block-Keeps client hash b txs new)))))

  follow-Keeps :
      (next : String → Scan N (Unit {0}))
      → ((h : String) → ScanKeeps P (next h))
      → (parent : Option String) → ScanKeeps P (follow net next parent)
  follow-Keeps next k none = ScanKeeps-done _
  follow-Keeps next k (some h) = ScanKeeps-then _ _ (ScanKeeps-or_fail _ _) k

  ancestors-Keeps :
      (n : ℕ) (client : Client) (headers_only : Bool) (node_id : ℕ) (hash : String)
      → ScanKeeps P (ancestors net n client headers_only node_id hash)
  unfolding ancestors
  ancestors-Keeps zero client headers_only node_id hash = ScanKeeps-done _
  ancestors-Keeps (suc n) client headers_only node_id hash =
      ScanKeeps-then _ _ (fetch_block-Keeps client headers_only node_id hash)
        (follow-Keeps _ (ancestors-Keeps n client headers_only node_id))

  pub walk-Keeps :
      (client : Client) (headers_only : Bool) (block_hash : String) (node_id : ℕ)
      → ScanKeeps P (create_block_and_ancestors net client headers_only block_hash node_id)
  unfolding create_block_and_ancestors
  walk-Keeps client headers_only block_hash node_id =
      ScanKeeps-then _ _ (ScanKeeps-or_fail _ _)
        (ancestors-Keeps max_ancestry_depth client headers_only node_id)

pub written-Linked : (b : Block) → b.connected ≡ false → Keeps Linked (Blocks.update b)
unfolding Blocks.update
written-Linked b new =
    Keeps-execute (update_block b) (λ d l. update_block-Linked b d (rw new (refl)) l)
