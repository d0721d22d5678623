-- ===== src/Scanner/Process/Kept.antt =====
-- What `process_client` of src/scanner.rs keeps of the tables.
use forkscanner.Prelude.{
  ℕ, suc, ◌≡◌, ◌≤◌, refl, String, Bool, true, false, Option, List, [], ◌∷◌, count_if, arith, ◌==◌,
  text_comparable,
}
use forkscanner.Models.Rows.{Block}
use forkscanner.Models.Query.{Db}
use forkscanner.Models.Query.Keeps.{Keeps-execute, Keeps-select, Keeps-bind, Keeps-pure}
use forkscanner.Models.Tables.{count_if-append}
use forkscanner.Models.Chaintips
use forkscanner.Models.Chaintips.{is_active_of, insert_tip, new_tip}
use forkscanner.Models.Chaintips.Active.{OneActive, set_active_tip-OneActive}
use forkscanner.Models.Blocks
use forkscanner.Models.Blocks.{has_hash}
use forkscanner.Models.Blocks.Linked.{Linked, LinkedIn, get_or_create-Linked}
use forkscanner.Models.Blocks.Unique.{HashesUnique, get_or_create-HashesUnique, update-HashesUnique}
use forkscanner.Models.Transactions
use forkscanner.Scanner.Network.{
  Client, Network, ChainTip, Status, BlockTransaction, ScanResult, World,
}
use forkscanner.Scanner.Network.Keeps.{
  ScanKeeps, ScanKeeps-db, ScanKeeps-rpc, ScanKeeps-done, ScanKeeps-error, ScanKeeps-caught,
  ScanKeeps-or_fail, ScanKeeps-branch, ScanKeeps-then,
}
use forkscanner.Scanner.Ancestry.{create_block_and_ancestors}
use forkscanner.Scanner.Ancestry.Kept.{walk-Keeps, written-Linked}
use forkscanner.Scanner.Process.{
  create_transactions, store_transactions, fetch_unless, fetch_transactions, tolerate, record_tip,
  watch_block, process_tip, process_tips, process_client,
}
use forkscanner.Scanner.Process.Preserved.{IsPreserved, blocks-IsPreserved, chaintips-IsPreserved}

module _ {N : Type 0} (net : Network N) (first_client : Option Client) (now : ℕ) (P : Db → Type 0)
    (p : IsPreserved P) where
  create_transactions-Keeps :
      (hash : String) (idx : ℕ) (txs : List BlockTransaction)
      → ScanKeeps {N = N} P (create_transactions hash idx txs)
  unfolding create_transactions
  create_transactions-Keeps hash idx [] = ScanKeeps-done _
  create_transactions-Keeps hash idx (tx ∷ txs) =
      ScanKeeps-then _ _
        (ScanKeeps-caught _ (ScanKeeps-db _ (p.transaction_row false hash idx tx.txid tx.hex _)))
        (λ _. create_transactions-Keeps hash (suc idx) txs)

  store_transactions-Keeps :
      (hash : String) (r : ScanResult (List BlockTransaction))
      → ScanKeeps P (store_transactions net first_client now hash r)
  store_transactions-Keeps hash (ScanResult.err e) = ScanKeeps-done _
  store_transactions-Keeps hash (ScanResult.ok txs) =
      ScanKeeps-then _ _ (create_transactions-Keeps hash 0 txs) (λ _.
        ScanKeeps-then _ _ (ScanKeeps-caught _ (ScanKeeps-db _ (p.addresses _)))
          (λ _. ScanKeeps-done _))

  fetch_unless-Keeps :
      (b : Block) (r : ScanResult Bool) → ScanKeeps P (fetch_unless net first_client now b r)
  fetch_unless-Keeps b (ScanResult.err e) = ScanKeeps-done _
  fetch_unless-Keeps b (ScanResult.ok true) = ScanKeeps-done _
  fetch_unless-Keeps b (ScanResult.ok false) = ScanKeeps-then _ _ (ScanKeeps-or_fail _ _) (λ client.
      ScanKeeps-then _ _ (ScanKeeps-or_fail _ _) (λ hash.
        ScanKeeps-then _ _ (ScanKeeps-caught _ (ScanKeeps-rpc _))
          (store_transactions-Keeps b.hash)))

  fetch_transactions-Keeps : (b : Block) → ScanKeeps P (fetch_transactions net first_client now b)
  unfolding fetch_transactions Transactions.block_processed
  fetch_transactions-Keeps b =
      ScanKeeps-then _ _
        (ScanKeeps-caught _ (ScanKeeps-db _ (Keeps-bind _ _ (Keeps-select _) (λ _. Keeps-pure _))))
        (fetch_unless-Keeps b)

  walk :
      (client : Client) (headers_only : Bool) (hash : String) (node_id : ℕ)
      → ScanKeeps P (create_block_and_ancestors net client headers_only hash node_id)
  walk = walk-Keeps net P p.created p.written

  tolerate-Keeps : (r : ScanResult (Unit {0})) → ScanKeeps P (tolerate net first_client now r)
  tolerate-Keeps (ScanResult.ok x) = ScanKeeps-done _
  tolerate-Keeps (ScanResult.err e) =
      ScanKeeps-branch _ _ _ (λ _. ScanKeeps-done _) (λ _. ScanKeeps-error _)

  record_tip-Keeps :
      (client : Client) (node_id : ℕ) (t : ChainTip) (s : Status)
      → ScanKeeps P (record_tip net first_client now client node_id t s)
  unfolding record_tip
  record_tip-Keeps client node_id t Status.headers_only =
      ScanKeeps-then _ _ (ScanKeeps-caught _ (walk client true t.hash node_id))
        (λ r. ScanKeeps-then _ _ (tolerate-Keeps r) (λ _. ScanKeeps-done _))
  record_tip-Keeps client node_id t Status.valid_headers =
      ScanKeeps-then _ _ (walk client true t.hash node_id) (λ _. ScanKeeps-done _)
  record_tip-Keeps client node_id t Status.invalid =
      ScanKeeps-then _ _ (ScanKeeps-db _ (p.invalid_fork t.height t.hash node_id)) (λ _.
        ScanKeeps-then _ _ (walk client false t.hash node_id) (λ _.
          ScanKeeps-then _ _ (ScanKeeps-db _ (p.invalid_mark t.hash node_id now))
            (λ _. ScanKeeps-done _)))
  record_tip-Keeps client node_id t Status.valid_fork =
      ScanKeeps-then _ _ (ScanKeeps-db _ (p.valid_fork t.height t.hash node_id)) (λ _.
        ScanKeeps-then _ _ (walk client false t.hash node_id) (λ _.
          ScanKeeps-then _ _ (ScanKeeps-db _ (p.valid_mark t.hash node_id now))
            (λ _. ScanKeeps-done _)))
  record_tip-Keeps client node_id t Status.active =
      ScanKeeps-then _ _ (ScanKeeps-db _ (p.active_tip t.height t.hash node_id)) (λ _.
        ScanKeeps-then _ _ (walk client false t.hash node_id) (λ _.
          ScanKeeps-then _ _ (ScanKeeps-db _ (p.valid_mark t.hash node_id now))
            (λ _. ScanKeeps-done _)))

  watch_block-Keeps : (r : ScanResult Block) → ScanKeeps P (watch_block net first_client now r)
  watch_block-Keeps (ScanResult.ok b) = fetch_transactions-Keeps b
  watch_block-Keeps (ScanResult.err e) = ScanKeeps-done _

  process_tips-Keeps :
      (watch : Bool) (client : Client) (node_id : ℕ) (tips : List ChainTip)
      → ScanKeeps P (process_tips net first_client now watch client node_id tips)
  unfolding process_tips process_tip Blocks.get
  process_tips-Keeps watch client node_id [] = ScanKeeps-done _
  process_tips-Keeps watch client node_id (t ∷ tips) =
      ScanKeeps-then _ _
        (ScanKeeps-then _ _ (record_tip-Keeps client node_id t t.status) (λ changed.
          ScanKeeps-then _ _
            (ScanKeeps-branch watch _ _
              (λ _.
                ScanKeeps-then _ _ (ScanKeeps-caught _ (ScanKeeps-db _ (Keeps-select _)))
                  watch_block-Keeps)
              (λ _. ScanKeeps-done _))
            (λ _. ScanKeeps-done changed)))
        (λ changed.
          ScanKeeps-then _ _ (process_tips-Keeps watch client node_id tips)
            (λ others. ScanKeeps-done _))

  process_client-Keeps :
      (watch : Bool) (client : Client) (node_id : ℕ)
      → ScanKeeps P (process_client net first_client now watch client node_id)
  unfolding process_client
  process_client-Keeps watch client node_id =
      ScanKeeps-then _ _ (ScanKeeps-rpc _) (process_tips-Keeps watch client node_id)

-- A row that is not active.
insert_tip-OneActive :
    (node_id : ℕ) (status hash : String) (height : ℕ) (d : Db)
    → (status == "active") ≡ false
    → OneActive d
    → OneActive (insert_tip node_id status hash height d).1
unfolding insert_tip
insert_tip-OneActive node_id status hash height d inactive h n = ground (
  arith,
  count_if-append (is_active_of n) d.chaintips
      (new_tip d.next_chaintip node_id status hash height ∷ []),
  h n,
)

OneActive-IsPreserved : IsPreserved OneActive
unfolding Chaintips.set_invalid_fork Chaintips.set_valid_fork
OneActive-IsPreserved =
    chaintips-IsPreserved (λ ts. (n : ℕ) → count_if (is_active_of n) ts ≤ 1)
      (λ height hash node_id. record { at = set_active_tip-OneActive height hash node_id })
      (λ height hash node_id.
        Keeps-execute _ (λ d h. insert_tip-OneActive node_id "invalid" hash height d refl h))
      (λ height hash node_id.
        Keeps-execute _ (λ d h. insert_tip-OneActive node_id "valid-fork" hash height d refl h))

HashesUnique-IsPreserved : IsPreserved HashesUnique
HashesUnique-IsPreserved =
    blocks-IsPreserved (λ bs. (h : String) → count_if (has_hash h) bs ≤ 1)
      (λ headers_only node_id bh. record {
        at = get_or_create-HashesUnique headers_only node_id bh;
      })
      (λ b _. update-HashesUnique b)

Linked-IsPreserved : IsPreserved Linked
Linked-IsPreserved =
    blocks-IsPreserved (λ bs. LinkedIn bs bs)
      (λ headers_only node_id bh. record { at = get_or_create-Linked headers_only node_id bh })
      written-Linked

-- The tables are consistent: at most one active row for every node, at most one block for every
-- hash, and a block marked as connected only if its parent is there.
pub record IsConsistent (d : Db) : Type 0 where
  pub one_active : OneActive d
  pub unique : HashesUnique d
  pub linked : Linked d

-- Whatever a node answers, and whichever statements the database fails: `process_client` leaves
-- consistent tables consistent, also where it returns an error halfway.
pub process_client-IsConsistent :
    {N : Type 0} (net : Network N) (first_client : Option Client) (now : ℕ)
    (enable_address_watcher : Bool) (client : Client) (node_id : ℕ) (w : World N)
    → IsConsistent w.conn.db
    → IsConsistent
        (process_client net first_client now enable_address_watcher client node_id w).1.conn.db
process_client-IsConsistent net first_client now watch client node_id w h = record {
  one_active =
      (process_client-Keeps net first_client now _ OneActive-IsPreserved watch client node_id).at w
        h.one_active;
  unique =
      (process_client-Keeps net first_client now _ HashesUnique-IsPreserved watch client node_id).at
        w h.unique;
  linked =
      (process_client-Keeps net first_client now _ Linked-IsPreserved watch client node_id).at w
        h.linked;
}
