-- ===== src/Models/Watches.antt =====
-- `Watched` of src/models.rs.
use forkscanner.Prelude.{
  ℕ, ◌-◌, String, Bool, ◌&&◌, List, [], ◌∷◌, ◌++◌, length, ltb, not, ◌==◌, if◌then◌else◌, keep_if,
  exists, count_if, text_comparable,
}
use forkscanner.Models.Rows.{ok, Watched, Transaction, TransactionAddress}
use forkscanner.Models.Query.{Query, Statement, execute, select, ◌>>=◌}

abbrev pub add_watches : ℕ → List Watched → List (String × ℕ) → List Watched
add_watches now there [] = there
add_watches now there ((addr, exp) ∷ watches) =
    if exists (λ (w : Watched). w.address == addr) there
    then add_watches now there watches
    else add_watches now
        (there ++ record { address = addr; created_at = now; watch_until = exp } ∷ []) watches

-- An address that is watched keeps its row.
unfoldable pub insert : ℕ → List (String × ℕ) → Query ℕ
insert now watches = execute (λ d.
    let rows = add_watches now d.watched watches in
    (ok (length rows - length d.watched), record d { watched = rows }))

abbrev pub delete_watched : (Watched → Bool) → Statement ℕ
delete_watched p d =
    (ok (count_if p d.watched), record d { watched = keep_if (λ w. not (p w)) d.watched })

unfoldable pub remove : List String → Query ℕ
remove addresses = execute (delete_watched (λ w. exists (λ a. a == w.address) addresses))

unfoldable pub clear : ℕ → Query ℕ
clear now = execute (delete_watched (λ w. ltb w.watch_until now))

-- The block ids and the transaction ids are matched separately.
unfoldable pub fetch : Query (List Transaction)
fetch = do
  watched ← select (λ d. ok d.watched)
  transactions ← select (λ d. ok (
      keep_if (λ (a : TransactionAddress). exists (λ (w : Watched). w.address == a.address) watched)
        d.transaction_addresses))
  select (λ d. ok (
      keep_if
        (λ (t : Transaction).
          exists (λ (a : TransactionAddress). a.hash == t.block_id) transactions
          && exists (λ (a : TransactionAddress). a.txid == t.txid) transactions)
        d.transactions))
