-- ===== src/Models/Transactions.antt =====
-- `Transaction` and `TransactionAddress` of src/models.rs.
use forkscanner.Prelude.{
  ℕ, ◌+◌, ◌-◌, max, String, Bool, ◌&&◌, List, [], ◌∷◌, ◌++◌, length, none, some, ltb, ◌==◌,
  if◌then◌else◌, keep_if, exists, number_comparable, text_comparable,
}
use forkscanner.Models.Rows.{DbError, QueryResult, ok, err, Block, Transaction, TransactionAddress}
use forkscanner.Models.Query.{Query, Statement, execute, select, pure, try_query, ◌>>=◌}
use forkscanner.Models.Blocks.{has_hash, descendants}

abbrev is_transaction : String → String → Transaction → Bool
is_transaction block tx_id t = t.block_id == block && t.txid == tx_id

-- `ON CONFLICT (block_id, txid) DO NOTHING`
unfoldable pub insert_transaction : Transaction → Statement ℕ
insert_transaction t d =
    if exists (is_transaction t.block_id t.txid) d.transactions
    then (ok 0, d)
    else if exists (has_hash t.block_id) d.blocks
    then (ok 1, record d { transactions = d.transactions ++ t ∷ [] })
    else (err DbError.foreign_key_violation, d)

unfoldable pub create : Bool → String → ℕ → String → String → ℕ → Query ℕ
unfolding insert_transaction
create sweep block idx tx_id tx_hex tx_amount = execute (
    insert_transaction (record {
      block_id = block;
      txid = tx_id;
      is_coinbase = idx == 0;
      hex = tx_hex;
      amount = tx_amount;
      swept = some sweep;
    }))

-- GROUP BY txid, with the greatest amount of each group; the sum of the groups.
abbrev max_amount : String → List Transaction → ℕ
max_amount id [] = 0
max_amount id (t ∷ ts) =
    let rest = max_amount id ts in if t.txid == id then max t.amount rest else rest

abbrev sum_groups : List Transaction → List Transaction → ℕ
sum_groups all [] = 0
sum_groups all (t ∷ ts) =
    let rest = sum_groups all ts in
    if exists (λ (u : Transaction). u.txid == t.txid) ts then rest else max_amount t.txid all + rest

abbrev is_one_of : List String → String → Bool
is_one_of ids id = exists (λ x. x == id) ids

unfoldable pub amount_for_txs : List String → Query ℕ
amount_for_txs txids = select (λ d.
    let rows = keep_if (λ (t : Transaction). is_one_of txids t.txid) d.transactions in
    ok (sum_groups rows rows))

-- The inner join: the blocks of the transactions with the id.
abbrev pub blocks_of : String → List Block → List Transaction → List Block
blocks_of id bs [] = []
blocks_of id bs (t ∷ ts) =
    let rest = blocks_of id bs ts in
    if t.txid == id then keep_if (has_hash t.block_id) bs ++ rest else rest

abbrev pub answered_rows : QueryResult (List Block) → List Block
answered_rows (ok bs) = bs
answered_rows (err e) = []

-- A block whose descendants cannot be read is left out.
unfoldable pub all_descendants : List Block → Query (List Block)
unfolding descendants
all_descendants [] = pure []
all_descendants (b ∷ bs) =
    let rest = all_descendants bs in
    (do desc ← try_query (descendants b none); others ← rest; pure (answered_rows desc ++ others))

unfoldable pub tx_block_and_descendants : String → Query (List Block)
unfolding all_descendants
tx_block_and_descendants id = do
  blocks ← select (λ d. ok (blocks_of id d.blocks d.transactions))
  all_descendants blocks

unfoldable pub block_processed : String → Query Bool
block_processed hash = do
  result ← select (λ d. ok (keep_if (λ (t : Transaction). t.block_id == hash) d.transactions))
  pure (ltb 0 (length result))

abbrev same_address : TransactionAddress → TransactionAddress → Bool
same_address a b = a.hash == b.hash && (a.txid == b.txid && a.address == b.address)

-- The rows that are not there yet, each once.
abbrev add_addresses : List TransactionAddress → List TransactionAddress → List TransactionAddress
add_addresses there [] = there
add_addresses there (a ∷ new) =
    if exists (same_address a) there
    then add_addresses there new
    else add_addresses (there ++ a ∷ []) new

unfoldable pub insert_addresses : List TransactionAddress → Query ℕ
insert_addresses tx_addrs = execute (λ d.
    let rows = add_addresses d.transaction_addresses tx_addrs in
    (ok (length rows - length d.transaction_addresses), record d { transaction_addresses = rows }))
