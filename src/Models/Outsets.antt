-- ===== src/Models/Outsets.antt =====
-- `TxOutset` and `InflatedBlock` of src/models.rs.
use forkscanner.Prelude.{
  ℕ, String, Bool, false, ◌&&◌, Option, none, some, [], ◌∷◌, ◌++◌, ◌==◌, if◌then◌else◌, exists,
  find, count_if, update_if, number_comparable, text_comparable,
}
use forkscanner.Prelude.Int.{ℤ}
use forkscanner.Models.Rows.{DbError, QueryResult, ok, err, Block, TxOutset, InflatedBlock}
use forkscanner.Models.Query.{
  Query, Statement, execute, select, first_row, pure, fail, try_query, ◌>>=◌,
}
use forkscanner.Models.Blocks.{has_hash}

abbrev pub is_outset_of : String → ℕ → TxOutset → Bool
is_outset_of block node_id o = o.block_hash == block && o.node_id == node_id

abbrev pub none_if_missing : QueryResult TxOutset → Query (Option TxOutset)
none_if_missing (err DbError.not_found) = pure none
none_if_missing (ok ans) = pure (some ans)
none_if_missing (err e) = fail e

unfoldable pub get : String → ℕ → Query (Option TxOutset)
get block node_id = do
  result ← try_query (select (λ d. first_row (find (is_outset_of block node_id) d.tx_outsets)))
  none_if_missing result

unfoldable pub insert_outset : TxOutset → Statement TxOutset
insert_outset o d =
    if exists (is_outset_of o.block_hash o.node_id) d.tx_outsets
    then (err DbError.unique_violation, d)
    else if exists (has_hash o.block_hash) d.blocks
    then (ok o, record d { tx_outsets = d.tx_outsets ++ o ∷ [] })
    else (err DbError.foreign_key_violation, d)

unfoldable pub create : ℕ → ℕ → ℤ → String → ℕ → Query TxOutset
unfolding insert_outset
create now tx_outs amount block node_id = execute (
    insert_outset (record {
      block_hash = block;
      node_id = node_id;
      txouts = tx_outs;
      total_amount = amount;
      created_at = now;
      updated_at = now;
      inflated = false;
    }))

unfoldable pub update : TxOutset → Query ℕ
update self = execute (λ d. (
  ok (count_if (is_outset_of self.block_hash self.node_id) d.tx_outsets),
  record d {
    tx_outsets = update_if (is_outset_of self.block_hash self.node_id) (λ o. self) d.tx_outsets;
  },
))

unfoldable pub insert_inflated : InflatedBlock → Statement ℕ
insert_inflated b d =
    if exists (λ (x : InflatedBlock). x.block_hash == b.block_hash) d.inflated_blocks
    then (err DbError.unique_violation, d)
    else if exists (has_hash b.block_hash) d.blocks
    then (ok 1, record d { inflated_blocks = d.inflated_blocks ++ b ∷ [] })
    else (err DbError.foreign_key_violation, d)

unfoldable pub create_inflated : ℕ → ℕ → Block → ℤ → ℤ → Query ℕ
unfolding insert_inflated
create_inflated now id b maximum actual = execute (
    insert_inflated (record {
      block_hash = b.hash;
      max_inflation = maximum;
      actual_inflation = actual;
      notified_at = now;
      created_at = now;
      updated_at = now;
      node_id = id;
      dismissed_at = none;
    }))
