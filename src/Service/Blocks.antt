-- ===== src/Service/Blocks.antt =====
-- `BlockResult` of src/service.rs: a block as clients see it.
pub mod Ids
use forkscanner.Prelude.{ℕ, zero, suc, String, Option, none, some, List, [], ◌∷◌, ◌++◌, map}
use forkscanner.Models.Rows.{Block}
use forkscanner.Service.Requests.{BlockResult}

abbrev last_chunk : List ℕ → List (List ℕ)
last_chunk [] = []
last_chunk (b ∷ bs) = (b ∷ bs) ∷ []

-- `chunks(32)`, where the chunk at hand has room for more bytes.
unfoldable pub chunks_from : ℕ → List ℕ → List ℕ → List (List ℕ)
chunks_from room chunk [] = last_chunk chunk
chunks_from zero chunk (b ∷ bs) = chunk ∷ chunks_from 31 (b ∷ []) bs
chunks_from (suc room) chunk (b ∷ bs) = chunks_from room (chunk ++ b ∷ []) bs

unfoldable pub chunks : List ℕ → List (List ℕ)
unfolding chunks_from
chunks bs = chunks_from 32 [] bs

module _ (encode_hex : List ℕ → String) where
  unfoldable pub txid_bytes_to_hex : Option (List ℕ) → Option (List String)
  unfolding chunks
  txid_bytes_to_hex none = none
  txid_bytes_to_hex (some txs) = some (map encode_hex (chunks txs))

  unfoldable pub from_block : Block → BlockResult
  unfolding txid_bytes_to_hex
  from_block block = record {
    hash = block.hash;
    height = block.height;
    parent_hash = block.parent_hash;
    connected = block.connected;
    first_seen_by = block.first_seen_by;
    headers_only = block.headers_only;
    work = block.work;
    txids = txid_bytes_to_hex block.txids;
    txids_added = txid_bytes_to_hex block.txids_added;
    txids_omitted = txid_bytes_to_hex block.txids_omitted;
    pool_name = block.pool_name;
    template_txs_fee_diff = block.template_txs_fee_diff;
    tx_omitted_fee_rates = block.tx_omitted_fee_rates;
    lowest_template_fee_rate = block.lowest_template_fee_rate;
    total_fee = block.total_fee;
    coinbase_message = block.coinbase_message;
  }
