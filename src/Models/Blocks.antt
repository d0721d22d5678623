-- ===== src/Models/Blocks.antt =====
-- `Block` of src/models.rs: the tables `blocks`, `valid_blocks` and `invalid_blocks`.
pub mod Reads
pub mod Linked
pub mod Unique
pub mod Exact
pub mod Descendants
pub mod Parents
use forkscanner.Prelude.{
  ℕ, zero, suc, ◌+◌, String, Bool, true, false, not, ◌&&◌, Option, none, some, List, [], ◌∷◌, ◌++◌,
  ltb, leb, max, ◌==◌, if◌then◌else◌, keep_if, find, exists, update_if, count_if, is_some_eq,
  is_none, number_comparable, text_comparable,
}
use forkscanner.Prelude.Int.{ℤ}
use forkscanner.Models.Rows.{
  DbError, QueryResult, ok, err, Block, InvalidBlock, ValidBlock, Transaction,
}
use forkscanner.Models.Query.{
  Db, Query, Statement, execute, select, first_row, ◌>>=◌, ◌>>◌, pure, fail, try_query, transaction,
  set_column,
}
use forkscanner.Models.Chaintips.{node_exists}

-- The fields of `GetBlockHeaderResult` that the program reads; `chainwork` is its hexadecimal text.
pub record Header : Type 0 where
  pub hash : String
  pub height : ℕ
  pub previous_block_hash : Option String
  pub chainwork : String

abbrev pub has_hash : String → Block → Bool
has_hash h b = b.hash == h

abbrev pub is_child_of : String → Block → Bool
is_child_of h b = is_some_eq b.parent_hash h

abbrev pub block_at : Db → String → Option Block
block_at d h = find (has_hash h) d.blocks

unfoldable pub get : String → Query Block
get block_hash = select (λ d. first_row (block_at d block_hash))

abbrev pub parent_row : Option String → Db → QueryResult Block
parent_row none d = err DbError.not_found
parent_row (some h) d = first_row (block_at d h)

-- A block without a parent hash is answered with `NotFound`, and no statement is sent.
unfoldable pub parent : Block → Query Block
unfolding get
parent b = elim b.parent_hash [ none ↦ fail DbError.not_found | some h ↦ get h ]

unfoldable pub count_at_height : ℕ → Query ℕ
count_at_height block_height =
    select (λ d. ok (count_if (λ (b : Block). b.height == block_height) d.blocks))

unfoldable pub get_at_height : ℕ → Query (List Block)
get_at_height block_height =
    select (λ d. ok (keep_if (λ (b : Block). b.height == block_height) d.blocks))

unfoldable pub get_with_fee_no_diffs : ℕ → Query (List Block)
get_with_fee_no_diffs min_height = select (λ d. ok (
    keep_if
      (λ b.
        ltb min_height b.height && (is_none b.template_txs_fee_diff && not (is_none b.total_fee)))
      d.blocks))

unfoldable pub num_transactions : Block → Query ℕ
num_transactions b =
    select (λ d. ok (count_if (λ (t : Transaction). t.block_id == b.hash) d.transactions))

unfoldable pub children : String → Query (List Block)
children block_hash = select (λ d. ok (keep_if (is_child_of block_hash) d.blocks))

-- `max(height)`: NULL on the empty table
abbrev pub max_of : List Block → Option ℕ
max_of [] = none
max_of (b ∷ bs) = elim (max_of bs) [ none ↦ some b.height | some h ↦ some (max b.height h) ]

unfoldable pub max_height : Query (Option ℕ)
max_height = select (λ d. ok (max_of d.blocks))

-- ORDER BY height ASC
unfoldable pub insert_by_height : Block → List Block → List Block
insert_by_height b [] = b ∷ []
insert_by_height b (x ∷ xs) =
    if leb b.height x.height then b ∷ x ∷ xs else x ∷ insert_by_height b xs

unfoldable pub order_by_height : List Block → List Block
unfolding insert_by_height
order_by_height [] = []
order_by_height (b ∷ bs) = insert_by_height b (order_by_height bs)

-- The depth limit of the source may lie below zero: `height > tip - depth` is `tip < height + depth`.
unfoldable pub headers_only : ℕ → ℕ → Query (List Block)
unfolding order_by_height
headers_only tip_height depth = select (λ d.
    ok (
      order_by_height
        (keep_if (λ b. b.headers_only && ltb tip_height (b.height + depth)) d.blocks)))

-- `WITH RECURSIVE`: the rows of one level are joined to their children until a level is empty.
unfoldable pub children_of : List Block → List Block → List Block
children_of all [] = []
children_of all (r ∷ rs) = keep_if (is_child_of r.hash) all ++ children_of all rs

unfoldable pub levels : ℕ → List Block → List Block → List Block
unfolding children_of
levels zero all rs = []
levels (suc fuel) all rs = rs ++ levels fuel all (children_of all rs)

-- Enough levels where a child is higher than its parent: see `levels_enough`.
abbrev pub level_fuel : List Block → ℕ
level_fuel all = elim (max_of all) [ none ↦ 0 | some h ↦ suc h ]

unfoldable pub rec_query : String → List Block → List Block
unfolding levels
rec_query h all = levels (level_fuel all) all (keep_if (has_hash h) all)

abbrev pub within_limit : ℕ → Option ℕ → Block → Bool
within_limit height none b = true
within_limit height (some limit) b = leb b.height (height + limit)

unfoldable pub descendants : Block → Option ℕ → Query (List Block)
unfolding rec_query order_by_height
descendants b limit =
    select (λ d.
      ok (order_by_height (keep_if (within_limit b.height limit) (rec_query b.hash d.blocks))))

-- `diesel::update(blocks.filter(hash.eq(&self.hash))).set(self)`
abbrev pub update_row : Bool → Block → Block → Block
update_row null self b = record self {
  parent_hash = set_column null b.parent_hash self.parent_hash;
  txids = set_column null b.txids self.txids;
  txids_added = set_column null b.txids_added self.txids_added;
  txids_omitted = set_column null b.txids_omitted self.txids_omitted;
  pool_name = set_column null b.pool_name self.pool_name;
  template_txs_fee_diff = set_column null b.template_txs_fee_diff self.template_txs_fee_diff;
  tx_omitted_fee_rates = set_column null b.tx_omitted_fee_rates self.tx_omitted_fee_rates;
  lowest_template_fee_rate =
      set_column null b.lowest_template_fee_rate self.lowest_template_fee_rate;
  total_fee = set_column null b.total_fee self.total_fee;
  coinbase_message = set_column null b.coinbase_message self.coinbase_message;
}

unfoldable pub update_block : Block → Statement ℕ
update_block self d = (
  ok (count_if (has_hash self.hash) d.blocks),
  record d { blocks = update_if (has_hash self.hash) (update_row d.none_as_null self) d.blocks },
)

unfoldable pub update : Block → Query ℕ
unfolding update_block
update self = execute (update_block self)

-- The primary key is the hash.
unfoldable pub insert_block : Block → Statement ℕ
insert_block self d =
    if exists (has_hash self.hash) d.blocks
    then (err DbError.unique_violation, d)
    else (ok 1, record d { blocks = d.blocks ++ self ∷ [] })

unfoldable pub insert : Block → Query ℕ
unfolding insert_block
insert self = execute (insert_block self)

unfoldable pub set_connected : String → Statement ℕ
set_connected h d = (
  ok (count_if (is_child_of h) d.blocks),
  record d { blocks = update_if (is_child_of h) (λ b. record b { connected = true }) d.blocks },
)

abbrev pub new_block : Bool → ℕ → Header → Block
new_block headers_only first_seen_by header = record {
  hash = header.hash;
  height = header.height;
  parent_hash = header.previous_block_hash;
  connected = false;
  first_seen_by = first_seen_by;
  headers_only = headers_only;
  work = header.chainwork;
  txids = none;
  txids_added = none;
  txids_omitted = none;
  pool_name = none;
  template_txs_fee_diff = none;
  tx_omitted_fee_rates = none;
  lowest_template_fee_rate = none;
  total_fee = none;
  coinbase_message = none;
}

-- The transaction of `get_or_create`.
unfoldable pub insert_and_connect : Block → Query ℕ
unfolding insert set_connected
insert_and_connect b = do insert b; execute (set_connected b.hash)

-- The `match block` of `get_or_create`.
unfoldable pub create_or_touch : Bool → ℕ → Header → QueryResult Block → Query Block
unfolding insert_and_connect update
create_or_touch headers_only first_seen_by header (err DbError.not_found) = do
  let b = new_block headers_only first_seen_by header
  transaction (insert_and_connect b)
  pure b
create_or_touch headers_only first_seen_by header (ok found) = do
  let b = record found { headers_only = found.headers_only && headers_only }
  update b
  pure b
create_or_touch headers_only first_seen_by header (err e) = fail e

unfoldable pub get_or_create : Bool → ℕ → Header → Query Block
unfolding create_or_touch get
get_or_create headers_only first_seen_by header = do
  found ← try_query (get header.hash)
  create_or_touch headers_only first_seen_by header found

-- `ON CONFLICT (hash, node) DO NOTHING`
unfoldable pub insert_valid : String → ℕ → ℕ → Statement ℕ
insert_valid block_hash node_id now d =
    if exists (λ (v : ValidBlock). v.hash == block_hash && v.node == node_id) d.valid_blocks
    then (ok 0, d)
    else if exists (has_hash block_hash) d.blocks && node_exists d node_id
    then (
      ok 1,
      record d {
        valid_blocks =
            d.valid_blocks
            ++ record { hash = block_hash; node = node_id; created_at = some now } ∷ [];
      },
    )
    else (err DbError.foreign_key_violation, d)

unfoldable pub set_valid : String → ℕ → ℕ → Query ℕ
unfolding insert_valid
set_valid block_hash node_id now = execute (insert_valid block_hash node_id now)

abbrev pub is_mark : String → ℕ → InvalidBlock → Bool
is_mark block_hash node_id v = v.hash == block_hash && v.node == node_id

-- No conflict clause: a second mark of a node on a block violates the primary key.
unfoldable pub insert_invalid : String → ℕ → ℕ → Statement ℕ
insert_invalid block_hash node_id now d =
    if exists (is_mark block_hash node_id) d.invalid_blocks
    then (err DbError.unique_violation, d)
    else if exists (has_hash block_hash) d.blocks && node_exists d node_id
    then (
      ok 1,
      record d {
        invalid_blocks =
            d.invalid_blocks
            ++ record { hash = block_hash; node = node_id; created_at = some now } ∷ [];
      },
    )
    else (err DbError.foreign_key_violation, d)

unfoldable pub set_invalid : String → ℕ → ℕ → Query ℕ
unfolding insert_invalid
set_invalid block_hash node_id now = execute (insert_invalid block_hash node_id now)

unfoldable pub marked_invalid_by : String → ℕ → Query Bool
marked_invalid_by block_hash node_id = do
  rows ← select (λ d. ok (count_if (is_mark block_hash node_id) d.invalid_blocks))
  pure (ltb 0 rows)

unfoldable pub marked_valid_by : String → ℕ → Query Bool
marked_valid_by block_hash node_id = do
  rows ← select (λ d.
      ok (count_if (λ (v : ValidBlock). v.hash == block_hash && v.node == node_id) d.valid_blocks))
  pure (ltb 0 rows)

unfoldable pub marked_invalid : String → Query ℕ
marked_invalid block_hash =
    select (λ d. ok (count_if (λ (v : InvalidBlock). v.hash == block_hash) d.invalid_blocks))
