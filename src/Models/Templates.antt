-- ===== src/Models/Templates.antt =====
-- `BlockTemplate` and `FeeRate` of src/models.rs.
use forkscanner.Prelude.{
  ℕ, String, Bool, false, not, ◌&&◌, Option, none, some, List, [], ◌∷◌, ◌++◌, ◌==◌, leb,
  if◌then◌else◌, keep_if, exists, find, length, count_if, update_if, number_comparable,
  text_comparable, ◌-◌,
}
use forkscanner.Prelude.Int.{ℤ, ltb_ℤ, int_comparable}
use forkscanner.Models.Rows.{DbError, ok, err, FeeRate, BlockTemplate}
use forkscanner.Models.Query.{Query, Statement, execute, select, first_row, pure, ◌>>=◌, ◌>>◌}

abbrev is_rate_of : String → ℕ → FeeRate → Bool
is_rate_of parent node_id r = r.parent_block_hash == parent && r.node_id == node_id

unfoldable pub list_by : String → ℕ → Query (List FeeRate)
list_by parent node_id = select (λ d. ok (keep_if (is_rate_of parent node_id) d.fee_rates))

abbrev same_rate : FeeRate → FeeRate → Bool
same_rate a b = is_rate_of a.parent_block_hash a.node_id b && b.fee_rate == a.fee_rate

unfoldable pub update_rate : FeeRate → Query ℕ
update_rate self = execute (λ d. (
  ok (count_if (same_rate self) d.fee_rates),
  record d {
    fee_rates = update_if (same_rate self) (λ r. record r { omitted = self.omitted }) d.fee_rates;
  },
))

-- `rates.iter().min()`
abbrev pub lowest_of : List ℤ → Option ℤ
lowest_of [] = none
lowest_of (r ∷ rs) = elim (lowest_of rs) [
  | none ↦ some r
  | some l ↦ some (if ltb_ℤ l r then l else r)
]

abbrev is_template_of : String → ℕ → BlockTemplate → Bool
is_template_of parent node_id t = t.parent_block_hash == parent && t.node_id == node_id

-- ON CONFLICT DO NOTHING
unfoldable pub insert_template : BlockTemplate → Statement ℕ
insert_template t d =
    if exists (is_template_of t.parent_block_hash t.node_id) d.block_templates
    then (ok 0, d)
    else (ok 1, record d { block_templates = d.block_templates ++ t ∷ [] })

-- The rates that are not there yet, each once.
abbrev add_rates : String → ℕ → List FeeRate → List ℤ → List FeeRate
add_rates parent node_id there [] = there
add_rates parent node_id there (rate ∷ rates) =
    let r : FeeRate = record {
      parent_block_hash = parent;
      node_id = node_id;
      fee_rate = rate;
      omitted = false;
    } in
    add_rates parent node_id (if exists (same_rate r) there then there else there ++ r ∷ []) rates

unfoldable pub insert_rates : String → ℕ → List ℤ → Statement ℕ
insert_rates parent node_id rates d =
    if exists (is_template_of parent node_id) d.block_templates
    then (
      ok (length (add_rates parent node_id d.fee_rates rates) - length d.fee_rates),
      record d { fee_rates = add_rates parent node_id d.fee_rates rates },
    )
    else (err DbError.foreign_key_violation, d)

abbrev create_with : ℕ → String → ℕ → ℤ → ℕ → ℕ → List ℕ → List ℤ → Option ℤ → Query (Option ℕ)
create_with now parent node_id total block_height n_txs txids rates none = pure none
create_with now parent node_id total block_height n_txs txids rates (some lowest) = do
  execute (
      insert_template (record {
        parent_block_hash = parent;
        node_id = node_id;
        fee_total = total;
        ts = now;
        height = block_height;
        created_at = now;
        updated_at = now;
        n_transactions = n_txs;
        tx_ids = txids;
        lowest_fee_rate = lowest;
      }))
  rows ← execute (insert_rates parent node_id rates)
  pure (some rows)

-- `none` is the `expect` of a lowest rate, where the template has no transaction.
unfoldable pub create : ℕ → String → ℕ → ℤ → ℕ → ℕ → List ℕ → List ℤ → Query (Option ℕ)
unfolding insert_template insert_rates
create now parent node_id total block_height n_txs txids rates =
    create_with now parent node_id total block_height n_txs txids rates (lowest_of rates)

-- The rates of a template are deleted with it.
unfoldable pub purge : Query ℕ
purge = execute (λ d. (
  ok (length d.block_templates),
  record d {
    block_templates = [];
    fee_rates =
        keep_if
          (λ (r : FeeRate).
            not (exists (is_template_of r.parent_block_hash r.node_id) d.block_templates))
          d.fee_rates;
  },
))

abbrev min_height_of : List BlockTemplate → Option ℕ
min_height_of [] = none
min_height_of (t ∷ ts) = elim (min_height_of ts) [
  | none ↦ some t.height
  | some h ↦ some (if leb h t.height then h else t.height)
]

unfoldable pub get_min : Query (Option ℕ)
get_min = select (λ d. ok (min_height_of d.block_templates))

unfoldable pub get_with_txs : ℕ → Query BlockTemplate
get_with_txs block_height =
    select
      (λ d. first_row (find (λ (t : BlockTemplate). t.height == block_height) d.block_templates))
