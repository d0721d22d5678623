-- ===== src/Models/Lags.antt =====
-- `Lags` of src/models.rs.
use forkscanner.Prelude.{
  ℕ, ◌&&◌, none, List, [], ◌∷◌, ◌++◌, length, ◌==◌, if◌then◌else◌, exists, number_comparable,
}
use forkscanner.Models.Rows.{DbError, ok, err, Lags}
use forkscanner.Models.Query.{Query, Statement, execute, select}
use forkscanner.Models.Chaintips.{node_exists}

unfoldable pub purge_lags : Statement ℕ
purge_lags d = (ok (length d.lags), record d { lags = [] })

unfoldable pub purge : Query ℕ
unfolding purge_lags
purge = execute purge_lags

-- The two times are those of the two calls of `Utc::now`; both are in the primary key.
unfoldable pub insert_lag : ℕ → ℕ → ℕ → Statement ℕ
insert_lag id created_at updated_at d =
    let lag : Lags = record {
      node_id = id;
      created_at = created_at;
      deleted_at = none;
      updated_at = updated_at;
    } in
    if exists
      (λ (l : Lags). l.node_id == id && (l.created_at == created_at && l.updated_at == updated_at))
      d.lags
    then (err DbError.unique_violation, d)
    else if node_exists d id
    then (ok 1, record d { lags = d.lags ++ lag ∷ [] })
    else (err DbError.foreign_key_violation, d)

unfoldable pub insert : ℕ → ℕ → ℕ → Query ℕ
unfolding insert_lag
insert id created_at updated_at = execute (insert_lag id created_at updated_at)

unfoldable pub list : Query (List Lags)
list = select (λ d. ok d.lags)
