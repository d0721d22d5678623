-- ===== src/Models/Chaintips.antt =====
-- `Chaintip` of src/models.rs: the table `chaintips`.
pub mod Active
pub mod Purge
use forkscanner.Prelude.{
  ℕ, suc, String, Bool, true, false, not, ◌&&◌, ◌||◌, Option, none, some, List, [], ◌∷◌, ◌++◌, ltb,
  ◌==◌, if◌then◌else◌, keep_if, find, exists, update_if, count_if, is_some_eq, number_comparable,
  text_comparable, map,
}
use forkscanner.Models.Rows.{DbError, QueryResult, ok, err, Chaintip, Node, Lags}
use forkscanner.Models.Query.{
  Db, Query, Statement, execute, select, first_row, ◌>>=◌, ◌>>◌, pure, fail, try_query, set_column,
}

abbrev pub is_id : ℕ → Chaintip → Bool
is_id k t = t.id == k

abbrev pub is_status : String → Chaintip → Bool
is_status s t = t.status == s

abbrev pub is_active_of : ℕ → Chaintip → Bool
is_active_of node_id t = t.status == "active" && t.node == node_id

abbrev pub has_parent : ℕ → Chaintip → Bool
has_parent k t = is_some_eq t.parent_chaintip k

-- The foreign keys of the table: a tip's node, and its parent.
abbrev pub node_exists : Db → ℕ → Bool
node_exists d n = exists (λ (r : Node). r.id == n) d.nodes

abbrev pub tip_exists : List Chaintip → Option ℕ → Bool
tip_exists ts none = true
tip_exists ts (some k) = exists (is_id k) ts

-- `diesel::update(chaintips.filter(id.eq(self.id))).set(self)`
abbrev pub update_row : Bool → Chaintip → Chaintip → Chaintip
update_row null self t = record self {
  id = t.id;
  parent_chaintip = set_column null t.parent_chaintip self.parent_chaintip;
}

abbrev pub parent_stored : List Chaintip → Option ℕ → Option ℕ → Bool
parent_stored ts old none = true
parent_stored ts old (some k) = is_some_eq old k || tip_exists ts (some k)

-- A foreign key is checked where the update changes it.
abbrev pub breaks_key : Db → Chaintip → Chaintip → Bool
breaks_key d old new = not (
    parent_stored d.chaintips old.parent_chaintip new.parent_chaintip
    && (old.node == new.node || node_exists d new.node))

unfoldable pub update_tip : Chaintip → Statement ℕ
update_tip self d =
    if exists (λ t. is_id self.id t && breaks_key d t (update_row d.none_as_null self t))
      d.chaintips
    then (err DbError.foreign_key_violation, d)
    else (
      ok (count_if (is_id self.id) d.chaintips),
      record d {
        chaintips = update_if (is_id self.id) (update_row d.none_as_null self) d.chaintips;
      },
    )

unfoldable pub update : Chaintip → Query ℕ
update self = execute (update_tip self)

unfoldable pub get_active : ℕ → Query Chaintip
get_active node_id = select (λ d. first_row (find (is_active_of node_id) d.chaintips))

unfoldable pub get_invalid : String → Query Chaintip
get_invalid hash =
    select (λ d. first_row (find (λ t. t.block == hash && is_status "invalid" t) d.chaintips))

unfoldable pub list_invalid_gt : ℕ → Query (List Chaintip)
list_invalid_gt tip_height =
    select (λ d. ok (keep_if (λ t. ltb tip_height t.height && is_status "invalid" t) d.chaintips))

unfoldable pub list_non_lagging : Query (List Chaintip)
list_non_lagging = do
  laggers ← select (λ d. ok d.lags)
  select (λ d.
      ok (keep_if (λ t. not (exists (λ (l : Lags). l.node_id == t.node) laggers)) d.chaintips))

unfoldable pub list_active : Query (List Chaintip)
list_active = select (λ d. ok (keep_if (is_status "active") d.chaintips))

unfoldable pub list : Query (List Chaintip)
list = select (λ d. ok d.chaintips)

unfoldable pub list_active_gt : ℕ → Query (List Chaintip)
list_active_gt tip_height =
    select (λ d. ok (keep_if (λ t. ltb tip_height t.height && is_status "active" t) d.chaintips))

unfoldable pub list_active_lt : ℕ → Query (List Chaintip)
list_active_lt tip_height =
    select (λ d. ok (keep_if (λ t. ltb t.height tip_height && is_status "active" t) d.chaintips))

-- A deleted row leaves NULL in the `parent_chaintip` of its children (ON DELETE SET NULL).
abbrev pub drop_parent : List Chaintip → Chaintip → Chaintip
drop_parent left t = record t {
  parent_chaintip = if tip_exists left t.parent_chaintip then t.parent_chaintip else none;
}

unfoldable pub purge_inactive : Statement ℕ
purge_inactive d =
    let left = keep_if (is_status "active") d.chaintips in
    (
      ok (count_if (λ t. not (is_status "active" t)) d.chaintips),
      record d { chaintips = map (drop_parent left) left },
    )

unfoldable pub purge : Query ℕ
unfolding purge_inactive
purge = execute purge_inactive

-- A new row takes its id from the identity column, and has no parent.
abbrev pub new_tip : ℕ → ℕ → String → String → ℕ → Chaintip
new_tip id node_id status hash height = record {
  id = id;
  node = node_id;
  status = status;
  block = hash;
  height = height;
  parent_chaintip = none;
}

unfoldable pub insert_tip : ℕ → String → String → ℕ → Statement ℕ
insert_tip node_id status hash height d =
    if node_exists d node_id
    then (
      ok 1,
      record d {
        chaintips = d.chaintips ++ new_tip d.next_chaintip node_id status hash height ∷ [];
        next_chaintip = suc d.next_chaintip;
      },
    )
    else (err DbError.foreign_key_violation, d)

unfoldable pub set_invalid_fork : ℕ → String → ℕ → Query ℕ
set_invalid_fork block_height hash node_id =
    execute (insert_tip node_id "invalid" hash block_height)

unfoldable pub set_valid_fork : ℕ → String → ℕ → Query ℕ
set_valid_fork block_height hash node_id =
    execute (insert_tip node_id "valid-fork" hash block_height)

-- `diesel::update(chaintips.filter(parent_chaintip.eq(k))).set(parent_chaintip.eq(None))`
unfoldable pub clear_parent : ℕ → Statement ℕ
clear_parent k d = (
  ok (count_if (has_parent k) d.chaintips),
  record d {
    chaintips = update_if (has_parent k) (λ t. record t { parent_chaintip = none }) d.chaintips;
  },
)

abbrev pub moved : String → ℕ → Chaintip → Chaintip
moved hash height t = record t { block = hash; height = height; parent_chaintip = none }

unfoldable pub move_tip : ℕ → String → ℕ → Statement ℕ
move_tip k hash height d = (
  ok (count_if (is_id k) d.chaintips),
  record d { chaintips = update_if (is_id k) (moved hash height) d.chaintips },
)

-- The `match tip` of `set_active_tip`.
unfoldable pub write_active : ℕ → String → ℕ → QueryResult Chaintip → Query ℕ
unfolding clear_parent move_tip insert_tip
write_active block_height hash node_id (ok tip) =
    if not (tip.block == hash)
    then (do execute (clear_parent tip.id); execute (move_tip tip.id hash block_height))
    else pure 0
write_active block_height hash node_id (err DbError.not_found) =
    execute (insert_tip node_id "active" hash block_height)
write_active block_height hash node_id (err e) = fail e

unfoldable pub set_active_tip : ℕ → String → ℕ → Query ℕ
unfolding write_active get_active
set_active_tip block_height hash node_id = do
  tip ← try_query (get_active node_id)
  write_active block_height hash node_id tip
