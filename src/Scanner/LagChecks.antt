-- ===== src/Scanner/LagChecks.antt =====
-- `lag_checks` of src/scanner.rs: nodes whose active tip is low or has less work are recorded as
-- lagging. An error of the database is logged and skips the step.
pub mod Works
pub mod Loop
pub mod Exact
use Prim.Native.String.{compare as compare_text}
use Prim.Native.Nat.{Ordering}
use forkscanner.Prelude.{
  ℕ, zero, suc, ◌+◌, String, Bool, true, false, ◌||◌, Option, none, some, List, [], ◌∷◌, max, ltb,
  if◌then◌else◌, find,
}
use forkscanner.Models.Rows.{QueryResult, ok, err, Block, Chaintip, Lags}
use forkscanner.Models.Query.{Query, pure, try_query, ◌>>=◌, ◌>>◌}
use forkscanner.Models.Chaintips.{list_active}
use forkscanner.Models.Blocks.{has_hash, get}
use forkscanner.Models.Lags as Lag

abbrev pub max_tip_height : List Chaintip → Option ℕ
max_tip_height [] = none
max_tip_height (t ∷ ts) = elim (max_tip_height ts) [
  | none ↦ some t.height
  | some h ↦ some (max t.height h)
]

-- The works are compared as texts.
abbrev pub less_work : String → String → Bool
less_work a b = elim (compare_text a b) [ Ordering.lt ↦ true | _ ↦ false ]

abbrev pub max_work : List Block → Option String
max_work [] = none
max_work (b ∷ bs) = elim (max_work bs) [
  | none ↦ some b.work
  | some w ↦ some (if less_work b.work w then w else b.work)
]

abbrev pub add_answer : QueryResult Block → List Block → List Block
add_answer (ok b) bs = b ∷ bs
add_answer (err e) bs = bs

unfoldable pub tip_blocks : List Chaintip → Query (List Block)
unfolding get
tip_blocks [] = pure []
tip_blocks (t ∷ ts) =
    let rest = tip_blocks ts in (do b ← try_query (get t.block); bs ← rest; pure (add_answer b bs))

-- `tip.height < max_height - 1 || block.work < max_work`
abbrev pub is_behind : ℕ → String → Chaintip → Block → Bool
is_behind max_height most_work t b = ltb (t.height + 1) max_height || less_work b.work most_work

abbrev pub record_if : Bool → ℕ → ℕ → Query (Unit {0})
record_if true node_id now = try_query (Lag.insert node_id now now) >> pure tt
record_if false node_id now = pure tt

-- `none` is the `unwrap` of a block that was not found.
abbrev pub then_rest :
    Query (Option (Unit {0})) → ℕ → ℕ → String → Chaintip → Option Block → Query (Option (Unit {0}))
then_rest rest now max_height most_work t none = pure none
then_rest rest now max_height most_work t (some b) =
    record_if (is_behind max_height most_work t b) t.node now >> rest

unfoldable pub record_lags : ℕ → ℕ → String → List Block → List Chaintip → Query (Option (Unit {0}))
record_lags now max_height most_work blocks [] = pure (some tt)
record_lags now max_height most_work blocks (t ∷ ts) =
    then_rest (record_lags now max_height most_work blocks ts) now max_height most_work t
      (find (has_hash t.block) blocks)

-- `none` is the `unwrap` of the maximum of no works.
abbrev pub with_work :
    ℕ → ℕ → List Chaintip → List Block → Option String → Query (Option (Unit {0}))
with_work now max_height tips blocks none = pure none
with_work now max_height tips blocks (some most_work) =
    record_lags now max_height most_work blocks tips

-- `none` is the `unwrap` of the maximum of no heights.
abbrev pub with_height : ℕ → List Chaintip → Option ℕ → Query (Option (Unit {0}))
with_height now tips none = pure none
with_height now tips (some max_height) = do
  blocks ← tip_blocks tips
  with_work now max_height tips blocks (max_work blocks)

abbrev pub check_tips : ℕ → QueryResult (List Chaintip) → Query (Option (Unit {0}))
check_tips now (ok tips) = with_height now tips (max_tip_height tips)
check_tips now (err e) = pure (some tt)

abbrev pub lags_or_none : QueryResult (List Lags) → List Lags
lags_or_none (ok lags) = lags
lags_or_none (err e) = []

abbrev pub list_unless_panicked : Option (Unit {0}) → Query (Option (List Lags))
list_unless_panicked none = pure none
list_unless_panicked (some x) = do lags ← try_query Lag.list; pure (some (lags_or_none lags))

-- The lagging nodes, or `none` where the function panics. `now` is the time of the new rows.
unfoldable pub lag_checks : ℕ → Query (Option (List Lags))
unfolding tip_blocks record_lags
lag_checks now = do
  try_query Lag.purge
  tips ← try_query list_active
  checked ← check_tips now tips
  list_unless_panicked checked
