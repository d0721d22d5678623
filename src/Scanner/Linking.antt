-- ===== src/Scanner/Linking.antt =====
-- `match_children`, `check_parent` and `match_parent` of src/scanner.rs: the links between the
-- active tips of the nodes.
pub mod Ancestry
pub mod Climbing
pub mod Found
pub mod Parent
pub mod Pointers
use forkscanner.Prelude.{
  ℕ, zero, suc, String, Bool, true, false, Option, none, some, List, [], ◌∷◌, ◌==◌, if◌then◌else◌,
  is_none, number_comparable, text_comparable,
}
use forkscanner.Models.Rows.{DbError, QueryResult, ok, err, Block, Chaintip}
use forkscanner.Models.Query.{Conn, Query, ◌>>=◌, ◌>>◌, pure, try_query}
use forkscanner.Models.Blocks
use forkscanner.Models.Chaintips

-- How a climb along the parent hashes ends: at the block that was looked for, at a `break`, or with
-- its fuel used up.
pub data Climb : Type 0 where
  reached stopped out_of_fuel : Climb

-- The test of the mark: a failed query breaks the climb as a mark does.
abbrev pub unless_marked : QueryResult Bool → Query Climb → Query Climb
unless_marked (err e) rest = pure stopped
unless_marked (ok true) rest = pure stopped
unless_marked (ok false) rest = rest

abbrev pub to_parent : (Block → Query Climb) → QueryResult Block → Query Climb
to_parent rest (err e) = pure stopped
to_parent rest (ok b) = rest b

-- The step to the parent, at a block that is not the one looked for.
unfoldable pub step_up : (Block → Query Climb) → ℕ → Block → Option String → Query Climb
step_up rest floor b none = pure stopped
step_up rest floor b (some h) =
    if b.height == floor then pure stopped else (do p ← try_query (Blocks.get h); to_parent rest p)

-- The rest of a round, once the block is known to be unmarked.
unfoldable pub visit : (Block → Query Climb) → String → ℕ → Block → Query Climb
unfolding step_up
visit rest target floor b =
    if b.hash == target then pure reached else step_up rest floor b b.parent_hash

-- Blocks marked invalid by the node `marker` end the climb; `check_parent` has no such test.
unfoldable pub guarded : Option ℕ → Block → Query Climb → Query Climb
guarded none b rest = rest
guarded (some node_id) b rest = do
  invalid ← try_query (Blocks.marked_invalid_by b.hash node_id)
  unless_marked invalid rest

-- The `loop` of the three functions, from the block `b` to the block with the hash `target`, which
-- stands at the height `floor`.
unfoldable pub climb : ℕ → Option ℕ → String → ℕ → Block → Query Climb
unfolding visit guarded
climb zero marker target floor b = pure out_of_fuel
climb (suc fuel) marker target floor b =
    guarded marker b (visit (climb fuel marker target floor) target floor b)

-- Enough for every climb from `b`, where a parent is lower than its child: see `climb_ends`.
abbrev pub climb_fuel : Block → ℕ
climb_fuel b = suc b.height

-- A tip that was reached is updated. `true`: the function returns; otherwise, and also when the
-- update fails, it goes on with the next candidate.
abbrev pub was_updated : QueryResult ℕ → Query Bool
was_updated (ok n) = pure true
was_updated (err e) = pure false

unfoldable pub update_if_reached : Chaintip → Climb → Query Bool
update_if_reached t reached = do r ← try_query (Chaintips.update t); was_updated r
update_if_reached t stopped = pure false
update_if_reached t out_of_fuel = pure false

-- `match_children` for the candidates that are left.
unfoldable pub match_children_in : Chaintip → List Chaintip → Query (Unit {0})
unfolding climb update_if_reached
match_children_in tip [] = pure tt
match_children_in tip (candidate ∷ rest) =
    let next = match_children_in tip rest in
    if is_none candidate.parent_chaintip
    then (do
      b ← Blocks.get tip.block
      r ← climb (climb_fuel b) (some candidate.node) candidate.block candidate.height b
      done ← update_if_reached (record candidate { parent_chaintip = some tip.id }) r
      if done then pure tt else next)
    else next

unfoldable pub match_children : Chaintip → Query (Unit {0})
unfolding match_children_in
match_children tip = do
  candidate_tips ← Chaintips.list_active_lt tip.height
  match_children_in tip candidate_tips

-- The tip is borrowed mutably: the new value is the answer.
abbrev pub forget_parent : Climb → Chaintip → Chaintip
forget_parent reached t = record t { parent_chaintip = none }
forget_parent stopped t = t
forget_parent out_of_fuel t = t

unfoldable pub check_parent_in : Chaintip → List Chaintip → Query Chaintip
unfolding climb update_if_reached
check_parent_in tip [] = pure tip
check_parent_in tip (candidate ∷ rest) = do
  b ← Blocks.get candidate.block
  r ← climb (climb_fuel b) none tip.block tip.height b
  let tip' = forget_parent r tip
  let next = check_parent_in tip' rest
  done ← update_if_reached tip' r
  if done then pure tip' else next

unfoldable pub check_parent : Chaintip → Query Chaintip
unfolding check_parent_in
check_parent tip = if is_none tip.parent_chaintip then pure tip else (do
  candidate_tips ← Chaintips.list_invalid_gt tip.height
  check_parent_in tip candidate_tips)

abbrev pub take_parent : Climb → ℕ → Chaintip → Chaintip
take_parent reached k t = record t { parent_chaintip = some k }
take_parent stopped k t = t
take_parent out_of_fuel k t = t

unfoldable pub match_parent_in : ℕ → Chaintip → List Chaintip → Query Chaintip
unfolding climb update_if_reached
match_parent_in node_id tip [] = pure tip
match_parent_in node_id tip (candidate ∷ rest) = do
  b ← Blocks.get candidate.block
  r ← climb (climb_fuel b) (some node_id) tip.block tip.height b
  let tip' = take_parent r candidate.id tip
  let next = match_parent_in node_id tip' rest
  done ← update_if_reached tip' r
  if done then pure tip' else next

unfoldable pub match_parent : Chaintip → ℕ → Query Chaintip
unfolding match_parent_in
match_parent tip node_id =
    if is_none tip.parent_chaintip
    then (do
      candidate_tips ← Chaintips.list_active_gt tip.height
      match_parent_in node_id tip candidate_tips)
    else pure tip
