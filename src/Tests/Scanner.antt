-- ===== src/Tests/Scanner.antt =====
-- The properties of the scanner at concrete tables and a concrete node.
use forkscanner.Prelude.{none, exists, ◌==◌, number_comparable, length}
use forkscanner.Prelude.{◌≡◌, ◌≢◌, refl, ◌||◌, ◌&&◌, not, ltb, true, some, [], ◌∷◌, arith}
use forkscanner.Models.Rows.{ok}
use forkscanner.Models.Query.{Db, sound_conn, execute, ◌>>=◌}
use forkscanner.Models.Query.Answers.{or_answer}
use forkscanner.Models.Blocks
use forkscanner.Models.StaleHeights.{rivals}
use forkscanner.Models.Blocks.Unique.{unique_of_distinct}
use forkscanner.Scanner.Network.{Client, ScanResult, db, rpc}
use forkscanner.Scanner.Network as Net
use forkscanner.Scanner.Linking.Ancestry.{ParentsLower, lower_of_rows}
use forkscanner.Scanner.StaleCandidates.{stale_window, find_stale_candidates}
use forkscanner.Scanner.StaleCandidates.Recorded.{
  is_candidate, blocks_below, find_stale_candidates_exact,
}
use forkscanner.Scanner.Forks.{point, diverged, find_fork_point, fork_from, lower_to, search_fork}
use forkscanner.Scanner.Forks.Shared.{IsShared, find_fork_point-IsShared}
use forkscanner.Scanner.Forks.Ends.{find_fork_point_ends}
use forkscanner.Scanner.Rollback.{set_tip_active, make_active, invalidate}
use forkscanner.Scanner.Rollback.Ends.{set_tip_active_ends}
use forkscanner.Tests.Node.{tips}
use forkscanner.Scanner.Rollback.Reached.{HasTip, set_tip_active_reached}
use forkscanner.Scanner.Process.{process_client}
use forkscanner.Scanner.Process.Kept.{IsConsistent, process_client-IsConsistent}
use forkscanner.Scanner.LagChecks.{lag_checks}
use forkscanner.Scanner.LagChecks.Loop.{active_tips, is_lagging}
use forkscanner.Scanner.LagChecks.Exact.{is_outdone, lag_checks_exact}
use forkscanner.Scanner.RollbackChecks.{
  rollback_checks, check_all, check_tip, reconsider, reconsider_invalid,
}
use forkscanner.Scanner.RollbackChecks.Marks.{IsMarkedFrom, rollback_checks-IsMarkedFrom}
use forkscanner.Tests.Data.{forked, conn, tip, tip_high, block_g, block_c}
use forkscanner.Tests.Node.{net, high_net, world}

forked-ParentsLower : ParentsLower forked
forked-ParentsLower = lower_of_rows forked (refl, (refl, (refl, (refl, tt))))

forked-IsConsistent : IsConsistent forked
forked-IsConsistent = record {
  one_active = λ n. ground arith;
  unique = unique_of_distinct forked refl;
  linked = (refl, (refl, (refl, (refl, tt))));
}

process_client-IsConsistent_example :
    IsConsistent
      (process_client net (some (Client.node 1)) 7 true (Client.node 2) 2 world).1.conn.db
process_client-IsConsistent_example =
    process_client-IsConsistent net (some (Client.node 1)) 7 true (Client.node 2) 2 world
      forked-IsConsistent

-- Height 1 has two blocks, and height 0 one.
find_stale_candidates_exact_example :
    (d' : Db) × (find_stale_candidates 7 conn ≡ (ok tt, sound_conn d'))
    × (is_candidate 1 d' ≡ (
        is_candidate 1 forked
        || (ltb 1 (rivals 2 stale_window forked 1) && not (ltb 1 (blocks_below 1 forked.blocks)))))
find_stale_candidates_exact_example = find_stale_candidates_exact 7 2 1 forked refl

-- The node is at `c` and the tip `b` is requested: both descend from `g`.
fork_point_of_b : (find_fork_point some "c" 2 "b" 1 conn).0 ≡ ok (point "g")
unfolding find_fork_point fork_from lower_to search_fork or_answer Blocks.get Blocks.parent
    Blocks.descendants Blocks.rec_query Blocks.levels Blocks.children_of Blocks.order_by_height
    Blocks.insert_by_height execute ◌>>=◌
fork_point_of_b = refl

find_fork_point-IsShared_example : IsShared some forked "c" "b" "g"
find_fork_point-IsShared_example =
    find_fork_point-IsShared some "c" 2 "b" 1 conn "g" fork_point_of_b

find_fork_point_ends_example : (find_fork_point some "c" 2 "b" 1 conn).0 ≢ ok diverged
find_fork_point_ends_example = find_fork_point_ends some "c" 2 "b" 1 conn forked-ParentsLower

-- The node is at `a`, and at `b` once `a` is invalidated.
set_tip_active_invalidates :
    (set_tip_active net 3 (Client.mirror 1) "b" 1 world).0 ≡ ScanResult.ok ("a" ∷ [])
unfolding set_tip_active make_active invalidate db rpc Net.◌>>=◌
set_tip_active_invalidates = refl

set_tip_active_reached_example :
    HasTip net (Client.mirror 1) "b" (set_tip_active net 3 (Client.mirror 1) "b" 1 world).1
set_tip_active_reached_example =
    set_tip_active_reached net 3 (Client.mirror 1) "b" 1 world ("a" ∷ []) set_tip_active_invalidates

-- Node 2 is at height 0, two below node 1.
abbrev lagging : Db
lagging = record forked { chaintips = tip_high ∷ tip 2 2 "active" "g" 0 none ∷ [] }

lag_checks_exact_example :
    (d' : Db) × (lag_checks 7 (sound_conn lagging) ≡ (ok (some d'.lags), sound_conn d'))
    × (is_lagging 2 d'
        ≡ exists
            (λ t. t.node == 2 && exists (is_outdone lagging t) (active_tips lagging))
            (active_tips lagging))
lag_checks_exact_example =
    lag_checks_exact 7 2 lagging tip_high (tip 2 2 "active" "g" 0 none ∷ []) refl
      ((refl, (block_c, refl)), ((refl, (block_g, refl)), tt))

node_2_is_behind :
    exists
      (λ t. t.node == 2 && exists (is_outdone lagging t) (active_tips lagging))
      (active_tips lagging)
    ≡ true
node_2_is_behind = refl

rollback_checks-IsMarkedFrom_example :
    IsMarkedFrom forked (rollback_checks high_net 3 7 (1 ∷ []) world).1.conn.db
rollback_checks-IsMarkedFrom_example = rollback_checks-IsMarkedFrom high_net 3 7 (1 ∷ []) world

-- The mirror is brought to `b`, which is marked, and then back.
rollback_marks_b : length (rollback_checks high_net 3 7 (1 ∷ []) world).1.conn.db.valid_blocks ≡ 1
unfolding rollback_checks check_all check_tip reconsider reconsider_invalid set_tip_active
    make_active invalidate db rpc Net.◌>>=◌ Blocks.get Blocks.marked_valid_by
    Blocks.marked_invalid_by Blocks.set_valid Blocks.insert_valid execute ◌>>=◌
rollback_marks_b = refl

set_tip_active_ends_example :
    (set_tip_active net 102 (Client.mirror 1) "b" 1 world).0 ≢ ScanResult.err Net.diverged
set_tip_active_ends_example =
    set_tip_active_ends net (Client.mirror 1) "b" 1 world (λ n. (tips n, refl)) forked-ParentsLower
      refl
