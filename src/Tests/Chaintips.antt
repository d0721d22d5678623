-- ===== src/Tests/Chaintips.antt =====
-- The tables `chaintips` and `blocks`.
use forkscanner.Prelude.{◌≡◌, refl, false, some, arith, count_if}
use forkscanner.Models.Rows.{ok}
use forkscanner.Models.Query.{Db, sound_conn, execute, ◌>>=◌}
use forkscanner.Models.Chaintips.{is_active_of, set_active_tip, purge}
use forkscanner.Models.Chaintips.Active.{
  OneActive, IsSetTip, set_active_tip-OneActive, set_active_tip_done,
}
use forkscanner.Models.Chaintips.Purge.{IsPurged, purge_done}
use forkscanner.Models.Blocks.{block_at, get_or_create}
use forkscanner.Models.Blocks.Linked.{Linked, get_or_create-Linked}
use forkscanner.Models.Blocks.Exact.{IsGotOrCreated, get_or_create_exact}
use forkscanner.Tests.Data.{header, forked, linked, conn}

forked-OneActive : OneActive forked
forked-OneActive n = ground arith

set_active_tip_moves : (set_active_tip 1 "b" 2 conn).0 ≡ ok 1
unfolding set_active_tip ◌>>=◌ execute
set_active_tip_moves = refl

set_active_tip-OneActive_example : OneActive (set_active_tip 1 "b" 2 conn).1.db
set_active_tip-OneActive_example = set_active_tip-OneActive 1 "b" 2 conn forked-OneActive

set_active_tip_done_example :
    IsSetTip 1 "b" 2 1 forked (set_active_tip 1 "b" 2 conn).1.db
    × (count_if (is_active_of 2) (set_active_tip 1 "b" 2 conn).1.db.chaintips ≡ 1)
set_active_tip_done_example =
    set_active_tip_done 1 "b" 2 conn 1 forked-OneActive set_active_tip_moves

purge_answers : (purge (sound_conn linked)).0 ≡ ok 1
unfolding purge execute
purge_answers = refl

purge_done_example : IsPurged linked (purge (sound_conn linked)).1.db
purge_done_example = purge_done (sound_conn linked) 1 purge_answers

get_or_create-Linked_example : Linked (get_or_create false 1 (header "d" 3 (some "c")) conn).1.db
get_or_create-Linked_example =
    get_or_create-Linked false 1 (header "d" 3 (some "c")) conn (refl, (refl, (refl, (refl, tt))))

get_or_create_exact_example :
    (d' : Db) × ((get_or_create false 1 (header "d" 3 (some "c")) conn).1 ≡ sound_conn d')
    × IsGotOrCreated false 1
        (header "d" 3 (some "c"))
        forked
        (block_at forked "d")
        (get_or_create false 1 (header "d" 3 (some "c")) conn).0
        d'
get_or_create_exact_example = get_or_create_exact false 1 (header "d" 3 (some "c")) forked
