-- ===== src/Tests/Linking.antt =====
-- Climbs and links over the small chain.
use forkscanner.Prelude.{
  ◌≡◌, ◌≢◌, ◌↔◌, ◌⊎◌, ◌&&◌, refl, none, some, [], ◌∷◌, arith, keep_if, ltb, Any,
}
use forkscanner.Models.Rows.{ok, Block}
use forkscanner.Models.Query.{execute, sound_conn, ◌>>=◌}
use forkscanner.Models.Blocks
use forkscanner.Models.Chaintips
use forkscanner.Models.Chaintips.{is_status}
use forkscanner.Models.Blocks.{block_at}
use forkscanner.Scanner.Linking.{
  reached, out_of_fuel, climb, climb_fuel, match_parent, match_parent_in, check_parent,
  check_parent_in,
}
use forkscanner.Scanner.Linking.Ancestry.{Descends, ParentsLower, lower_of_rows}
use forkscanner.Scanner.Linking.Climbing.{climb_ends}
use forkscanner.Scanner.Linking.Found.{climb_exact}
use forkscanner.Scanner.Linking.Parent.{Attaches, match_parent_sound}
use forkscanner.Scanner.Linking.Pointers.{parents, check_parent_keeps_pointers}
use forkscanner.Tests.Data.{tip_linked, linked, tip_low, block_c, forked, conn}

forked-ParentsLower : ParentsLower forked
forked-ParentsLower = lower_of_rows forked (refl, (refl, (refl, (refl, tt))))

at_a : (t : Block) → block_at forked "a" ≡ some t → t.height ≡ 1
at_a t e = ground arith

climb_exact_example :
    ((climb (climb_fuel block_c) (some 2) "a" 1 block_c conn).0 ≡ ok reached)
    ↔ Descends forked (some 2) "a" block_c
climb_exact_example = climb_exact forked (some 2) "a" 1 block_c forked-ParentsLower at_a refl

climb_ends_example : (climb 3 none "b" 1 block_c conn).0 ≢ ok out_of_fuel
climb_ends_example = climb_ends none "b" 1 3 block_c conn forked-ParentsLower refl (omega arith)

match_parent_links :
    (match_parent tip_low 2 conn).0 ≡ ok (record tip_low { parent_chaintip = some 1 })
unfolding match_parent match_parent_in climb Chaintips.list_active_gt Chaintips.update Blocks.get
    Blocks.marked_invalid_by ◌>>=◌ execute Chaintips.update_tip
match_parent_links = refl

match_parent_sound_example :
    (record tip_low { parent_chaintip = some 1 } ≡ tip_low)
    ⊎ Any
        (Attaches forked 2 tip_low (record tip_low { parent_chaintip = some 1 }))
        (keep_if (λ t. ltb 1 t.height && is_status "active" t) forked.chaintips)
match_parent_sound_example =
    match_parent_sound tip_low (record tip_low { parent_chaintip = some 1 }) 2 conn refl
      match_parent_links

-- The function finds the invalid tip and answers a tip without a parent.
check_parent_clears :
    (check_parent tip_linked (sound_conn linked)).0
    ≡ ok (record tip_linked { parent_chaintip = none })
unfolding check_parent check_parent_in climb Chaintips.list_invalid_gt Chaintips.update Blocks.get
    ◌>>=◌ execute Chaintips.update_tip
check_parent_clears = refl

check_parent_keeps_pointers_example :
    parents (check_parent tip_linked (sound_conn linked)).1.db ≡ none ∷ some 1 ∷ none ∷ []
check_parent_keeps_pointers_example =
    check_parent_keeps_pointers tip_linked (sound_conn linked) refl
