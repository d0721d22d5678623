-- ===== src/Tests/Tables.antt =====
-- The theorems of Models, and of the branches of Scanner, at concrete tables.
use forkscanner.Prelude.{
  ◌/◌, ◌+◌, ◌<◌, true, false, ℕ, ◌≡◌, ◌≤◌, ◌↔◌, refl, none, some, [], ◌∷◌, arith,
}
use forkscanner.Models.Rows.{ok, StaleCandidate}
use forkscanner.Models.Query.{Db, Conn, sound_conn}
use forkscanner.Scanner.Inflation.{calc_max_inflation}
use forkscanner.Scanner.Inflation.Bounds.{calc_max_inflation_halves}
use forkscanner.Scanner.Branches.{unconfirmed, set_children, get_confirmed_in_one_branch}
use forkscanner.Scanner.Branches.Counted.{set_children-unconfirmed}
use forkscanner.Models.Conflicts.{conflicts}
use forkscanner.Models.Conflicts.Exact.{IsAnswer, entry, conflicts_exact}
use forkscanner.Tests.Data.{forked}

-- Node 1 has marked `b` as valid, and node 2 as invalid.
abbrev disputed : Db
disputed = record forked {
  valid_blocks = record { hash = "b"; node = 1; created_at = some 5 } ∷ [];
  invalid_blocks = record { hash = "b"; node = 2; created_at = some 9 } ∷ [];
}

conflicts_exact_example : IsAnswer 10 disputed "b" (entry "b" (conflicts 10 disputed))
conflicts_exact_example = conflicts_exact 10 disputed "b"

-- Two blocks at height 1, and a candidate for them.
abbrev candidate : StaleCandidate
candidate = record { height = 1; n_children = 2; height_processed = none; created_at = 3 }

abbrev stale_tables : Db
stale_tables = record forked { stale_candidates = candidate ∷ [] }

set_children-unconfirmed_example :
    (c' : StaleCandidate) × (d' : Db) × (set_children candidate (sound_conn stale_tables)
      ≡ (ok (some c'), sound_conn d'))
    × ((k : Conn) → get_confirmed_in_one_branch c' k ≡ (ok unconfirmed, k))
set_children-unconfirmed_example =
    set_children-unconfirmed candidate stale_tables refl (omega arith)

calc_max_inflation_halves_example :
    (209_999 < 210_000 → calc_max_inflation true 209_999 ≡ some 5_000_000_000)
    × (209_999 + 210_000 < 13_440_000
        → (x : ℕ) × (calc_max_inflation true 209_999 ≡ some x)
          × (calc_max_inflation true (209_999 + 210_000) ≡ some (x / 2)))
    × ((calc_max_inflation true 209_999 ≡ none) ↔ (13_440_000 ≤ 209_999))
    × (calc_max_inflation false (209_999 + 13_440_000) ≡ calc_max_inflation false 209_999)
calc_max_inflation_halves_example = calc_max_inflation_halves true 209_999
