-- ===== src/Scanner/StaleCandidates.antt =====
-- `find_stale_candidates` of src/scanner.rs: heights with more than one block are recorded as
-- candidates for a stale block. An error of the database is logged and skips the step.
pub mod Recorded
use forkscanner.Prelude.{
  ℕ, zero, suc, Bool, true, false, Option, none, some, List, [], ◌∷◌, length, ltb, if◌then◌else◌,
}
use forkscanner.Models.Rows.{QueryResult, ok, err, Block}
use forkscanner.Models.Query.{Query, select, pure, try_query, ◌>>=◌, ◌>>◌}
use forkscanner.Models.Blocks.{max_height, count_at_height, get_at_height}
use forkscanner.Models.StaleCandidates as Stale

abbrev pub stale_window : ℕ
stale_window = 100

-- `Block::count_at_height` at `height - 1`; no block is at -1.
unfoldable pub count_below : ℕ → Query ℕ
unfolding count_at_height
count_below zero = select (λ d. ok 0)
count_below (suc h) = count_at_height h

abbrev pub is_contested : QueryResult ℕ → Bool
is_contested (ok ct) = ltb 1 ct
is_contested (err e) = false

abbrev pub create_for : ℕ → ℕ → QueryResult (List Block) → Query (Unit {0})
create_for now height (ok blocks) = do try_query (Stale.create now height (length blocks)); pure tt
create_for now height (err e) = pure tt

-- The body of the loop. `now` is the time of the new rows.
unfoldable pub record_candidate : ℕ → ℕ → Query (Unit {0})
unfolding count_below
record_candidate now height = do
  below ← try_query (count_below height)
  if is_contested below
      then pure tt
      else (do blocks ← try_query (get_at_height height); create_for now height blocks)

unfoldable pub record_candidates : ℕ → List ℕ → Query (Unit {0})
unfolding record_candidate
record_candidates now [] = pure tt
record_candidates now (h ∷ hs) = record_candidate now h >> record_candidates now hs

abbrev pub record_found : ℕ → QueryResult (List ℕ) → Query (Unit {0})
record_found now (ok candidates) = record_candidates now candidates
record_found now (err e) = pure tt

abbrev pub search_below : ℕ → QueryResult (Option ℕ) → Query (Unit {0})
search_below now (ok (some tip)) = do
  candidates ← try_query (Stale.find_stale_candidates tip stale_window)
  record_found now candidates
search_below now (ok none) = pure tt
search_below now (err e) = pure tt

unfoldable pub find_stale_candidates : ℕ → Query (Unit {0})
unfolding record_candidates
find_stale_candidates now = do tip_height ← try_query max_height; search_below now tip_height
