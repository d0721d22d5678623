-- ===== src/Scanner/StaleCandidates/Recorded.antt =====
-- Which candidates `find_stale_candidates` of src/scanner.rs leaves in the tables.
use forkscanner.Prelude.{
  ℕ, zero, suc, ◌≡◌, refl, Bool, not, ◌&&◌, ◌||◌, some, List, [], ◌∷◌, ltb, ◌==◌, arith, inl, inr,
  ◌∙◌, if◌then◌else◌, exists, count_if, number_comparable, Bool-cases, length, keep_if,
  exists-append,
}
use forkscanner.Models.Rows.{ok, Block, StaleCandidate}
use forkscanner.Models.Query.{Db, sound_conn, execute, ◌>>=◌}
use forkscanner.Models.Blocks.{max_of, max_height, count_at_height, get_at_height}
use forkscanner.Models.StaleCandidates as Stale
use forkscanner.Models.StaleHeights.{contains, rivals, contains-stale_heights}
use forkscanner.Scanner.StaleCandidates.{
  stale_window, count_below, record_candidate, record_candidates, find_stale_candidates,
}

abbrev pub blocks_below : ℕ → List Block → ℕ
blocks_below zero bs = 0
blocks_below (suc h) bs = count_if (Stale.has_height h) bs

abbrev pub is_candidate : ℕ → Db → Bool
is_candidate h d = exists (Stale.at_height h) d.stale_candidates

abbrev after_candidate : ℕ → ℕ → Db → Db
after_candidate now h d =
    if ltb 1 (blocks_below h d.blocks)
    then d
    else (Stale.insert_candidate now h (length (keep_if (Stale.has_height h) d.blocks)) d).1

record_candidate-run :
    (now h : ℕ) (d : Db)
    → record_candidate now h (sound_conn d) ≡ (ok tt, sound_conn (after_candidate now h d))
unfolding record_candidate count_below count_at_height get_at_height Stale.create execute ◌>>=◌
record_candidate-run now zero d = refl
record_candidate-run now (suc h) d = elim (Bool-cases (ltb 1 (blocks_below (suc h) d.blocks))) [
  | inl many ↦ rw many refl
  | inr few ↦ rw few refl
]

insert_candidate-blocks :
    (now h n : ℕ) (d : Db) → (Stale.insert_candidate now h n d).1.blocks ≡ d.blocks
unfolding Stale.insert_candidate
insert_candidate-blocks now h n d = ground arith

insert_candidate-there :
    (now h n k : ℕ) (d : Db)
    → is_candidate k (Stale.insert_candidate now h n d).1 ≡ (is_candidate k d || h == k)
unfolding Stale.insert_candidate
insert_candidate-there now h n k d = ground (
  arith,
  exists-append (Stale.at_height k) d.stale_candidates (Stale.new_candidate now h n ∷ []),
  there k h d.stale_candidates,
)
  where
    there :
        (k h : ℕ) (ss : List StaleCandidate)
        → h ≡ k
        → exists (Stale.at_height h) ss ≡ exists (Stale.at_height k) ss
    there k h ss e = rw e refl

after_candidate-blocks : (now h : ℕ) (d : Db) → (after_candidate now h d).blocks ≡ d.blocks
after_candidate-blocks now h d =
    ground (arith, insert_candidate-blocks now h (length (keep_if (Stale.has_height h) d.blocks)) d)

after_candidate-there :
    (now h k : ℕ) (d : Db)
    → is_candidate k (after_candidate now h d)
      ≡ (is_candidate k d || (h == k && not (ltb 1 (blocks_below k d.blocks))))
after_candidate-there now h k d =
    ground (
      arith,
      insert_candidate-there now h (length (keep_if (Stale.has_height h) d.blocks)) k d,
      same,
    )
  where
    same : h ≡ k → blocks_below h d.blocks ≡ blocks_below k d.blocks
    same e = rw e refl

-- The tables after the loop over the heights.
abbrev IsRecorded : ℕ → List ℕ → Db → Db → Type 0
IsRecorded k hs d d' =
    (d'.blocks ≡ d.blocks)
    × (is_candidate k d'
        ≡ (is_candidate k d || (contains k hs && not (ltb 1 (blocks_below k d.blocks)))))

record_candidates-run :
    (now k : ℕ) (hs : List ℕ) (d : Db)
    → (d' : Db) × (record_candidates now hs (sound_conn d) ≡ (ok tt, sound_conn d'))
      × IsRecorded k hs d d'
unfolding record_candidates ◌>>=◌
record_candidates-run now k [] d = (d, refl, (refl, ground arith))
record_candidates-run now k (h ∷ hs) d =
    let (d', run, (blocks, there)) = record_candidates-run now k hs (after_candidate now h d) in
    (
      d',
      rw (record_candidate-run now h d) run,
      (blocks ∙ after_candidate-blocks now h d, step d' blocks there),
    )
  where
    step :
        (d' : Db)
        → d'.blocks ≡ (after_candidate now h d).blocks
        → is_candidate k d' ≡ (
            is_candidate k (after_candidate now h d)
            || (contains k hs && not (ltb 1 (blocks_below k (after_candidate now h d).blocks))))
        → is_candidate k d'
          ≡ (is_candidate k d || (contains k (h ∷ hs) && not (ltb 1 (blocks_below k d.blocks))))
    step d' blocks there =
        let old = rw after_candidate-blocks at there in
        ground (arith, after_candidate-there now h k d)

-- On a connection that fails no statement, over tables with a block: a height is a candidate after
-- `find_stale_candidates` exactly if it was one before, or if two blocks or more of the last 100
-- heights have it that no node has marked as invalid, and at most one block is one lower.
pub find_stale_candidates_exact :
    (now tip k : ℕ) (d : Db)
    → max_of d.blocks ≡ some tip
    → (d' : Db) × (find_stale_candidates now (sound_conn d) ≡ (ok tt, sound_conn d'))
      × (is_candidate k d' ≡ (
          is_candidate k d
          || (ltb 1 (rivals tip stale_window d k) && not (ltb 1 (blocks_below k d.blocks)))))
unfolding find_stale_candidates Stale.find_stale_candidates max_height execute ◌>>=◌
find_stale_candidates_exact now tip k d top =
    let hs = Stale.stale_heights tip stale_window d in
    let (d', run, (_, there)) = record_candidates-run now k hs d in
    (d', rw top run, rw contains-stale_heights at there)
