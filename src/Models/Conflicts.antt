-- ===== src/Models/Conflicts.antt =====
-- `InvalidBlock::get_recent_conflicts` of src/models.rs: the blocks that some node has marked as
-- valid, and some node as invalid in the last 15 minutes.
pub mod Exact
use forkscanner.Prelude.{
  Option, none, some, false, ℕ, ◌+◌, ltb, String, Bool, ◌&&◌, List, [], ◌∷◌, ◌++◌, map, ◌==◌,
  if◌then◌else◌, keep_if, exists, text_comparable, number_comparable,
}
use forkscanner.Models.Rows.{ok, InvalidBlock, ValidBlock}
use forkscanner.Models.Query.{Db, Query, select}
use forkscanner.Models.StaleCandidates.{insert_height}

pub record ConflictingBlock : Type 0 where
  pub hash : String
  pub valid_by : List ℕ
  pub invalid_by : List ℕ

-- A row of the subquery.
pub record Joined : Type 0 where
  pub hash : String
  pub valid_by : ℕ
  pub invalid_by : ℕ

-- 15 minutes
abbrev pub recent_window : ℕ
recent_window = 900_000

-- A comparison with NULL is not true.
abbrev pub is_later : ℕ → Option ℕ → Bool
is_later now none = false
is_later now (some at) = ltb now (at + recent_window)

abbrev pub is_recent : ℕ → InvalidBlock → Bool
is_recent now ivb = is_later now ivb.created_at

-- The marks of a block that are joined to a mark as valid.
abbrev pub is_joined : ℕ → ValidBlock → InvalidBlock → Bool
is_joined now vb ivb = vb.hash == ivb.hash && is_recent now ivb

unfoldable pub join : ℕ → List ValidBlock → List InvalidBlock → List Joined
join now [] ivbs = []
join now (vb ∷ vbs) ivbs =
    map
      (λ (ivb : InvalidBlock). record {
        hash = ivb.hash;
        valid_by = vb.node;
        invalid_by = ivb.node;
      })
      (keep_if (is_joined now vb) ivbs)
    ++ join now vbs ivbs

-- `array_agg(distinct ...)` sorts its values.
unfoldable pub distinct : List ℕ → List ℕ
unfolding insert_height
distinct [] = []
distinct (n ∷ ns) = insert_height n (distinct ns)

abbrev pub of_hash : String → Joined → Bool
of_hash h q = q.hash == h

abbrev pub conflict : String → List Joined → ConflictingBlock
conflict h rows = record {
  hash = h;
  valid_by = distinct (map (λ (q : Joined). q.valid_by) (keep_if (of_hash h) rows));
  invalid_by = distinct (map (λ (q : Joined). q.invalid_by) (keep_if (of_hash h) rows));
}

-- GROUP BY hash: a group for the last row of each hash.
unfoldable pub group_rows : List Joined → List Joined → List ConflictingBlock
unfolding distinct
group_rows all [] = []
group_rows all (q ∷ qs) =
    let rest = group_rows all qs in
    if exists (of_hash q.hash) qs then rest else conflict q.hash all ∷ rest

unfoldable pub conflicts : ℕ → Db → List ConflictingBlock
unfolding join group_rows
conflicts now d = let rows = join now d.valid_blocks d.invalid_blocks in group_rows rows rows

unfoldable pub get_recent_conflicts : ℕ → Query (List ConflictingBlock)
unfolding conflicts
get_recent_conflicts now = select (λ d. ok (conflicts now d))
