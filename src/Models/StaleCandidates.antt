-- ===== src/Models/StaleCandidates.antt =====
-- `StaleCandidate` and `StaleCandidateChildren` of src/models.rs, and the query for the heights
-- at which a chain may be stale.
use forkscanner.Prelude.{
  ℕ, zero, suc, ◌+◌, Bool, not, ◌&&◌, none, List, [], ◌∷◌, ◌++◌, ltb, leb, ◌==◌, if◌then◌else◌,
  keep_if, find, exists, count_if, update_if, number_comparable, text_comparable,
}
use forkscanner.Models.Rows.{
  DbError, ok, err, Block, InvalidBlock, StaleCandidate, StaleCandidateChildren,
}
use forkscanner.Models.Query.{Db, Query, Statement, execute, select, first_row, set_column}
use forkscanner.Models.Blocks.{has_hash}

abbrev pub at_height : ℕ → StaleCandidate → Bool
at_height h s = s.height == h

unfoldable pub list_ge : ℕ → Query (List StaleCandidate)
list_ge block_height =
    select
      (λ d. ok (keep_if (λ (s : StaleCandidate). leb block_height s.height) d.stale_candidates))

unfoldable pub get : ℕ → Query StaleCandidate
get candidate = select (λ d. first_row (find (at_height candidate) d.stale_candidates))

unfoldable pub update : StaleCandidate → Query ℕ
update self = execute (λ d. (
  ok (count_if (at_height self.height) d.stale_candidates),
  record d {
    stale_candidates =
        update_if (at_height self.height)
          (λ s. record self {
            height_processed = set_column d.none_as_null s.height_processed self.height_processed;
          })
          d.stale_candidates;
  },
))

-- ORDER BY len
abbrev insert_by_len :
    StaleCandidateChildren → List StaleCandidateChildren → List StaleCandidateChildren
insert_by_len c [] = c ∷ []
insert_by_len c (x ∷ xs) = if leb c.len x.len then c ∷ x ∷ xs else x ∷ insert_by_len c xs

abbrev order_by_len : List StaleCandidateChildren → List StaleCandidateChildren
order_by_len [] = []
order_by_len (c ∷ cs) = insert_by_len c (order_by_len cs)

abbrev pub is_child_at : ℕ → StaleCandidateChildren → Bool
is_child_at h c = c.candidate_height == h

unfoldable pub children : StaleCandidate → Query (List StaleCandidateChildren)
children self =
    select (λ d. ok (order_by_len (keep_if (is_child_at self.height) d.stale_candidate_children)))

unfoldable pub purge_children : StaleCandidate → Query ℕ
purge_children self = execute (λ d. (
  ok (count_if (is_child_at self.height) d.stale_candidate_children),
  record d {
    stale_candidate_children =
        keep_if (λ c. not (is_child_at self.height c)) d.stale_candidate_children;
  },
))

abbrev pub new_candidate : ℕ → ℕ → ℕ → StaleCandidate
new_candidate now height n_children = record {
  height = height;
  n_children = n_children;
  height_processed = none;
  created_at = now;
}

-- `ON CONFLICT (height) DO NOTHING`
unfoldable pub insert_candidate : ℕ → ℕ → ℕ → Statement ℕ
insert_candidate now height n_children d =
    if exists (at_height height) d.stale_candidates then (ok 0, d) else (
      ok 1,
      record d {
        stale_candidates = d.stale_candidates ++ new_candidate now height n_children ∷ [];
      },
    )

unfoldable pub create : ℕ → ℕ → ℕ → Query ℕ
unfolding insert_candidate
create now candidate_height children = execute (insert_candidate now candidate_height children)

-- ORDER BY height DESC LIMIT n
abbrev insert_highest : StaleCandidate → List StaleCandidate → List StaleCandidate
insert_highest s [] = s ∷ []
insert_highest s (x ∷ xs) = if leb x.height s.height then s ∷ x ∷ xs else x ∷ insert_highest s xs

abbrev order_highest : List StaleCandidate → List StaleCandidate
order_highest [] = []
order_highest (s ∷ ss) = insert_highest s (order_highest ss)

abbrev take {ℓ} : {A : Type ℓ} → ℕ → List A → List A
take zero xs = []
take (suc n) [] = []
take (suc n) (x ∷ xs) = x ∷ take n xs

unfoldable pub top_n : ℕ → Query (List StaleCandidate)
top_n n = select (λ d. ok (take n (order_highest d.stale_candidates)))

unfoldable pub insert_child : StaleCandidateChildren → Statement ℕ
insert_child c d =
    if exists (λ (x : StaleCandidateChildren). x.root_id == c.root_id) d.stale_candidate_children
    then (err DbError.unique_violation, d)
    else if exists (at_height c.candidate_height) d.stale_candidates
        && (exists (has_hash c.tip_id) d.blocks && exists (has_hash c.root_id) d.blocks)
    then (ok 1, record d { stale_candidate_children = d.stale_candidate_children ++ c ∷ [] })
    else (err DbError.foreign_key_violation, d)

unfoldable pub create_child : Block → Block → ℕ → Query ℕ
unfolding insert_child
create_child root tip branch_len = execute (
    insert_child (record {
      candidate_height = root.height;
      root_id = root.hash;
      tip_id = tip.hash;
      len = branch_len;
    }))

-- `LEFT JOIN invalid_blocks ... WHERE ib.node IS NULL`
abbrev pub is_unmarked : Db → Block → Bool
is_unmarked d b = not (exists (λ (v : InvalidBlock). v.hash == b.hash) d.invalid_blocks)

-- `height > tip - window`, which may lie below zero.
abbrev pub in_window : ℕ → ℕ → Block → Bool
in_window tip_height window b = ltb tip_height (b.height + window)

-- GROUP BY height, ORDER BY height ASC
unfoldable pub insert_height : ℕ → List ℕ → List ℕ
insert_height h [] = h ∷ []
insert_height h (x ∷ xs) =
    if h == x then x ∷ xs else if ltb h x then h ∷ x ∷ xs else x ∷ insert_height h xs

unfoldable pub group_heights : List Block → List ℕ
unfolding insert_height
group_heights [] = []
group_heights (b ∷ bs) = insert_height b.height (group_heights bs)

abbrev pub has_height : ℕ → Block → Bool
has_height h b = b.height == h

unfoldable pub stale_heights : ℕ → ℕ → Db → List ℕ
unfolding group_heights
stale_heights tip_height window d =
    let rows = keep_if (λ b. in_window tip_height window b && is_unmarked d b) d.blocks in
    keep_if (λ h. ltb 1 (count_if (has_height h) rows)) (group_heights rows)

unfoldable pub find_stale_candidates : ℕ → ℕ → Query (List ℕ)
unfolding stale_heights
find_stale_candidates tip_height window = select (λ d. ok (stale_heights tip_height window d))
