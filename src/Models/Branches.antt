-- ===== src/Models/Branches.antt =====
-- The queries of `Block` of src/models.rs for a whole branch, and for its transactions, and what
-- `StaleCandidate` records of a branch.
use Prim.Native.String.{compare as compare_text}
use Prim.Native.Nat.{Ordering}
use forkscanner.Prelude.{
  ℕ, String, Bool, true, false, not, ◌&&◌, ◌||◌, Option, none, some, List, [], ◌∷◌, ◌++◌, map, ltb,
  ◌==◌, if◌then◌else◌, keep_if, exists, length, number_comparable, text_comparable,
}
use forkscanner.Models.Rows.{
  DbError, QueryResult, ok, err, Block, Transaction, StaleCandidate, RbfBy, DoubleSpentBy,
}
use forkscanner.Models.Query.{Db, Query, execute, select, first_row, ◌>>=◌}
use forkscanner.Models.Blocks.{rec_query, descendants}
use forkscanner.Models.StaleCandidates.{at_height}

-- ORDER BY height DESC, the first
abbrev highest : List Block → Option Block
highest [] = none
highest (b ∷ bs) = elim (highest bs) [
  | none ↦ some b
  | some x ↦ some (if ltb b.height x.height then x else b)
]

unfoldable pub get_latest : Query Block
get_latest = select (λ d. first_row (highest d.blocks))

-- ORDER BY height, work ASC; works are compared by their characters.
abbrev is_before : Block → Block → Bool
is_before a b =
    ltb a.height b.height
    || (a.height == b.height
        && elim (compare_text a.work b.work) [ Ordering.gt ↦ false | _ ↦ true ])

unfoldable pub insert_by_work : Block → List Block → List Block
insert_by_work b [] = b ∷ []
insert_by_work b (x ∷ xs) = if is_before b x then b ∷ x ∷ xs else x ∷ insert_by_work b xs

unfoldable pub order_by_work : List Block → List Block
unfolding insert_by_work
order_by_work [] = []
order_by_work (b ∷ bs) = insert_by_work b (order_by_work bs)

unfoldable pub descendants_by_work : Block → ℕ → Query (List Block)
unfolding rec_query order_by_work
descendants_by_work b limit = select (λ d.
    ok (order_by_work (keep_if (λ (x : Block). ltb x.height limit) (rec_query b.hash d.blocks))))

unfoldable pub block_and_descendant_transactions : Block → ℕ → Query (List Transaction)
unfolding descendants
block_and_descendant_transactions b limit = do
  blocks ← descendants b (some limit)
  select (λ d. ok (
      keep_if
        (λ (t : Transaction).
          not t.is_coinbase && exists (λ (x : Block). x.hash == t.block_id) blocks)
        d.transactions))

-- The rows of one statement have different keys, and none is there yet.
abbrev are_new : (String → Bool) → List String → Bool
are_new there [] = true
are_new there (x ∷ xs) = not (there x) && (not (exists (λ y. y == x) xs) && are_new there xs)

abbrev candidate_exists : Db → ℕ → Bool
candidate_exists d h = exists (at_height h) d.stale_candidates

-- No row, no violation; a key that is there violates the primary key, a missing candidate the
-- foreign key.
abbrev insert_keys : Db → ℕ → (String → Bool) → List String → Db → QueryResult ℕ × Db
insert_keys d h there [] d' = (ok 0, d)
insert_keys d h there (x ∷ xs) d' =
    if not (are_new there (x ∷ xs))
    then (err DbError.unique_violation, d)
    else if candidate_exists d h
    then (ok (length (x ∷ xs)), d')
    else (err DbError.foreign_key_violation, d)

unfoldable pub update_rbf_by : StaleCandidate → List String → Query ℕ
update_rbf_by self txids = execute (λ d.
    insert_keys d self.height
      (λ tx. exists (λ (r : RbfBy). r.candidate_height == self.height && r.txid == tx) d.rbf_by)
      txids
      (record d {
        rbf_by = d.rbf_by ++ map (λ tx. record { candidate_height = self.height; txid = tx }) txids;
      }))

unfoldable pub update_double_spent_by : StaleCandidate → List String → Query ℕ
update_double_spent_by self txids = execute (λ d.
    insert_keys d self.height
      (λ tx.
        exists (λ (r : DoubleSpentBy). r.candidate_height == self.height && r.txid == tx)
          d.double_spent_by)
      txids
      (record d {
        double_spent_by =
            d.double_spent_by
            ++ map (λ tx. record { candidate_height = self.height; txid = tx }) txids;
      }))
