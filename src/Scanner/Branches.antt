-- ===== src/Scanner/Branches.antt =====
-- `set_children` and `get_confirmed_in_one_branch` of src/scanner.rs: the branches of a stale
-- candidate, and the transactions that only one of them confirms.
pub mod Counted
use forkscanner.Prelude.{
  ℕ, suc, ◌+◌, String, Bool, true, false, not, ◌&&◌, ◌||◌, Option, none, some, List, [], ◌∷◌, ◌++◌,
  map, length, ltb, ◌==◌, if◌then◌else◌, keep_if, exists, number_comparable, text_comparable,
}
use forkscanner.Models.Rows.{
  QueryResult, ok, err, Block, StaleCandidate, StaleCandidateChildren, Transaction,
}
use forkscanner.Models.Query.{Query, pure, try_query, ◌>>=◌, ◌>>◌}
use forkscanner.Models.Query.Answers.{or_answer}
use forkscanner.Models.Blocks.{get, get_at_height, num_transactions, descendants}
use forkscanner.Models.Branches.{descendants_by_work, block_and_descendant_transactions}
use forkscanner.Models.StaleCandidates as Stale
use forkscanner.Scanner.StaleCandidates.{stale_window}

abbrev pub double_spend_range : ℕ
double_spend_range = 30

-- `last()`
abbrev pub last_of : List Block → Option Block
last_of [] = none
last_of (b ∷ []) = some b
last_of (b ∷ x ∷ xs) = last_of (x ∷ xs)

-- The candidate after a step, or `none`: the `unwrap` of the last descendant panics.
abbrev pub add_branch :
    (StaleCandidate → Query (Option StaleCandidate))
    → StaleCandidate
    → Block
    → List Block
    → Option Block
    → Query (Option StaleCandidate)
add_branch rest candidate b descs none = pure none
add_branch rest candidate b descs (some tip) = do
  try_query (Stale.create_child b tip (length descs))
  rest (record candidate { n_children = suc candidate.n_children })

abbrev pub on_descendants :
    (StaleCandidate → Query (Option StaleCandidate))
    → StaleCandidate
    → Block
    → QueryResult (List Block)
    → Query (Option StaleCandidate)
on_descendants rest candidate b (err e) = rest candidate
on_descendants rest candidate b (ok descs) = add_branch rest candidate b descs (last_of descs)

-- The loop over the blocks at the height of the candidate.
unfoldable pub add_branches : List Block → StaleCandidate → Query (Option StaleCandidate)
unfolding descendants_by_work
add_branches [] candidate = pure (some candidate)
add_branches (b ∷ bs) candidate =
    let rest = add_branches bs in
    (do
      descs ← try_query (descendants_by_work b (b.height + stale_window))
      on_descendants rest candidate b descs)

abbrev store : Option StaleCandidate → Query (Option StaleCandidate)
store none = pure none
store (some candidate) = do try_query (Stale.update candidate); pure (some candidate)

unfoldable pub set_children : StaleCandidate → Query (Option StaleCandidate)
unfolding add_branches or_answer
set_children candidate = or_answer (some candidate) (Stale.purge_children candidate) (λ _.
    or_answer (some candidate) (get_at_height candidate.height)
      (λ blocks. add_branches blocks candidate >>= store))

-- The ids that one branch confirms, or none; `panicked` is an index past the end.
pub data Confirmed : Type 0 where
  confirmed : List String → Confirmed
  unconfirmed panicked : Confirmed

abbrev has_headers_only : QueryResult Block → Bool
has_headers_only (ok b) = b.headers_only
has_headers_only (err e) = false

-- `all` over the children: it stops at the first that is not.
unfoldable pub all_headers_only : List StaleCandidateChildren → Query Bool
all_headers_only [] = pure true
all_headers_only (c ∷ cs) =
    let rest = all_headers_only cs in
    (do b ← try_query (get c.root_id); if has_headers_only b then rest else pure false)

-- Every block of the list has transactions.
unfoldable pub all_have_txs :
    Confirmed → Bool → List Block → (Bool → Query Confirmed) → Query Confirmed
unfolding or_answer
all_have_txs none_answer there [] k = k there
all_have_txs none_answer there (b ∷ bs) k =
    or_answer none_answer (num_transactions b)
      (λ (txs : ℕ). all_have_txs none_answer (there && ltb 0 txs) bs k)

abbrev ids_of : List Transaction → List String
ids_of ts = map (λ (t : Transaction). t.txid) ts

-- The ids of a branch, for the rest of the function; it ends where the branch lacks transactions.
unfoldable pub branch_ids : String → (List String → Query Confirmed) → Query Confirmed
unfolding all_have_txs or_answer
branch_ids root_id k = or_answer unconfirmed (get root_id) (λ block.
    or_answer unconfirmed (num_transactions block) (λ txs.
      or_answer unconfirmed (descendants block (some double_spend_range)) (λ descs.
        all_have_txs unconfirmed (ltb 0 txs) descs (λ there.
          if not there
          then pure unconfirmed
          else or_answer unconfirmed (block_and_descendant_transactions block double_spend_range)
              (λ ts. k (ids_of ts))))))

-- The elements of a set, each once.
abbrev as_set : List String → List String
as_set [] = []
as_set (x ∷ xs) = let rest = as_set xs in if exists (λ y. y == x) xs then rest else x ∷ rest

abbrev difference : List String → List String → List String
difference xs ys = keep_if (λ x. not (exists (λ y. y == x) ys)) xs

abbrev only_in_one : List String → List String → List String
only_in_one short long =
    if ltb (length short) (length long)
    then difference short long
    else difference short long ++ difference long short

abbrev compare_branches : List StaleCandidateChildren → Query Confirmed
compare_branches [] = pure panicked
compare_branches (c ∷ []) = branch_ids c.root_id (λ short. pure panicked)
compare_branches (c ∷ c' ∷ cs) = branch_ids c.root_id (λ short.
    branch_ids c'.root_id (λ long. pure (confirmed (only_in_one (as_set short) (as_set long)))))

unfoldable pub get_confirmed_in_one_branch : StaleCandidate → Query Confirmed
unfolding all_headers_only branch_ids or_answer
get_confirmed_in_one_branch candidate =
    if not (candidate.n_children == 2)
    then pure unconfirmed
    else or_answer unconfirmed (Stale.children candidate) (λ children.
      all_headers_only children >>= λ headers_only.
      if headers_only then pure unconfirmed else compare_branches children)
