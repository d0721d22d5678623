-- ===== src/Service/Checks.antt =====
-- The validation checks of src/service.rs: the stale branches near the active tips.
pub mod Branch
pub mod Answered
pub mod Found
use forkscanner.Prelude.{
  ℕ, zero, suc, ◌+◌, ◌-◌, String, Option, none, some, List, [], ◌∷◌, ◌++◌, ltb, leb, ◌==◌,
  if◌then◌else◌, find, text_comparable,
}
use forkscanner.Prelude.Int.{ℤ, pos, negsuc, sub_ℕ}
use forkscanner.Models.Rows.{QueryResult, ok, err, Block, Chaintip, StaleCandidate}
use forkscanner.Models.Query.{Query, pure, try_query, ◌>>=◌}
use forkscanner.Models.Query.Answers.{or_answer}
use forkscanner.Models.Blocks.{has_hash, get, parent, descendants, get_at_height}
use forkscanner.Models.Chaintips.{list_active}
use forkscanner.Models.StaleCandidates.{list_ge}
use forkscanner.Service.Requests.{
  ValidationCheck, JsonRpcError, internal_error, Reply, error, value_or_internal, Returned,
  returned, diverged,
}

abbrev pub block_window : ℤ
block_window = pos 10

-- What `new_candidate` answers, an option, or a loop out of fuel.
abbrev pub Candidate : Type 0
Candidate = Returned (Option ValidationCheck)

-- `while block1.height > candidate.height`
unfoldable pub lower_to : ℕ → (Block → Query Candidate) → ℕ → Block → Query Candidate
lower_to zero next height block1 = pure diverged
lower_to (suc fuel) next height block1 =
    let rest = lower_to fuel next height in
    if ltb height block1.height then or_answer (returned none) (parent block1) rest else next block1

module _ (tip : Chaintip) (candidate : StaleCandidate) (candidate_hash : String) where
  abbrev pub check : ℤ → String → ValidationCheck
  check stale_branch_len stale_branch_root = record {
    tip = tip.block;
    tip_height = tip.height;
    stale_height = candidate.height;
    height_difference = tip.height - candidate.height;
    stale_timestamp = candidate.created_at;
    stale_branch_len = stale_branch_len;
    stale_branch_root = stale_branch_root;
  }

  abbrev pub fork_or : Query Candidate → Block → Option Block → Query Candidate
  fork_or rest block1 none = rest
  fork_or rest block1 (some fork) =
      pure (returned (some (check (sub_ℕ candidate.height block1.height) block1.hash)))

  -- The `loop`, from the block below `block1`.
  unfoldable pub search_branch : ℕ → Block → Query Candidate
  unfolding or_answer
  search_branch zero block1 = pure diverged
  search_branch (suc fuel) block1 =
      let rest = search_branch fuel in
      or_answer (returned none) (parent block1) (λ p.
        or_answer (returned none) (descendants p none)
          (λ desc. fork_or (rest p) p (find (has_hash candidate_hash) desc)))

  unfoldable pub branch_from : Block → Query Candidate
  unfolding search_branch
  branch_from block1 =
      if block1.hash == candidate_hash
      then pure (returned (some (check (pos 0) candidate_hash)))
      else search_branch (suc block1.height) block1

  unfoldable pub new_candidate : Query Candidate
  unfolding branch_from lower_to
  new_candidate =
      if leb tip.height candidate.height
      then pure (returned none)
      else or_answer (returned none) (get tip.block)
          (λ b. lower_to (suc b.height) branch_from candidate.height b)

abbrev rows_or_empty {ℓ} : {A : Type ℓ} → QueryResult (List A) → List A
rows_or_empty (ok rows) = rows
rows_or_empty (err e) = []

-- `unwrap_or_default`
unfoldable pub or_default : {A B : Type 0} → Query (List A) → (List A → Query B) → Query B
or_default m f = try_query m >>= λ r. f (rows_or_empty r)

module _ {B : Type 0} where
  abbrev pub prepend : List B → Returned (List B) → Returned (List B)
  prepend xs diverged = diverged
  prepend xs (returned ys) = returned (xs ++ ys)

  abbrev pub then_rest : Query (Returned (List B)) → Returned (List B) → Query (Returned (List B))
  then_rest rest diverged = pure diverged
  then_rest rest (returned xs) = rest >>= λ ys. pure (prepend xs ys)

module _ {A B : Type 0} where
  -- `flat_map`
  unfoldable pub flat_map : (A → Query (Returned (List B))) → List A → Query (Returned (List B))
  flat_map f [] = pure (returned [])
  flat_map f (a ∷ others) = let rest = flat_map f others in f a >>= then_rest rest

abbrev pub as_list : Candidate → Returned (List ValidationCheck)
as_list diverged = diverged
as_list (returned none) = returned []
as_list (returned (some c)) = returned (c ∷ [])

-- `filter_map`
abbrev pub check_block : Chaintip → StaleCandidate → Block → Query (Returned (List ValidationCheck))
check_block tip candidate b = new_candidate tip candidate b.hash >>= λ c. pure (as_list c)

unfoldable pub check_candidate : Chaintip → StaleCandidate → Query (Returned (List ValidationCheck))
unfolding flat_map or_default
check_candidate tip candidate =
    or_default (get_at_height candidate.height) (flat_map (check_block tip candidate))

-- `tip.height - window`, where below zero is as zero for the heights of rows.
abbrev pub lowest : Chaintip → ℤ → ℕ
lowest tip (pos window) = tip.height - window
lowest tip (negsuc n) = tip.height + suc n

unfoldable pub check_tip : ℤ → Chaintip → Query (Returned (List ValidationCheck))
unfolding flat_map or_default
check_tip window tip = or_default (list_ge (lowest tip window)) (flat_map (check_candidate tip))

unfoldable pub all_checks : ℤ → List Chaintip → Query (Returned (List ValidationCheck))
unfolding flat_map
all_checks window tips = flat_map (check_tip window) tips

module _ {V : Type 0} (checks_value : List ValidationCheck → Option V) where
  abbrev pub checks_reply : Returned (List ValidationCheck) → Returned (Reply V)
  checks_reply diverged = diverged
  checks_reply (returned checks) = returned (value_or_internal (checks_value checks))

  unfoldable pub validation_checks : ℤ → Query (Returned (Reply V))
  unfolding all_checks or_answer
  validation_checks window =
      or_answer (returned (error internal_error)) list_active
        (λ tips. all_checks window tips >>= λ checks. pure (checks_reply checks))
