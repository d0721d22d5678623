-- ===== src/Service/Checks/Answered.antt =====
-- `validation_checks` of src/service.rs handles every error of a statement.
use forkscanner.Prelude.{
  ℕ, zero, suc, String, Option, none, some, List, [], ◌∷◌, ltb, leb, ◌==◌, text_comparable, find,
}
use forkscanner.Prelude.Int.{ℤ}
use forkscanner.Models.Rows.{Block, Chaintip, StaleCandidate}
use forkscanner.Models.Query.{Query}
use forkscanner.Models.Query.Total.{
  Total, Total-pure, Total-if, Total-or_answer, Total-try_bind, Total-bind,
}
use forkscanner.Models.Blocks.{has_hash, get, parent, descendants, get_at_height}
use forkscanner.Models.Chaintips.{list_active}
use forkscanner.Models.StaleCandidates.{list_ge}
use forkscanner.Service.Requests.{
  ValidationCheck, error, internal_error, Returned, returned, diverged,
}
use forkscanner.Service.Checks.{
  Candidate, lower_to, fork_or, search_branch, branch_from, new_candidate, or_default, then_rest,
  flat_map, check_block, check_candidate, lowest, check_tip, all_checks, validation_checks,
}

module _ (tip : Chaintip) (candidate : StaleCandidate) (hash : String) where
  fork_or-Total :
      (rest : Query Candidate) (p : Block) (o : Option Block)
      → Total rest
      → Total (fork_or tip candidate hash rest p o)
  fork_or-Total rest p none k = k
  fork_or-Total rest p (some b) k = Total-pure _

  search_branch-Total : (fuel : ℕ) (b : Block) → Total (search_branch tip candidate hash fuel b)
  unfolding search_branch
  search_branch-Total zero b = Total-pure _
  search_branch-Total (suc fuel) b = Total-or_answer _ (parent b) _ (λ p.
      Total-or_answer _ (descendants p none) _
        (λ desc. fork_or-Total _ p (find (has_hash hash) desc) (search_branch-Total fuel p)))

  lower_to-Total :
      (fuel : ℕ) (next : Block → Query Candidate) (height : ℕ) (b : Block)
      → ((x : Block) → Total (next x))
      → Total (lower_to fuel next height b)
  unfolding lower_to
  lower_to-Total zero next height b k = Total-pure _
  lower_to-Total (suc fuel) next height b k =
      Total-if (ltb height b.height) _ _
        (Total-or_answer _ (parent b) _ (λ p. lower_to-Total fuel next height p k)) (k b)

  branch_from-Total : (b : Block) → Total (branch_from tip candidate hash b)
  unfolding branch_from
  branch_from-Total b =
      Total-if (b.hash == hash) _ _ (Total-pure _) (search_branch-Total (suc b.height) b)

  new_candidate-Total : Total (new_candidate tip candidate hash)
  unfolding new_candidate
  new_candidate-Total = Total-if (leb tip.height candidate.height) _ _ (Total-pure _) (
      Total-or_answer (returned none) (get tip.block) _ (λ b.
        lower_to-Total (suc b.height) (branch_from tip candidate hash) candidate.height b
          branch_from-Total))

module _ {A : Type 0} where
  then_rest-Total :
      (rest : Query (Returned (List A))) (r : Returned (List A))
      → Total rest
      → Total (then_rest rest r)
  then_rest-Total rest diverged k = Total-pure _
  then_rest-Total rest (returned xs) k = Total-bind rest _ k (λ ys. Total-pure _)

module _ {A B : Type 0} where
  flat_map-Total :
      (f : B → Query (Returned (List A)))
      → ((b : B) → Total (f b))
      → (xs : List B) → Total (flat_map f xs)
  unfolding flat_map
  flat_map-Total f k [] = Total-pure _
  flat_map-Total f k (x ∷ xs) =
      Total-bind (f x) _ (k x) (λ r. then_rest-Total _ r (flat_map-Total f k xs))

check_candidate-Total :
    (tip : Chaintip) (candidate : StaleCandidate) → Total (check_candidate tip candidate)
unfolding check_candidate or_default
check_candidate-Total tip candidate = Total-try_bind (get_at_height candidate.height) _ (λ bs.
    flat_map-Total (check_block tip candidate)
      (λ b. Total-bind _ _ (new_candidate-Total tip candidate b.hash) (λ r. Total-pure _)) _)

check_tip-Total : (window : ℤ) (tip : Chaintip) → Total (check_tip window tip)
unfolding check_tip or_default
check_tip-Total window tip =
    Total-try_bind (list_ge (lowest tip window)) _
      (λ cs. flat_map-Total (check_candidate tip) (check_candidate-Total tip) _)

pub validation_checks-Total :
    {V : Type 0} (checks_value : List ValidationCheck → Option V) (window : ℤ)
    → Total (validation_checks checks_value window)
unfolding validation_checks all_checks
validation_checks-Total checks_value window =
    Total-or_answer (returned (error internal_error)) list_active _ (λ tips.
      Total-bind _ _ (flat_map-Total (check_tip window) (check_tip-Total window) tips)
        (λ r. Total-pure _))
