-- ===== src/Service/Checks/Branch.antt =====
-- What `ValidationCheck::new_candidate` of src/service.rs answers for a block near a tip.
use forkscanner.Prelude.{
  ℕ, zero, suc, ◌+◌, ◌-◌, ◌<◌, ◌≤◌, ◌≡◌, refl, ◌⊎◌, inl, inr, String, Option, none, some, List,
  find, find_holds, All, All-find, ltb, leb, ◌==◌, text_comparable, eq_of_str_eq, arith,
}
use forkscanner.Prelude.Int.{pos, sub_ℕ}
use forkscanner.Models.Rows.{Block, Chaintip, StaleCandidate}
use forkscanner.Models.Query.{Db, Query}
use forkscanner.Models.Query.Answers.{Answers, Answers-pure, Answers-if, Answers-or_answer}
use forkscanner.Models.Blocks.{has_hash, block_at, get, parent, descendants}
use forkscanner.Models.Blocks.Parents.{get-Answers, parent-Answers}
use forkscanner.Models.Blocks.Descendants.{IsAbove, descendants-Answers}
use forkscanner.Scanner.Linking.Ancestry.{IsStored, ParentsLower, block_at-IsStored}
use forkscanner.Scanner.Forks.Shared.{IsAncestor, itself, parent_of}
use forkscanner.Service.Requests.{ValidationCheck, returned, diverged}
use forkscanner.Service.Checks.{
  Candidate, lower_to, check, fork_or, search_branch, branch_from, new_candidate,
}

-- The root is the block itself, or a block with the hash is above the root.
abbrev pub IsRootOf : Db → String → ℕ → Block → Type 0
IsRootOf d hash height root =
    (root.hash ≡ hash)
    ⊎ ((root.height < height) × ((b : Block) × (b.hash ≡ hash) × IsAbove d.blocks root.hash b))

-- The check says how far the block with the hash `hash` is from the chain of the tip: the root of
-- its branch is a block of that chain.
pub record IsCheck (d : Db) (tip : Chaintip) (candidate : StaleCandidate) (hash : String)
    (c : ValidationCheck) : Type 0 where
  pub tip_block : Block
  pub root : Block
  pub tip_stored : block_at d tip.block ≡ some tip_block
  pub below_tip : IsAncestor d tip_block root
  pub is_root : IsRootOf d hash candidate.height root
  pub root_hash : c.stale_branch_root ≡ root.hash
  pub root_height : root.height ≤ candidate.height
  pub branch_len :
      ((root.hash ≡ hash) × (c.stale_branch_len ≡ pos 0))
      ⊎ (c.stale_branch_len ≡ pos (candidate.height - root.height))
  pub names_tip : c.tip ≡ tip.block
  pub tip_height : c.tip_height ≡ tip.height
  pub stale_height : c.stale_height ≡ candidate.height
  pub difference : c.stale_height + c.height_difference ≡ c.tip_height

-- A candidate that ended, with a check of the block or none.
abbrev pub IsChecked : Db → Chaintip → StaleCandidate → String → Candidate → Type 0
IsChecked d tip candidate hash diverged = ⊥
IsChecked d tip candidate hash (returned none) = Unit
IsChecked d tip candidate hash (returned (some c)) = IsCheck d tip candidate hash c

module _ (d : Db) (lower : ParentsLower d) (tip : Chaintip) (candidate : StaleCandidate)
    (hash : String) (higher : candidate.height < tip.height) (tip_block : Block)
    (tip_stored : block_at d tip.block ≡ some tip_block) where
  abbrev Checked : Candidate → Type 0
  Checked = IsChecked d tip candidate hash

  -- The block at hand on the chain of the tip.
  abbrev OnChain : Block → Type 0
  OnChain b = IsAncestor d tip_block b × IsStored d b

  parent_OnChain :
      (b p : Block) (h : String)
      → OnChain b
      → b.parent_hash ≡ some h
      → block_at d h ≡ some p
      → OnChain p × (p.height < b.height)
  parent_OnChain b p h (up, stored) link found = (
    (parent_of b p h up link found, block_at-IsStored d h p found),
    lower b p h stored link found,
  )

  forked-IsCheck :
      (p b : Block)
      → IsAncestor d tip_block p
      → p.height < candidate.height
      → b.hash ≡ hash
      → IsAbove d.blocks p.hash b
      → IsCheck d tip candidate hash
          (check tip candidate hash (sub_ℕ candidate.height p.height) p.hash)
  forked-IsCheck p b up below same above = record {
    tip_block = tip_block;
    root = p;
    tip_stored = tip_stored;
    below_tip = up;
    is_root = inr (below, (b, same, above));
    root_hash = refl;
    root_height = omega (arith, below);
    branch_len = inr (ground (arith, below));
    names_tip = refl;
    tip_height = refl;
    stale_height = refl;
    difference = omega (arith, higher);
  }

  fork_or-Answers :
      (rest : Query Candidate) (p : Block) (desc : List Block) (o : Option Block)
      → find (has_hash hash) desc ≡ o
      → IsAncestor d tip_block p
      → p.height < candidate.height
      → All (IsAbove d.blocks p.hash) desc
      → Answers d Checked rest
      → Answers d Checked (fork_or tip candidate hash rest p o)
  fork_or-Answers rest p desc none e up below above k = k
  fork_or-Answers rest p desc (some b) e up below above k = Answers-pure _ (
      forked-IsCheck p b up below (eq_of_str_eq b.hash hash (find_holds (has_hash hash) desc b e))
        (All-find _ (has_hash hash) desc b above e))

  search_branch-Answers :
      (fuel : ℕ) (b : Block)
      → OnChain b
      → b.height < fuel
      → b.height ≤ candidate.height
      → Answers d Checked (search_branch tip candidate hash fuel b)
  unfolding search_branch
  search_branch-Answers zero b on enough low = absurd (omega arith)
  search_branch-Answers (suc fuel) b on enough low =
      Answers-or_answer (returned none) (parent b) _ tt (parent-Answers d b) (λ p (h, link, found).
        let (on', below) = parent_OnChain b p h on link found in
        Answers-or_answer (returned none) (descendants p none) _ tt (descendants-Answers d p none)
          (λ desc above.
            fork_or-Answers _ p desc _ refl on'.0 (omega arith) above
              (search_branch-Answers fuel p on' (omega arith) (omega arith))))

  branch_from-Answers :
      (b : Block)
      → OnChain b
      → b.height ≤ candidate.height
      → Answers d Checked (branch_from tip candidate hash b)
  unfolding branch_from
  branch_from-Answers b on low =
      Answers-if (b.hash == hash) _ _
        (λ same. Answers-pure _ (in_chain (eq_of_str_eq b.hash hash same)))
        (λ _. search_branch-Answers (suc b.height) b on (omega arith) low)
    where
      in_chain :
          b.hash ≡ hash → IsCheck d tip candidate hash (check tip candidate hash (pos 0) hash)
      in_chain same = record {
        tip_block = tip_block;
        root = b;
        tip_stored = tip_stored;
        below_tip = on.0;
        is_root = inl same;
        root_hash = cc;
        root_height = low;
        branch_len = inl (same, refl);
        names_tip = refl;
        tip_height = refl;
        stale_height = refl;
        difference = omega (arith, higher);
      }

  lower_to-Answers :
      (fuel : ℕ) (b : Block)
      → OnChain b
      → b.height < fuel
      → Answers d Checked (lower_to fuel (branch_from tip candidate hash) candidate.height b)
  unfolding lower_to
  lower_to-Answers zero b on enough = absurd (omega arith)
  lower_to-Answers (suc fuel) b on enough =
      Answers-if (ltb candidate.height b.height) _ _
        (λ _.
          Answers-or_answer (returned none) (parent b) _ tt (parent-Answers d b)
            (λ p (h, link, found).
              let (on', below) = parent_OnChain b p h on link found in
              lower_to-Answers fuel p on' (omega arith)))
        (λ low. branch_from-Answers b on (ground (arith, low)))

pub new_candidate-Answers :
    (d : Db) (lower : ParentsLower d) (tip : Chaintip) (candidate : StaleCandidate) (hash : String)
    → Answers d (IsChecked d tip candidate hash) (new_candidate tip candidate hash)
unfolding new_candidate
new_candidate-Answers d lower tip candidate hash =
    Answers-if (leb tip.height candidate.height) _ _ (λ _. Answers-pure _ tt)
      (λ high.
        Answers-or_answer (returned none) (get tip.block) _ tt (get-Answers d tip.block)
          (λ b stored.
            lower_to-Answers d lower tip candidate hash (ground (arith, high)) b stored
              (suc b.height) b (itself, block_at-IsStored d tip.block b stored) (omega arith)))
