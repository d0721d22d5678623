-- ===== src/Scanner/Rollback/Kept.antt =====
-- `set_tip_active` of src/scanner.rs only reads the tables.
use forkscanner.Prelude.{
  ℕ, zero, suc, refl, sym, subst, String, Option, none, some, List, [], ◌∷◌, ltb, ◌==◌,
  text_comparable, number_comparable,
}
use forkscanner.Models.Rows.{Block}
use forkscanner.Models.Query.{Db, Query}
use forkscanner.Models.Query.Keeps.{Keeps, Keeps-select}
use forkscanner.Models.Query.Answers.{Answers}
use forkscanner.Models.Blocks.{children}
use forkscanner.Scanner.Network.{Client, Network, ChainTip, Scan, ScanResult}
use forkscanner.Scanner.Network.Keeps.{
  ScanKeeps, ScanKeeps-db, ScanKeeps-rpc, ScanKeeps-done, ScanKeeps-error, ScanKeeps-caught,
  ScanKeeps-or_fail, ScanKeeps-branch, ScanKeeps-then,
}
use forkscanner.Scanner.Forks.{ForkPoint}
use forkscanner.Scanner.Forks.Shared.{find_fork_point-Answers}
use forkscanner.Scanner.Rollback.{
  max_retries, invalidate, branch_blocks, child_hashes, invalidate_then, on_children, leave_branch,
  on_active, on_tips, make_active, set_tip_active,
}

-- A query of which it is known what it answers leaves the tables.
pub Answers-Keeps :
    {A : Type 0} {P : Db → Type 0} (Q : Db → A → Type 0) (m : Query A)
    → ((d : Db) → Answers d (Q d) m)
    → Keeps P m
Answers-Keeps {P} Q m k = record { at = λ c h. subst P (sym ((k c.db).at c refl).0) h }

module _ {N : Type 0} (net : Network N) (client : Client) (P : Db → Type 0) where
  invalidate-Keeps : (hs : List String) → ScanKeeps P (invalidate net client hs)
  unfolding invalidate
  invalidate-Keeps [] = ScanKeeps-done _
  invalidate-Keeps (h ∷ hs) =
      ScanKeeps-then _ _ (ScanKeeps-caught _ (ScanKeeps-rpc _)) (λ _. invalidate-Keeps hs)

  branch_blocks-Keeps : (p : ForkPoint) → ScanKeeps P (branch_blocks net p)
  branch_blocks-Keeps (ForkPoint.point h) = ScanKeeps-done _
  branch_blocks-Keeps ForkPoint.no_point = ScanKeeps-done _
  branch_blocks-Keeps ForkPoint.panicked = ScanKeeps-error _
  branch_blocks-Keeps ForkPoint.diverged = ScanKeeps-error _

  child_hashes-Keeps : (bs : List Block) → ScanKeeps P (child_hashes net bs)
  unfolding child_hashes
  child_hashes-Keeps [] = ScanKeeps-done _
  child_hashes-Keeps (b ∷ bs) =
      ScanKeeps-then _ _ (ScanKeeps-or_fail _ _)
        (λ h. ScanKeeps-then _ _ (child_hashes-Keeps bs) (λ hs. ScanKeeps-done _))

  module _ (hash : String) (height : ℕ) where
    module _ (again : ℕ → List String → Scan N (List String))
        (k : (retries : ℕ) (invalidated : List String)
          → ScanKeeps P (again retries invalidated)) where
      invalidate_then-Keeps :
          (retries : ℕ) (invalidated hs : List String)
          → ScanKeeps P (invalidate_then net client hash height again retries invalidated hs)
      invalidate_then-Keeps retries invalidated hs =
          ScanKeeps-then _ _ (invalidate-Keeps hs) (λ _. k _ _)

      on_children-Keeps :
          (retries : ℕ) (invalidated branch : List String) (blocks : ScanResult (List Block))
          → ScanKeeps P (on_children net client hash height again retries invalidated branch blocks)
      on_children-Keeps retries invalidated branch (ScanResult.err e) = k _ _
      on_children-Keeps retries invalidated branch (ScanResult.ok blocks) =
          ScanKeeps-then _ _ (child_hashes-Keeps blocks)
            (λ hs. invalidate_then-Keeps retries invalidated _)

      leave_branch-Keeps :
          (retries : ℕ) (invalidated : List String) (tip : ChainTip)
          → ScanKeeps P (leave_branch net client hash height again retries invalidated tip)
      unfolding children
      leave_branch-Keeps retries invalidated tip =
          ScanKeeps-then _ _
            (ScanKeeps-db _ (
              Answers-Keeps _ _
                (λ d. find_fork_point-Answers net.parse_hash d tip.hash tip.height hash height)))
            (λ found. ScanKeeps-then _ _ (branch_blocks-Keeps found) (λ branch.
              ScanKeeps-then _ _ (ScanKeeps-caught _ (ScanKeeps-db _ (Keeps-select _)))
                (on_children-Keeps retries invalidated branch)))

      on_active-Keeps :
          (retries : ℕ) (invalidated : List String) (o : Option ChainTip)
          → ScanKeeps P (on_active net client hash height again retries invalidated o)
      on_active-Keeps retries invalidated none = ScanKeeps-error _
      on_active-Keeps retries invalidated (some tip) =
          ScanKeeps-branch (tip.hash == hash) _ _ (λ _. ScanKeeps-done _)
            (λ _.
              ScanKeeps-branch (ltb max_retries retries) _ _ (λ _. ScanKeeps-error _)
                (λ _.
                  ScanKeeps-branch (tip.height == height) _ _
                    (λ _. invalidate_then-Keeps retries invalidated _)
                    (λ _. leave_branch-Keeps retries invalidated tip)))

      on_tips-Keeps :
          (retries : ℕ) (invalidated : List String) (tips : ScanResult (List ChainTip))
          → ScanKeeps P (on_tips net client hash height again retries invalidated tips)
      on_tips-Keeps retries invalidated (ScanResult.err e) = k _ _
      on_tips-Keeps retries invalidated (ScanResult.ok tips) = on_active-Keeps retries invalidated _

    make_active-Keeps :
        (fuel retries : ℕ) (invalidated : List String)
        → ScanKeeps P (make_active net client hash height fuel retries invalidated)
    unfolding make_active
    make_active-Keeps zero retries invalidated = ScanKeeps-error _
    make_active-Keeps (suc fuel) retries invalidated =
        ScanKeeps-then _ _ (ScanKeeps-caught _ (ScanKeeps-rpc _))
          (on_tips-Keeps _ (make_active-Keeps fuel) retries invalidated)

  pub set_tip_active-Keeps :
      (fuel : ℕ) (hash : String) (height : ℕ)
      → ScanKeeps P (set_tip_active net fuel client hash height)
  unfolding set_tip_active
  set_tip_active-Keeps fuel hash height = make_active-Keeps hash height fuel 0 []
