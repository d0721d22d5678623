-- ===== src/Scanner/Rollback/Ends.antt =====
-- The loop of `set_tip_active` of src/scanner.rs ends where the call for the chain tips answers.
use forkscanner.Prelude.{
  ℕ, zero, suc, ◌+◌, ◌≤◌, ◌≡◌, ◌≢◌, refl, String, Option, none, some, List, [], ◌∷◌, ltb, ◌==◌,
  arith, text_comparable, number_comparable,
}
use forkscanner.Models.Rows.{Block}
use forkscanner.Models.Query.{Db}
use forkscanner.Models.Blocks.{children}
use forkscanner.Scanner.Linking.Ancestry.{ParentsLower}
use forkscanner.Scanner.Network.{
  Client, Network, ChainTip, RpcResult, Scan, ScanResult, World, panicked, failed_rollback,
  diverged, or_fail,
}
use forkscanner.Scanner.Network.Returns.{
  AnyAnswer, Returns, Returns-pure, Returns-fail, Returns-branch, Returns-then, Returns-call,
  Returns-query, Returns-read, Returns-answered,
}
use forkscanner.Scanner.Forks.{ForkPoint}
use forkscanner.Scanner.Forks.Ends.{Ended, find_fork_point-Ended}
use forkscanner.Scanner.Forks.Quiet.{find_fork_point-StaysSound}
use forkscanner.Scanner.Rollback.{
  max_retries, invalidate, branch_blocks, child_hashes, invalidate_then, on_children, leave_branch,
  on_active, on_tips, make_active, set_tip_active,
}

module _ {N : Type 0} (net : Network N) (client : Client) (d : Db) (lower : ParentsLower d) where
  panic_ends :
      {A : Type 0} → Returns {N = N} d {A = A} AnyAnswer (λ w. (ScanResult.err panicked, w))
  panic_ends = Returns-fail d panicked (λ e. absurd (cc))

  invalidate-Returns : (hs : List String) → Returns d AnyAnswer (invalidate net client hs)
  unfolding invalidate
  invalidate-Returns [] = Returns-pure d tt
  invalidate-Returns (h ∷ hs) = Returns-then d _ _ (Returns-call d _) (λ _ _. invalidate-Returns hs)

  branch_blocks-Returns : (p : ForkPoint) → Ended p → Returns d AnyAnswer (branch_blocks net p)
  branch_blocks-Returns (ForkPoint.point h) e = Returns-pure d _
  branch_blocks-Returns ForkPoint.no_point e = Returns-pure d _
  branch_blocks-Returns ForkPoint.panicked e = panic_ends
  branch_blocks-Returns ForkPoint.diverged e = absurd e

  or_panic : {A : Type 0} (o : Option A) → Returns {N = N} d AnyAnswer (or_fail o panicked)
  or_panic none = panic_ends
  or_panic (some a) = Returns-pure d a

  child_hashes-Returns : (bs : List Block) → Returns d AnyAnswer (child_hashes net bs)
  unfolding child_hashes
  child_hashes-Returns [] = Returns-pure d _
  child_hashes-Returns (b ∷ bs) =
      Returns-then d _ _ (or_panic _)
        (λ h _. Returns-then d _ _ (child_hashes-Returns bs) (λ hs _. Returns-pure d _))

  module _ (hash : String) (height : ℕ) where
    module _ (again : ℕ → List String → Scan N (List String)) (retries : ℕ)
        (k : retries ≤ max_retries
          → (invalidated : List String)
          → Returns d AnyAnswer (again (suc retries) invalidated)) where
      invalidate_then-Returns :
          retries ≤ max_retries
          → (invalidated hs : List String)
          → Returns d AnyAnswer
              (invalidate_then net client hash height again retries invalidated hs)
      invalidate_then-Returns few invalidated hs =
          Returns-then d _ _ (invalidate-Returns hs) (λ _ _. k few _)

      on_children-Returns :
          retries ≤ max_retries
          → (invalidated branch : List String) (r : ScanResult (List Block))
          → (bs : List Block) × (r ≡ ScanResult.ok bs)
          → Returns d AnyAnswer
              (on_children net client hash height again retries invalidated branch r)
      on_children-Returns few invalidated branch (ScanResult.ok blocks) e =
          Returns-then d _ _ (child_hashes-Returns blocks)
            (λ hs _. invalidate_then-Returns few invalidated _)
      on_children-Returns few invalidated branch (ScanResult.err why) (bs, e) = absurd (cc)

      leave_branch-Returns :
          retries ≤ max_retries
          → (invalidated : List String) (tip : ChainTip)
          → Returns d AnyAnswer (leave_branch net client hash height again retries invalidated tip)
      unfolding children
      leave_branch-Returns few invalidated tip =
          Returns-then d _ _
            (Returns-query d _
              (find_fork_point-Ended net.parse_hash d lower hash tip.hash tip.height height)
              (find_fork_point-StaysSound net.parse_hash hash tip.hash tip.height height))
            (λ found ended. Returns-then d _ _ (branch_blocks-Returns found ended) (λ branch _.
              Returns-then d _ _ (Returns-read d _) (on_children-Returns few invalidated branch)))

      on_active-Returns :
          (invalidated : List String) (o : Option ChainTip)
          → Returns d AnyAnswer (on_active net client hash height again retries invalidated o)
      on_active-Returns invalidated none = panic_ends
      on_active-Returns invalidated (some tip) =
          Returns-branch d (tip.hash == hash) _ _ (λ _. Returns-pure d _)
            (λ _.
              Returns-branch d (ltb max_retries retries) _ _
                (λ _. Returns-fail d failed_rollback (λ e. absurd (cc)))
                (λ few.
                  Returns-branch d (tip.height == height) _ _
                    (λ _. invalidate_then-Returns (ground arith) invalidated _)
                    (λ _. leave_branch-Returns (ground arith) invalidated tip)))

    module _
        (answers : (n : N)
          → (tips : List ChainTip) × ((net.get_chain_tips client n).0 ≡ RpcResult.ok tips)) where
      on_tips-Returns :
          (again : ℕ → List String → Scan N (List String)) (retries : ℕ) (invalidated : List String)
          → (retries ≤ max_retries
              → (invalidated : List String) → Returns d AnyAnswer (again (suc retries) invalidated))
          → (r : ScanResult (List ChainTip)) → (tips : List ChainTip) × (r ≡ ScanResult.ok tips)
          → Returns d AnyAnswer (on_tips net client hash height again retries invalidated r)
      on_tips-Returns again retries invalidated k (ScanResult.ok tips) e =
          on_active-Returns again retries k invalidated _
      on_tips-Returns again retries invalidated k (ScanResult.err why) (tips, e) = absurd (cc)

      make_active-Returns :
          (fuel retries : ℕ) (invalidated : List String)
          → max_retries + 2 ≤ fuel + retries
          → retries ≤ max_retries + 1
          → Returns d AnyAnswer (make_active net client hash height fuel retries invalidated)
      unfolding make_active
      make_active-Returns zero retries invalidated enough few = absurd (omega arith)
      make_active-Returns (suc fuel) retries invalidated enough few =
          Returns-then d _ _ (Returns-answered d (net.get_chain_tips client) answers) (
            on_tips-Returns (make_active net client hash height fuel) retries invalidated
              (λ below new. make_active-Returns fuel (suc retries) new (omega arith) (omega arith)))

-- Where the node always answers the call for its chain tips, no statement fails, and a parent is
-- lower than its child: 102 rounds are enough for `set_tip_active`.
pub set_tip_active_ends :
    {N : Type 0} (net : Network N) (mirror_client : Client) (tip_hash : String) (tip_height : ℕ)
    (w : World N)
    → ((n : N)
        → (tips : List ChainTip) × ((net.get_chain_tips mirror_client n).0 ≡ RpcResult.ok tips))
    → ParentsLower w.conn.db
    → w.conn.faults ≡ []
    → (set_tip_active net 102 mirror_client tip_hash tip_height w).0 ≢ ScanResult.err diverged
unfolding set_tip_active
set_tip_active_ends net mirror_client tip_hash tip_height w answers lower sound =
    ((make_active-Returns net mirror_client w.conn.db lower tip_hash tip_height answers 102 0 []
        (omega arith) (omega arith)).at
      w (refl, sound)).1.0
