-- ===== src/Scanner/Rollback.antt =====
-- `make_block_active` and `set_tip_active` of src/scanner.rs: blocks of a node are invalidated
-- until a requested block is its active tip.
pub mod Reached
pub mod Ends
pub mod Kept
use forkscanner.Prelude.{
  ℕ, zero, suc, String, Bool, true, false, Option, none, some, List, [], ◌∷◌, ◌++◌, ltb, ◌==◌,
  if◌then◌else◌, find, text_comparable, number_comparable,
}
use forkscanner.Models.Rows.{Block}
use forkscanner.Models.Blocks.{children}
use forkscanner.Scanner.Network.{
  Client, Network, ChainTip, Status, Scan, ScanError, ScanResult, World, db, rpc, pure, fail,
  try_scan, or_fail, failed_rollback, panicked, ◌>>=◌, ◌>>◌,
}
use forkscanner.Scanner.Network as Net
use forkscanner.Scanner.Forks.{ForkPoint, point, no_point, find_fork_point}

abbrev pub is_active : ChainTip → Bool
is_active t = elim t.status [ Status.active ↦ true | _ ↦ false ]

abbrev pub max_retries : ℕ
max_retries = 100

module _ {N : Type 0} (net : Network N) where
  -- `let _ = client.invalidate_block(&b)`
  unfoldable pub invalidate : Client → List String → Scan N (Unit {0})
  invalidate client [] = pure tt
  invalidate client (h ∷ hs) =
      try_scan (rpc (net.invalidate_block client h)) >> invalidate client hs

  abbrev pub branch_blocks : ForkPoint → Scan N (List String)
  branch_blocks (point h) = pure (h ∷ [])
  branch_blocks no_point = pure []
  branch_blocks ForkPoint.panicked = fail panicked
  branch_blocks ForkPoint.diverged = fail Net.diverged

  unfoldable pub child_hashes : List Block → Scan N (List String)
  child_hashes [] = pure []
  child_hashes (b ∷ bs) =
      let rest = child_hashes bs in
      (do h ← or_fail (net.parse_hash b.hash) panicked; hs ← rest; pure (h ∷ hs))

  module _ (client : Client) (hash : String) (height : ℕ) where
    -- A round that invalidated the blocks `hs`; `again` takes the retries and the hashes so far.
    abbrev pub invalidate_then :
        (ℕ → List String → Scan N (List String))
        → ℕ
        → List String
        → List String
        → Scan N (List String)
    invalidate_then again retries invalidated hs =
        invalidate client hs >> again (suc retries) (invalidated ++ hs)

    abbrev pub on_children :
        (ℕ → List String → Scan N (List String))
        → ℕ
        → List String
        → List String
        → ScanResult (List Block)
        → Scan N (List String)
    on_children again retries invalidated branch (ScanResult.err e) = again retries invalidated
    on_children again retries invalidated branch (ScanResult.ok blocks) = do
      hs ← child_hashes blocks
      invalidate_then again retries invalidated (branch ++ hs)

    abbrev pub leave_branch :
        (ℕ → List String → Scan N (List String)) → ℕ → List String → ChainTip → Scan N (List String)
    leave_branch again retries invalidated tip = do
      found ← db (find_fork_point net.parse_hash tip.hash tip.height hash height)
      branch ← branch_blocks found
      blocks ← try_scan (db (children hash))
      on_children again retries invalidated branch blocks

    abbrev pub on_active :
        (ℕ → List String → Scan N (List String))
        → ℕ
        → List String
        → Option ChainTip
        → Scan N (List String)
    on_active again retries invalidated none = fail panicked
    on_active again retries invalidated (some tip) =
        if tip.hash == hash
        then pure invalidated
        else if ltb max_retries retries
        then fail failed_rollback
        else if tip.height == height
        then invalidate_then again retries invalidated (tip.hash ∷ [])
        else leave_branch again retries invalidated tip

    abbrev pub on_tips :
        (ℕ → List String → Scan N (List String))
        → ℕ
        → List String
        → ScanResult (List ChainTip)
        → Scan N (List String)
    on_tips again retries invalidated (ScanResult.err e) = again retries invalidated
    on_tips again retries invalidated (ScanResult.ok tips) =
        on_active again retries invalidated (find is_active tips)

    -- The `loop`. A failed call does not count as a retry, so that the source has no bound on it.
    unfoldable pub make_active : ℕ → ℕ → List String → Scan N (List String)
    unfolding invalidate child_hashes
    make_active zero retries invalidated = fail Net.diverged
    make_active (suc fuel) retries invalidated =
        let again = make_active fuel in
        (do
          tips ← try_scan (rpc (net.get_chain_tips client))
          on_tips again retries invalidated tips)

  unfoldable pub set_tip_active : ℕ → Client → String → ℕ → Scan N (List String)
  unfolding make_active
  set_tip_active fuel mirror_client tip_hash tip_height =
      make_active mirror_client tip_hash tip_height fuel 0 []

  unfoldable pub make_block_active : ℕ → Client → Block → Scan N (List String)
  unfolding make_active
  make_block_active fuel client b = make_active client b.hash b.height fuel 0 []
