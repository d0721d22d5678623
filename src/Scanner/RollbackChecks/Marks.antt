-- ===== src/Scanner/RollbackChecks/Marks.antt =====
-- `rollback_checks` of src/scanner.rs writes nothing but marks of valid blocks.
use forkscanner.Prelude.{
  ℕ, ◌≡◌, refl, String, ◌||◌, Option, none, some, List, [], ◌∷◌, ltb, ◌&&◌, ◌==◌, text_comparable,
  arith, ◌∙◌,
}
use forkscanner.Models.Rows.{Block}
use forkscanner.Models.Query.{Db}
use forkscanner.Models.Query.Keeps.{Keeps, Keeps-execute, Keeps-select, Keeps-bind, Keeps-pure}
use forkscanner.Models.Blocks.{get, marked_valid_by, marked_invalid_by, set_valid, insert_valid}
use forkscanner.Scanner.Network.{Network, ChainTip, ScanResult, World, panicked, diverged}
use forkscanner.Scanner.Network.Keeps.{
  ScanKeeps, ScanKeeps-db, ScanKeeps-rpc, ScanKeeps-done, ScanKeeps-error, ScanKeeps-caught,
  ScanKeeps-or_fail, ScanKeeps-branch, ScanKeeps-then,
}
use forkscanner.Scanner.Rollback.Kept.{set_tip_active-Keeps}
use forkscanner.Scanner.RollbackChecks.{
  max_block_depth, sub_u64, is_block_not_found, or_true, reconsider, reconsider_invalid, is_invalid,
  reactivate, undo, judge, after_rollback, restore, on_rollback, validate, stop_p2p, after_submit,
  submit, copy_block, check_block, check_tip, check_all, check_from, check_node, rollback_checks,
}

module _ {N : Type 0} (net : Network N) (fuel now : ℕ) (P : Db → Type 0)
    (marked : (hash : String) (node_id : ℕ) → Keeps P (set_valid hash node_id now)) where
  module _ (node_id : ℕ) where
    reconsider-Keeps : (hs : List String) → ScanKeeps P (reconsider net fuel now node_id hs)
    unfolding reconsider
    reconsider-Keeps [] = ScanKeeps-done _
    reconsider-Keeps (h ∷ hs) =
        ScanKeeps-then _ _ (ScanKeeps-caught _ (ScanKeeps-rpc _)) (λ _. reconsider-Keeps hs)

    reconsider_invalid-Keeps :
        (ts : List ChainTip) → ScanKeeps P (reconsider_invalid net fuel now node_id ts)
    unfolding reconsider_invalid
    reconsider_invalid-Keeps [] = ScanKeeps-done _
    reconsider_invalid-Keeps (t ∷ ts) =
        ScanKeeps-branch (is_invalid t) _ _
          (λ _.
            ScanKeeps-then _ _ (ScanKeeps-caught _ (ScanKeeps-rpc _))
              (λ _. reconsider_invalid-Keeps ts))
          (λ _. reconsider_invalid-Keeps ts)

    reactivate-Keeps : ScanKeeps P (reactivate net fuel now node_id)
    reactivate-Keeps =
        ScanKeeps-then _ _ (ScanKeeps-caught _ (ScanKeeps-rpc _)) (λ _. ScanKeeps-done _)

    undo-Keeps :
        (hs : List String) (r : ScanResult ℕ) → ScanKeeps P (undo net fuel now node_id hs r)
    undo-Keeps hs (ScanResult.ok rows) =
        ScanKeeps-then _ _ (reconsider-Keeps hs) (λ _. reactivate-Keeps)
    undo-Keeps hs (ScanResult.err e) = ScanKeeps-done _

    judge-Keeps :
        (t : ChainTip) (hs : List String) (tips : List ChainTip) (o : Option ChainTip)
        → ScanKeeps P (judge net fuel now node_id t hs tips o)
    judge-Keeps t hs tips none = ScanKeeps-error _
    judge-Keeps t hs tips (some active) =
        ScanKeeps-branch (active.hash == t.hash) _ _
          (λ _.
            ScanKeeps-then _ _ (ScanKeeps-caught _ (ScanKeeps-db _ (marked t.hash node_id)))
              (undo-Keeps hs))
          (λ _. ScanKeeps-then _ _ (reconsider_invalid-Keeps tips) (λ _. reactivate-Keeps))

    after_rollback-Keeps :
        (t : ChainTip) (hs : List String) (r : ScanResult (List ChainTip))
        → ScanKeeps P (after_rollback net fuel now node_id t hs r)
    after_rollback-Keeps t hs (ScanResult.ok tips) = judge-Keeps t hs tips _
    after_rollback-Keeps t hs (ScanResult.err e) = ScanKeeps-done _

    restore-Keeps : (r : ScanResult (List ChainTip)) → ScanKeeps P (restore net fuel now node_id r)
    restore-Keeps (ScanResult.ok tips) = reconsider_invalid-Keeps tips
    restore-Keeps (ScanResult.err e) = ScanKeeps-done _

    on_rollback-Keeps :
        (t : ChainTip) (r : ScanResult (List String))
        → ScanKeeps P (on_rollback net fuel now node_id t r)
    on_rollback-Keeps t (ScanResult.ok hs) =
        ScanKeeps-then _ _ (ScanKeeps-caught _ (ScanKeeps-rpc _)) (after_rollback-Keeps t hs)
    on_rollback-Keeps t (ScanResult.err panicked) = ScanKeeps-error _
    on_rollback-Keeps t (ScanResult.err diverged) = ScanKeeps-error _
    on_rollback-Keeps t (ScanResult.err e) =
        ScanKeeps-then _ _
          (ScanKeeps-then _ _ reactivate-Keeps (λ _. ScanKeeps-caught _ (ScanKeeps-rpc _)))
          restore-Keeps

    validate-Keeps :
        (t : ChainTip) (r : ScanResult (Unit {0})) → ScanKeeps P (validate net fuel now node_id t r)
    validate-Keeps t (ScanResult.ok x) =
        ScanKeeps-then _ _ (ScanKeeps-caught _ (set_tip_active-Keeps net _ P fuel t.hash t.height))
          (on_rollback-Keeps t)
    validate-Keeps t (ScanResult.err e) = ScanKeeps-done _

    stop_p2p-Keeps : (t : ChainTip) → ScanKeeps P (stop_p2p net fuel now node_id t)
    stop_p2p-Keeps t = ScanKeeps-then _ _ (ScanKeeps-caught _ (ScanKeeps-rpc _)) (validate-Keeps t)

    after_submit-Keeps :
        (t : ChainTip) (r : ScanResult (Unit {0}))
        → ScanKeeps P (after_submit net fuel now node_id t r)
    after_submit-Keeps t (ScanResult.ok x) = stop_p2p-Keeps t
    after_submit-Keeps t (ScanResult.err e) = ScanKeeps-done _

    submit-Keeps :
        (t : ChainTip) (hash : String) (r : ScanResult String)
        → ScanKeeps P (submit net fuel now node_id t hash r)
    submit-Keeps t hash (ScanResult.ok hex) =
        ScanKeeps-then _ _ (ScanKeeps-caught _ (ScanKeeps-rpc _)) (after_submit-Keeps t)
    submit-Keeps t hash (ScanResult.err e) = ScanKeeps-done _

    copy_block-Keeps :
        (t : ChainTip) (hash : String) (r : ScanResult String)
        → ScanKeeps P (copy_block net fuel now node_id t hash r)
    copy_block-Keeps t hash (ScanResult.ok hex) = stop_p2p-Keeps t
    copy_block-Keeps t hash (ScanResult.err e) =
        ScanKeeps-branch (is_block_not_found e) _ _
          (λ _. ScanKeeps-then _ _ (ScanKeeps-caught _ (ScanKeeps-rpc _)) (submit-Keeps t hash))
          (λ _. stop_p2p-Keeps t)

    check_block-Keeps :
        (t : ChainTip) (r : ScanResult Block) → ScanKeeps P (check_block net fuel now node_id t r)
    unfolding marked_valid_by marked_invalid_by
    check_block-Keeps t (ScanResult.err e) = ScanKeeps-done _
    check_block-Keeps t (ScanResult.ok b) =
        ScanKeeps-then _ _
          (ScanKeeps-caught _
            (ScanKeeps-db _ (Keeps-bind _ _ (Keeps-select _) (λ _. Keeps-pure _))))
          (λ valid.
            ScanKeeps-then _ _
              (ScanKeeps-caught _
                (ScanKeeps-db _ (Keeps-bind _ _ (Keeps-select _) (λ _. Keeps-pure _))))
              (λ invalid.
                ScanKeeps-branch (or_true valid || or_true invalid) _ _ (λ _. ScanKeeps-done _)
                  (λ _. ScanKeeps-then _ _ (ScanKeeps-or_fail _ _) (λ hash.
                    ScanKeeps-then _ _ (ScanKeeps-caught _ (ScanKeeps-rpc _))
                      (copy_block-Keeps t hash)))))

    check_tip-Keeps :
        (active_height : ℕ) (t : ChainTip)
        → ScanKeeps P (check_tip net fuel now node_id active_height t)
    unfolding check_tip get
    check_tip-Keeps active_height t =
        ScanKeeps-branch (net.overflow_checks && ltb active_height max_block_depth) _ _
          (λ _. ScanKeeps-error _)
          (λ _.
            ScanKeeps-branch (ltb t.height (sub_u64 active_height max_block_depth)) _ _
              (λ _. ScanKeeps-done _)
              (λ _.
                ScanKeeps-then _ _ (ScanKeeps-caught _ (ScanKeeps-db _ (Keeps-select _)))
                  (check_block-Keeps t)))

    check_all-Keeps :
        (active_height : ℕ) (ts : List ChainTip)
        → ScanKeeps P (check_all net fuel now node_id active_height ts)
    unfolding check_all
    check_all-Keeps active_height [] = ScanKeeps-done _
    check_all-Keeps active_height (t ∷ ts) =
        ScanKeeps-then _ _ (check_tip-Keeps active_height t) (λ _. check_all-Keeps active_height ts)

    check_from-Keeps :
        (tips : List ChainTip) (o : Option ChainTip)
        → ScanKeeps P (check_from net fuel now node_id tips o)
    check_from-Keeps tips none = ScanKeeps-error _
    check_from-Keeps tips (some active) = check_all-Keeps active.height _

    check_node-Keeps :
        (r : ScanResult (List ChainTip)) → ScanKeeps P (check_node net fuel now node_id r)
    check_node-Keeps (ScanResult.err e) = ScanKeeps-done _
    check_node-Keeps (ScanResult.ok tips) = check_from-Keeps tips _

  rollback_checks-Keeps : (ids : List ℕ) → ScanKeeps P (rollback_checks net fuel now ids)
  unfolding rollback_checks
  rollback_checks-Keeps [] = ScanKeeps-done _
  rollback_checks-Keeps (node_id ∷ ids) =
      ScanKeeps-then _ _
        (ScanKeeps-then _ _ (ScanKeeps-caught _ (ScanKeeps-rpc _)) (check_node-Keeps node_id))
        (λ _. rollback_checks-Keeps ids)

-- The tables differ at most in their marks of valid blocks.
pub record IsMarkedFrom (d d' : Db) : Type 0 where
  pub same_blocks : d'.blocks ≡ d.blocks
  pub same_chaintips : d'.chaintips ≡ d.chaintips
  pub same_invalid : d'.invalid_blocks ≡ d.invalid_blocks

insert_valid-IsMarkedFrom :
    (hash : String) (node_id now : ℕ) (d : Db) → IsMarkedFrom d (insert_valid hash node_id now d).1
unfolding insert_valid
insert_valid-IsMarkedFrom hash node_id now d = record {
  same_blocks = ground arith;
  same_chaintips = ground arith;
  same_invalid = ground arith;
}

set_valid-IsMarkedFrom :
    (d : Db) (hash : String) (node_id now : ℕ) → Keeps (IsMarkedFrom d) (set_valid hash node_id now)
unfolding set_valid
set_valid-IsMarkedFrom d hash node_id now = Keeps-execute _ (λ d' h.
    let next = insert_valid-IsMarkedFrom hash node_id now d' in
    record {
      same_blocks = next.same_blocks ∙ h.same_blocks;
      same_chaintips = next.same_chaintips ∙ h.same_chaintips;
      same_invalid = next.same_invalid ∙ h.same_invalid;
    })

-- Whatever the nodes answer and whichever statements fail, `rollback_checks` changes no block, no
-- chain tip and no mark of an invalid block.
pub rollback_checks-IsMarkedFrom :
    {N : Type 0} (net : Network N) (fuel now : ℕ) (ids : List ℕ) (w : World N)
    → IsMarkedFrom w.conn.db (rollback_checks net fuel now ids w).1.conn.db
rollback_checks-IsMarkedFrom net fuel now ids w =
    (rollback_checks-Keeps net fuel now (IsMarkedFrom w.conn.db)
        (λ hash node_id. set_valid-IsMarkedFrom w.conn.db hash node_id now) ids).at
      w (record { same_blocks = refl; same_chaintips = refl; same_invalid = refl })
