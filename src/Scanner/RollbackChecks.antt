-- ===== src/Scanner/RollbackChecks.antt =====
-- `rollback_checks` of src/scanner.rs: a mirror is made to validate the forks of which it knows
-- only the headers. An error is logged and ends the work on the tip.
pub mod Marks
use forkscanner.Prelude.{
  ℕ, zero, suc, ◌+◌, ◌-◌, ◌%◌, ◌^◌, ◌&&◌, String, Bool, true, false, ◌||◌, Option, none, some, List,
  [], ◌∷◌, ltb, ◌==◌, if◌then◌else◌, find, keep_if, text_comparable, number_comparable,
}
use forkscanner.Prelude.Int.{ℤ, negsuc}
use forkscanner.Models.Rows.{Block}
use forkscanner.Models.Blocks.{get, marked_valid_by, marked_invalid_by, set_valid}
use forkscanner.Scanner.Network.{
  Client, Network, ChainTip, Status, RpcError, Scan, ScanError, ScanResult, World, db, rpc, pure,
  fail, try_scan, or_fail, failed_rollback, panicked, diverged, rpc_client_error, ◌>>=◌, ◌>>◌,
}
use forkscanner.Scanner.Rollback.{is_active, set_tip_active}

-- MAX_BLOCK_DEPTH
abbrev pub max_block_depth : ℕ
max_block_depth = 10

-- The subtraction wraps around where overflow is not checked.
abbrev pub sub_u64 : ℕ → ℕ → ℕ
sub_u64 a b = (a + 2 ^ 64 - b) % 2 ^ 64

-- BLOCK_NOT_FOUND, -5
abbrev pub is_block_not_found : ScanError → Bool
is_block_not_found (rpc_client_error (RpcError.code (negsuc n))) = n == 4
is_block_not_found _ = false

abbrev pub is_valid_headers : ChainTip → Bool
is_valid_headers t = elim t.status [ Status.valid_headers ↦ true | _ ↦ false ]

abbrev pub is_invalid : ChainTip → Bool
is_invalid t = elim t.status [ Status.invalid ↦ true | _ ↦ false ]

-- `unwrap_or(true)`
abbrev pub or_true : ScanResult Bool → Bool
or_true (ScanResult.ok b) = b
or_true (ScanResult.err e) = true

module _ {N : Type 0} (net : Network N) (fuel : ℕ) (now : ℕ) (node_id : ℕ) where
  abbrev pub mirror_client : Client
  mirror_client = Client.mirror node_id

  -- `let _ = mirror.reconsider_block(&hash)`
  unfoldable pub reconsider : List String → Scan N (Unit {0})
  reconsider [] = pure tt
  reconsider (h ∷ hs) = try_scan (rpc (net.reconsider_block mirror_client h)) >> reconsider hs

  unfoldable pub reconsider_invalid : List ChainTip → Scan N (Unit {0})
  reconsider_invalid [] = pure tt
  reconsider_invalid (t ∷ ts) =
      let rest = reconsider_invalid ts in
      if is_invalid t
      then try_scan (rpc (net.reconsider_block mirror_client t.hash)) >> rest
      else rest

  abbrev pub reactivate : Scan N (Unit {0})
  reactivate = try_scan (rpc (net.set_network_active mirror_client true)) >> pure tt

  -- An error of the mark ends the work on the tip, before the network is active again.
  abbrev pub undo : List String → ScanResult ℕ → Scan N (Unit {0})
  undo hashes (ScanResult.ok rows) = reconsider hashes >> reactivate
  undo hashes (ScanResult.err e) = pure tt

  abbrev pub judge : ChainTip → List String → List ChainTip → Option ChainTip → Scan N (Unit {0})
  judge t hashes tips none = fail panicked
  judge t hashes tips (some active) =
      if active.hash == t.hash
      then try_scan (db (set_valid t.hash node_id now)) >>= undo hashes
      else reconsider_invalid tips >> reactivate

  abbrev pub after_rollback :
      ChainTip → List String → ScanResult (List ChainTip) → Scan N (Unit {0})
  after_rollback t hashes (ScanResult.ok tips) = judge t hashes tips (find is_active tips)
  after_rollback t hashes (ScanResult.err e) = pure tt

  abbrev pub restore : ScanResult (List ChainTip) → Scan N (Unit {0})
  restore (ScanResult.ok tips) = reconsider_invalid tips
  restore (ScanResult.err e) = pure tt

  -- A panic is not caught.
  abbrev pub on_rollback : ChainTip → ScanResult (List String) → Scan N (Unit {0})
  on_rollback t (ScanResult.ok hashes) =
      try_scan (rpc (net.get_chain_tips mirror_client)) >>= after_rollback t hashes
  on_rollback t (ScanResult.err panicked) = fail panicked
  on_rollback t (ScanResult.err diverged) = fail diverged
  on_rollback t (ScanResult.err e) =
      reactivate >> try_scan (rpc (net.get_chain_tips mirror_client)) >>= restore

  abbrev pub validate : ChainTip → ScanResult (Unit {0}) → Scan N (Unit {0})
  validate t (ScanResult.ok x) =
      try_scan (set_tip_active net fuel mirror_client t.hash t.height) >>= on_rollback t
  validate t (ScanResult.err e) = pure tt

  abbrev pub stop_p2p : ChainTip → Scan N (Unit {0})
  stop_p2p t = try_scan (rpc (net.set_network_active mirror_client false)) >>= validate t

  abbrev pub after_submit : ChainTip → ScanResult (Unit {0}) → Scan N (Unit {0})
  after_submit t (ScanResult.ok x) = stop_p2p t
  after_submit t (ScanResult.err e) = pure tt

  abbrev pub submit : ChainTip → String → ScanResult String → Scan N (Unit {0})
  submit t hash (ScanResult.ok hex) =
      try_scan (rpc (net.submit_block mirror_client hex hash)) >>= after_submit t
  submit t hash (ScanResult.err e) = pure tt

  -- The block is copied from the node if the mirror does not have it.
  abbrev pub copy_block : ChainTip → String → ScanResult String → Scan N (Unit {0})
  copy_block t hash (ScanResult.ok hex) = stop_p2p t
  copy_block t hash (ScanResult.err e) =
      if is_block_not_found e
      then try_scan (rpc (net.get_block_hex (Client.node node_id) hash)) >>= submit t hash
      else stop_p2p t

  abbrev pub check_block : ChainTip → ScanResult Block → Scan N (Unit {0})
  check_block t (ScanResult.err e) = pure tt
  check_block t (ScanResult.ok b) = do
    valid ← try_scan (db (marked_valid_by b.hash node_id))
    invalid ← try_scan (db (marked_invalid_by b.hash node_id))
    if or_true valid || or_true invalid then pure tt else (do
      hash ← or_fail (net.parse_hash b.hash) panicked
      hex ← try_scan (rpc (net.get_block_hex mirror_client hash))
      copy_block t hash hex)

  -- The subtraction of the source is on `u64`, and panics where overflow is checked.
  unfoldable pub check_tip : ℕ → ChainTip → Scan N (Unit {0})
  unfolding reconsider reconsider_invalid
  check_tip active_height t =
      if net.overflow_checks && ltb active_height max_block_depth
      then fail panicked
      else if ltb t.height (sub_u64 active_height max_block_depth)
      then pure tt
      else try_scan (db (get t.hash)) >>= check_block t

  unfoldable pub check_all : ℕ → List ChainTip → Scan N (Unit {0})
  unfolding check_tip
  check_all active_height [] = pure tt
  check_all active_height (t ∷ ts) = check_tip active_height t >> check_all active_height ts

  abbrev pub check_from : List ChainTip → Option ChainTip → Scan N (Unit {0})
  check_from tips none = fail panicked
  check_from tips (some active) = check_all active.height (keep_if is_valid_headers tips)

  abbrev pub check_node : ScanResult (List ChainTip) → Scan N (Unit {0})
  check_node (ScanResult.err e) = pure tt
  check_node (ScanResult.ok tips) = check_from tips (find is_active tips)

-- The ids are those of the nodes that have a mirror.
unfoldable pub rollback_checks : {N : Type 0} → Network N → ℕ → ℕ → List ℕ → Scan N (Unit {0})
unfolding check_all
rollback_checks net fuel now [] = pure tt
rollback_checks net fuel now (node_id ∷ ids) =
    (try_scan (rpc (net.get_chain_tips (Client.mirror node_id)))
      >>= check_node net fuel now node_id)
    >> rollback_checks net fuel now ids
