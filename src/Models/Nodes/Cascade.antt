-- ===== src/Models/Nodes/Cascade.antt =====
-- What removing a node does to the rows of every node.
use forkscanner.Prelude.{
  ℕ, ◌≡◌, String, Bool, not, ◌&&◌, ◌==◌, number_comparable, text_comparable, exists,
}
use forkscanner.Models.Rows.{Chaintip, InvalidBlock, ValidBlock, Lags, Peer, SoftForks}
use forkscanner.Models.Query.{Db}
use forkscanner.Models.Chaintips.{node_exists}
use forkscanner.Models.Nodes.Removed.{HasKeys}

abbrev pub has_fields : ℕ → String → String → ℕ → Chaintip → Bool
has_fields id status hash height t =
    t.id == id && (t.status == status && (t.block == hash && t.height == height))

abbrev pub has_softforks : ℕ → Db → Bool
has_softforks k d = exists (λ (s : SoftForks). s.node_id == k) d.softforks

-- The rows of node `k` are gone, and those of every other node are as before, but that a tip may
-- have lost its parent.
pub record IsRemoved (k : ℕ) (d d' : Db) : Type 0 where
  pub nodes : (m : ℕ) → node_exists d' m ≡ (node_exists d m && not (m == k))
  pub tips :
      (m : ℕ) (id height : ℕ) (status hash : String)
      → exists (λ t. t.node == m && has_fields id status hash height t) d'.chaintips ≡ (
          exists (λ t. t.node == m && has_fields id status hash height t) d.chaintips
          && not (m == k))
  pub invalid_marks :
      (m : ℕ) (q : InvalidBlock → Bool)
      → exists (λ v. v.node == m && q v) d'.invalid_blocks
        ≡ (exists (λ v. v.node == m && q v) d.invalid_blocks && not (m == k))
  pub valid_marks :
      (m : ℕ) (q : ValidBlock → Bool)
      → exists (λ v. v.node == m && q v) d'.valid_blocks
        ≡ (exists (λ v. v.node == m && q v) d.valid_blocks && not (m == k))
  pub peers :
      (m : ℕ) (q : Peer → Bool)
      → exists (λ p. p.node_id == m && q p) d'.peers
        ≡ (exists (λ p. p.node_id == m && q p) d.peers && not (m == k))
  pub lags :
      (m : ℕ) (q : Lags → Bool)
      → exists (λ l. l.node_id == m && q l) d'.lags
        ≡ (exists (λ l. l.node_id == m && q l) d.lags && not (m == k))
  pub keys : HasKeys d'
