-- ===== src/Scanner/Rollback/Reached.antt =====
-- When `set_tip_active` of src/scanner.rs answers, the node has the tip.
use forkscanner.Prelude.{
  ℕ, zero, suc, ◌≡◌, refl, String, Option, none, some, List, [], find, ltb, ◌==◌, text_comparable,
  number_comparable, eq_of_str_eq,
}
use forkscanner.Models.Rows.{Block}
use forkscanner.Scanner.Network.{Client, Network, ChainTip, RpcResult, Scan, ScanResult, World}
use forkscanner.Scanner.Network.Triples.{
  Triple, Always, IsAnswerOf, Triple-pure, Triple-fail, Triple-branch, Triple-then, Triple-any,
  Triple-call,
}
use forkscanner.Scanner.Rollback.{
  is_active, max_retries, invalidate_then, on_children, leave_branch, on_active, on_tips,
  make_active, set_tip_active,
}

-- The last call to the node answered `hash` as its active tip.
pub record HasTip {N : Type 0} (net : Network N) (client : Client) (hash : String) (w : World N)
    : Type 0 where
  pub before : N
  pub tips : List ChainTip
  pub tip : ChainTip
  pub answered : net.get_chain_tips client before ≡ (RpcResult.ok tips, w.nodes)
  pub active : find is_active tips ≡ some tip
  pub is_hash : tip.hash ≡ hash

module _ {N : Type 0} (net : Network N) (client : Client) (hash : String) (height : ℕ) where
  abbrev Reaches : Scan N (List String) → Type 0
  Reaches m = Triple Always m (λ hs w. HasTip net client hash w)

  module _ (again : ℕ → List String → Scan N (List String))
      (k : (retries : ℕ) (invalidated : List String) → Reaches (again retries invalidated)) where
    invalidate_then-Reaches :
        (retries : ℕ) (invalidated hs : List String)
        → Reaches (invalidate_then net client hash height again retries invalidated hs)
    invalidate_then-Reaches retries invalidated hs = Triple-then _ _ (Triple-any _) (λ _. k _ _)

    on_children-Reaches :
        (retries : ℕ) (invalidated branch : List String) (blocks : ScanResult (List Block))
        → Reaches (on_children net client hash height again retries invalidated branch blocks)
    on_children-Reaches retries invalidated branch (ScanResult.err e) = k _ _
    on_children-Reaches retries invalidated branch (ScanResult.ok blocks) =
        Triple-then _ _ (Triple-any _) (λ hs. invalidate_then-Reaches retries invalidated _)

    leave_branch-Reaches :
        (retries : ℕ) (invalidated : List String) (tip : ChainTip)
        → Reaches (leave_branch net client hash height again retries invalidated tip)
    leave_branch-Reaches retries invalidated tip = Triple-then _ _ (Triple-any _) (λ found.
        Triple-then _ _ (Triple-any _) (λ branch.
          Triple-then _ _ (Triple-any _)
            (λ blocks. on_children-Reaches retries invalidated branch blocks)))

    weaken :
        {P : World N → Type 0} (m : Scan N (List String))
        → Reaches m
        → Triple P m (λ hs w. HasTip net client hash w)
    weaken m t = record { at = λ w h a e. t.at w tt a e }

    on_active-Reaches :
        (tips : List ChainTip) (retries : ℕ) (invalidated : List String) (o : Option ChainTip)
        → find is_active tips ≡ o
        → Triple
            (IsAnswerOf (net.get_chain_tips client) (ScanResult.ok tips))
            (on_active net client hash height again retries invalidated o)
            (λ hs w. HasTip net client hash w)
    on_active-Reaches tips retries invalidated none e = Triple-fail _
    on_active-Reaches tips retries invalidated (some tip) e =
        Triple-branch (tip.hash == hash) _ _
          (λ same. Triple-pure _ (λ w (n, call). record {
            before = n;
            tips = tips;
            tip = tip;
            answered = call;
            active = e;
            is_hash = eq_of_str_eq tip.hash hash same;
          }))
          (λ _.
            Triple-branch (ltb max_retries retries) _ _ (λ _. Triple-fail _)
              (λ _.
                Triple-branch (tip.height == height) _ _
                  (λ _. weaken _ (invalidate_then-Reaches retries invalidated _))
                  (λ _. weaken _ (leave_branch-Reaches retries invalidated tip))))

    on_tips-Reaches :
        (retries : ℕ) (invalidated : List String) (tips : ScanResult (List ChainTip))
        → Triple
            (IsAnswerOf (net.get_chain_tips client) tips)
            (on_tips net client hash height again retries invalidated tips)
            (λ hs w. HasTip net client hash w)
    on_tips-Reaches retries invalidated (ScanResult.err e) = weaken _ (k _ _)
    on_tips-Reaches retries invalidated (ScanResult.ok tips) =
        on_active-Reaches tips retries invalidated _ refl

  make_active-Reaches :
      (fuel retries : ℕ) (invalidated : List String)
      → Reaches (make_active net client hash height fuel retries invalidated)
  unfolding make_active
  make_active-Reaches zero retries invalidated = Triple-fail _
  make_active-Reaches (suc fuel) retries invalidated =
      Triple-then _ _ (Triple-call _)
        (λ tips. on_tips-Reaches _ (make_active-Reaches fuel) retries invalidated tips)

-- When `set_tip_active` answers, the last call to the node said that the requested block is its
-- active tip, and nothing was sent to the node after that.
pub set_tip_active_reached :
    {N : Type 0} (net : Network N) (fuel : ℕ) (mirror_client : Client) (tip_hash : String)
    (tip_height : ℕ) (w : World N) (hs : List String)
    → (set_tip_active net fuel mirror_client tip_hash tip_height w).0 ≡ ScanResult.ok hs
    → HasTip net mirror_client tip_hash
        (set_tip_active net fuel mirror_client tip_hash tip_height w).1
unfolding set_tip_active
set_tip_active_reached net fuel mirror_client tip_hash tip_height w hs e =
    (make_active-Reaches net mirror_client tip_hash tip_height fuel 0 []).at w tt hs e
