-- ===== src/Models/Nodes/Removed.antt =====
-- The foreign keys of the tables when a node is deleted: every row that names a node names one
-- that is there, and every parent pointer of a tip leads to a tip.
use forkscanner.Prelude.{
  ℕ, ◌≡◌, true, false, not, List, [], ◌∷◌, arith, ◌==◌, number_comparable, exists, keep_if, map,
  All, Bool-cases, inl, inr,
}
use forkscanner.Models.Rows.{Chaintip, InvalidBlock, ValidBlock, Node, Lags, Peer, SoftForks}
use forkscanner.Models.Query.{Db}
use forkscanner.Models.Chaintips.{node_exists, drop_parent}
use forkscanner.Models.Chaintips.Purge.{ParentsExist, dropped-ParentsIn}
use forkscanner.Models.Nodes.{has_id, other_tips, remove_node}

-- The node of every row is one of `ns`.
abbrev pub KeysIn : {A : Type 0} → (A → ℕ) → List Node → List A → Type 0
KeysIn node_of ns xs = All (λ x. exists (has_id (node_of x)) ns ≡ true) xs

pub record HasKeys (d : Db) : Type 0 where
  pub chaintip_nodes : KeysIn (λ (t : Chaintip). t.node) d.nodes d.chaintips
  pub invalid_nodes : KeysIn (λ (v : InvalidBlock). v.node) d.nodes d.invalid_blocks
  pub valid_nodes : KeysIn (λ (v : ValidBlock). v.node) d.nodes d.valid_blocks
  pub peer_nodes : KeysIn (λ (p : Peer). p.node_id) d.nodes d.peers
  pub lag_nodes : KeysIn (λ (l : Lags). l.node_id) d.nodes d.lags
  pub fork_nodes : KeysIn (λ (s : SoftForks). s.node_id) d.nodes d.softforks
  pub parents : ParentsExist d

abbrev others : ℕ → List Node → List Node
others k ns = keep_if (λ (n : Node). not (has_id k n)) ns

exists-others :
    (k n : ℕ) (ns : List Node)
    → (n == k) ≡ false
    → exists (has_id n) ns ≡ true
    → exists (has_id n) (others k ns) ≡ true
exists-others k n [] ne e = e
exists-others k n (x ∷ ns) ne e = ground (arith, exists-others k n ns ne)

module _ {A : Type 0} (node_of : A → ℕ) (k : ℕ) (ns : List Node) where
  -- The rows of the other nodes.
  KeysIn-kept :
      (xs : List A)
      → KeysIn node_of ns xs
      → KeysIn node_of (others k ns) (keep_if (λ x. not (node_of x == k)) xs)
  KeysIn-kept [] h = tt
  KeysIn-kept (x ∷ xs) h = elim (Bool-cases (node_of x == k)) [
    | inl same ↦ rw same (KeysIn-kept xs h.1)
    | inr other ↦ rw other (exists-others k (node_of x) ns other h.0, KeysIn-kept xs h.1)
  ]

  -- No row names the node.
  KeysIn-unused :
      (xs : List A)
      → exists (λ x. node_of x == k) xs ≡ false
      → KeysIn node_of ns xs
      → KeysIn node_of (others k ns) xs
  KeysIn-unused [] e h = tt
  KeysIn-unused (x ∷ xs) e h = elim (Bool-cases (node_of x == k)) [
    | inl same ↦ absurd (ground arith)
    | inr other ↦ (exists-others k (node_of x) ns other h.0, KeysIn-unused xs (rw other at e) h.1)
  ]

  -- The node is not there, so that no row names it.
  KeysIn-absent :
      (xs : List A)
      → exists (has_id k) ns ≡ false
      → KeysIn node_of ns xs
      → KeysIn node_of (others k ns) xs
  KeysIn-absent [] e h = tt
  KeysIn-absent (x ∷ xs) e h = elim (Bool-cases (node_of x == k)) [
    | inl same ↦ absurd (clash (node_of x) same h.0)
    | inr other ↦ (exists-others k (node_of x) ns other h.0, KeysIn-absent xs e h.1)
  ]
    where
      clash : (n : ℕ) → (n == k) ≡ true → exists (has_id n) ns ≡ true → ⊥
      clash n same there = let e' : n ≡ k = ground arith in let t = rw e' at there in cc

drop_parent-KeysIn :
    (left ts : List Chaintip) (ns : List Node)
    → KeysIn (λ (t : Chaintip). t.node) ns ts
    → KeysIn (λ (t : Chaintip). t.node) ns (map (drop_parent left) ts)
drop_parent-KeysIn left [] ns h = tt
drop_parent-KeysIn left (t ∷ ts) ns h = (h.0, drop_parent-KeysIn left ts ns h.1)

-- Removing a node keeps the foreign keys, whether the node is there or not.
pub remove_node-HasKeys : (k : ℕ) (d : Db) → HasKeys d → HasKeys (remove_node k d).1
unfolding remove_node
remove_node-HasKeys k d h = elim (Bool-cases (node_exists d k)) [
  | inl there ↦ elim (Bool-cases (exists (λ (s : SoftForks). s.node_id == k) d.softforks)) [
    | inl used ↦ rw (used, there) h
    | inr free ↦
        rw (free, there)
          (record {
            chaintip_nodes =
                drop_parent-KeysIn (other_tips k d.chaintips) (other_tips k d.chaintips)
                  (others k d.nodes) (KeysIn-kept _ k d.nodes d.chaintips h.chaintip_nodes);
            invalid_nodes = KeysIn-kept _ k d.nodes d.invalid_blocks h.invalid_nodes;
            valid_nodes = KeysIn-kept _ k d.nodes d.valid_blocks h.valid_nodes;
            peer_nodes = KeysIn-kept _ k d.nodes d.peers h.peer_nodes;
            lag_nodes = KeysIn-kept _ k d.nodes d.lags h.lag_nodes;
            fork_nodes = KeysIn-unused _ k d.nodes d.softforks free h.fork_nodes;
            parents = dropped-ParentsIn (other_tips k d.chaintips) (other_tips k d.chaintips);
          })
  ]
  | inr gone ↦ elim (Bool-cases (exists (λ (s : SoftForks). s.node_id == k) d.softforks)) [
    | inl used ↦ rw (used, gone) (absent gone)
    | inr free ↦ rw (free, gone) (absent gone)
  ]
]
  where
    absent : node_exists d k ≡ false → HasKeys (record d { nodes = others k d.nodes })
    absent gone = record {
      chaintip_nodes = KeysIn-absent _ k d.nodes d.chaintips gone h.chaintip_nodes;
      invalid_nodes = KeysIn-absent _ k d.nodes d.invalid_blocks gone h.invalid_nodes;
      valid_nodes = KeysIn-absent _ k d.nodes d.valid_blocks gone h.valid_nodes;
      peer_nodes = KeysIn-absent _ k d.nodes d.peers gone h.peer_nodes;
      lag_nodes = KeysIn-absent _ k d.nodes d.lags gone h.lag_nodes;
      fork_nodes = KeysIn-absent _ k d.nodes d.softforks gone h.fork_nodes;
      parents = h.parents;
    }
