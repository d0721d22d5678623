-- ===== src/Models/Conflicts/Exact.antt =====
-- Which blocks `get_recent_conflicts` of src/models.rs answers, and with which nodes.
use forkscanner.Prelude.{
  ℕ, ◌≡◌, refl, sym, ◌∙◌, String, Bool, true, false, ◌&&◌, ◌||◌, List, [], ◌∷◌, map, ◌==◌, arith,
  if◌then◌else◌, keep_if, exists, exists-append, find, Option, none, some, Bool-cases, inl, inr,
  eq_of_str_eq, str_eq_self, eq_iff, text_comparable, number_comparable,
}
use forkscanner.Models.Rows.{InvalidBlock, ValidBlock}
use forkscanner.Models.Query.{Db}
use forkscanner.Models.StaleHeights.{contains, contains-insert_height}
use forkscanner.Models.Conflicts.{
  ConflictingBlock, Joined, is_recent, is_joined, join, distinct, of_hash, conflict, group_rows,
  conflicts,
}

contains-distinct : (n : ℕ) (ns : List ℕ) → contains n (distinct ns) ≡ contains n ns
unfolding distinct
contains-distinct n [] = refl
contains-distinct n (x ∷ ns) =
    ground (arith, contains-insert_height n x (distinct ns), contains-distinct n ns)

-- The marks that count for a conflict on the block `h`, whose nodes pass the test `a`.
abbrev pub valid_mark : String → (ℕ → Bool) → ValidBlock → Bool
valid_mark h a vb = vb.hash == h && a vb.node

abbrev pub invalid_mark : ℕ → String → (ℕ → Bool) → InvalidBlock → Bool
invalid_mark now h b ivb = ivb.hash == h && (is_recent now ivb && b ivb.node)

abbrev pub any_node : ℕ → Bool
any_node n = true

abbrev row_of : String → (ℕ → Bool) → (ℕ → Bool) → Joined → Bool
row_of h a b q = q.hash == h && (a q.valid_by && b q.invalid_by)

module _ (now : ℕ) (h : String) (a b : ℕ → Bool) where
  exists-joined :
      (vb : ValidBlock) (ivbs : List InvalidBlock)
      → exists (row_of h a b) (
          map
            (λ (ivb : InvalidBlock). record {
              hash = ivb.hash;
              valid_by = vb.node;
              invalid_by = ivb.node;
            })
            (keep_if (is_joined now vb) ivbs))
        ≡ (valid_mark h a vb && exists (invalid_mark now h b) ivbs)
  exists-joined vb [] = ground arith
  exists-joined vb (ivb ∷ ivbs) =
      ground
        (arith, exists-joined vb ivbs, eq_iff vb.hash ivb.hash, eq_iff ivb.hash h, eq_iff vb.hash h)

  exists-join :
      (vbs : List ValidBlock) (ivbs : List InvalidBlock)
      → exists (row_of h a b) (join now vbs ivbs)
        ≡ (exists (valid_mark h a) vbs && exists (invalid_mark now h b) ivbs)
  unfolding join
  exists-join [] ivbs = refl
  exists-join (vb ∷ vbs) ivbs =
      rw (exists-append, exists-joined vb ivbs, exists-join vbs ivbs)
        (and_or (valid_mark h a vb) (exists (valid_mark h a) vbs)
          (exists (invalid_mark now h b) ivbs))
    where
      and_or : (x y z : Bool) → ((x && z) || (y && z)) ≡ ((x || y) && z)
      and_or x y z = ground arith

exists-ext :
    (p q : Joined → Bool) (xs : List Joined)
    → ((x : Joined) → p x ≡ q x)
    → exists p xs ≡ exists q xs
exists-ext p q [] e = refl
exists-ext p q (x ∷ xs) e = cc (e x, exists-ext p q xs e)

exists-keep_if :
    (p q : Joined → Bool) (xs : List Joined) → exists p (keep_if q xs) ≡ exists (λ x. q x && p x) xs
exists-keep_if p q [] = refl
exists-keep_if p q (x ∷ xs) = ground (arith, exists-keep_if p q xs)

contains-map :
    (f : Joined → ℕ) (n : ℕ) (xs : List Joined) → contains n (map f xs) ≡ exists (λ x. f x == n) xs
contains-map f n [] = refl
contains-map f n (x ∷ xs) = ground (arith, contains-map f n xs)

-- The entry of a hash among the answers.
abbrev pub entry : String → List ConflictingBlock → Option ConflictingBlock
entry h cs = find (λ (c : ConflictingBlock). c.hash == h) cs

group_rows-entry :
    (h : String) (all qs : List Joined)
    → entry h (group_rows all qs) ≡ (if exists (of_hash h) qs then some (conflict h all) else none)
unfolding group_rows
group_rows-entry h all [] = refl
group_rows-entry h all (q ∷ qs) = elim (Bool-cases (q.hash == h)) [
  | inl same ↦
      let e = eq_of_str_eq q.hash h same in
      rw (same, e) (last (exists (of_hash h) qs) (group_rows-entry h all qs))
  | inr other ↦ rw other (skip (exists (of_hash q.hash) qs) other (group_rows-entry h all qs))
]
  where
    last :
        (b : Bool)
        → entry h (group_rows all qs) ≡ (if b then some (conflict h all) else none)
        → entry h (if b then group_rows all qs else conflict h all ∷ group_rows all qs)
          ≡ some (conflict h all)
    last true e = e
    last false e = rw (str_eq_self h) refl

    skip :
        (b : Bool)
        → (q.hash == h) ≡ false
        → entry h (group_rows all qs)
          ≡ (if exists (of_hash h) qs then some (conflict h all) else none)
        → entry h (if b then group_rows all qs else conflict q.hash all ∷ group_rows all qs)
          ≡ (if exists (of_hash h) qs then some (conflict h all) else none)
    skip true other e = e
    skip false other e = rw other e

-- Some node has marked the block as valid, and some node as invalid in the last 15 minutes.
abbrev pub is_disputed : ℕ → Db → String → Bool
is_disputed now d h =
    exists (valid_mark h any_node) d.valid_blocks
    && exists (invalid_mark now h any_node) d.invalid_blocks

-- What the answer for the block `h` is to be: its nodes are those of the marks.
abbrev pub IsAnswer : ℕ → Db → String → Option ConflictingBlock → Type 0
IsAnswer now d h none = is_disputed now d h ≡ false
IsAnswer now d h (some c) =
    (is_disputed now d h ≡ true)
    × ((n : ℕ) → contains n c.valid_by ≡ exists (valid_mark h (λ x. x == n)) d.valid_blocks)
    × ((n : ℕ)
        → contains n c.invalid_by ≡ exists (invalid_mark now h (λ x. x == n)) d.invalid_blocks)

-- A block is answered exactly if some node has marked it as valid, and some node as invalid in the
-- last 15 minutes; `valid_by` are exactly the nodes of the one kind of mark, and `invalid_by` those
-- of the other.
pub conflicts_exact : (now : ℕ) (d : Db) (h : String) → IsAnswer now d h (entry h (conflicts now d))
unfolding conflicts
conflicts_exact now d h = rw group_rows-entry (split (exists (of_hash h) rows) hashes)
  where
    rows : List Joined
    rows = join now d.valid_blocks d.invalid_blocks

    hashes : exists (of_hash h) rows ≡ is_disputed now d h
    hashes =
        exists-ext (of_hash h) (row_of h any_node any_node) rows (λ q. ground arith)
        ∙ exists-join now h any_node any_node d.valid_blocks d.invalid_blocks

    nodes_of :
        (f : Joined → ℕ) (a b : ℕ → Bool) (n : ℕ)
        → ((q : Joined) → (q.hash == h && f q == n) ≡ row_of h a b q)
        → contains n (distinct (map f (keep_if (of_hash h) rows))) ≡ (
            exists (valid_mark h a) d.valid_blocks
            && exists (invalid_mark now h b) d.invalid_blocks)
    nodes_of f a b n same =
        contains-distinct n (map f (keep_if (of_hash h) rows))
        ∙ contains-map f n (keep_if (of_hash h) rows)
        ∙ exists-keep_if (λ x. f x == n) (of_hash h) rows
        ∙ exists-ext (λ x. x.hash == h && f x == n) (row_of h a b) rows same
        ∙ exists-join now h a b d.valid_blocks d.invalid_blocks

    valid_nodes :
        true ≡ is_disputed now d h
        → (n : ℕ)
        → contains n (conflict h rows).valid_by ≡ exists (valid_mark h (λ x. x == n)) d.valid_blocks
    valid_nodes e n =
        nodes_of (λ q. q.valid_by) (λ x. x == n) any_node n (λ q. ground arith) ∙ ground (arith, e)

    invalid_nodes :
        true ≡ is_disputed now d h
        → (n : ℕ)
        → contains n (conflict h rows).invalid_by
          ≡ exists (invalid_mark now h (λ x. x == n)) d.invalid_blocks
    invalid_nodes e n =
        nodes_of (λ q. q.invalid_by) any_node (λ x. x == n) n (λ q. ground arith)
        ∙ ground (arith, e)

    split :
        (b : Bool)
        → b ≡ is_disputed now d h
        → IsAnswer now d h (if b then some (conflict h rows) else none)
    split false e = sym e
    split true e = (sym e, valid_nodes e, invalid_nodes e)
