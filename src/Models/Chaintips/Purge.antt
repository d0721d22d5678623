-- ===== src/Models/Chaintips/Purge.antt =====
-- `purge`: which rows it leaves, and the foreign key of the parent pointers.
use forkscanner.Prelude.{
  ℕ, ◌≡◌, refl, String, Bool, true, false, ◌&&◌, Option, none, some, List, [], ◌∷◌, ◌==◌,
  if◌then◌else◌, arith, map, exists, keep_if, text_comparable, number_comparable, All, Bool-cases,
  inl, inr,
}
use forkscanner.Models.Rows.{ok, Chaintip}
use forkscanner.Models.Query.{Db, Conn}
use forkscanner.Models.Query.Results.{execute_ok}
use forkscanner.Models.Chaintips.{is_id, is_status, tip_exists, drop_parent, purge_inactive, purge}

-- Every parent pointer of the rows `ts` leads to a row of `all`.
abbrev pub ParentsIn : List Chaintip → List Chaintip → Type 0
ParentsIn all ts = All (λ (t : Chaintip). tip_exists all t.parent_chaintip ≡ true) ts

abbrev pub ParentsExist : Db → Type 0
ParentsExist d = ParentsIn d.chaintips d.chaintips

same_ids :
    (left : List Chaintip) (k : ℕ) (ts : List Chaintip)
    → exists (is_id k) (map (drop_parent left) ts) ≡ exists (is_id k) ts
same_ids left k [] = refl
same_ids left k (t ∷ ts) = ground (arith, same_ids left k ts)

same_keys :
    (left : List Chaintip) (o : Option ℕ) (ts : List Chaintip)
    → tip_exists (map (drop_parent left) ts) o ≡ tip_exists ts o
same_keys left none ts = refl
same_keys left (some k) ts = same_ids left k ts

pub dropped-ParentsIn :
    (left ts : List Chaintip) → ParentsIn (map (drop_parent left) left) (map (drop_parent left) ts)
dropped-ParentsIn left [] = tt
dropped-ParentsIn left (t ∷ ts) = (
  elim (Bool-cases (tip_exists left t.parent_chaintip)) [
    | inl there ↦ rw there (rw (same_keys left t.parent_chaintip left) there)
    | inr gone ↦ rw gone refl
  ],
  dropped-ParentsIn left ts,
)

-- The fields of a row but its parent.
abbrev pub is_row : ℕ → ℕ → String → String → ℕ → Chaintip → Bool
is_row k n status hash height t =
    t.id == k && (t.node == n && (t.status == status && (t.block == hash && t.height == height)))

abbrev pub is_active : Chaintip → Bool
is_active = is_status "active"

abbrev pub points_to : ℕ → Option ℕ → Bool
points_to p none = false
points_to p (some q) = q == p

abbrev pub has_parent_id : ℕ → ℕ → Chaintip → Bool
has_parent_id k p t = t.id == k && points_to p t.parent_chaintip

kept_rows :
    (left : List Chaintip) (q : Chaintip → Bool) (ts : List Chaintip)
    → ((t : Chaintip) → q (drop_parent left t) ≡ q t)
    → exists q (map (drop_parent left) (keep_if is_active ts)) ≡ exists (λ t. is_active t && q t) ts
kept_rows left q [] same = refl
kept_rows left q (t ∷ ts) same = ground (arith, kept_rows left q ts same, same t)

points_to-dropped :
    (left : List Chaintip) (p : ℕ) (o : Option ℕ)
    → points_to p (if tip_exists left o then o else none) ≡ (points_to p o && exists (is_id p) left)
points_to-dropped left p none = refl
points_to-dropped left p (some q) = elim (Bool-cases (q == p)) [
  | inl same ↦ let e : q ≡ p = ground (arith, same) in rw e (at_parent (exists (is_id p) left))
  | inr other ↦ ground (arith, other)
]
  where
    at_parent : (b : Bool) → points_to p (if b then some p else none) ≡ (points_to p (some p) && b)
    at_parent b = ground arith

drop_parent-parent :
    (left : List Chaintip) (k p : ℕ) (t : Chaintip)
    → has_parent_id k p (drop_parent left t) ≡ (has_parent_id k p t && exists (is_id p) left)
drop_parent-parent left k p t = ground (arith, points_to-dropped left p t.parent_chaintip)

kept_parents :
    (left : List Chaintip) (k p : ℕ) (ts : List Chaintip)
    → exists (has_parent_id k p) (map (drop_parent left) (keep_if is_active ts))
      ≡ (exists (λ t. is_active t && has_parent_id k p t) ts && exists (is_id p) left)
kept_parents left k p [] = refl
kept_parents left k p (t ∷ ts) =
    ground (arith, kept_parents left k p ts, drop_parent-parent left k p t)

active_ids :
    (p : ℕ) (ts : List Chaintip)
    → exists (is_id p) (keep_if is_active ts) ≡ exists (λ t. is_active t && is_id p t) ts
active_ids p [] = refl
active_ids p (t ∷ ts) = ground (arith, active_ids p ts)

-- What `purge` does to the tables `d` when it answers: a row is there exactly if it was and is
-- active, and it keeps its parent exactly if that row is active too.
pub record IsPurged (d d' : Db) : Type 0 where
  pub rows :
      (k n : ℕ) (status hash : String) (height : ℕ)
      → exists (is_row k n status hash height) d'.chaintips
        ≡ exists (λ t. is_active t && is_row k n status hash height t) d.chaintips
  pub pointers :
      (k p : ℕ)
      → exists (has_parent_id k p) d'.chaintips ≡ (
          exists (λ t. is_active t && has_parent_id k p t) d.chaintips
          && exists (λ t. is_active t && is_id p t) d.chaintips)
  pub parents : ParentsExist d'

purge_inactive-IsPurged : (d : Db) → IsPurged d (purge_inactive d).1
unfolding purge_inactive
purge_inactive-IsPurged d =
    let left = keep_if is_active d.chaintips in
    record {
      rows = λ k n status hash height.
          kept_rows left (is_row k n status hash height) d.chaintips (λ t. refl);
      pointers = λ k p. rw (kept_parents left k p d.chaintips) (rw (active_ids p d.chaintips) refl);
      parents = dropped-ParentsIn left left;
    }

-- When `purge` answers: a row is in the table exactly if an active row with these fields was, it
-- points to a parent exactly if it did and that row is active too, and every parent pointer leads
-- to a row.
pub purge_done : (c : Conn) (k : ℕ) → (purge c).0 ≡ ok k → IsPurged c.db (purge c).1.db
unfolding purge
purge_done c k h =
    let (answer, tables) = execute_ok purge_inactive c k h in
    rw tables (purge_inactive-IsPurged c.db)
