-- ===== src/Scanner/Linking/Ancestry.antt =====
-- What the climbs of src/scanner.rs look for, said of the tables alone.
use forkscanner.Prelude.{
  ℕ, ◌<◌, ◌≤◌, ◌≡◌, ap, ◌∙◌, Bool, true, All, All-find, sym, subst, String, false, Option, none,
  some, arith, ltb, find_holds, eq_of_str_eq, count_if,
}
use forkscanner.Models.Rows.{Block}
use forkscanner.Models.Query.{Db}
use forkscanner.Models.Blocks.{has_hash, block_at, is_mark}

-- The node `marker`, if there is one, has not marked the block as invalid.
abbrev pub Unmarked : Db → Option ℕ → Block → Type 0
Unmarked d none b = Unit
Unmarked d (some n) b = ltb 0 (count_if (is_mark b.hash n) d.invalid_blocks) ≡ false

-- The block with the hash `target` is `b` or an ancestor of `b`, by parents that the table holds,
-- and no block on the way, both ends included, is marked.
pub data Descends (d : Db) (marker : Option ℕ) (target : String) : Block → Type 0 where
  here : (b : Block) → Unmarked d marker b → b.hash ≡ target → Descends d marker target b
  up :
      (b : Block) (h : String) (p : Block)
      → Unmarked d marker b
      → b.parent_hash ≡ some h
      → block_at d h ≡ some p
      → Descends d marker target p
      → Descends d marker target b

-- The table answers `b` for its hash.
abbrev pub IsStored : Db → Block → Type 0
IsStored d b = block_at d b.hash ≡ some b

-- A parent that the table holds is lower than its child.
abbrev pub ParentsLower : Db → Type 0
ParentsLower d =
    (b p : Block) (h : String)
    → IsStored d b
    → b.parent_hash ≡ some h
    → block_at d h ≡ some p
    → p.height < b.height

pub block_at-IsStored : (d : Db) (h : String) (b : Block) → block_at d h ≡ some b → IsStored d b
block_at-IsStored d h b e =
    subst (λ x. block_at d x ≡ some b)
      (sym (eq_of_str_eq b.hash h (find_holds (has_hash h) d.blocks b e))) e

-- An ancestor is not higher than the block.
pub Descends-le :
    {d : Db} {marker : Option ℕ} {target : String} (b : Block) (floor : ℕ)
    → ParentsLower d
    → ((t : Block) → block_at d target ≡ some t → t.height ≡ floor)
    → IsStored d b
    → Descends d marker target b
    → floor ≤ b.height
Descends-le {d} {target = target} b floor lower at_floor stored (here _ _ e) =
    let same : b.height ≡ floor = at_floor b (subst (λ x. block_at d x ≡ some b) e stored) in
    omega arith
Descends-le {d} b floor lower at_floor stored (up _ h p _ link found rest) =
    let below = Descends-le p floor lower at_floor (block_at-IsStored d h p found) rest in
    omega (arith, lower b p h stored link found)

-- The test of a table at hand.
abbrev pub parent_is_lower : Option Block → ℕ → Bool
parent_is_lower none height = true
parent_is_lower (some p) height = ltb p.height height

abbrev row_is_lower : Db → Option String → ℕ → Bool
row_is_lower d none height = true
row_is_lower d (some h) height = parent_is_lower (block_at d h) height

row_lower :
    (d : Db) (b p : Block) (h : String) (o : Option String)
    → row_is_lower d o b.height ≡ true
    → o ≡ some h
    → block_at d h ≡ some p
    → p.height < b.height
row_lower d b p h none e link found = absurd (cc)
row_lower d b p h (some k) e link found =
    let same : k ≡ h = cc in found_lower (block_at d k) e (ap (block_at d) same ∙ found)
  where
    found_lower :
        (o : Option Block) → parent_is_lower o b.height ≡ true → o ≡ some p → p.height < b.height
    found_lower none e f = absurd (cc)
    found_lower (some q) e f = ground arith

pub lower_of_rows :
    (d : Db)
    → All (λ (b : Block). row_is_lower d b.parent_hash b.height ≡ true) d.blocks
    → ParentsLower d
lower_of_rows d rows b p h stored link found =
    row_lower d b p h b.parent_hash (All-find _ (has_hash b.hash) d.blocks b rows stored) link found
