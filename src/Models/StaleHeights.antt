-- ===== src/Models/StaleHeights.antt =====
-- Which heights the query for stale candidates of src/models.rs answers.
use forkscanner.Prelude.{
  ℕ, ◌≡◌, refl, Bool, ◌&&◌, ◌||◌, List, [], ◌∷◌, ltb, ◌==◌, arith, keep_if, exists, count_if,
  number_comparable,
}
use forkscanner.Models.Rows.{Block}
use forkscanner.Models.Query.{Db}
use forkscanner.Models.StaleCandidates.{
  in_window, is_unmarked, has_height, insert_height, group_heights, stale_heights,
}

abbrev pub contains : ℕ → List ℕ → Bool
contains h xs = exists (λ x. x == h) xs

pub contains-insert_height :
    (h k : ℕ) (xs : List ℕ) → contains h (insert_height k xs) ≡ (k == h || contains h xs)
unfolding insert_height
contains-insert_height h k [] = refl
contains-insert_height h k (x ∷ xs) = ground (arith, contains-insert_height h k xs)

contains-group_heights :
    (h : ℕ) (bs : List Block) → contains h (group_heights bs) ≡ ltb 0 (count_if (has_height h) bs)
unfolding group_heights
contains-group_heights h [] = refl
contains-group_heights h (b ∷ bs) =
    ground
      (arith, contains-insert_height h b.height (group_heights bs), contains-group_heights h bs)

contains-keep_if :
    (h : ℕ) (p : ℕ → Bool) (xs : List ℕ) → contains h (keep_if p xs) ≡ (p h && contains h xs)
contains-keep_if h p [] = ground arith
contains-keep_if h p (x ∷ xs) = ground (arith, contains-keep_if h p xs)

count_if-keep_if :
    {A : Type 0} (p q : A → Bool) (xs : List A)
    → count_if p (keep_if q xs) ≡ count_if (λ x. q x && p x) xs
count_if-keep_if p q [] = refl
count_if-keep_if p q (x ∷ xs) = ground (arith, count_if-keep_if p q xs)

-- The blocks at a height that the query counts.
abbrev pub rivals : ℕ → ℕ → Db → ℕ → ℕ
rivals tip_height window d h =
    count_if (λ b. (in_window tip_height window b && is_unmarked d b) && has_height h b) d.blocks

-- A height is answered exactly if more than one block of the window has it that no node has
-- marked as invalid.
pub contains-stale_heights :
    (tip_height window h : ℕ) (d : Db)
    → contains h (stale_heights tip_height window d) ≡ ltb 1 (rivals tip_height window d h)
unfolding stale_heights
contains-stale_heights tip_height window h d =
    let rows = keep_if (λ b. in_window tip_height window b && is_unmarked d b) d.blocks in
    let same =
      count_if-keep_if (has_height h) (λ b. in_window tip_height window b && is_unmarked d b)
        d.blocks in
    let there = contains-group_heights h rows in
    rw contains-keep_if (rw there (rw same (ground arith)))
