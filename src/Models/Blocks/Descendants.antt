-- ===== src/Models/Blocks/Descendants.antt =====
-- What the recursive query of `Block::descendants` in src/models.rs answers.
use forkscanner.Prelude.{
  ℕ, zero, suc, ◌≡◌, ap, String, true, Option, none, some, List, [], ◌∷◌, inl, inr, leb,
  text_comparable, keep_if, is_some_eq, All, All-append, All-keep_if, eq_of_str_eq, Bool-cases,
}
use forkscanner.Prelude.Members.{IsRow, All-kept}
use forkscanner.Models.Rows.{ok, Block}
use forkscanner.Models.Query.{Db}
use forkscanner.Models.Query.Answers.{Answers, Answers-select}
use forkscanner.Models.Blocks.{
  has_hash, is_child_of, insert_by_height, order_by_height, children_of, levels, level_fuel,
  rec_query, within_limit, descendants,
}

-- `b` is a row with the hash `h`, or a row above one by the parent hashes of rows.
pub data IsAbove (all : List Block) (h : String) : Block → Type 0 where
  root : (b : Block) → IsRow all b → b.hash ≡ h → IsAbove all h b
  child :
      (p b : Block) → IsAbove all h p → IsRow all b → b.parent_hash ≡ some p.hash → IsAbove all h b

All-insert_by_height :
    (P : Block → Type 0) (b : Block) (bs : List Block)
    → P b
    → All P bs
    → All P (insert_by_height b bs)
unfolding insert_by_height
All-insert_by_height P b [] q h = (q, tt)
All-insert_by_height P b (x ∷ xs) q h = elim (Bool-cases (leb b.height x.height)) [
  | inl hit ↦ rw hit (q, h)
  | inr miss ↦ rw miss (h.0, All-insert_by_height P b xs q h.1)
]

All-order_by_height : (P : Block → Type 0) (bs : List Block) → All P bs → All P (order_by_height bs)
unfolding order_by_height
All-order_by_height P [] h = tt
All-order_by_height P (b ∷ bs) h =
    All-insert_by_height P b (order_by_height bs) h.0 (All-order_by_height P bs h.1)

is_some_eq-eq : (o : Option String) (h : String) → is_some_eq o h ≡ true → o ≡ some h
is_some_eq-eq none h e = absurd (cc)
is_some_eq-eq (some k) h e = ap some (eq_of_str_eq k h e)

module _ (all : List Block) (h : String) where
  children_of-IsAbove :
      (rs : List Block) → All (IsAbove all h) rs → All (IsAbove all h) (children_of all rs)
  unfolding children_of
  children_of-IsAbove [] above = tt
  children_of-IsAbove (r ∷ rs) above =
      All-append _ (keep_if (is_child_of r.hash) all) (children_of all rs)
        (All-kept _ (is_child_of r.hash) all
          (λ b row mine. child r b above.0 row (is_some_eq-eq b.parent_hash r.hash mine)))
        (children_of-IsAbove rs above.1)

  levels-IsAbove :
      (fuel : ℕ) (rs : List Block)
      → All (IsAbove all h) rs
      → All (IsAbove all h) (levels fuel all rs)
  unfolding levels
  levels-IsAbove zero rs above = tt
  levels-IsAbove (suc fuel) rs above =
      All-append _ rs (levels fuel all (children_of all rs)) above
        (levels-IsAbove fuel (children_of all rs) (children_of-IsAbove rs above))

  rec_query-IsAbove : All (IsAbove all h) (rec_query h all)
  unfolding rec_query
  rec_query-IsAbove =
      levels-IsAbove (level_fuel all) (keep_if (has_hash h) all)
        (All-kept _ (has_hash h) all (λ b row same. root b row (eq_of_str_eq b.hash h same)))

-- Every block that `descendants` answers is the block or above it.
pub descendants-Answers :
    (d : Db) (b : Block) (limit : Option ℕ)
    → Answers d (All (IsAbove d.blocks b.hash)) (descendants b limit)
unfolding descendants
descendants-Answers d b limit = Answers-select _ (λ bs e. rw (list_eq bs e) at in_table)
  where
    in_table :
        All
          (IsAbove d.blocks b.hash)
          (order_by_height (keep_if (within_limit b.height limit) (rec_query b.hash d.blocks)))
    in_table = All-order_by_height _ _ (
        All-keep_if _ (within_limit b.height limit) (rec_query b.hash d.blocks)
          (rec_query-IsAbove d.blocks b.hash))

    list_eq :
        (bs : List Block)
        → ok (order_by_height (keep_if (within_limit b.height limit) (rec_query b.hash d.blocks)))
          ≡ ok bs
        → order_by_height (keep_if (within_limit b.height limit) (rec_query b.hash d.blocks)) ≡ bs
    list_eq bs e = cc
