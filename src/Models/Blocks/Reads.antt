-- ===== src/Models/Blocks/Reads.antt =====
-- What the queries for one block answer: they write nothing, and fail or read the table.
use forkscanner.Prelude.{
  ℕ, ltb, count_if, ◌≡◌, refl, subst, ◌∙◌, ◌⊎◌, inl, inr, arith, String, Bool,
}
use forkscanner.Models.Rows.{DbError, QueryResult, ok, err}
use forkscanner.Models.Query.{Db, Conn, Query, pure, first_row, select, ◌>>=◌}
use forkscanner.Models.Query.Keeps.{select_cases}
use forkscanner.Models.Blocks.{block_at, get, is_mark, marked_invalid_by}

pub get_cases :
    (h : String) (c : Conn)
    → ((get h c).1.db ≡ c.db)
      × (((get h c).0 ≡ err DbError.failed) ⊎ ((get h c).0 ≡ first_row (block_at c.db h)))
unfolding get
get_cases h c = select_cases _ c

positive : QueryResult ℕ → Query Bool
positive r = (λ c. (r, c)) >>= λ n. pure (ltb 0 n)

positive_cases :
    (r : QueryResult ℕ) (c : Conn) (v : ℕ)
    → ((r ≡ err DbError.failed) ⊎ (r ≡ ok v))
    → ((positive r c).1.db ≡ c.db)
      × (((positive r c).0 ≡ err DbError.failed) ⊎ ((positive r c).0 ≡ ok (ltb 0 v)))
unfolding positive ◌>>=◌
positive_cases (ok n) c v h = (refl, inr (ground arith))
positive_cases (err e) c v h = (refl, inl (ground arith))

pub marked_cases :
    (h : String) (node_id : ℕ) (c : Conn)
    → ((marked_invalid_by h node_id c).1.db ≡ c.db)
      × (((marked_invalid_by h node_id c).0 ≡ err DbError.failed)
          ⊎ ((marked_invalid_by h node_id c).0
              ≡ ok (ltb 0 (count_if (is_mark h node_id) c.db.invalid_blocks))))
unfolding marked_invalid_by positive ◌>>=◌
marked_cases h node_id c =
    let (same, answer) = select_cases (λ d. ok (count_if (is_mark h node_id) d.invalid_blocks)) c in
    let (kept, result) =
      positive_cases _ (select (λ d. ok (count_if (is_mark h node_id) d.invalid_blocks)) c).1 _
        answer in
    (kept ∙ same, result)

-- The same where the tables are known as `d`.
module _ {d : Db} (h : String) (c : Conn) (at : c.db ≡ d) where
  pub get_at :
      ((get h c).1.db ≡ d)
      × (((get h c).0 ≡ err DbError.failed) ⊎ ((get h c).0 ≡ first_row (block_at d h)))
  get_at =
      subst
        (λ x.
          ((get h c).1.db ≡ x)
          × (((get h c).0 ≡ err DbError.failed) ⊎ ((get h c).0 ≡ first_row (block_at x h))))
        at (get_cases h c)

  pub marked_at :
      (node_id : ℕ)
      → ((marked_invalid_by h node_id c).1.db ≡ d)
        × (((marked_invalid_by h node_id c).0 ≡ err DbError.failed)
            ⊎ ((marked_invalid_by h node_id c).0
                ≡ ok (ltb 0 (count_if (is_mark h node_id) d.invalid_blocks))))
  marked_at node_id =
      subst
        (λ x.
          ((marked_invalid_by h node_id c).1.db ≡ x)
          × (((marked_invalid_by h node_id c).0 ≡ err DbError.failed)
              ⊎ ((marked_invalid_by h node_id c).0
                  ≡ ok (ltb 0 (count_if (is_mark h node_id) x.invalid_blocks)))))
        at (marked_cases h node_id c)
