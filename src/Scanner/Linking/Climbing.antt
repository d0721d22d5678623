-- ===== src/Scanner/Linking/Climbing.antt =====
-- The climbs end, write nothing, and find exactly the ancestors that are not marked.
use forkscanner.Prelude.{
  ℕ, zero, suc, ◌<◌, ◌≡◌, ◌≢◌, refl, sym, ◌∙◌, ◌⊎◌, inl, inr, String, Bool, true, false, Option,
  none, some, arith, ◌==◌, number_comparable, text_comparable, eq_of_str_eq, Bool-cases,
}
use forkscanner.Models.Rows.{DbError, QueryResult, ok, err, Block}
use forkscanner.Models.Query.{Db, Conn, Query, first_row, ◌>>=◌}
use forkscanner.Models.Query.Results.{answered}
use forkscanner.Models.Blocks
use forkscanner.Models.Blocks.{block_at, is_mark}
use forkscanner.Models.Blocks.Reads.{get_at, marked_at}
use forkscanner.Scanner.Linking.{
  Climb, reached, stopped, out_of_fuel, unless_marked, to_parent, step_up, visit, guarded, climb,
}
use forkscanner.Scanner.Linking.Ancestry.{
  Unmarked, Descends, here, up, IsStored, ParentsLower, block_at-IsStored,
}

-- A climb answers, and leaves the tables as they are.
abbrev pub Ends : Conn → Query Climb → (Climb → Type 0) → Type 0
Ends c m Q = (r : Climb) × ((m c).0 ≡ ok r) × ((m c).1.db ≡ c.db) × Q r

-- Induction over a climb, whatever statements fail.
module _ (d : Db) (marker : Option ℕ) (target : String) (floor : ℕ) (Q : ℕ → Block → Climb → Type 0)
    (dry : (b : Block) → Q zero b out_of_fuel) (stop : (f : ℕ) (b : Block) → Q (suc f) b stopped)
    (hit : (f : ℕ) (b : Block) → Unmarked d marker b → b.hash ≡ target → Q (suc f) b reached)
    (step : (f : ℕ) (b : Block) (h : String) (p : Block) (r : Climb)
      → Unmarked d marker b
      → b.parent_hash ≡ some h
      → block_at d h ≡ some p
      → Q f p r
      → Q (suc f) b r) where
  parent_ends :
      (f : ℕ) (rest : Block → Query Climb)
      → ((p : Block) (c : Conn) → c.db ≡ d → Ends c (rest p) (Q f p))
      → (b : Block) (h : String) → Unmarked d marker b
      → b.parent_hash ≡ some h
      → (r : QueryResult Block) (c : Conn) → c.db ≡ d
      → ((r ≡ err DbError.failed) ⊎ (r ≡ first_row (block_at d h)))
      → Ends c (to_parent rest r) (Q (suc f) b)
  parent_ends f rest ih b h clean link (err e) c at answer = (stopped, refl, refl, stop f b)
  parent_ends f rest ih b h clean link (ok p) c at answer =
      let (r, result, same, q) = ih p c at in
      (r, result, same, step f b h p r clean link (answered _ _ p answer refl) q)

  step_up_ends :
      (f : ℕ) (rest : Block → Query Climb)
      → ((p : Block) (c : Conn) → c.db ≡ d → Ends c (rest p) (Q f p))
      → (b : Block) (o : Option String) (c : Conn) → c.db ≡ d
      → Unmarked d marker b
      → b.parent_hash ≡ o
      → Ends c (step_up rest floor b o) (Q (suc f) b)
  unfolding step_up ◌>>=◌
  step_up_ends f rest ih b none c at clean link = (stopped, refl, refl, stop f b)
  step_up_ends f rest ih b (some h) c at clean link = elim (Bool-cases (b.height == floor)) [
    | inl low ↦ rw low (stopped, refl, refl, stop f b)
    | inr high ↦
        let (same, answer) = get_at h c at in
        let (r, result, same', q) =
          parent_ends f rest ih b h clean link (Blocks.get h c).0 (Blocks.get h c).1 same answer in
        rw high (r, result, same' ∙ same ∙ sym at, q)
  ]

  visit_ends :
      (f : ℕ) (rest : Block → Query Climb)
      → ((p : Block) (c : Conn) → c.db ≡ d → Ends c (rest p) (Q f p))
      → (b : Block) (c : Conn) → c.db ≡ d
      → Unmarked d marker b
      → Ends c (visit rest target floor b) (Q (suc f) b)
  unfolding visit
  visit_ends f rest ih b c at clean = elim (Bool-cases (b.hash == target)) [
    | inl same ↦ rw same (reached, refl, refl, hit f b clean (eq_of_str_eq b.hash target same))
    | inr other ↦ rw other (step_up_ends f rest ih b b.parent_hash c at clean refl)
  ]

  unless_marked_ends :
      (f : ℕ) (b : Block) (r : QueryResult Bool) (m : Bool) (rest : Query Climb) (c : Conn)
      → ((r ≡ err DbError.failed) ⊎ (r ≡ ok m))
      → (m ≡ false → Ends c rest (Q (suc f) b))
      → Ends c (unless_marked r rest) (Q (suc f) b)
  unless_marked_ends f b (err e) m rest c answer k = (stopped, refl, refl, stop f b)
  unless_marked_ends f b (ok true) m rest c answer k = (stopped, refl, refl, stop f b)
  unless_marked_ends f b (ok false) m rest c answer k = k (ground arith)

  guarded_ends :
      (marker' : Option ℕ)
      → marker' ≡ marker
      → (f : ℕ) (b : Block) (rest : Query Climb) (c : Conn) → c.db ≡ d
      → ((c' : Conn) → c'.db ≡ d → Unmarked d marker' b → Ends c' rest (Q (suc f) b))
      → Ends c (guarded marker' b rest) (Q (suc f) b)
  unfolding guarded ◌>>=◌
  guarded_ends none e f b rest c at k = k c at tt
  guarded_ends (some node_id) e f b rest c at k =
      let (same, answer) = marked_at b.hash c at node_id in
      let (r, result, same', q) =
        unless_marked_ends f b (Blocks.marked_invalid_by b.hash node_id c).0 _ rest
          (Blocks.marked_invalid_by b.hash node_id c).1 answer (k _ same) in
      (r, result, same' ∙ same ∙ sym at, q)

  climb_rule :
      (fuel : ℕ) (b : Block) (c : Conn)
      → c.db ≡ d
      → Ends c (climb fuel marker target floor b) (Q fuel b)
  unfolding climb
  climb_rule zero b c at = (out_of_fuel, refl, refl, dry b)
  climb_rule (suc f) b c at =
      guarded_ends marker refl f b _ c at
        (λ c' at' clean. visit_ends f (climb f marker target floor) (climb_rule f) b c' at' clean)

module _ (marker : Option ℕ) (target : String) (floor : ℕ) where
  -- A climb answers and writes nothing, and a block that it reached is an ancestor that is not cut
  -- off by a mark.
  pub climb_sound :
      (fuel : ℕ) (b : Block) (c : Conn)
      → Ends c (climb fuel marker target floor b) (λ r. r ≡ reached → Descends c.db marker target b)
  climb_sound fuel b c =
      climb_rule c.db marker target floor (λ f b r. r ≡ reached → Descends c.db marker target b)
        (λ b e. absurd (cc)) (λ f b e. absurd (cc)) (λ f b clean e _. here b clean e)
        (λ f b h p r clean link found q e. up b h p clean link found (q e)) fuel b c refl

  -- Where parents are lower than their children, `climb_fuel` is enough.
  pub climb_ends :
      (fuel : ℕ) (b : Block) (c : Conn)
      → ParentsLower c.db
      → IsStored c.db b
      → b.height < fuel
      → (climb fuel marker target floor b c).0 ≢ ok out_of_fuel
  climb_ends fuel b c lower stored enough dry =
      let (r, result, same, q) =
        climb_rule c.db marker target floor
          (λ f b r. IsStored c.db b → b.height < f → r ≢ out_of_fuel) (λ b s lt _. elim lt [ ])
          (λ f b s lt e. cc) (λ f b clean e s lt e'. cc)
          (λ f b h p r clean link found q s lt.
            q (block_at-IsStored c.db h p found)
              (let below = lower b p h s link found in omega arith))
          fuel b c refl in
      q stored enough (cc)
