-- ===== src/Scanner/Forks/Ends.antt =====
-- The loops of `find_fork_point` of src/scanner.rs end where a parent is lower than its child.
use forkscanner.Prelude.{
  ℕ, zero, suc, ◌<◌, ◌≢◌, refl, String, Option, none, some, ltb, leb, ◌==◌, text_comparable, arith,
}
use forkscanner.Models.Rows.{ok, Block}
use forkscanner.Models.Query.{Db, Query, Conn}
use forkscanner.Models.Query.Answers.{Answers, Answers-pure, Answers-if, Answers-or_answer}
use forkscanner.Models.Blocks.{get, parent, descendants}
use forkscanner.Models.Blocks.Parents.{get-Answers, parent-Answers, IsParent}
use forkscanner.Models.Blocks.Descendants.{descendants-Answers}
use forkscanner.Scanner.Linking.Ancestry.{IsStored, ParentsLower, block_at-IsStored}
use forkscanner.Scanner.Forks.{
  ForkPoint, point, no_point, panicked, diverged, lower_to, point_at, fork_or, search_fork,
  fork_from, find_fork_point,
}

abbrev pub Ended : ForkPoint → Type 0
Ended diverged = ⊥
Ended _ = Unit

module _ (parse_hash : String → Option String) (d : Db) (lower : ParentsLower d)
    (hash : String) where
  point_at-Ended : (p : Block) → Ended (point_at parse_hash p)
  point_at-Ended p =
      elim (parse_hash p.hash) as (λ o. Ended (elim o [ none ↦ panicked | some h ↦ point h ])) [
        | none ↦ tt
        | some h ↦ tt
      ]

  fork_or-Ended :
      (rest : Query ForkPoint) (p : Block) (o : Option Block)
      → Answers d Ended rest
      → Answers d Ended (fork_or parse_hash rest p o)
  fork_or-Ended rest p none k = k
  fork_or-Ended rest p (some b) k = Answers-pure _ (point_at-Ended p)

  parent_below :
      (b p : Block) → IsStored d b → IsParent d b p → IsStored d p × (p.height < b.height)
  parent_below b p stored (h, link, found) =
      (block_at-IsStored d h p found, lower b p h stored link found)

  search_fork-Ended :
      (fuel : ℕ) (b : Block)
      → IsStored d b
      → b.height < fuel
      → Answers d Ended (search_fork parse_hash fuel hash b)
  unfolding search_fork
  search_fork-Ended zero b stored enough = absurd (omega arith)
  search_fork-Ended (suc fuel) b stored enough =
      Answers-or_answer no_point (parent b) _ tt (parent-Answers d b) (λ p up.
        let (stored', below) = parent_below b p stored up in
        Answers-or_answer no_point (descendants p none) _ tt (descendants-Answers d p none)
          (λ desc _. fork_or-Ended _ p _ (search_fork-Ended fuel p stored' (omega arith))))

  fork_from-Ended : (b : Block) → IsStored d b → Answers d Ended (fork_from parse_hash hash b)
  unfolding fork_from
  fork_from-Ended b stored =
      Answers-if (b.hash == hash) _ _ (λ _. Answers-pure _ tt)
        (λ _. search_fork-Ended (suc b.height) b stored (omega arith))

  lower_to-Ended :
      (fuel height : ℕ) (b : Block)
      → IsStored d b
      → b.height < fuel
      → Answers d Ended (lower_to fuel (fork_from parse_hash hash) height b)
  unfolding lower_to
  lower_to-Ended zero height b stored enough = absurd (omega arith)
  lower_to-Ended (suc fuel) height b stored enough =
      Answers-if (ltb height b.height) _ _
        (λ _. Answers-or_answer no_point (parent b) _ tt (parent-Answers d b) (λ p up.
          let (stored', below) = parent_below b p stored up in
          lower_to-Ended fuel height p stored' (omega arith)))
        (λ _. fork_from-Ended b stored)

  pub find_fork_point-Ended :
      (active : String) (active_height height : ℕ)
      → Answers d Ended (find_fork_point parse_hash active active_height hash height)
  unfolding find_fork_point
  find_fork_point-Ended active active_height height =
      Answers-if (leb active_height height) _ _ (λ _. Answers-pure _ tt)
        (λ _. Answers-or_answer no_point (get active) _ tt (get-Answers d active) (λ tip stored.
          lower_to-Ended (suc tip.height) height tip (block_at-IsStored d active tip stored)
            (omega arith)))

-- Where a parent is lower than its child, `find_fork_point` ends, whichever statements fail.
pub find_fork_point_ends :
    (parse_hash : String → Option String) (active : String) (active_height : ℕ) (hash : String)
    (height : ℕ) (c : Conn)
    → ParentsLower c.db
    → (find_fork_point parse_hash active active_height hash height c).0 ≢ ok diverged
find_fork_point_ends parse_hash active active_height hash height c lower e =
    ((find_fork_point-Ended parse_hash c.db lower hash active active_height height).at c refl).1
      diverged e
