-- ===== src/Scanner/Forks/Quiet.antt =====
-- On a connection that fails no statement, `find_fork_point` of src/scanner.rs leaves it so.
use forkscanner.Prelude.{ℕ, zero, suc, String, Option, none, some, ltb, leb, ◌==◌, text_comparable}
use forkscanner.Models.Rows.{DbError, Block}
use forkscanner.Models.Query.{Query, fail}
use forkscanner.Models.Query.Sound.{
  StaysSound, StaysSound-pure, StaysSound-fail, StaysSound-execute, StaysSound-if,
  StaysSound-or_answer,
}
use forkscanner.Models.Blocks.{get, parent, descendants}
use forkscanner.Scanner.Forks.{
  ForkPoint, lower_to, fork_or, search_fork, fork_from, find_fork_point,
}

parent-StaysSound : (b : Block) → StaysSound (parent b)
unfolding parent get
parent-StaysSound b = by_hash b.parent_hash
  where
    by_hash :
        (o : Option String)
        → StaysSound {A = Block} (elim o [ none ↦ fail DbError.not_found | some h ↦ get h ])
    by_hash none = StaysSound-fail _
    by_hash (some h) = StaysSound-execute _

module _ (parse_hash : String → Option String) (hash : String) where
  fork_or-StaysSound :
      (rest : Query ForkPoint) (p : Block) (o : Option Block)
      → StaysSound rest
      → StaysSound (fork_or parse_hash rest p o)
  fork_or-StaysSound rest p none k = k
  fork_or-StaysSound rest p (some b) k = StaysSound-pure _

  search_fork-StaysSound : (fuel : ℕ) (b : Block) → StaysSound (search_fork parse_hash fuel hash b)
  unfolding search_fork descendants
  search_fork-StaysSound zero b = StaysSound-pure _
  search_fork-StaysSound (suc fuel) b =
      StaysSound-or_answer _ _
        (λ p.
          StaysSound-or_answer _ _
            (λ desc. fork_or-StaysSound _ p _ (search_fork-StaysSound fuel p)) _
            (StaysSound-execute _))
        (parent b) (parent-StaysSound b)

  fork_from-StaysSound : (b : Block) → StaysSound (fork_from parse_hash hash b)
  unfolding fork_from
  fork_from-StaysSound b =
      StaysSound-if (b.hash == hash) _ _ (StaysSound-pure _)
        (search_fork-StaysSound (suc b.height) b)

  lower_to-StaysSound :
      (fuel height : ℕ) (b : Block)
      → StaysSound (lower_to fuel (fork_from parse_hash hash) height b)
  unfolding lower_to
  lower_to-StaysSound zero height b = StaysSound-pure _
  lower_to-StaysSound (suc fuel) height b =
      StaysSound-if (ltb height b.height) _ _
        (StaysSound-or_answer _ _ (lower_to-StaysSound fuel height) (parent b)
          (parent-StaysSound b))
        (fork_from-StaysSound b)

  pub find_fork_point-StaysSound :
      (active : String) (active_height height : ℕ)
      → StaysSound (find_fork_point parse_hash active active_height hash height)
  unfolding find_fork_point get
  find_fork_point-StaysSound active active_height height =
      StaysSound-if (leb active_height height) _ _ (StaysSound-pure _) (
        StaysSound-or_answer _ _ (λ tip. lower_to-StaysSound (suc tip.height) height tip) _
          (StaysSound-execute _))
