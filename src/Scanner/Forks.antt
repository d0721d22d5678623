-- ===== src/Scanner/Forks.antt =====
-- `find_fork_point` and `find_branch_point` of src/scanner.rs: the block at which the active chain
-- of a node leaves the chain of a requested tip.
pub mod Shared
pub mod Ends
pub mod Quiet
use forkscanner.Prelude.{
  ℕ, zero, suc, String, Bool, true, false, Option, none, some, List, ltb, leb, ◌==◌, if◌then◌else◌,
  find, text_comparable,
}
use forkscanner.Models.Rows.{Block}
use forkscanner.Models.Query.{Query, pure}
use forkscanner.Models.Query.Answers.{or_answer}
use forkscanner.Models.Blocks.{has_hash, get, parent, descendants}

-- What the source answers: `Some(hash)`, or `None`. `panicked` is the `unwrap` of a hash that does
-- not parse, and `diverged` is a loop out of fuel.
pub data ForkPoint : Type 0 where
  point : String → ForkPoint
  no_point panicked diverged : ForkPoint

-- `while block1.height > height`
unfoldable pub lower_to : ℕ → (Block → Query ForkPoint) → ℕ → Block → Query ForkPoint
lower_to zero next height block1 = pure diverged
lower_to (suc fuel) next height block1 =
    let rest = lower_to fuel next height in
    if ltb height block1.height then or_answer no_point (parent block1) rest else next block1

module _ (parse_hash : String → Option String) where
  -- `BlockHash::from_str(&block1.hash).unwrap()`
  abbrev pub point_at : Block → ForkPoint
  point_at b = elim (parse_hash b.hash) [ none ↦ panicked | some h ↦ point h ]

  abbrev pub fork_or : Query ForkPoint → Block → Option Block → Query ForkPoint
  fork_or rest block1 none = rest
  fork_or rest block1 (some b) = pure (point_at block1)

  -- The `loop`, from the block below `block1`.
  unfoldable pub search_fork : ℕ → String → Block → Query ForkPoint
  unfolding or_answer
  search_fork zero hash block1 = pure diverged
  search_fork (suc fuel) hash block1 =
      let rest = search_fork fuel hash in
      or_answer no_point (parent block1) (λ p.
        or_answer no_point (descendants p none)
          (λ desc. fork_or (rest p) p (find (has_hash hash) desc)))

  unfoldable pub fork_from : String → Block → Query ForkPoint
  unfolding search_fork
  fork_from hash block1 =
      if block1.hash == hash then pure no_point else search_fork (suc block1.height) hash block1

  -- The active tip of the node, then the requested tip: a hash and a height each.
  unfoldable pub find_fork_point : String → ℕ → String → ℕ → Query ForkPoint
  unfolding fork_from lower_to
  find_fork_point active_hash active_height hash height =
      if leb active_height height
      then pure no_point
      else or_answer no_point (get active_hash)
          (λ b. lower_to (suc b.height) (fork_from hash) height b)

  -- The same code, over the tip of the mirror.
  unfoldable pub find_branch_point : String → ℕ → String → ℕ → Query ForkPoint
  unfolding fork_from lower_to
  find_branch_point active_hash active_height tip_hash tip_height =
      if leb active_height tip_height
      then pure no_point
      else or_answer no_point (get active_hash)
          (λ b. lower_to (suc b.height) (fork_from tip_hash) tip_height b)
