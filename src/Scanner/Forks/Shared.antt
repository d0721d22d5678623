-- ===== src/Scanner/Forks/Shared.antt =====
-- The block that `find_fork_point` of src/scanner.rs answers is below both tips.
use forkscanner.Prelude.{
  ℕ, zero, suc, ◌≡◌, refl, String, Option, none, some, List, find, find_holds, All, All-find, ltb,
  leb, ◌==◌, text_comparable, eq_of_str_eq,
}
use forkscanner.Models.Rows.{ok, Block}
use forkscanner.Models.Query.{Db, Query, Conn}
use forkscanner.Models.Query.Answers.{Answers, Answers-pure, Answers-if, Answers-or_answer}
use forkscanner.Models.Blocks.{has_hash, block_at, get, parent, descendants}
use forkscanner.Models.Blocks.Parents.{get-Answers, parent-Answers}
use forkscanner.Models.Blocks.Descendants.{IsAbove, descendants-Answers}
use forkscanner.Scanner.Forks.{
  ForkPoint, point, no_point, panicked, lower_to, point_at, fork_or, search_fork, fork_from,
  find_fork_point,
}

-- `p` is `a`, or an ancestor of it by the parents that the table answers.
pub data IsAncestor (d : Db) (a : Block) : Block → Type 0 where
  itself : IsAncestor d a a
  parent_of :
      (b p : Block) (h : String)
      → IsAncestor d a b
      → b.parent_hash ≡ some h
      → block_at d h ≡ some p
      → IsAncestor d a p

-- `h` is the hash of an ancestor of the block `active`, and a block with the hash `hash` is that
-- ancestor or above it.
pub record IsShared (parse_hash : String → Option String) (d : Db) (active hash h : String)
    : Type 0 where
  pub tip : Block
  pub shared : Block
  pub requested : Block
  pub tip_stored : block_at d active ≡ some tip
  pub below_tip : IsAncestor d tip shared
  pub names_shared : parse_hash shared.hash ≡ some h
  pub has_hash : requested.hash ≡ hash
  pub below_requested : IsAbove d.blocks shared.hash requested

abbrev pub IsSharedPoint : (String → Option String) → Db → String → String → ForkPoint → Type 0
IsSharedPoint parse_hash d active hash (point h) = IsShared parse_hash d active hash h
IsSharedPoint parse_hash d active hash _ = Unit

module _ (parse_hash : String → Option String) (d : Db) (active hash : String) (tip : Block)
    (stored : block_at d active ≡ some tip) where
  point_at-IsSharedPoint :
      (p b : Block)
      → IsAncestor d tip p
      → b.hash ≡ hash
      → IsAbove d.blocks p.hash b
      → IsSharedPoint parse_hash d active hash (point_at parse_hash p)
  point_at-IsSharedPoint p b up same above = by_name (parse_hash p.hash) refl
    where
      by_name :
          (o : Option String)
          → parse_hash p.hash ≡ o
          → IsSharedPoint parse_hash d active hash (elim o [ none ↦ panicked | some h ↦ point h ])
      by_name none e = tt
      by_name (some h) e = record {
        tip = tip;
        shared = p;
        requested = b;
        tip_stored = stored;
        below_tip = up;
        names_shared = e;
        has_hash = same;
        below_requested = above;
      }

  fork_or-Answers :
      (rest : Query ForkPoint) (p : Block) (desc : List Block) (o : Option Block)
      → find (has_hash hash) desc ≡ o
      → IsAncestor d tip p
      → All (IsAbove d.blocks p.hash) desc
      → Answers d (IsSharedPoint parse_hash d active hash) rest
      → Answers d (IsSharedPoint parse_hash d active hash) (fork_or parse_hash rest p o)
  fork_or-Answers rest p desc none e up above k = k
  fork_or-Answers rest p desc (some b) e up above k = Answers-pure _ (
      point_at-IsSharedPoint p b up (eq_of_str_eq b.hash hash (find_holds (has_hash hash) desc b e))
        (All-find _ (has_hash hash) desc b above e))

  search_fork-Answers :
      (fuel : ℕ) (b : Block)
      → IsAncestor d tip b
      → Answers d (IsSharedPoint parse_hash d active hash) (search_fork parse_hash fuel hash b)
  unfolding search_fork
  search_fork-Answers zero b up = Answers-pure _ tt
  search_fork-Answers (suc fuel) b up =
      Answers-or_answer no_point (parent b) _ tt (parent-Answers d b) (λ p (h, link, found).
        let up' = parent_of b p h up link found in
        Answers-or_answer no_point (descendants p none) _ tt (descendants-Answers d p none)
          (λ desc above.
            fork_or-Answers _ p desc _ refl up' above (search_fork-Answers fuel p up')))

  fork_from-Answers :
      (b : Block)
      → IsAncestor d tip b
      → Answers d (IsSharedPoint parse_hash d active hash) (fork_from parse_hash hash b)
  unfolding fork_from
  fork_from-Answers b up =
      Answers-if (b.hash == hash) _ _ (λ _. Answers-pure _ tt)
        (λ _. search_fork-Answers (suc b.height) b up)

  lower_to-Answers :
      (fuel height : ℕ) (b : Block)
      → IsAncestor d tip b
      → Answers d
          (IsSharedPoint parse_hash d active hash)
          (lower_to fuel (fork_from parse_hash hash) height b)
  unfolding lower_to
  lower_to-Answers zero height b up = Answers-pure _ tt
  lower_to-Answers (suc fuel) height b up =
      Answers-if (ltb height b.height) _ _
        (λ _.
          Answers-or_answer no_point (parent b) _ tt (parent-Answers d b)
            (λ p (h, link, found). lower_to-Answers fuel height p (parent_of b p h up link found)))
        (λ _. fork_from-Answers b up)

pub find_fork_point-Answers :
    (parse_hash : String → Option String) (d : Db) (active : String) (active_height : ℕ)
    (hash : String) (height : ℕ)
    → Answers d
        (IsSharedPoint parse_hash d active hash)
        (find_fork_point parse_hash active active_height hash height)
unfolding find_fork_point
find_fork_point-Answers parse_hash d active active_height hash height =
    Answers-if (leb active_height height) _ _ (λ _. Answers-pure _ tt)
      (λ _. Answers-or_answer no_point (get active) _ tt (get-Answers d active) (λ tip stored.
        lower_to-Answers parse_hash d active hash tip stored (suc tip.height) height tip itself))

-- Whichever statements fail: the block that `find_fork_point` answers, which its callers then
-- invalidate, is an ancestor of the active tip, and the requested tip is that block or above it.
pub find_fork_point-IsShared :
    (parse_hash : String → Option String) (active : String) (active_height : ℕ) (hash : String)
    (height : ℕ) (c : Conn) (h : String)
    → (find_fork_point parse_hash active active_height hash height c).0 ≡ ok (point h)
    → IsShared parse_hash c.db active hash h
find_fork_point-IsShared parse_hash active active_height hash height c h e =
    ((find_fork_point-Answers parse_hash c.db active active_height hash height).at c refl).1
      (point h) e
