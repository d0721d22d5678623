-- ===== src/Scanner/LagChecks/Exact.antt =====
-- Which nodes `lag_checks` of src/scanner.rs records, by the tips and blocks of the tables alone.
use Prim.Native.String.{compare as compare_text}
use Prim.Native.Nat.{Ordering}
use forkscanner.Prelude.{
  ℕ, ◌+◌, ◌≡◌, refl, ◌∙◌, sym, ap, subst, String, Bool, true, false, ◌||◌, ◌&&◌, Option, none, some,
  List, [], ◌∷◌, ◌==◌, arith, number_comparable, text_comparable, ltb, leb, max, if◌then◌else◌,
  find, find_holds, exists, Option-cases, All, Bool-cases, inl, inr, str_eq_self, eq_of_str_eq,
}
use forkscanner.Models.Rows.{ok, Block, Chaintip}
use forkscanner.Models.Query.{Db, sound_conn}
use forkscanner.Models.Blocks.{has_hash, block_at}
use forkscanner.Scanner.LagChecks.{max_tip_height, max_work, less_work, is_behind, lag_checks}
use forkscanner.Scanner.LagChecks.Works.{less-greater}
use forkscanner.Scanner.LagChecks.Loop.{
  active_tips, add_found, found_blocks, is_lagging, is_tip_behind, IsKnown, lag_checks_run,
}

-- Both blocks are there, and the work of the first comes before that of the second as a text.
abbrev pub has_less_work : Option Block → Option Block → Bool
has_less_work (some b) (some c) = elim (compare_text b.work c.work) [
  | Ordering.lt ↦ true
  | _ ↦ false
]
has_less_work (some b) none = false
has_less_work none o = false

-- The tip `u` is at least two blocks higher than the tip `t`, or its block has more work.
abbrev pub is_outdone : Db → Chaintip → Chaintip → Bool
is_outdone d t u =
    leb (t.height + 2) u.height || has_less_work (block_at d t.block) (block_at d u.block)

abbrev is_low : ℕ → Option ℕ → Bool
is_low h none = false
is_low h (some m) = ltb (h + 1) m

abbrev is_light : String → Option String → Bool
is_light x none = false
is_light x (some m) = less_work x m

is_low-max :
    (h : ℕ) (ts : List Chaintip)
    → is_low h (max_tip_height ts) ≡ exists (λ (u : Chaintip). leb (h + 2) u.height) ts
is_low-max h [] = refl
is_low-max h (t ∷ ts) =
    step (max_tip_height ts) ∙ ap (λ b. leb (h + 2) t.height || b) (is_low-max h ts)
  where
    step :
        (o : Option ℕ)
        → is_low h (elim o [ none ↦ some t.height | some k ↦ some (max t.height k) ])
          ≡ (leb (h + 2) t.height || is_low h o)
    step none = ground arith
    step (some k) = ground arith

is_light-max :
    (x : String) (bs : List Block)
    → is_light x (max_work bs) ≡ exists (λ (b : Block). less_work x b.work) bs
is_light-max x [] = refl
is_light-max x (b ∷ bs) = step (max_work bs) ∙ ap (λ e. less_work x b.work || e) (is_light-max x bs)
  where
    step :
        (o : Option String)
        → is_light x (elim o [
          | none ↦ some b.work
          | some w ↦ some (if less_work b.work w then w else b.work)
        ])
          ≡ (less_work x b.work || is_light x o)
    step none = ground arith
    step (some w) = less-greater x b.work w

-- The blocks that were found are those of the tips.
exists-found_blocks :
    (d : Db) (b : Block) (ts : List Chaintip)
    → exists (λ (c : Block). less_work b.work c.work) (found_blocks d ts)
      ≡ exists (λ (u : Chaintip). has_less_work (some b) (block_at d u.block)) ts
exists-found_blocks d b [] = refl
exists-found_blocks d b (u ∷ ts) = step (block_at d u.block) (exists-found_blocks d b ts)
  where
    step :
        (o : Option Block)
        → exists (λ (c : Block). less_work b.work c.work) (found_blocks d ts)
          ≡ exists (λ (u : Chaintip). has_less_work (some b) (block_at d u.block)) ts
        → exists (λ (c : Block). less_work b.work c.work) (add_found o (found_blocks d ts)) ≡ (
            has_less_work (some b) o
            || exists (λ (u : Chaintip). has_less_work (some b) (block_at d u.block)) ts)
    step none e = e
    step (some c) e = ap (λ k. less_work b.work c.work || k) e

exists-or :
    (p q : Chaintip → Bool) (ts : List Chaintip)
    → exists (λ t. p t || q t) ts ≡ (exists p ts || exists q ts)
exists-or p q [] = refl
exists-or p q (t ∷ ts) = ground (arith, exists-or p q ts)

-- A tip is behind the greatest height and work exactly if a tip outdoes it.
is_behind-outdone :
    (d : Db) (t : Chaintip) (b : Block) (ts : List Chaintip) (h : ℕ) (w : String)
    → max_tip_height ts ≡ some h
    → max_work (found_blocks d ts) ≡ some w
    → block_at d t.block ≡ some b
    → is_behind h w t b ≡ exists (is_outdone d t) ts
is_behind-outdone d t b ts h w highest heaviest at =
    let low : ltb (t.height + 1) h ≡ exists (λ (u : Chaintip). leb (t.height + 2) u.height) ts =
      rw highest at (is_low-max t.height ts) in
    let light : less_work b.work w
        ≡ exists (λ (u : Chaintip). has_less_work (some b) (block_at d u.block)) ts =
      rw heaviest at (is_light-max b.work (found_blocks d ts)) ∙ exists-found_blocks d b ts in
    subst
      (λ o.
        is_behind h w t b
        ≡ exists (λ u. leb (t.height + 2) u.height || has_less_work o (block_at d u.block)) ts)
      (sym at)
      (rw (low, light)
        (sym (
          exists-or (λ u. leb (t.height + 2) u.height)
            (λ u. has_less_work (some b) (block_at d u.block)) ts)))

-- The block that the loop finds for a tip is the block of the table.
find-found_blocks :
    (h : String) (d : Db) (b : Block) (ts : List Chaintip)
    → exists (λ (u : Chaintip). u.block == h) ts ≡ true
    → block_at d h ≡ some b
    → find (has_hash h) (found_blocks d ts) ≡ some b
find-found_blocks h d b [] e at = absurd (cc)
find-found_blocks h d b (u ∷ ts) e at = elim (Bool-cases (u.block == h)) [
  | inl same ↦
      rw
        (
          eq_of_str_eq u.block h same,
          at,
          eq_of_str_eq b.hash h (find_holds (has_hash h) d.blocks b at),
          str_eq_self h,
        )
        refl
  | inr other ↦
      later (block_at d u.block) refl (find-found_blocks h d b ts (rw other at e) at) other
]
  where
    later :
        (o : Option Block)
        → block_at d u.block ≡ o
        → find (has_hash h) (found_blocks d ts) ≡ some b
        → (u.block == h) ≡ false
        → find (has_hash h) (add_found o (found_blocks d ts)) ≡ some b
    later none e k other = k
    later (some c) e k other =
        let hash = eq_of_str_eq c.hash u.block (find_holds (has_hash u.block) d.blocks c e) in
        rw (hash, other) k

max_tip_height-some :
    (t : Chaintip) (ts : List Chaintip) → (h : ℕ) × (max_tip_height (t ∷ ts) ≡ some h)
max_tip_height-some t ts = elim (Option-cases (max_tip_height ts)) [
  | inl e ↦ (t.height, rw e refl)
  | inr (k, e) ↦ (max t.height k, rw e refl)
]

max_work-some : (b : Block) (bs : List Block) → (w : String) × (max_work (b ∷ bs) ≡ some w)
max_work-some b bs = elim (Option-cases (max_work bs)) [
  | inl e ↦ (b.work, rw e refl)
  | inr (k, e) ↦ (if less_work b.work k then k else b.work, rw e refl)
]

module _ (d : Db) (n h : ℕ) (w : String) (tips : List Chaintip)
    (highest : max_tip_height tips ≡ some h)
    (heaviest : max_work (found_blocks d tips) ≡ some w) where
  late-outdone :
      (ts : List Chaintip)
      → ((u : Chaintip)
          → exists (λ (v : Chaintip). v.block == u.block) ts ≡ true
          → exists (λ (v : Chaintip). v.block == u.block) tips ≡ true)
      → All (IsKnown d) ts
      → exists (λ t. t.node == n && is_tip_behind h w (found_blocks d tips) t) ts
        ≡ exists (λ t. t.node == n && exists (is_outdone d t) tips) ts
  late-outdone [] within known = refl
  late-outdone (t ∷ ts) within known =
      let (b, at) = known.0.1 in
      let found =
        find-found_blocks t.block d b tips (within t (rw (str_eq_self t.block) refl)) at in
      let behind : is_tip_behind h w (found_blocks d tips) t ≡ is_behind h w t b =
        rw (found, is_tip_behind) refl in
      let head = behind ∙ is_behind-outdone d t b tips h w highest heaviest at in
      let tail = late-outdone ts (λ u e. within u (ground (arith, e))) known.1 in
      ap
        (λ k.
          (t.node == n && k)
          || exists (λ t. t.node == n && is_tip_behind h w (found_blocks d tips) t) ts)
        head
      ∙ ap (λ k. (t.node == n && exists (is_outdone d t) tips) || k) tail

-- On a connection that fails no statement, where there is an active tip and the tables hold the
-- node and the block of every active tip: `lag_checks` does not panic, answers the lags that it
-- leaves in the tables, and these have a node exactly if it has an active tip that another active
-- tip exceeds by two blocks or more, or by the work of its block, as a text.
pub lag_checks_exact :
    (now n : ℕ) (d : Db) (first : Chaintip) (rest : List Chaintip)
    → active_tips d ≡ first ∷ rest
    → All (IsKnown d) (active_tips d)
    → (d' : Db) × (lag_checks now (sound_conn d) ≡ (ok (some d'.lags), sound_conn d'))
      × (is_lagging n d'
          ≡ exists (λ t. t.node == n && exists (is_outdone d t) (active_tips d)) (active_tips d))
lag_checks_exact now n d first rest tips known =
    let (h, highest) = max_tip_height-some first rest in
    let (b, at) = (rw tips at known).0.1 in
    let (w, heaviest) = max_work-some b (found_blocks d rest) in
    let highest' : max_tip_height (active_tips d) ≡ some h = rw tips highest in
    let heaviest' : max_work (found_blocks d (active_tips d)) ≡ some w = rw (tips, at) heaviest in
    let (d', run, there) = lag_checks_run now h n w d highest' heaviest' known in
    (
      d',
      run,
      there
          ∙ late-outdone d n h w (active_tips d) highest' heaviest' (active_tips d) (λ u e. e)
              known,
    )
