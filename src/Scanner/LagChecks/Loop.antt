-- ===== src/Scanner/LagChecks/Loop.antt =====
-- The loop of `lag_checks` of src/scanner.rs over the active tips.
use forkscanner.Prelude.{
  ℕ, ◌≡◌, refl, ◌∙◌, String, Bool, true, false, ◌||◌, ◌&&◌, Option, none, some, List, [], ◌∷◌, ◌==◌,
  arith, number_comparable, text_comparable, find, find_holds, exists, Option-cases, keep_if, All,
  exists-append, Bool-cases, inl, inr, str_eq_self, eq_of_str_eq,
}
use forkscanner.Models.Rows.{ok, Block, Chaintip, Lags}
use forkscanner.Models.Query.{Db, sound_conn, execute, ◌>>=◌}
use forkscanner.Models.Chaintips.{is_status, node_exists, list_active}
use forkscanner.Models.Blocks.{has_hash, block_at, get}
use forkscanner.Models.Lags as Lag
use forkscanner.Scanner.LagChecks.{
  max_tip_height, max_work, tip_blocks, is_behind, record_lags, lag_checks,
}

abbrev pub active_tips : Db → List Chaintip
active_tips d = keep_if (is_status "active") d.chaintips

abbrev pub add_found : Option Block → List Block → List Block
add_found none bs = bs
add_found (some b) bs = b ∷ bs

-- The blocks of the tips.
abbrev pub found_blocks : Db → List Chaintip → List Block
found_blocks d [] = []
found_blocks d (t ∷ ts) = add_found (block_at d t.block) (found_blocks d ts)

abbrev pub is_lagging : ℕ → Db → Bool
is_lagging n d = exists (λ (l : Lags). l.node_id == n) d.lags

abbrev pub is_tip_behind : ℕ → String → List Block → Chaintip → Bool
is_tip_behind max_height most_work blocks t = elim (find (has_hash t.block) blocks) [
  | none ↦ false
  | some b ↦ is_behind max_height most_work t b
]

-- The node of a tip and the block of a tip are in the tables.
abbrev pub IsKnown : Db → Chaintip → Type 0
IsKnown d t = (node_exists d t.node ≡ true) × ((b : Block) × (block_at d t.block ≡ some b))

tip_blocks-run :
    (d : Db) (ts : List Chaintip)
    → tip_blocks ts (sound_conn d) ≡ (ok (found_blocks d ts), sound_conn d)
unfolding tip_blocks get execute ◌>>=◌
tip_blocks-run d [] = refl
tip_blocks-run d (t ∷ ts) = elim (Option-cases (block_at d t.block)) [
  | inl missing ↦ rw missing (rw (tip_blocks-run d ts) refl)
  | inr (b, found) ↦ rw found (rw (tip_blocks-run d ts) refl)
]

-- The block of a tip that is known is among the blocks that were found.
exists-found :
    (h : String) (d : Db) (ts : List Chaintip)
    → exists (λ (t : Chaintip). t.block == h) ts ≡ true
    → (b : Block) → block_at d h ≡ some b
    → exists (has_hash h) (found_blocks d ts) ≡ true
exists-found h d [] e b found = absurd (cc)
exists-found h d (t ∷ ts) e b found = elim (Bool-cases (t.block == h)) [
  | inl same ↦
      rw
        (
          eq_of_str_eq t.block h same,
          found,
          eq_of_str_eq b.hash h (find_holds (has_hash h) d.blocks b found),
          str_eq_self h,
        )
        refl
  | inr other ↦ later (block_at d t.block) (exists-found h d ts (rw other at e) b found)
]
  where
    later :
        (o : Option Block)
        → exists (has_hash h) (found_blocks d ts) ≡ true
        → exists (has_hash h) (add_found o (found_blocks d ts)) ≡ true
    later none k = k
    later (some c) k = ground (arith, k)

same_key :
    (id now : ℕ) (ls : List Lags)
    → exists (λ (l : Lags). l.node_id == id && (l.created_at == now && l.updated_at == now)) ls
      ≡ true
    → exists (λ (l : Lags). l.node_id == id) ls ≡ true
same_key id now [] e = e
same_key id now (l ∷ ls) e = ground (arith, same_key id now ls)

insert_lag-there :
    (id now n : ℕ) (d : Db)
    → node_exists d id ≡ true
    → is_lagging n (Lag.insert_lag id now now d).1 ≡ (is_lagging n d || id == n)
unfolding Lag.insert_lag
insert_lag-there id now n d known = ground (
  arith,
  known,
  same_key id now d.lags,
  same_node,
  exists-append (λ (l : Lags). l.node_id == n) d.lags (lag ∷ []),
)
  where
    lag : Lags
    lag = record { node_id = id; created_at = now; deleted_at = none; updated_at = now }

    same_node : id ≡ n → exists (λ (l : Lags). l.node_id == id) d.lags ≡ is_lagging n d
    same_node e = rw e refl

insert_lag-nodes : (id now : ℕ) (d : Db) → (Lag.insert_lag id now now d).1.nodes ≡ d.nodes
unfolding Lag.insert_lag
insert_lag-nodes id now d = ground arith

or_true : (a b c : Bool) → ((a || b) || c) ≡ (a || ((b && true) || c))
or_true a b c = ground arith

or_false : (a b c : Bool) → (a || c) ≡ (a || ((b && false) || c))
or_false a b c = ground arith

-- What the loop needs of a tip: its node is in the table, and its block was found.
abbrev IsReady : Db → List Block → Chaintip → Type 0
IsReady d blocks t =
    (node_exists d t.node ≡ true) × ((b : Block) × (find (has_hash t.block) blocks ≡ some b))

module _ (now max_height n : ℕ) (most_work : String) (blocks : List Block) where
  abbrev is_late : Chaintip → Bool
  is_late t = t.node == n && is_tip_behind max_height most_work blocks t

  -- The tables after the loop over the tips.
  abbrev IsChecked : List Chaintip → Db → Db → Type 0
  IsChecked ts d d' = is_lagging n d' ≡ (is_lagging n d || exists is_late ts)

  insert_lag-IsReady :
      (id : ℕ) (d : Db) (ts : List Chaintip)
      → All (IsReady d blocks) ts
      → All (IsReady (Lag.insert_lag id now now d).1 blocks) ts
  insert_lag-IsReady id d [] h = tt
  insert_lag-IsReady id d (t ∷ ts) h =
      ((rw insert_lag-nodes h.0.0, h.0.1), insert_lag-IsReady id d ts h.1)

  record_lags-run :
      (ts : List Chaintip) (d : Db)
      → All (IsReady d blocks) ts
      → (d' : Db) × (record_lags now max_height most_work blocks ts (sound_conn d)
          ≡ (ok (some tt), sound_conn d'))
        × IsChecked ts d d'
  unfolding record_lags Lag.insert execute ◌>>=◌
  record_lags-run [] d h = (d, refl, ground arith)
  record_lags-run (t ∷ ts) d h =
      let (known, (b, found)) = h.0 in
      elim (Bool-cases (is_behind max_height most_work t b)) [
        | inl late ↦
            let (d', run, there) =
              record_lags-run ts (Lag.insert_lag t.node now now d).1
                (insert_lag-IsReady t.node d ts h.1) in
            (d', rw (found, late) run, there ∙ added t ts d known (behind t b found ∙ late))
        | inr on_time ↦
            let (d', run, there) = record_lags-run ts d h.1 in
            (d', rw (found, on_time) run, there ∙ skipped t ts d (behind t b found ∙ on_time))
      ]
    where
      behind :
          (t : Chaintip) (b : Block)
          → find (has_hash t.block) blocks ≡ some b
          → is_tip_behind max_height most_work blocks t ≡ is_behind max_height most_work t b
      behind t b found = rw (found, is_tip_behind) refl

      added :
          (t : Chaintip) (ts : List Chaintip) (d : Db)
          → node_exists d t.node ≡ true
          → is_tip_behind max_height most_work blocks t ≡ true
          → (is_lagging n (Lag.insert_lag t.node now now d).1 || exists is_late ts)
            ≡ (is_lagging n d || exists is_late (t ∷ ts))
      added t ts d known late =
          rw (late, insert_lag-there t.node now n d known)
            (or_true (is_lagging n d) (t.node == n) (exists is_late ts))

      skipped :
          (t : Chaintip) (ts : List Chaintip) (d : Db)
          → is_tip_behind max_height most_work blocks t ≡ false
          → (is_lagging n d || exists is_late ts) ≡ (is_lagging n d || exists is_late (t ∷ ts))
      skipped t ts d on_time =
          rw on_time (or_false (is_lagging n d) (t.node == n) (exists is_late ts))

find_of_exists :
    (h : String) (bs : List Block)
    → exists (has_hash h) bs ≡ true
    → (b : Block) × (find (has_hash h) bs ≡ some b)
find_of_exists h [] e = absurd (cc)
find_of_exists h (b ∷ bs) e = elim (Bool-cases (b.hash == h)) [
  | inl same ↦ (b, rw same refl)
  | inr other ↦ let (c, found) = find_of_exists h bs (rw other at e) in (c, rw other found)
]

-- Tips that are known are ready for the loop.
found_blocks-IsReady :
    (d : Db) (all ts : List Chaintip)
    → ((t : Chaintip)
        → exists (λ (u : Chaintip). u.block == t.block) ts ≡ true
        → exists (λ (u : Chaintip). u.block == t.block) all ≡ true)
    → All (IsKnown d) ts
    → All (IsReady d (found_blocks d all)) ts
found_blocks-IsReady d all [] within h = tt
found_blocks-IsReady d all (t ∷ ts) within h =
    let (known, (b, found)) = h.0 in
    (
      (
        known,
        find_of_exists t.block _
            (exists-found t.block d all (within t (rw (str_eq_self t.block) refl)) b found),
      ),
      found_blocks-IsReady d all ts (λ u e. within u (ground (arith, e))) h.1,
    )

-- The whole function, by the greatest height and work that it finds.
pub lag_checks_run :
    (now max_height n : ℕ) (most_work : String) (d : Db)
    → max_tip_height (active_tips d) ≡ some max_height
    → max_work (found_blocks d (active_tips d)) ≡ some most_work
    → All (IsKnown d) (active_tips d)
    → (d' : Db) × (lag_checks now (sound_conn d) ≡ (ok (some d'.lags), sound_conn d'))
      × (is_lagging n d'
          ≡ exists
              (λ t.
                t.node == n
                && is_tip_behind max_height most_work (found_blocks d (active_tips d)) t)
              (active_tips d))
unfolding lag_checks Lag.purge Lag.purge_lags Lag.list list_active execute ◌>>=◌
lag_checks_run now max_height n most_work d highest heaviest known =
    let purged : Db = record d { lags = [] } in
    let blocks = found_blocks d (active_tips d) in
    let (d', run, there) =
      record_lags-run now max_height n most_work blocks (active_tips d) purged
        (found_blocks-IsReady d (active_tips d) (active_tips d) (λ t e. e) known) in
    (d', rw (highest, tip_blocks-run purged (active_tips d), heaviest, run) refl, there)
