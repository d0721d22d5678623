-- ===== src/Models/Chaintips/Active.antt =====
-- `set_active_tip`: a node has one active tip, and it is the one that was set last.
use forkscanner.Prelude.{
  ℕ, ◌≤◌, ◌<◌, ◌≡◌, refl, ◌⊎◌, inl, inr, String, none, some, [], ◌∷◌, arith, find, count_if,
  if◌then◌else◌, Bool-cases, eq_of_str_eq, str_eq_self, false, sym, ◌∙◌, find_holds, ◌==◌,
  text_comparable, number_comparable,
}
use forkscanner.Models.Rows.{DbError, QueryResult, ok, err, Chaintip}
use forkscanner.Models.Query.{Db, Conn, execute, first_row, ◌>>=◌, ◌>>◌}
use forkscanner.Models.Query.Keeps.{Keeps-execute, Keeps-bind, execute_post, select_cases}
use forkscanner.Models.Tables.{
  count_if-update_if, count_if-append, count_if_absent, find-update_if, find_absent_append,
  count_if_found,
}
use forkscanner.Models.Query.Results.{execute_ok, bind_ok, answered, not_answered}
use forkscanner.Models.Chaintips.{
  is_id, is_active_of, has_parent, new_tip, moved, insert_tip, clear_parent, move_tip, get_active,
  write_active, set_active_tip,
}

-- No node has two active rows.
abbrev pub OneActive : Db → Type 0
OneActive d = (n : ℕ) → count_if (is_active_of n) d.chaintips ≤ 1

clear_parent-OneActive : (k : ℕ) (d : Db) → OneActive d → OneActive (clear_parent k d).1
unfolding clear_parent
clear_parent-OneActive k d h n = omega (
  arith,
  count_if-update_if (is_active_of n) (has_parent k) (λ t. record t { parent_chaintip = none })
      (λ t _. refl) d.chaintips,
  h n,
)

move_tip-OneActive :
    (k : ℕ) (hash : String) (height : ℕ) (d : Db)
    → OneActive d
    → OneActive (move_tip k hash height d).1
unfolding move_tip
move_tip-OneActive k hash height d h n = omega (
  arith,
  count_if-update_if (is_active_of n) (is_id k) (moved hash height) (λ t _. refl) d.chaintips,
  h n,
)

insert_tip-OneActive :
    (node_id : ℕ) (hash : String) (height : ℕ) (d : Db)
    → find (is_active_of node_id) d.chaintips ≡ none
    → OneActive d
    → OneActive (insert_tip node_id "active" hash height d).1
unfolding insert_tip
insert_tip-OneActive node_id hash height d missing h n = ground (
  arith,
  count_if-append (is_active_of n) d.chaintips
      (new_tip d.next_chaintip node_id "active" hash height ∷ []),
  count_if_absent (is_active_of node_id) d.chaintips missing,
  h n,
)

write_active-OneActive :
    (height : ℕ) (hash : String) (node_id : ℕ) (r : QueryResult Chaintip) (c : Conn)
    → (r ≡ err DbError.not_found → find (is_active_of node_id) c.db.chaintips ≡ none)
    → OneActive c.db
    → OneActive (write_active height hash node_id r c).1.db
unfolding write_active
write_active-OneActive height hash node_id (ok tip) c missing h =
    elim (Bool-cases (tip.block == hash)) [
      | inl same ↦ rw same h
      | inr other ↦ rw other (
          (Keeps-bind {P = OneActive} (execute (clear_parent tip.id))
              (λ _. execute (move_tip tip.id hash height))
              (Keeps-execute _ (clear_parent-OneActive tip.id))
              (λ _. Keeps-execute _ (move_tip-OneActive tip.id hash height))).at
            c h)
    ]
write_active-OneActive height hash node_id (err DbError.not_found) c missing h =
    execute_post OneActive _ c h (insert_tip-OneActive node_id hash height c.db (missing refl) h)
write_active-OneActive height hash node_id (err e) c missing h = h

-- What the query of the active tip answers, and that it writes nothing.
pub get_active_cases :
    (node_id : ℕ) (c : Conn)
    → ((get_active node_id c).1.db ≡ c.db)
      × (((get_active node_id c).0 ≡ err DbError.failed)
          ⊎ ((get_active node_id c).0 ≡ first_row (find (is_active_of node_id) c.db.chaintips)))
unfolding get_active
get_active_cases node_id c = select_cases _ c

get_active_missing :
    (node_id : ℕ) (c : Conn)
    → (get_active node_id c).0 ≡ err DbError.not_found
    → find (is_active_of node_id) (get_active node_id c).1.db.chaintips ≡ none
get_active_missing node_id c e =
    rw (get_active_cases node_id c).0 (not_answered _ _ (get_active_cases node_id c).1 e)

-- Setting a node's active tip keeps at most one active row for every node, whichever of its
-- statements the database fails.
pub set_active_tip-OneActive :
    (height : ℕ) (hash : String) (node_id : ℕ) (c : Conn)
    → OneActive c.db
    → OneActive (set_active_tip height hash node_id c).1.db
unfolding set_active_tip ◌>>=◌
set_active_tip-OneActive height hash node_id c h =
    let (same, _) = get_active_cases node_id c in
    write_active-OneActive height hash node_id (get_active node_id c).0 (get_active node_id c).1
      (get_active_missing node_id c) (rw same h)

-- What `set_active_tip` promises once it answers `k` rows, between the tables `d` and `d'`: the row
-- was there and nothing is written, or the active row of before, if any, held another block.
abbrev pub IsSetTip : ℕ → String → ℕ → ℕ → Db → Db → Type 0
IsSetTip height hash node_id k d d' =
    (t : Chaintip) × (find (is_active_of node_id) d'.chaintips ≡ some t)
    × (t.block ≡ hash)
    × (((k ≡ 0) × (d' ≡ d))
        ⊎ ((0 < k)
            × (t.height ≡ height)
            × (t.parent_chaintip ≡ none)
            × ((u : Chaintip)
                → find (is_active_of node_id) d.chaintips ≡ some u
                → ¬ (u.block ≡ hash))))

differs :
    (tip u : Chaintip) (hash : String)
    → (tip.block == hash) ≡ false
    → some tip ≡ some u
    → ¬ (u.block ≡ hash)
differs tip u hash other e same = let self = str_eq_self hash in cc

-- The two statements that move an active tip, on a connection that fails neither.
abbrev replaced : Chaintip → String → ℕ → Db → Db
replaced tip hash height d = (move_tip tip.id hash height (clear_parent tip.id d).1).1

find-replaced :
    (node_id : ℕ) (tip : Chaintip) (hash : String) (height : ℕ) (d : Db)
    → find (is_active_of node_id) d.chaintips ≡ some tip
    → find (is_active_of node_id) (replaced tip hash height d).chaintips
      ≡ some (moved hash height tip)
unfolding move_tip clear_parent
find-replaced node_id tip hash height d found =
    let after_clear =
      find-update_if (is_active_of node_id) (has_parent tip.id)
        (λ t. record t { parent_chaintip = none }) (λ t _. refl) d.chaintips tip found in
    ground (
      arith,
      find-update_if (is_active_of node_id) (is_id tip.id) (moved hash height) (λ t _. refl)
          (clear_parent tip.id d).1.chaintips
          (if has_parent tip.id tip then record tip { parent_chaintip = none } else tip)
          after_clear,
    )

count-replaced :
    (node_id : ℕ) (tip : Chaintip) (d : Db)
    → find (is_active_of node_id) d.chaintips ≡ some tip
    → 0 < count_if (is_id tip.id) (clear_parent tip.id d).1.chaintips
unfolding clear_parent
count-replaced node_id tip d found = ground (
  arith,
  count_if-update_if (is_id tip.id) (has_parent tip.id) (λ t. record t { parent_chaintip = none })
      (λ t _. refl) d.chaintips,
  count_if_found (is_active_of node_id) (is_id tip.id) d.chaintips tip found,
)

count-move_tip :
    (k : ℕ) (hash : String) (height : ℕ) (d : Db) (n : ℕ)
    → (move_tip k hash height d).0 ≡ ok n
    → n ≡ count_if (is_id k) d.chaintips
unfolding move_tip
count-move_tip k hash height d n h = ground arith

replace_done :
    (height : ℕ) (hash : String) (node_id : ℕ) (tip : Chaintip) (c : Conn) (k : ℕ)
    → find (is_active_of node_id) c.db.chaintips ≡ some tip
    → (tip.block == hash) ≡ false
    → ((execute (clear_parent tip.id) >> execute (move_tip tip.id hash height)) c).0 ≡ ok k
    → IsSetTip height hash node_id k c.db
        ((execute (clear_parent tip.id) >> execute (move_tip tip.id hash height)) c).1.db
replace_done height hash node_id tip c k found other h =
    let (n, first, second, whole) =
      bind_ok (λ _. execute (move_tip tip.id hash height)) (execute (clear_parent tip.id)) c k h in
    let (_, cleared) = execute_ok (clear_parent tip.id) c n first in
    let (count, moves) = execute_ok (move_tip tip.id hash height) _ k second in
    (
      moved hash height tip,
      rw (whole, moves, cleared) (find-replaced node_id tip hash height c.db found),
      refl,
      inr (
        rw (rw cleared at (count-move_tip tip.id hash height _ k count))
            (count-replaced node_id tip c.db found),
        refl,
        refl,
        λ u e. differs tip u hash other (sym found ∙ e),
      ),
    )

insert_tip_done :
    (height : ℕ) (hash : String) (node_id : ℕ) (d : Db) (k : ℕ)
    → find (is_active_of node_id) d.chaintips ≡ none
    → (insert_tip node_id "active" hash height d).0 ≡ ok k
    → IsSetTip height hash node_id k d (insert_tip node_id "active" hash height d).1
unfolding insert_tip
insert_tip_done height hash node_id d k missing h = (
  new_tip d.next_chaintip node_id "active" hash height,
  ground (
    arith,
    find_absent_append (is_active_of node_id) d.chaintips
        (new_tip d.next_chaintip node_id "active" hash height ∷ []) missing,
  ),
  refl,
  inr (ground arith, refl, refl, λ u e _. absurd (cc)),
)

insert_done :
    (height : ℕ) (hash : String) (node_id : ℕ) (c : Conn) (k : ℕ)
    → find (is_active_of node_id) c.db.chaintips ≡ none
    → (execute (insert_tip node_id "active" hash height) c).0 ≡ ok k
    → IsSetTip height hash node_id k c.db (execute (insert_tip node_id "active" hash height) c).1.db
insert_done height hash node_id c k missing h =
    let (answer, tables) = execute_ok (insert_tip node_id "active" hash height) c k h in
    rw tables (insert_tip_done height hash node_id c.db k missing answer)

write_done :
    (height : ℕ) (hash : String) (node_id : ℕ) (r : QueryResult Chaintip) (c : Conn) (k : ℕ)
    → ((r ≡ err DbError.failed) ⊎ (r ≡ first_row (find (is_active_of node_id) c.db.chaintips)))
    → (write_active height hash node_id r c).0 ≡ ok k
    → IsSetTip height hash node_id k c.db (write_active height hash node_id r c).1.db
unfolding write_active
write_done height hash node_id (ok tip) c k e h = elim (Bool-cases (tip.block == hash)) [
  | inl same ↦ rw same (
    tip,
    answered _ _ tip e refl,
    eq_of_str_eq tip.block hash same,
    inl (let answer = rw same at h in ground arith, refl),
  )
  | inr other ↦
      rw other
        (replace_done height hash node_id tip c k (answered _ _ tip e refl) other (rw other at h))
]
write_done height hash node_id (err DbError.not_found) c k e h =
    insert_done height hash node_id c k (not_answered _ _ e refl) h
write_done height hash node_id (err e') c k e h = absurd (cc)

set_active_tip_cases :
    (height : ℕ) (hash : String) (node_id : ℕ) (c : Conn) (k : ℕ)
    → (set_active_tip height hash node_id c).0 ≡ ok k
    → IsSetTip height hash node_id k c.db (set_active_tip height hash node_id c).1.db
unfolding set_active_tip ◌>>=◌
set_active_tip_cases height hash node_id c k h =
    let (same, answer) = get_active_cases node_id c in
    rw same at (
      write_done height hash node_id (get_active node_id c).0 (get_active node_id c).1 k
        (rw same answer) h)

-- Where no node has two active rows: when `set_active_tip` answers, the node has exactly one, and it
-- holds the block. Either 0 rows are answered and the tables are as before, or at least one is, the
-- row has the given height and no parent, and an active row that the node had before held another
-- block.
pub set_active_tip_done :
    (height : ℕ) (hash : String) (node_id : ℕ) (c : Conn) (k : ℕ)
    → OneActive c.db
    → (set_active_tip height hash node_id c).0 ≡ ok k
    → IsSetTip height hash node_id k c.db (set_active_tip height hash node_id c).1.db
      × (count_if (is_active_of node_id) (set_active_tip height hash node_id c).1.db.chaintips ≡ 1)
set_active_tip_done height hash node_id c k one h =
    let (t, found, held, rest) = set_active_tip_cases height hash node_id c k h in
    (
      (t, found, held, rest),
      omega (
        arith,
        set_active_tip-OneActive height hash node_id c one node_id,
        count_if_found (is_active_of node_id) (is_active_of node_id)
            (set_active_tip height hash node_id c).1.db.chaintips t found
            (find_holds (is_active_of node_id) (set_active_tip height hash node_id c).1.db.chaintips
              t found),
      ),
    )
