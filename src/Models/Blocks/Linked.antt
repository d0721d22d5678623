-- ===== src/Models/Blocks/Linked.antt =====
-- The hashes of `blocks` are unique, and a row is marked as connected only if its parent is there.
use forkscanner.Prelude.{
  ℕ, ◌≡◌, refl, sym, ap, inl, inr, String, Bool, true, false, not, ◌&&◌, ◌||◌, Option, none, some,
  List, [], ◌∷◌, ◌++◌, arith, ◌==◌, text_comparable, eq_of_str_eq, str_eq_self, exists, update_if,
  is_some_eq, All, All-append, All-find, exists-append, Bool-cases,
}
use forkscanner.Models.Rows.{DbError, QueryResult, ok, err, Block}
use forkscanner.Models.Query.{Db, Conn, execute, transaction, set_column, pure, ◌>>=◌}
use forkscanner.Models.Query.Keeps.{execute_post, bind_post, transaction_post}
use forkscanner.Models.Query.Results.{execute_ok, answered}
use forkscanner.Models.Tables.{exists-update_if}
use forkscanner.Models.Blocks.Reads.{get_cases}
use forkscanner.Models.Blocks.{
  Header, has_hash, is_child_of, get, update_row, update_block, update, insert_block, insert,
  set_connected, new_block, insert_and_connect, create_or_touch, get_or_create,
}

abbrev pub parent_present : List Block → Option String → Bool
parent_present all none = false
parent_present all (some h) = exists (has_hash h) all

-- The test that a row marked as connected has its parent among `all`.
abbrev pub linked_row : List Block → Block → Bool
linked_row all b = not b.connected || parent_present all b.parent_hash

abbrev pub LinkedIn : List Block → List Block → Type 0
LinkedIn all ts = All (λ (b : Block). linked_row all b ≡ true) ts

abbrev pub Linked : Db → Type 0
Linked d = LinkedIn d.blocks d.blocks

-- More rows, more parents.
abbrev Covers : List Block → List Block → Type 0
Covers all all' = (h : String) → exists (has_hash h) all ≡ true → exists (has_hash h) all' ≡ true

covered_row :
    (all all' : List Block)
    → Covers all all'
    → (connected : Bool) (p : Option String) → (not connected || parent_present all p) ≡ true
    → (not connected || parent_present all' p) ≡ true
covered_row all all' c false p h = refl
covered_row all all' c true none h = h
covered_row all all' c true (some p) h = c p h

LinkedIn-mono : (all all' ts : List Block) → Covers all all' → LinkedIn all ts → LinkedIn all' ts
LinkedIn-mono all all' [] c h = tt
LinkedIn-mono all all' (b ∷ ts) c h =
    (covered_row all all' c b.connected b.parent_hash h.0, LinkedIn-mono all all' ts c h.1)

insert_block-Linked :
    (b : Block) (d : Db) → b.connected ≡ false → Linked d → Linked (insert_block b d).1
unfolding insert_block
insert_block-Linked b d new h = elim (Bool-cases (exists (has_hash b.hash) d.blocks)) [
  | inl old ↦ rw old h
  | inr fresh ↦ rw fresh (
      All-append _ d.blocks (b ∷ []) (LinkedIn-mono d.blocks (d.blocks ++ b ∷ []) d.blocks grown h)
        (ground arith, tt))
]
  where
    grown : Covers d.blocks (d.blocks ++ b ∷ [])
    grown k e = rw exists-append (ground arith)

child_present :
    (h : String) (all : List Block) (p : Option String)
    → exists (has_hash h) all ≡ true
    → is_some_eq p h ≡ true
    → parent_present all p ≡ true
child_present h all none there e = cc
child_present h all (some k) there e = rw (eq_of_str_eq k h e) there

connected-LinkedIn :
    (h : String) (all ts : List Block)
    → exists (has_hash h) all ≡ true
    → LinkedIn all ts
    → LinkedIn all (update_if (is_child_of h) (λ b. record b { connected = true }) ts)
connected-LinkedIn h all [] there l = tt
connected-LinkedIn h all (b ∷ ts) there l = (
  elim (Bool-cases (is_child_of h b)) [
    | inl mine ↦ rw mine (child_present h all b.parent_hash there mine)
    | inr other ↦ rw other l.0
  ],
  connected-LinkedIn h all ts there l.1,
)

Covers-update :
    (q : Block → Bool) (f : Block → Block)
    → ((b : Block) → q b ≡ true → (f b).hash ≡ b.hash)
    → (all : List Block) → Covers all (update_if q f all)
Covers-update q f same all h e =
    rw (exists-update_if (has_hash h) q f (λ b m. ap (λ x. x == h) (same b m)) all) e

set_connected-Linked :
    (h : String) (d : Db)
    → exists (has_hash h) d.blocks ≡ true
    → Linked d
    → Linked (set_connected h d).1
unfolding set_connected
set_connected-Linked h d there l =
    LinkedIn-mono d.blocks _ _ (Covers-update _ _ (λ b m. refl) d.blocks)
      (connected-LinkedIn h d.blocks d.blocks there l)

updated_row :
    (null : Bool) (all : List Block) (self b : Block)
    → linked_row all self ≡ true
    → linked_row all (update_row null self b) ≡ true
updated_row null all self b l = parents self.connected self.parent_hash l
  where
    parents :
        (connected : Bool) (p : Option String)
        → (not connected || parent_present all p) ≡ true
        → (not connected || parent_present all (set_column null b.parent_hash p)) ≡ true
    parents false p l = refl
    parents true (some p) l = l
    parents true none l = cc

updated-LinkedIn :
    (null : Bool) (all : List Block) (self : Block) (ts : List Block)
    → linked_row all self ≡ true
    → LinkedIn all ts
    → LinkedIn all (update_if (has_hash self.hash) (update_row null self) ts)
updated-LinkedIn null all self [] r l = tt
updated-LinkedIn null all self (b ∷ ts) r l = (
  elim (Bool-cases (has_hash self.hash b)) [
    | inl mine ↦ rw mine (updated_row null all self b r)
    | inr other ↦ rw other l.0
  ],
  updated-LinkedIn null all self ts r l.1,
)

pub update_block-Linked :
    (self : Block) (d : Db)
    → linked_row d.blocks self ≡ true
    → Linked d
    → Linked (update_block self d).1
unfolding update_block
update_block-Linked self d r l =
    LinkedIn-mono d.blocks _ _
      (Covers-update _ _ (λ b m. sym (eq_of_str_eq b.hash self.hash m)) d.blocks)
      (updated-LinkedIn d.none_as_null d.blocks self d.blocks r l)

inserted :
    (b : Block) (d : Db) (k : ℕ)
    → (insert_block b d).0 ≡ ok k
    → exists (has_hash b.hash) (insert_block b d).1.blocks ≡ true
unfolding insert_block
inserted b d k h = elim (Bool-cases (exists (has_hash b.hash) d.blocks)) [
  | inl old ↦ absurd (let e = rw old at h in cc)
  | inr fresh ↦ rw (fresh, exists-append, str_eq_self b.hash) (ground arith)
]

insert_and_connect-Linked :
    (b : Block) (c : Conn)
    → b.connected ≡ false
    → Linked c.db
    → Linked (insert_and_connect b c).1.db
unfolding insert_and_connect insert
insert_and_connect-Linked b c new l =
    bind_post Linked (execute (insert_block b)) _ c
      (execute_post Linked (insert_block b) c l (insert_block-Linked b c.db new l))
      (λ k e.
        let (answer, tables) = execute_ok (insert_block b) c k e in
        execute_post Linked (set_connected b.hash) _ (rw tables (insert_block-Linked b c.db new l))
          (rw tables (
            set_connected-Linked b.hash (insert_block b c.db).1 (inserted b c.db k answer)
              (insert_block-Linked b c.db new l))))

create_or_touch-Linked :
    (headers_only : Bool) (first_seen_by : ℕ) (header : Header) (r : QueryResult Block) (c : Conn)
    → ((b : Block) → r ≡ ok b → linked_row c.db.blocks b ≡ true)
    → Linked c.db
    → Linked (create_or_touch headers_only first_seen_by header r c).1.db
unfolding create_or_touch update
create_or_touch-Linked headers_only first_seen_by header (err DbError.not_found) c row l =
    let b = new_block headers_only first_seen_by header in
    bind_post Linked (transaction (insert_and_connect b)) _ c
      (transaction_post Linked (insert_and_connect b) c l
        (λ c' l'. insert_and_connect-Linked b c' refl l'))
      (λ k e.
        transaction_post Linked (insert_and_connect b) c l
          (λ c' l'. insert_and_connect-Linked b c' refl l'))
create_or_touch-Linked headers_only first_seen_by header (ok found) c row l =
    let b = record found { headers_only = found.headers_only && headers_only } in
    let after =
      execute_post Linked (update_block b) c l (update_block-Linked b c.db (row found refl) l) in
    bind_post Linked (update b) (λ _. pure b) c after (λ k e. after)
create_or_touch-Linked headers_only first_seen_by header (err e) c row l = l

-- Creating a block, or seeing it again, keeps a row marked as connected only if its parent is in
-- the table, whichever of the statements the database fails.
pub get_or_create-Linked :
    (headers_only : Bool) (first_seen_by : ℕ) (header : Header) (c : Conn)
    → Linked c.db
    → Linked (get_or_create headers_only first_seen_by header c).1.db
unfolding get_or_create ◌>>=◌
get_or_create-Linked headers_only first_seen_by header c l =
    let (same, answer) = get_cases header.hash c in
    create_or_touch-Linked headers_only first_seen_by header (get header.hash c).0
      (get header.hash c).1
      (λ b e. rw same (All-find _ (has_hash header.hash) c.db.blocks b l (answered _ _ b answer e)))
      (rw same l)
