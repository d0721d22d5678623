-- ===== src/Models/Blocks/Unique.antt =====
-- No two rows of `blocks` have the same hash.
use forkscanner.Prelude.{
  ℕ, ◌≤◌, ◌≡◌, refl, ap, String, Bool, true, false, List, [], ◌∷◌, arith, ◌==◌, text_comparable,
  eq_of_str_eq, not, ◌&&◌, sym, exists, count_if,
}
use forkscanner.Models.Rows.{QueryResult, ok, err, DbError, Block}
use forkscanner.Models.Query.{Db, Conn, transaction}
use forkscanner.Models.Query.Keeps.{
  Keeps, Keeps-execute, Keeps-bind, Keeps-try, Keeps-select, Keeps-pure, Keeps-fail,
  Keeps-transaction,
}
use forkscanner.Models.Tables.{count_if-update_if, count_if-append}
use forkscanner.Models.Blocks.{
  Header, has_hash, is_child_of, get, update_row, update_block, update, insert_block, insert,
  set_connected, new_block, insert_and_connect, create_or_touch, get_or_create,
}

abbrev pub HashesUnique : Db → Type 0
HashesUnique d = (h : String) → count_if (has_hash h) d.blocks ≤ 1

count_if-absent :
    (h : String) (bs : List Block) → exists (has_hash h) bs ≡ false → count_if (has_hash h) bs ≡ 0
count_if-absent h [] e = refl
count_if-absent h (b ∷ bs) e = ground (arith, count_if-absent h bs)

insert_block-HashesUnique :
    (b : Block) (d : Db) → HashesUnique d → HashesUnique (insert_block b d).1
unfolding insert_block
insert_block-HashesUnique b d u h = ground (
  arith,
  count_if-append (has_hash h) d.blocks (b ∷ []),
  count_if-absent b.hash d.blocks,
  u h,
  eq_of_str_eq b.hash h,
)

set_connected-HashesUnique :
    (k : String) (d : Db) → HashesUnique d → HashesUnique (set_connected k d).1
unfolding set_connected
set_connected-HashesUnique k d u h = omega (
  arith,
  count_if-update_if (has_hash h) (is_child_of k) (λ b. record b { connected = true }) (λ b _. refl)
      d.blocks,
  u h,
)

update_block-HashesUnique :
    (self : Block) (d : Db) → HashesUnique d → HashesUnique (update_block self d).1
unfolding update_block
update_block-HashesUnique self d u h = omega (
  arith,
  count_if-update_if (has_hash h) (has_hash self.hash) (update_row d.none_as_null self)
      (λ b m. ap (λ x. x == h) (sym (eq_of_str_eq b.hash self.hash m))) d.blocks,
  u h,
)

insert_and_connect-HashesUnique :
    (b : Block) → Keeps HashesUnique (transaction (insert_and_connect b))
unfolding insert_and_connect insert
insert_and_connect-HashesUnique b = Keeps-transaction _ (
    Keeps-bind _ _ (Keeps-execute (insert_block b) (insert_block-HashesUnique b))
      (λ _. Keeps-execute (set_connected b.hash) (set_connected-HashesUnique b.hash)))

pub update-HashesUnique : (b : Block) → Keeps HashesUnique (update b)
unfolding update
update-HashesUnique b = Keeps-execute (update_block b) (update_block-HashesUnique b)

create_or_touch-HashesUnique :
    (headers_only : Bool) (first_seen_by : ℕ) (header : Header) (r : QueryResult Block)
    → Keeps HashesUnique (create_or_touch headers_only first_seen_by header r)
unfolding create_or_touch
create_or_touch-HashesUnique headers_only first_seen_by header (err DbError.not_found) =
    Keeps-bind _ _ (insert_and_connect-HashesUnique (new_block headers_only first_seen_by header))
      (λ _. Keeps-pure _)
create_or_touch-HashesUnique headers_only first_seen_by header (ok found) =
    Keeps-bind _ _
      (update-HashesUnique (record found { headers_only = found.headers_only && headers_only }))
      (λ _. Keeps-pure _)
create_or_touch-HashesUnique headers_only first_seen_by header (err e) = Keeps-fail e

-- Creating a block, or seeing it again, leaves at most one row for every hash.
pub get_or_create-HashesUnique :
    (headers_only : Bool) (first_seen_by : ℕ) (header : Header) (c : Conn)
    → HashesUnique c.db
    → HashesUnique (get_or_create headers_only first_seen_by header c).1.db
unfolding get_or_create get
get_or_create-HashesUnique headers_only first_seen_by header =
    (Keeps-bind {P = HashesUnique} _ _ (Keeps-try _ (Keeps-select _))
      (create_or_touch-HashesUnique headers_only first_seen_by header)).at

-- The test of a table at hand.
abbrev pub distinct : List Block → Bool
distinct [] = true
distinct (b ∷ bs) = not (exists (has_hash b.hash) bs) && distinct bs

distinct_count : (h : String) (bs : List Block) → distinct bs ≡ true → count_if (has_hash h) bs ≤ 1
distinct_count h [] e = omega arith
distinct_count h (b ∷ bs) e =
    ground (arith, distinct_count h bs, count_if-absent b.hash bs, eq_of_str_eq b.hash h)

pub unique_of_distinct : (d : Db) → distinct d.blocks ≡ true → HashesUnique d
unique_of_distinct d e h = distinct_count h d.blocks e
