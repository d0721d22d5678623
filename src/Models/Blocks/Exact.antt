-- ===== src/Models/Blocks/Exact.antt =====
-- What `get_or_create` of src/models.rs answers and writes where no statement fails.
use forkscanner.Prelude.{
  ℕ, ◌≡◌, refl, ◌∙◌, ap, String, Bool, true, false, ◌&&◌, Option, none, some, List, [], ◌∷◌, ◌++◌,
  arith, ◌==◌, text_comparable, find, find_holds, ◌+◌, count_if, update_if, exists, if◌then◌else◌,
  Bool-cases, inl, inr, eq_of_str_eq, str_eq_self, Option-cases,
}
use forkscanner.Models.Rows.{QueryResult, ok, Block}
use forkscanner.Models.Query.{Db, sound_conn, execute, transaction, set_column, ◌>>=◌}
use forkscanner.Models.Tables.{
  find-update_if, find_absent_append, count_if-update_if, count_if-append,
}
use forkscanner.Models.Blocks.{
  Header, has_hash, is_child_of, block_at, get, update_row, update_block, update, insert_block,
  insert, set_connected, new_block, insert_and_connect, create_or_touch, get_or_create,
}

-- The number of rows.
abbrev pub count : Db → ℕ
count d = count_if (λ (b : Block). true) d.blocks

-- The row once it is seen again: by headers only if it was so before.
abbrev pub seen_again : Bool → Block → Block
seen_again headers_only b = record b { headers_only = b.headers_only && headers_only }

-- The row once the block `hash` is there.
abbrev pub connected_to : String → Block → Block
connected_to hash b = if is_child_of hash b then record b { connected = true } else b

abbrev pub map_block : (Block → Block) → Option Block → Option Block
map_block f none = none
map_block f (some b) = some (f b)

set_column_self : {A : Type 0} (null : Bool) (o : Option A) → set_column null o o ≡ o
set_column_self null (some v) = refl
set_column_self true none = refl
set_column_self false none = refl

update_row-seen :
    (null headers_only : Bool) (b : Block)
    → update_row null (seen_again headers_only b) b ≡ seen_again headers_only b
update_row-seen null headers_only b =
    rw
      (
        set_column_self null b.parent_hash,
        set_column_self null b.txids,
        set_column_self null b.txids_added,
        set_column_self null b.txids_omitted,
        set_column_self null b.pool_name,
        set_column_self null b.template_txs_fee_diff,
        set_column_self null b.tx_omitted_fee_rates,
        set_column_self null b.lowest_template_fee_rate,
        set_column_self null b.total_fee,
        set_column_self null b.coinbase_message,
      )
      refl

-- A row that the update does not name is found as before.
find-untouched :
    (p q : Block → Bool) (f : Block → Block)
    → ((x : Block) → q x ≡ true → (p x ≡ false) × (p (f x) ≡ false))
    → (xs : List Block) → find p (update_if q f xs) ≡ find p xs
find-untouched p q f other [] = refl
find-untouched p q f other (x ∷ xs) = ground (arith, other x, find-untouched p q f other xs)

find-connected :
    (h hash : String) (bs : List Block)
    → find (has_hash h) (update_if (is_child_of hash) (λ b. record b { connected = true }) bs)
      ≡ map_block (connected_to hash) (find (has_hash h) bs)
find-connected h hash [] = refl
find-connected h hash (b ∷ bs) = elim (Bool-cases (is_child_of hash b)) [
  | inl child ↦ elim (Bool-cases (b.hash == h)) [
    | inl same ↦ rw (child, same) (rw child refl)
    | inr other ↦ rw (child, other) (find-connected h hash bs)
  ]
  | inr stranger ↦ elim (Bool-cases (b.hash == h)) [
    | inl same ↦ rw (stranger, same) (rw stranger refl)
    | inr other ↦ rw (stranger, other) (find-connected h hash bs)
  ]
]

exists-of_missing : (p : Block → Bool) (bs : List Block) → find p bs ≡ none → exists p bs ≡ false
exists-of_missing p [] e = refl
exists-of_missing p (b ∷ bs) e = ground (arith, exists-of_missing p bs)

find-append :
    (p : Block → Bool) (bs : List Block) (b : Block)
    → p b ≡ false
    → find p (bs ++ b ∷ []) ≡ find p bs
find-append p [] b e = rw e refl
find-append p (c ∷ bs) b e = ground (arith, find-append p bs b e)

module _ (headers_only : Bool) (first_seen_by : ℕ) (header : Header) (d : Db) where
  abbrev created : Block
  created = new_block headers_only first_seen_by header

  touched-run :
      (b : Block)
      → block_at d header.hash ≡ some b
      → get_or_create headers_only first_seen_by header (sound_conn d) ≡ (
        ok (seen_again headers_only b),
        sound_conn (update_block (seen_again headers_only b) d).1,
      )
  unfolding get_or_create create_or_touch get update execute ◌>>=◌ update_block
  touched-run b found = rw found refl

  created-run :
      block_at d header.hash ≡ none
      → get_or_create headers_only first_seen_by header (sound_conn d)
        ≡ (ok created, sound_conn (set_connected header.hash (insert_block created d).1).1)
  unfolding get_or_create create_or_touch get insert_and_connect insert transaction execute ◌>>=◌
      insert_block set_connected
  created-run missing = rw (missing, exists-of_missing (has_hash header.hash) d.blocks missing) refl

  touched_row :
      (b : Block)
      → block_at d header.hash ≡ some b
      → block_at (update_block (seen_again headers_only b) d).1 header.hash
        ≡ some (seen_again headers_only b)
  unfolding update_block
  touched_row b found =
      let same =
        eq_of_str_eq b.hash header.hash (find_holds (has_hash header.hash) d.blocks b found) in
      find-update_if (has_hash header.hash) (has_hash b.hash)
        (update_row d.none_as_null (seen_again headers_only b))
        (λ x hit. rw (eq_of_str_eq x.hash b.hash hit) refl) d.blocks b found
      ∙ rw (str_eq_self b.hash) (ap some (update_row-seen d.none_as_null headers_only b))

  touched-others :
      (b : Block) (h : String)
      → block_at d header.hash ≡ some b
      → (header.hash == h) ≡ false
      → block_at (update_block (seen_again headers_only b) d).1 h ≡ block_at d h
  unfolding update_block
  touched-others b h found other =
      let same =
        eq_of_str_eq b.hash header.hash (find_holds (has_hash header.hash) d.blocks b found) in
      find-untouched (has_hash h) (has_hash b.hash)
        (update_row d.none_as_null (seen_again headers_only b))
        (λ x hit. let e = eq_of_str_eq x.hash b.hash hit in ((rw (e, same) other), rw same other))
        d.blocks

  created_row :
      block_at d header.hash ≡ none
      → block_at (set_connected header.hash (insert_block created d).1).1 header.hash
        ≡ some (connected_to header.hash created)
  unfolding set_connected insert_block
  created_row missing = rw (exists-of_missing (has_hash header.hash) d.blocks missing) (
      find-connected header.hash header.hash (d.blocks ++ created ∷ [])
      ∙ rw
          (
            find_absent_append (has_hash header.hash) d.blocks (created ∷ []) missing,
            str_eq_self header.hash,
          )
          refl)

  created-others :
      (h : String)
      → block_at d header.hash ≡ none
      → (header.hash == h) ≡ false
      → block_at (set_connected header.hash (insert_block created d).1).1 h
        ≡ map_block (connected_to header.hash) (block_at d h)
  unfolding set_connected insert_block
  created-others h missing other = rw (exists-of_missing (has_hash header.hash) d.blocks missing) (
      find-connected h header.hash (d.blocks ++ created ∷ [])
      ∙ rw (find-append (has_hash h) d.blocks created other) refl)

  touched-count : (b : Block) → count (update_block (seen_again headers_only b) d).1 ≡ count d
  unfolding update_block
  touched-count b =
      count_if-update_if (λ (x : Block). true) (has_hash b.hash)
        (update_row d.none_as_null (seen_again headers_only b)) (λ x hit. refl) d.blocks

  created-count :
      block_at d header.hash ≡ none
      → count (set_connected header.hash (insert_block created d).1).1 ≡ count d + 1
  unfolding set_connected insert_block
  created-count missing = rw (exists-of_missing (has_hash header.hash) d.blocks missing) (
      count_if-update_if (λ (x : Block). true) (is_child_of header.hash)
        (λ b. record b { connected = true }) (λ x hit. refl) (d.blocks ++ created ∷ [])
      ∙ count_if-append (λ (x : Block). true) d.blocks (created ∷ []))

  -- What `get_or_create` promises, by the row of the hash before: the answer, the row of the hash
  -- after, and the rows of the other hashes.
  abbrev pub IsGotOrCreated : Option Block → QueryResult Block → Db → Type 0
  IsGotOrCreated (some b) r d' =
      (r ≡ ok (seen_again headers_only b))
      × (block_at d' header.hash ≡ some (seen_again headers_only b))
      × ((h : String) → (header.hash == h) ≡ false → block_at d' h ≡ block_at d h)
      × (count d' ≡ count d)
  IsGotOrCreated none r d' =
      (r ≡ ok created)
      × (block_at d' header.hash ≡ some (connected_to header.hash created))
      × ((h : String)
          → (header.hash == h) ≡ false
          → block_at d' h ≡ map_block (connected_to header.hash) (block_at d h))
      × (count d' ≡ count d + 1)

-- On a connection that fails no statement: where the hash has a row, `get_or_create` answers that
-- row, by headers only if it was so and the call asks for headers only, writes it, and leaves the
-- other hashes and the number of rows as they are. Where it has none, a row with the fields of the
-- header is answered and added, and every row whose parent is the hash becomes connected.
pub get_or_create_exact :
    (headers_only : Bool) (first_seen_by : ℕ) (header : Header) (d : Db)
    → (d' : Db) × ((get_or_create headers_only first_seen_by header (sound_conn d)).1
        ≡ sound_conn d')
      × IsGotOrCreated headers_only first_seen_by header d
          (block_at d header.hash)
          (get_or_create headers_only first_seen_by header (sound_conn d)).0
          d'
get_or_create_exact headers_only first_seen_by header d =
    elim (Option-cases (block_at d header.hash)) [
      | inl missing ↦ rw missing (
          let run = created-run headers_only first_seen_by header d missing in
          (
            (set_connected header.hash
                (insert_block (created headers_only first_seen_by header d) d).1).1,
            ap (λ r. r.1) run,
            (
              ap (λ r. r.0) run,
              created_row headers_only first_seen_by header d missing,
              λ h other. created-others headers_only first_seen_by header d h missing other,
              created-count headers_only first_seen_by header d missing,
            ),
          ))
      | inr (b, found) ↦ rw found (
          let run = touched-run headers_only first_seen_by header d b found in
          (
            (update_block (seen_again headers_only b) d).1,
            ap (λ r. r.1) run,
            (
              ap (λ r. r.0) run,
              touched_row headers_only first_seen_by header d b found,
              λ h other. touched-others headers_only first_seen_by header d b h found other,
              touched-count headers_only first_seen_by header d b,
            ),
          ))
    ]
