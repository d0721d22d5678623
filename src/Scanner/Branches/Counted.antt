-- ===== src/Scanner/Branches/Counted.antt =====
-- The number of branches that `set_children` of src/scanner.rs leaves in a candidate, and what follows
-- for `get_confirmed_in_one_branch`.
use forkscanner.Prelude.{
  ℕ, zero, suc, ◌+◌, ◌<◌, ◌≡◌, refl, ◌∙◌, sym, ap, subst, inl, inr, Bool, true, false, not, ◌&&◌,
  Option, none, some, List, [], ◌∷◌, arith, length, max, ltb, ◌==◌, if◌then◌else◌, keep_if, exists,
  exists-append, All, number_comparable, text_comparable, str_eq_self,
}
use forkscanner.Prelude.Members.{IsRow, All-kept}
use forkscanner.Models.Rows.{ok, Block, StaleCandidate, StaleCandidateChildren}
use forkscanner.Models.Query.{Db, Conn, sound_conn, execute, ◌>>=◌}
use forkscanner.Models.Query.Answers.{or_answer}
use forkscanner.Models.Blocks.{
  has_hash, max_of, children_of, levels, level_fuel, rec_query, get_at_height,
}
use forkscanner.Models.Branches.{insert_by_work, order_by_work, descendants_by_work}
use forkscanner.Models.StaleCandidates as Stale
use forkscanner.Scanner.StaleCandidates.{stale_window}
use forkscanner.Scanner.Branches.{
  last_of, add_branches, set_children, unconfirmed, get_confirmed_in_one_branch,
}

exists-IsRow :
    (p : Block → Bool) (b : Block) (bs : List Block) → IsRow bs b → p b ≡ true → exists p bs ≡ true
exists-IsRow p b [] row e = absurd row
exists-IsRow p b (x ∷ bs) (inl same) e = rw (ap p same ∙ e) refl
exists-IsRow p b (x ∷ bs) (inr row) e = ground (arith, exists-IsRow p b bs row e)

exists-kept :
    (p q : Block → Bool) (bs : List Block)
    → exists (λ x. p x && q x) bs ≡ true
    → exists p (keep_if q bs) ≡ true
exists-kept p q [] e = absurd (cc)
exists-kept p q (x ∷ bs) e = ground (arith, e, exists-kept p q bs)

-- A list that is not empty has a last element.
last_of-some : (b : Block) (bs : List Block) → (t : Block) × (last_of (b ∷ bs) ≡ some t)
last_of-some b [] = (b, refl)
last_of-some b (x ∷ xs) = last_of-some x xs

some-if :
    (c : Bool) (xs ys : List Block)
    → (t : Block) × (last_of xs ≡ some t)
    → (t : Block) × (last_of ys ≡ some t)
    → (t : Block) × (last_of (if c then xs else ys) ≡ some t)
some-if true xs ys p q = p
some-if false xs ys p q = q

insert_by_work-some :
    (b : Block) (bs : List Block) → (t : Block) × (last_of (insert_by_work b bs) ≡ some t)
unfolding insert_by_work
insert_by_work-some b [] = (b, refl)
insert_by_work-some b (x ∷ xs) =
    some-if _ (b ∷ x ∷ xs) (x ∷ insert_by_work b xs) (last_of-some b (x ∷ xs))
      (last_of-some x (insert_by_work b xs))

order_by_work-some :
    (p : Block → Bool) (bs : List Block)
    → exists p bs ≡ true
    → (t : Block) × (last_of (order_by_work bs) ≡ some t)
unfolding order_by_work
order_by_work-some p [] e = absurd (cc)
order_by_work-some p (b ∷ bs) e = insert_by_work-some b (order_by_work bs)

max_of-some : (b : Block) (all : List Block) → IsRow all b → (h : ℕ) × (max_of all ≡ some h)
max_of-some b [] row = absurd row
max_of-some b (x ∷ xs) row = by_rest (max_of xs)
  where
    by_rest :
        (o : Option ℕ)
        → (h : ℕ) × (elim o [ none ↦ some x.height | some h ↦ some (max x.height h) ] ≡ some h)
    by_rest none = (x.height, refl)
    by_rest (some h) = (max x.height h, refl)

levels-exists :
    (p : Block → Bool) (all rs : List Block) (n : ℕ)
    → 0 < n
    → exists p rs ≡ true
    → exists p (levels n all rs) ≡ true
unfolding levels
levels-exists p all rs zero pos e = absurd (omega (arith, pos))
levels-exists p all rs (suc n) pos e =
    exists-append p rs (levels n all (children_of all rs)) ∙ rw e refl

-- The recursive query answers the block itself.
rec_query-exists :
    (p : Block → Bool) (b : Block) (all : List Block)
    → IsRow all b
    → p b ≡ true
    → exists p (rec_query b.hash all) ≡ true
unfolding rec_query
rec_query-exists p b all row e =
    let (h, found) = max_of-some b all row in
    levels-exists p all (keep_if (has_hash b.hash) all) (level_fuel all)
      (omega (arith, ap fuel_for found))
      (exists-kept p (has_hash b.hash) all
        (exists-IsRow (λ x. p x && has_hash b.hash x) b all row (rw (e, str_eq_self b.hash) refl)))
  where
    fuel_for : Option ℕ → ℕ
    fuel_for o = elim o [ none ↦ 0 | some h ↦ suc h ]

descendants_by_work-some :
    (b : Block) (limit : ℕ) (d : Db)
    → IsRow d.blocks b
    → ltb b.height limit ≡ true
    → (t : Block) × (last_of
          (order_by_work (keep_if (λ (x : Block). ltb x.height limit) (rec_query b.hash d.blocks)))
        ≡ some t)
descendants_by_work-some b limit d row low =
    order_by_work-some (λ x. true) _
      (exists-kept (λ x. true) (λ (x : Block). ltb x.height limit) _
        (rec_query-exists (λ x. true && ltb x.height limit) b d.blocks row low))

insert_child-blocks :
    (c : StaleCandidateChildren) (d : Db) → (Stale.insert_child c d).1.blocks ≡ d.blocks
unfolding Stale.insert_child
insert_child-blocks c d = ground arith

add_branches-run :
    (bs : List Block) (c : StaleCandidate) (d : Db)
    → All (IsRow d.blocks) bs
    → (d' : Db) × (add_branches bs c (sound_conn d)
        ≡ (ok (some (record c { n_children = c.n_children + length bs })), sound_conn d'))
unfolding add_branches descendants_by_work execute ◌>>=◌ Stale.create_child
add_branches-run [] c d rows =
    (d, ap (λ n. (ok (some (record c { n_children = n })), sound_conn d)) (omega arith))
add_branches-run (b ∷ bs) c d rows =
    let (t, last) = descendants_by_work-some b (b.height + stale_window) d rows.0 (ground arith) in
    let child : StaleCandidateChildren = record {
      candidate_height = b.height;
      root_id = b.hash;
      tip_id = t.hash;
      len = length (
          order_by_work (
            keep_if (λ (x : Block). ltb x.height (b.height + stale_window))
              (rec_query b.hash d.blocks)));
    } in
    let (d', run) =
      add_branches-run bs (record c { n_children = suc c.n_children })
        (Stale.insert_child child d).1
        (subst (λ all. All (IsRow all) bs) (sym (insert_child-blocks child d)) rows.1) in
    (
      d',
      rw last
          (run ∙ ap (λ n. (ok (some (record c { n_children = n })), sound_conn d')) (omega arith)),
    )

-- The blocks at the height of the candidate.
abbrev pub rivals_of : StaleCandidate → Db → List Block
rivals_of c d = keep_if (λ (b : Block). b.height == c.height) d.blocks

-- On a connection that fails no statement, set_children does not panic, and leaves the number of branches that
-- the candidate had, plus the number of blocks at its height.
pub set_children-run :
    (c : StaleCandidate) (d : Db)
    → (d' : Db) × (set_children c (sound_conn d) ≡ (
      ok (some (record c { n_children = c.n_children + length (rivals_of c d) })),
      sound_conn d',
    ))
unfolding set_children or_answer execute ◌>>=◌ Stale.purge_children Stale.update get_at_height
set_children-run c d =
    let (d', run) =
      add_branches-run (rivals_of c d) c
        (record d {
          stale_candidate_children =
              keep_if (λ x. not (Stale.is_child_at c.height x)) d.stale_candidate_children;
        })
        (All-kept (IsRow d.blocks) (λ (b : Block). b.height == c.height) d.blocks (λ b r e. r)) in
    (
      (Stale.update (record c { n_children = c.n_children + length (rivals_of c d) })
          (sound_conn d')).1.db,
      rw run refl,
    )

-- For a candidate with the number of blocks at its height, as find_stale_candidates creates it, and
-- two blocks or more: on a connection that fails no statement, set_children answers a candidate for which
-- get_confirmed_in_one_branch answers no transactions, on every connection.
pub set_children-unconfirmed :
    (c : StaleCandidate) (d : Db)
    → c.n_children ≡ length (rivals_of c d)
    → 1 < length (rivals_of c d)
    → (c' : StaleCandidate) × (d' : Db) × (set_children c (sound_conn d)
        ≡ (ok (some c'), sound_conn d'))
      × ((k : Conn) → get_confirmed_in_one_branch c' k ≡ (ok unconfirmed, k))
unfolding get_confirmed_in_one_branch
set_children-unconfirmed c d counted rivals =
    let (d', run) = set_children-run c d in
    (
      record c { n_children = c.n_children + length (rivals_of c d) },
      d',
      run,
      λ k. rw (not_two (length (rivals_of c d)) counted rivals) refl,
    )
  where
    not_two : (n : ℕ) → c.n_children ≡ n → 1 < n → (c.n_children + n == 2) ≡ false
    not_two n e more = ground (arith, e, more)
