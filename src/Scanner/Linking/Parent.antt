-- ===== src/Scanner/Linking/Parent.antt =====
-- What `match_parent` does to the parent of a tip.
use forkscanner.Prelude.{
  ℕ, ◌≡◌, refl, ap, ◌∙◌, subst, ◌⊎◌, inl, inr, Bool, true, false, ◌&&◌, none, some, List, [], ◌∷◌,
  arith, ltb, keep_if, Any, is_none, if◌then◌else◌, number_comparable, text_comparable,
}
use forkscanner.Models.Rows.{DbError, QueryResult, ok, err, Block, Chaintip}
use forkscanner.Models.Query.{Db, Conn, execute, ◌>>=◌, pure}
use forkscanner.Models.Query.Keeps.{select_cases}
use forkscanner.Models.Query.Results.{bind_ok, answered}
use forkscanner.Models.Blocks
use forkscanner.Models.Blocks.{block_at}
use forkscanner.Models.Blocks.Reads.{get_at}
use forkscanner.Models.Chaintips.{is_status, update_tip, update, list_active_gt}
use forkscanner.Scanner.Linking.{
  Climb, reached, stopped, out_of_fuel, was_updated, update_if_reached, climb, climb_fuel,
  take_parent, match_parent_in, match_parent,
}
use forkscanner.Scanner.Linking.Ancestry.{Descends}
use forkscanner.Scanner.Linking.Climbing.{climb_sound}

-- An update that fails leaves the tables.
update_failed :
    (t : Chaintip) (c : Conn) (e : DbError) → (update t c).0 ≡ err e → (update t c).1.db ≡ c.db
unfolding update update_tip execute
update_failed t c e h = ground arith

was_updated_cases :
    (r : QueryResult ℕ) (c c₀ : Conn)
    → ((e : DbError) → r ≡ err e → c.db ≡ c₀.db)
    → ((was_updated r c).0 ≡ ok true)
      ⊎ (((was_updated r c).0 ≡ ok false) × ((was_updated r c).1.db ≡ c₀.db))
was_updated_cases (ok n) c c₀ k = inl refl
was_updated_cases (err e) c c₀ k = inr (refl, k e refl)

-- Either the tip was reached and stored, or the tables are as before.
update_if_reached_cases :
    (t : Chaintip) (r : Climb) (c : Conn)
    → (((update_if_reached t r c).0 ≡ ok true) × (r ≡ reached))
      ⊎ (((update_if_reached t r c).0 ≡ ok false) × ((update_if_reached t r c).1.db ≡ c.db))
unfolding update_if_reached ◌>>=◌
update_if_reached_cases t reached c =
    elim (was_updated_cases (update t c).0 (update t c).1 c (update_failed t c)) [
      | inl done ↦ inl (done, refl)
      | inr failing ↦ inr failing
    ]
update_if_reached_cases t stopped c = inr (refl, refl)
update_if_reached_cases t out_of_fuel c = inr (refl, refl)

-- The candidate `k` is a reason for the parent of `t'`: the block of the tip is an ancestor of the
-- candidate's, and the node has marked no block between them.
abbrev pub Attaches : Db → ℕ → Chaintip → Chaintip → Chaintip → Type 0
Attaches d node_id t t' k =
    (b : Block) × (block_at d k.block ≡ some b)
    × Descends d (some node_id) t.block b
    × (t' ≡ record t { parent_chaintip = some k.id })

abbrev Attached : Db → ℕ → Chaintip → Chaintip → List Chaintip → Type 0
Attached d node_id t t' ks = (t' ≡ t) ⊎ Any (Attaches d node_id t t') ks

-- One candidate that was climbed from, and what the rest of the list gave.
attach_step :
    (d : Db) (node_id : ℕ) (t t' k : Chaintip) (ks : List Chaintip) (b : Block) (r : Climb)
    → block_at d k.block ≡ some b
    → (r ≡ reached → Descends d (some node_id) t.block b)
    → Attached d node_id (take_parent r k.id t) t' ks
    → Attached d node_id t t' (k ∷ ks)
attach_step d node_id t t' k ks b reached got way (inl e) = inr (inl (b, got, way refl, e))
attach_step d node_id t t' k ks b reached got way (inr a) = inr (inr a)
attach_step d node_id t t' k ks b stopped got way (inl e) = inl e
attach_step d node_id t t' k ks b stopped got way (inr a) = inr (inr a)
attach_step d node_id t t' k ks b out_of_fuel got way (inl e) = inl e
attach_step d node_id t t' k ks b out_of_fuel got way (inr a) = inr (inr a)

-- The end of a round: the tip is stored and the function returns, or the rest of the list decides.
module _ (d : Db) (P : Chaintip → Type 0) (next : Conn → QueryResult Chaintip × Conn)
    (t t' : Chaintip) where
  chosen :
      (done : Bool) (c : Conn)
      → (t' ≡ t → P t')
      → (done ≡ false → (next c).0 ≡ ok t' → P t')
      → ((if done then pure t else next) c).0 ≡ ok t'
      → P t'
  chosen true c stay go h = stay (cc)
  chosen false c stay go h = go refl h

  round_end :
      (r : Climb) (c : Conn)
      → c.db ≡ d
      → (t' ≡ t → P t')
      → ((c' : Conn) → c'.db ≡ d → (next c').0 ≡ ok t' → P t')
      → ((update_if_reached t r >>= λ done. if done then pure t else next) c).0 ≡ ok t'
      → P t'
  round_end r c at stay go h =
      let (done, stored, rest, _) =
        bind_ok (λ done. if done then pure t else next) (update_if_reached t r) c t' h in
      chosen done (update_if_reached t r c).1 stay
        (λ off. elim (update_if_reached_cases t r c) [
          | inl (on, _) ↦ absurd (cc)
          | inr (_, same) ↦ go _ (same ∙ at)
        ])
        rest

match_parent_in_sound :
    (d : Db) (node_id : ℕ) (ks : List Chaintip) (t t' : Chaintip) (c : Conn)
    → c.db ≡ d
    → (match_parent_in node_id t ks c).0 ≡ ok t'
    → Attached d node_id t t' ks
unfolding match_parent_in
match_parent_in_sound d node_id [] t t' c at h = inl (cc)
match_parent_in_sound d node_id (k ∷ ks) t t' c at h =
    let (b, got, h₁, _) = bind_ok _ (Blocks.get k.block) c t' h in
    let (same₁, answer) = get_at k.block c at in
    let c₁ = (Blocks.get k.block c).1 in
    let (r, climbed, h₂, _) =
      bind_ok _ (climb (climb_fuel b) (some node_id) t.block t.height b) c₁ t' h₁ in
    let (r', result, same₂, way) =
      climb_sound (some node_id) t.block t.height (climb_fuel b) b c₁ in
    attach_step d node_id t t' k ks b r (answered _ _ b answer got)
      (λ e. subst (λ x. Descends x (some node_id) t.block b) same₁ (way (cc)))
      (round_end d (λ x. Attached d node_id (take_parent r k.id t) x ks)
        (match_parent_in node_id (take_parent r k.id t) ks) (take_parent r k.id t) t' r _
        (same₂ ∙ same₁) inl
        (λ c' at' h'. match_parent_in_sound d node_id ks (take_parent r k.id t) t' c' at' h') h₂)

listed :
    {A : Type 0} (xs ys : A) (r : QueryResult A)
    → r ≡ ok xs
    → ((r ≡ err DbError.failed) ⊎ (r ≡ ok ys))
    → xs ≡ ys
listed xs ys r e h = ground arith

list_active_gt_cases :
    (height : ℕ) (c : Conn)
    → ((list_active_gt height c).1.db ≡ c.db)
      × (((list_active_gt height c).0 ≡ err DbError.failed)
          ⊎ ((list_active_gt height c).0
              ≡ ok (keep_if (λ t. ltb height t.height && is_status "active" t) c.db.chaintips)))
unfolding list_active_gt
list_active_gt_cases height c = select_cases _ c

-- When `match_parent` answers for a tip without a parent, the tip is as before, or its parent is an
-- active tip with a greater height whose block descends from the tip's block, by blocks that the
-- node has not marked as invalid.
pub match_parent_sound :
    (tip tip' : Chaintip) (node_id : ℕ) (c : Conn)
    → tip.parent_chaintip ≡ none
    → (match_parent tip node_id c).0 ≡ ok tip'
    → (tip' ≡ tip)
      ⊎ Any
          (Attaches c.db node_id tip tip')
          (keep_if (λ t. ltb tip.height t.height && is_status "active" t) c.db.chaintips)
unfolding match_parent
match_parent_sound tip tip' node_id c free h =
    let off : is_none tip.parent_chaintip ≡ true = ap is_none free in
    let (ks, got, h₁, _) = bind_ok (match_parent_in node_id tip) _ c tip' (rw off at h) in
    let (same, answer) = list_active_gt_cases tip.height c in
    subst (Attached c.db node_id tip tip') (listed ks _ _ got answer)
      (match_parent_in_sound c.db node_id ks tip tip' _ same h₁)
