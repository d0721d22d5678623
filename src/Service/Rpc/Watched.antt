-- ===== src/Service/Rpc/Watched.antt =====
-- Which addresses are watched after `update_watched_addresses` of src/service.rs.
use forkscanner.Prelude.{
  ℕ, ◌⊎◌, ap, sym, ◌≡◌, refl, ◌∙◌, String, Bool, true, false, not, ◌&&◌, ◌||◌, some, List, [], ◌∷◌,
  ◌++◌, arith, ◌==◌, text_comparable, keep_if, exists, exists-append, Bool-cases, inl, inr,
  eq_of_str_eq,
}
use forkscanner.Models.Rows.{ok, Watched}
use forkscanner.Models.Query.{Db, sound_conn, execute, ◌>>=◌}
use forkscanner.Models.Query.Answers.{or_answer}
use forkscanner.Models.Watches.{add_watches, insert, remove}
use forkscanner.Service.Requests.{Json, WatchedAddressUpdate, value}
use forkscanner.Service.Rpc.{update_watched_addresses}

abbrev pub is_address : String → Watched → Bool
is_address a w = w.address == a

abbrev pub is_watched : Db → String → Bool
is_watched d a = exists (is_address a) d.watched

abbrev pub is_listed : List String → String → Bool
is_listed xs a = exists (λ x. x == a) xs

abbrev pub is_added : List (String × ℕ) → String → Bool
is_added xs a = exists (λ (x : String × ℕ). x.0 == a) xs

exists-add_watches :
    (now : ℕ) (a : String) (there : List Watched) (watches : List (String × ℕ))
    → exists (is_address a) (add_watches now there watches)
      ≡ (exists (is_address a) there || is_added watches a)
exists-add_watches now a there [] = ground arith
exists-add_watches now a there ((addr, exp) ∷ watches) =
    elim (Bool-cases (exists (is_address addr) there)) [
      | inl known ↦
          rw known (exists-add_watches now a there watches ∙ already (Bool-cases (addr == a)) known)
      | inr new ↦ rw new (
          exists-add_watches now a (there ++ _ ∷ []) watches
          ∙ rw (exists-append (is_address a) there) (ground arith))
    ]
  where
    already :
        ((addr == a) ≡ true) ⊎ ((addr == a) ≡ false)
        → exists (is_address addr) there ≡ true
        → (exists (is_address a) there || is_added watches a)
          ≡ (exists (is_address a) there || ((addr == a) || is_added watches a))
    already (inl same) known =
        rw (same, ap (λ x. exists (is_address x) there) (sym (eq_of_str_eq addr a same)) ∙ known)
          refl
    already (inr other) known = rw other refl

exists-removed :
    (addresses : List String) (a : String) (ws : List Watched)
    → exists
        (is_address a)
        (keep_if (λ (w : Watched). not (exists (λ x. x == w.address) addresses)) ws)
      ≡ (exists (is_address a) ws && not (is_listed addresses a))
exists-removed addresses a [] = refl
exists-removed addresses a (w ∷ ws) =
    by_address (Bool-cases (w.address == a)) (exists-removed addresses a ws)
  where
    by_address :
        ((w.address == a) ≡ true) ⊎ ((w.address == a) ≡ false)
        → exists
            (is_address a)
            (keep_if (λ (w : Watched). not (exists (λ x. x == w.address) addresses)) ws)
          ≡ (exists (is_address a) ws && not (is_listed addresses a))
        → exists
            (is_address a)
            (keep_if (λ (w : Watched). not (exists (λ x. x == w.address) addresses)) (w ∷ ws))
          ≡ (exists (is_address a) (w ∷ ws) && not (is_listed addresses a))
    by_address (inl same) rest =
        ground (arith, same, rest, ap (is_listed addresses) (eq_of_str_eq w.address a same))
    by_address (inr other) rest = ground (arith, other, rest)

module _ {P V B : Type 0} (json : Json P V B) where
  -- On a connection that fails no statement, a call with parameters that parse answers "OK", and then
  -- an address is watched exactly if it was added, or was watched and not removed; an address in
  -- both lists is watched.
  pub update_watched_addresses_exact :
      (now : ℕ) (params : P) (updates : WatchedAddressUpdate) (d : Db)
      → json.watched_update params ≡ some updates
      → ((update_watched_addresses json now params (sound_conn d)).0 ≡ ok (value (json.text "OK")))
        × ((a : String)
            → is_watched (update_watched_addresses json now params (sound_conn d)).1.db a
              ≡ ((is_watched d a && not (is_listed updates.remove a)) || is_added updates.add a))
  unfolding update_watched_addresses or_answer remove insert execute ◌>>=◌
  update_watched_addresses_exact now params updates d e = rw e (
    refl,
    λ a.
        exists-add_watches now a
          (keep_if (λ (w : Watched). not (exists (λ x. x == w.address) updates.remove)) d.watched)
          updates.add
        ∙ ap (λ b. b || is_added updates.add a) (exists-removed updates.remove a d.watched),
  )
