-- ===== src/Scanner/Linking/Pointers.antt =====
-- `check_parent` and the parent pointers in the table.
use forkscanner.Prelude.{
  ℕ, ◌≡◌, refl, sym, subst, String, Bool, true, false, Option, none, List, [], ◌∷◌, arith, map,
  update_if, is_none, number_comparable, text_comparable,
}
use forkscanner.Models.Rows.{QueryResult, ok, err, Block, Chaintip}
use forkscanner.Models.Query.{Db, Conn}
use forkscanner.Models.Query.Keeps.{
  Keeps, Keeps-execute, Keeps-bind, Keeps-try, Keeps-pure, Keeps-if, Keeps-select,
}
use forkscanner.Models.Blocks
use forkscanner.Models.Blocks.{block_at}
use forkscanner.Models.Chaintips
use forkscanner.Models.Chaintips.{is_id, is_status, update_tip, update, list_active_gt}
use forkscanner.Scanner.Linking.{
  Climb, reached, stopped, out_of_fuel, was_updated, update_if_reached, climb, climb_fuel,
  forget_parent, check_parent_in, check_parent,
}
use forkscanner.Scanner.Linking.Climbing.{climb_sound}

abbrev pub parents : Db → List (Option ℕ)
parents d = map (λ (t : Chaintip). t.parent_chaintip) d.chaintips

-- The parent pointers are `ps`, and `set(self)` skips a `None`.
abbrev Pointers : List (Option ℕ) → Db → Type 0
Pointers ps d = (parents d ≡ ps) × (d.none_as_null ≡ false)

parents-update :
    (null : Bool) (self : Chaintip) (ts : List Chaintip)
    → null ≡ false
    → self.parent_chaintip ≡ none
    → map
        (λ (t : Chaintip). t.parent_chaintip)
        (update_if (is_id self.id) (Chaintips.update_row null self) ts)
      ≡ map (λ (t : Chaintip). t.parent_chaintip) ts
parents-update null self [] off e = refl
parents-update null self (t ∷ ts) off e = ground (arith, parents-update null self ts)

update_tip-Pointers :
    (ps : List (Option ℕ)) (self : Chaintip)
    → self.parent_chaintip ≡ none
    → (d : Db) → Pointers ps d
    → Pointers ps (update_tip self d).1
unfolding update_tip
update_tip-Pointers ps self e d (kept, off) =
    ground (arith, parents-update d.none_as_null self d.chaintips off e)

was_updated-Pointers : {P : Db → Type 0} (r : QueryResult ℕ) → Keeps P (was_updated r)
was_updated-Pointers (ok n) = Keeps-pure true
was_updated-Pointers (err e) = Keeps-pure false

forgotten-Pointers :
    (ps : List (Option ℕ)) (t : Chaintip) (r : Climb)
    → Keeps (Pointers ps) (update_if_reached (forget_parent r t) r)
unfolding update_if_reached update
forgotten-Pointers ps t reached =
    Keeps-bind _ _
      (Keeps-try _
        (Keeps-execute _ (update_tip-Pointers ps (record t { parent_chaintip = none }) refl)))
      was_updated-Pointers
forgotten-Pointers ps t stopped = Keeps-pure false
forgotten-Pointers ps t out_of_fuel = Keeps-pure false

climb-Keeps :
    {P : Db → Type 0} (fuel : ℕ) (marker : Option ℕ) (target : String) (floor : ℕ) (b : Block)
    → Keeps P (climb fuel marker target floor b)
climb-Keeps {P} fuel marker target floor b = record {
  at = λ c h.
      let (r, result, same, way) = climb_sound marker target floor fuel b c in subst P (sym same) h;
}

check_parent_in-Pointers :
    (ps : List (Option ℕ)) (ks : List Chaintip) (t : Chaintip)
    → Keeps (Pointers ps) (check_parent_in t ks)
unfolding check_parent_in Blocks.get
check_parent_in-Pointers ps [] t = Keeps-pure t
check_parent_in-Pointers ps (k ∷ ks) t = Keeps-bind _ _ (Keeps-select _) (λ b.
    Keeps-bind _ _ (climb-Keeps (climb_fuel b) none t.block t.height b) (λ r.
      Keeps-bind _ _ (forgotten-Pointers ps t r) (λ done.
        Keeps-if done _ _ (Keeps-pure _) (check_parent_in-Pointers ps ks (forget_parent r t)))))

-- `check_parent` never changes a stored parent pointer while `set(self)` skips fields that are
-- `None`, whatever it finds: the pointer that it means to clear stays in the table.
pub check_parent_keeps_pointers :
    (tip : Chaintip) (c : Conn)
    → c.db.none_as_null ≡ false
    → parents (check_parent tip c).1.db ≡ parents c.db
unfolding check_parent Chaintips.list_invalid_gt
check_parent_keeps_pointers tip c off =
    ((Keeps-if {P = Pointers (parents c.db)} (is_none tip.parent_chaintip) _ _ (Keeps-pure tip)
        (Keeps-bind _ _ (Keeps-select _) (λ ks. check_parent_in-Pointers (parents c.db) ks tip))).at
      c (refl, off)).0
