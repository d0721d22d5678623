-- ===== src/Scanner/Linking/Found.antt =====
-- On a connection that fails no statement, a climb decides the ancestry.
use forkscanner.Prelude.{
  ℕ, zero, suc, ◌<◌, ◌≡◌, ◌↔◌, refl, sym, ap, ◌∙◌, subst, String, true, false, Option, none, some,
  arith, ◌==◌, number_comparable, text_comparable, str_eq_self, Bool-cases, inl, inr,
}
use forkscanner.Models.Rows.{ok, Block}
use forkscanner.Models.Query.{Db, Query, sound_conn, execute, ◌>>=◌}
use forkscanner.Models.Blocks
use forkscanner.Models.Blocks.{block_at, is_mark}
use forkscanner.Scanner.Linking.{Climb, reached, step_up, visit, guarded, climb, climb_fuel}
use forkscanner.Scanner.Linking.Ancestry.{
  Unmarked, Descends, here, up, IsStored, ParentsLower, block_at-IsStored, Descends-le,
}
use forkscanner.Scanner.Linking.Climbing.{climb_sound}

module _ (d : Db) (target : String) (floor : ℕ) where
  guarded_clean :
      (marker : Option ℕ) (b : Block) (rest : Query Climb)
      → Unmarked d marker b
      → guarded marker b rest (sound_conn d) ≡ rest (sound_conn d)
  unfolding guarded Blocks.marked_invalid_by ◌>>=◌ execute
  guarded_clean none b rest clean = refl
  guarded_clean (some n) b rest clean = rw clean refl

  step_up_stored :
      (rest : Block → Query Climb) (b p : Block) (h : String)
      → (b.height == floor) ≡ false
      → block_at d h ≡ some p
      → step_up rest floor b (some h) (sound_conn d) ≡ rest p (sound_conn d)
  unfolding step_up Blocks.get ◌>>=◌ execute
  step_up_stored rest b p h above found = rw (above, found) refl

  climb_complete :
      {marker : Option ℕ} (fuel : ℕ) (b : Block)
      → ParentsLower d
      → ((t : Block) → block_at d target ≡ some t → t.height ≡ floor)
      → IsStored d b
      → b.height < fuel
      → Descends d marker target b
      → climb fuel marker target floor b (sound_conn d) ≡ (ok reached, sound_conn d)
  unfolding climb visit
  climb_complete zero b lower at_floor stored enough way = elim enough [ ]
  climb_complete {marker} (suc f) b lower at_floor stored enough (here _ clean e) =
      rw (guarded_clean marker b _ clean)
        (rw (subst (λ x. (b.hash == x) ≡ true) e (str_eq_self b.hash)) refl)
  climb_complete {marker} (suc f) b lower at_floor stored enough (up _ h p clean link found way) =
      elim (Bool-cases (b.hash == target)) [
        | inl same ↦ rw (guarded_clean marker b _ clean) (rw same refl)
        | inr other ↦ rw (guarded_clean marker b _ clean) (
            rw other (
              subst
                (λ o.
                  step_up (climb f marker target floor) floor b o (sound_conn d)
                  ≡ (ok reached, sound_conn d))
                (sym link)
                (step_up_stored (climb f marker target floor) b p h above found
                  ∙ climb_complete f p lower at_floor p_stored (omega (arith, below)) way)))
      ]
    where
      p_stored : IsStored d p
      p_stored = block_at-IsStored d h p found

      below : p.height < b.height
      below = lower b p h stored link found

      above : (b.height == floor) ≡ false
      above = ground (arith, below, Descends-le p floor lower at_floor p_stored way)

-- From a stored block, over tables where parents are lower than their children, a climb to the
-- height of its target reaches the target exactly if that block or an ancestor of it has the hash,
-- and the node has marked no block on the way.
pub climb_exact :
    (d : Db) (marker : Option ℕ) (target : String) (floor : ℕ) (b : Block)
    → ParentsLower d
    → ((t : Block) → block_at d target ≡ some t → t.height ≡ floor)
    → IsStored d b
    → ((climb (climb_fuel b) marker target floor b (sound_conn d)).0 ≡ ok reached)
      ↔ Descends d marker target b
climb_exact d marker target floor b lower at_floor stored = (
  (λ e.
      let (r, result, _, way) = climb_sound marker target floor (climb_fuel b) b (sound_conn d) in
      way (cc)),
  (λ way.
      ap (λ x. x.0)
        (climb_complete d target floor (climb_fuel b) b lower at_floor stored (omega arith) way)),
)
