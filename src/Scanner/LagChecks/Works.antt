-- ===== src/Scanner/LagChecks/Works.antt =====
-- The order of texts that `lag_checks` of src/scanner.rs compares works by, and its maximum.
use Prim.Native.Char.{Char, code}
use Prim.Native.String.compare as compare_text
use Prim.Native.String.{String, [], ◌∷◌, compare as compare_text, then}
use Prim.Native.Nat.{Ordering, compare}
use forkscanner.Prelude.{
  ◌≡◌, refl, ◌∙◌, ap, Bool, true, false, ◌||◌, ◌&&◌, arith, ltb, nat_beq, if◌then◌else◌,
}
use forkscanner.Scanner.LagChecks.{less_work}

abbrev is_less : Ordering → Bool
is_less Ordering.lt = true
is_less _ = false

less-ends : less_work [] [] ≡ false
less-ends = ap is_less compare_text.nil-nil

less-shorter : (d : Char) (t : String) → less_work [] (d ∷ t) ≡ true
less-shorter d t = ap is_less (compare_text.nil-cons d t)

less-longer : (c : Char) (s : String) → less_work (c ∷ s) [] ≡ false
less-longer c s = ap is_less (compare_text.cons-nil c s)

less-first :
    (c d : Char) (s t : String)
    → less_work (c ∷ s) (d ∷ t)
      ≡ (ltb (code c) (code d) || (nat_beq (code c) (code d) && less_work s t))
less-first c d s t =
    ap is_less (compare_text.cons-cons c d s t)
    ∙ by_order (compare (code c) (code d)) (compare_text s t)
  where
    by_order :
        (o p : Ordering)
        → is_less ((then) o p)
          ≡ (is_less o || (elim o [ Ordering.eq ↦ true | _ ↦ false ] && is_less p))
    by_order Ordering.lt p = refl
    by_order Ordering.eq p = refl
    by_order Ordering.gt p = refl

pub less_work_between :
    (a b w : String) → less_work a w ≡ true → (less_work a b || less_work b w) ≡ true
less_work_between [] [] w h = ground (arith, less-ends, h)
less_work_between [] (d ∷ t) w h = ground (arith, less-shorter d t)
less_work_between (c ∷ s) b [] h = absurd (ground (arith, less-longer c s, h))
less_work_between (c ∷ s) [] (e ∷ u) h = ground (arith, less-longer c s, less-shorter e u)
less_work_between (c ∷ s) (d ∷ t) (e ∷ u) h =
    ground (
      arith,
      less-first c d s t,
      less-first d e t u,
      less-first c e s u,
      less_work_between s t u,
      h,
    )

pub less_work_asymm : (a b : String) → less_work a b ≡ true → less_work b a ≡ false
less_work_asymm [] [] h = less-ends
less_work_asymm [] (d ∷ t) h = less-longer d t
less_work_asymm (c ∷ s) [] h = absurd (ground (arith, less-longer c s, h))
less_work_asymm (c ∷ s) (d ∷ t) h =
    ground (arith, less-first c d s t, less-first d c t s, less_work_asymm s t, h)

-- A work is less than the greater of two exactly if it is less than one of them.
pub less-greater :
    (x a b : String)
    → less_work x (if less_work a b then b else a) ≡ (less_work x a || less_work x b)
less-greater x a b =
    ground (arith, less_work_between x b a, less_work_between x a b, less_work_asymm a b)
