-- ===== src/Prelude/Members.antt =====
-- The rows that a test keeps, as rows of the table.
use mathlib.Core.Path.{◌≡◌, refl}
use mathlib.Core.Logic.{inl, inr}
use mathlib.Core.Bool.{Bool, true}
use mathlib.Core.List.{List, [], ◌∷◌}
use forkscanner.Prelude.Tests.{Bool-cases}
use forkscanner.Prelude.Lists.{All, Any, keep_if}

module _ {A : Type 0} where
  -- `b` is an element of the list.
  abbrev pub IsRow : List A → A → Type 0
  IsRow all b = Any (λ x. x ≡ b) all

  pub All-mono : (P Q : A → Type 0) (bs : List A) → ((b : A) → P b → Q b) → All P bs → All Q bs
  All-mono P Q [] k h = tt
  All-mono P Q (b ∷ bs) k h = (k b h.0, All-mono P Q bs k h.1)

  pub All-rows : (bs : List A) → All (IsRow bs) bs
  All-rows [] = tt
  All-rows (b ∷ bs) = (inl refl, All-mono _ _ bs (λ x r. inr r) (All-rows bs))

  All-tested :
      (P Q : A → Type 0) (p : A → Bool) (bs : List A)
      → ((b : A) → P b → p b ≡ true → Q b)
      → All P bs
      → All Q (keep_if p bs)
  All-tested P Q p [] k h = tt
  All-tested P Q p (b ∷ bs) k h = elim (Bool-cases (p b)) [
    | inl hit ↦ rw hit (k b h.0 hit, All-tested P Q p bs k h.1)
    | inr miss ↦ rw miss (All-tested P Q p bs k h.1)
  ]

  -- The rows of the table with a property of the rows that pass the test.
  pub All-kept :
      (Q : A → Type 0) (p : A → Bool) (all : List A)
      → ((b : A) → IsRow all b → p b ≡ true → Q b)
      → All Q (keep_if p all)
  All-kept Q p all k = All-tested (IsRow all) Q p all k (All-rows all)
