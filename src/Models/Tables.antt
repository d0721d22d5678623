-- ===== src/Models/Tables.antt =====
-- How a test on the rows of a table sees rows that are rewritten or added.
use forkscanner.Prelude.{
  ◌+◌, ◌<◌, ◌≡◌, refl, Bool, true, none, some, List, [], ◌∷◌, ◌++◌, arith, if◌then◌else◌, find,
  exists, update_if, count_if,
}

module _ {A : Type 0} (p q : A → Bool) (f : A → A)
    (same : (x : A) → q x ≡ true → p (f x) ≡ p x) where
  pub count_if-update_if : (xs : List A) → count_if p (update_if q f xs) ≡ count_if p xs
  count_if-update_if [] = refl
  count_if-update_if (x ∷ xs) = ground (arith, same x, count_if-update_if xs)

  pub exists-update_if : (xs : List A) → exists p (update_if q f xs) ≡ exists p xs
  exists-update_if [] = refl
  exists-update_if (x ∷ xs) = ground (arith, same x, exists-update_if xs)

  pub find-update_if :
      (xs : List A) (x : A)
      → find p xs ≡ some x
      → find p (update_if q f xs) ≡ some (if q x then f x else x)
  find-update_if [] x h = ground arith
  find-update_if (y ∷ xs) x h = ground (arith, same y, find-update_if xs x)

module _ {A : Type 0} (p : A → Bool) where
  pub count_if-append : (xs ys : List A) → count_if p (xs ++ ys) ≡ count_if p xs + count_if p ys
  count_if-append [] ys = omega arith
  count_if-append (x ∷ xs) ys = ground (arith, count_if-append xs ys)

  pub count_if_absent : (xs : List A) → find p xs ≡ none → count_if p xs ≡ 0
  count_if_absent [] h = refl
  count_if_absent (x ∷ xs) h = ground (arith, count_if_absent xs)

  pub find_absent_append : (xs ys : List A) → find p xs ≡ none → find p (xs ++ ys) ≡ find p ys
  find_absent_append [] ys h = refl
  find_absent_append (x ∷ xs) ys h = ground (arith, find_absent_append xs ys)

pub count_if_found :
    {A : Type 0} (p q : A → Bool) (xs : List A) (x : A)
    → find p xs ≡ some x
    → q x ≡ true
    → 0 < count_if q xs
count_if_found p q [] x h e = absurd (cc)
count_if_found p q (y ∷ xs) x h e = ground (arith, count_if_found p q xs x)
