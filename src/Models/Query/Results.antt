-- ===== src/Models/Query/Results.antt =====
-- What is known of a query that answered: inversion of statements and of their sequence.
use forkscanner.Prelude.{
  ◌≡◌, refl, ◌⊎◌, Option, none, some, arith, Bool, true, false, List, [], ◌∷◌,
}
use forkscanner.Models.Rows.{DbError, QueryResult, ok, err}
use forkscanner.Models.Query.{Conn, Query, Statement, run_statement, execute, first_row, ◌>>=◌}

module _ {ℓ} {A : Type ℓ} (q : Statement A) where
  run_ok :
      (c : Conn) (a : A) (fs : List Bool)
      → (run_statement fs q c).0 ≡ ok a
      → ((q c.db).0 ≡ ok a) × ((run_statement fs q c).1.db ≡ (q c.db).1)
  run_ok c a [] h = (h, refl)
  run_ok c a (false ∷ fs) h = (h, refl)
  run_ok c a (true ∷ fs) h = absurd (cc)

  -- A statement that answered ran.
  pub execute_ok :
      (c : Conn) (a : A)
      → (execute q c).0 ≡ ok a
      → ((q c.db).0 ≡ ok a) × ((execute q c).1.db ≡ (q c.db).1)
  unfolding execute
  execute_ok c a h = run_ok c a c.faults h

module _ {ℓ κ} {A : Type ℓ} {B : Type κ} (f : A → Query B) where
  continue_ok :
      (r : QueryResult A) (c : Conn) (b : B)
      → (◌>>=◌ (λ c. (r, c)) f c).0 ≡ ok b
      → (a : A) × (r ≡ ok a) × ((f a c).0 ≡ ok b) × ((◌>>=◌ (λ c. (r, c)) f c) ≡ f a c)
  unfolding ◌>>=◌
  continue_ok (ok a) c b h = (a, refl, h, refl)
  continue_ok (err e) c b h = absurd (cc)

  -- If a sequence answered, so did both of its parts.
  pub bind_ok :
      (m : Query A) (c : Conn) (b : B)
      → ((m >>= f) c).0 ≡ ok b
      → (a : A) × ((m c).0 ≡ ok a) × ((f a (m c).1).0 ≡ ok b) × ((m >>= f) c ≡ f a (m c).1)
  unfolding ◌>>=◌
  bind_ok m c b h = continue_ok (m c).0 (m c).1 b h

-- The answer of a query for a first row, and the row.
module _ {ℓ} {A : Type ℓ} where
  pub answered :
      (o : Option A) (r : QueryResult A) (a : A)
      → ((r ≡ err DbError.failed) ⊎ (r ≡ first_row o))
      → r ≡ ok a
      → o ≡ some a
  answered none r a h e = ground arith
  answered (some b) r a h e = ground arith

  pub not_answered :
      (o : Option A) (r : QueryResult A)
      → ((r ≡ err DbError.failed) ⊎ (r ≡ first_row o))
      → r ≡ err DbError.not_found
      → o ≡ none
  not_answered none r h e = refl
  not_answered (some b) r h e = absurd (ground arith)
