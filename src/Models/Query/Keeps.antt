-- ===== src/Models/Query/Keeps.antt =====
-- Invariants of the tables through queries: one rule for each way that a query is built. The
-- faults of the connection are arbitrary, so that a kept invariant survives every failure.
use forkscanner.Prelude.{Bool, true, false, List, [], ◌∷◌, ◌≡◌, refl, ◌⊎◌, inl, inr, if◌then◌else◌}
use forkscanner.Models.Rows.{DbError, QueryResult, ok, err}
use forkscanner.Models.Query.{
  Db, Conn, Query, Statement, run_statement, execute, select, rolled_back, no_statement,
  transaction, ◌>>=◌, ◌>>◌, pure, fail, try_query,
}

-- `m` keeps `P`, whether it answers or fails.
pub record Keeps {ℓ κ} {A : Type ℓ} (P : Db → Type κ) (m : Query A) : Type κ where
  pub at : (c : Conn) → P c.db → P (m c).1.db

module _ {ℓ κ} {A : Type ℓ} {P : Db → Type κ} where
  run-Keeps :
      (q : Statement A)
      → ((d : Db) → P d → P (q d).1)
      → (fs : List Bool) (c : Conn) → P c.db
      → P (run_statement fs q c).1.db
  run-Keeps q k [] c h = k c.db h
  run-Keeps q k (false ∷ fs) c h = k c.db h
  run-Keeps q k (true ∷ fs) c h = h

  pub Keeps-execute : (q : Statement A) → ((d : Db) → P d → P (q d).1) → Keeps P (execute q)
  unfolding execute
  Keeps-execute q k = record { at = λ c h. run-Keeps q k c.faults c h }

  pub Keeps-select : (q : Db → QueryResult A) → Keeps P (execute (λ d. (q d, d)))
  Keeps-select q = Keeps-execute (λ d. (q d, d)) (λ d h. h)

  pub Keeps-try : (m : Query A) → Keeps P m → Keeps P (try_query m)
  Keeps-try m k = record { at = k.at }

  pub Keeps-fail : (why : DbError) → Keeps P (fail {A = A} why)
  Keeps-fail why = record { at = λ c kept. kept }

  pub Keeps-pure : (answer : A) → Keeps P (pure answer)
  Keeps-pure answer = record { at = λ c kept. kept }

  pub Keeps-if : (b : Bool) (m n : Query A) → Keeps P m → Keeps P n → Keeps P (if b then m else n)
  Keeps-if true m n k l = k
  Keeps-if false m n k l = l

-- A statement that fails has done nothing.
module _ {ℓ κ} {A : Type ℓ} (P : Db → Type κ) where
  execute_run :
      (q : Statement A) (c : Conn) (fs : List Bool)
      → P c.db
      → P (q c.db).1
      → P (run_statement fs q c).1.db
  execute_run q c [] h k = k
  execute_run q c (false ∷ fs) h k = k
  execute_run q c (true ∷ fs) h k = h

  pub execute_post : (q : Statement A) (c : Conn) → P c.db → P (q c.db).1 → P (execute q c).1.db
  unfolding execute
  execute_post q c h k = execute_run q c c.faults h k

-- A query that only reads leaves the tables, and answers from them unless it fails.
module _ {ℓ} {A : Type ℓ} (q : Db → QueryResult A) where
  run_select :
      (c : Conn) (fs : List Bool)
      → ((run_statement fs (λ d. (q d, d)) c).1.db ≡ c.db)
        × (((run_statement fs (λ d. (q d, d)) c).0 ≡ err DbError.failed)
            ⊎ ((run_statement fs (λ d. (q d, d)) c).0 ≡ q c.db))
  run_select c [] = (refl, inr refl)
  run_select c (false ∷ fs) = (refl, inr refl)
  run_select c (true ∷ fs) = (refl, inl refl)

  pub select_cases :
      (c : Conn)
      → ((select q c).1.db ≡ c.db)
        × (((select q c).0 ≡ err DbError.failed) ⊎ ((select q c).0 ≡ q c.db))
  unfolding execute
  select_cases c = run_select c c.faults

module _ {ℓ ℓ' κ} {A : Type ℓ} {B : Type ℓ'} {P : Db → Type κ} where
  continue-Keeps :
      (f : A → Query B)
      → ((a : A) → Keeps P (f a))
      → (r : QueryResult A) (c : Conn) → P c.db
      → P (◌>>=◌ (λ c. (r, c)) f c).1.db
  unfolding ◌>>=◌
  continue-Keeps f k (ok a) c h = (k a).at c h
  continue-Keeps f k (err e) c h = h

  pub Keeps-bind :
      (m : Query A) (f : A → Query B) → Keeps P m → ((a : A) → Keeps P (f a)) → Keeps P (m >>= f)
  unfolding ◌>>=◌
  Keeps-bind m f km kf = record {
    at = λ c h. let (r, c') = m c in continue-Keeps f kf r c' (km.at c h);
  }

-- One run of a sequence, where the second part may use what the first answered.
module _ {ℓ ℓ' κ} {A : Type ℓ} {B : Type ℓ'} (P : Db → Type κ) where
  continue_post :
      (f : A → Query B) (r : QueryResult A) (c : Conn)
      → P c.db
      → ((a : A) → r ≡ ok a → P (f a c).1.db)
      → P (◌>>=◌ (λ c. (r, c)) f c).1.db
  unfolding ◌>>=◌
  continue_post f (ok a) c h k = k a refl
  continue_post f (err e) c h k = h

  pub bind_post :
      (m : Query A) (f : A → Query B) (c : Conn)
      → P (m c).1.db
      → ((a : A) → (m c).0 ≡ ok a → P (f a (m c).1).1.db)
      → P ((m >>= f) c).1.db
  unfolding ◌>>=◌
  bind_post m f c h k = continue_post f (m c).0 (m c).1 h k

module _ {ℓ κ} {A : Type ℓ} (P : Db → Type κ) where
  rolled_back_post :
      (c : Conn) (r : QueryResult A) (c' : Conn) → P c.db → P c'.db → P (rolled_back c (r, c')).1.db
  rolled_back_post c (ok a) c' h k = k
  rolled_back_post c (err e) c' h k = h

  -- A transaction that fails has done nothing.
  pub transaction_post :
      (m : Query A) (c : Conn)
      → P c.db
      → ((c' : Conn) → P c'.db → P (m c').1.db)
      → P (transaction m c).1.db
  unfolding transaction
  transaction_post m c h k = rolled_back_post c _ _ h (body.at c h)
    where
      commit : (a : A) → Keeps P (execute no_statement >>= λ _. pure a)
      commit a = Keeps-bind _ _ (Keeps-execute no_statement (λ d h. h)) (λ _. Keeps-pure a)

      body : Keeps P (do execute no_statement; a ← m; execute no_statement; pure a)
      body =
          Keeps-bind _ _ (Keeps-execute no_statement (λ d h. h))
            (λ _. Keeps-bind _ _ (record { at = k }) commit)

pub Keeps-transaction {ℓ κ} :
    {A : Type ℓ} {P : Db → Type κ} (m : Query A) → Keeps P m → Keeps P (transaction m)
Keeps-transaction {P} m k = record { at = λ c h. transaction_post P m c h k.at }

pub ruleset keeps_rules = (
  Keeps-select, Keeps-execute, Keeps-pure, Keeps-fail, Keeps-try, Keeps-if, Keeps-bind,
  Keeps-transaction,
)
