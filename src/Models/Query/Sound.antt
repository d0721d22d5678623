-- ===== src/Models/Query/Sound.antt =====
-- Connections on which no statement fails stay so.
use forkscanner.Prelude.{◌≡◌, refl, Bool, true, false, List, [], ◌∷◌, if◌then◌else◌}
use forkscanner.Models.Rows.{DbError, QueryResult, ok, err}
use forkscanner.Models.Query.{Conn, Query, Statement, run_statement, execute, pure, fail, ◌>>=◌}
use forkscanner.Models.Query.Answers.{or_answer, answered_or}

-- No statement will fail after `m` if none would before.
pub record StaysSound {A : Type 0} (m : Query A) : Type 0 where
  pub at : (c : Conn) → c.faults ≡ [] → (m c).1.faults ≡ []

module _ {A : Type 0} where
  pub StaysSound-pure : (a : A) → StaysSound (pure a)
  StaysSound-pure a = record { at = λ c e. e }

  pub StaysSound-fail : (e : DbError) → StaysSound (fail {A = A} e)
  StaysSound-fail e = record { at = λ c h. h }

  run_sound :
      (q : Statement A) (fs : List Bool) (c : Conn)
      → c.faults ≡ []
      → fs ≡ []
      → (run_statement fs q c).1.faults ≡ []
  run_sound q [] c h e = h
  run_sound q (f ∷ fs) c h e = absurd (cc)

  pub StaysSound-execute : (q : Statement A) → StaysSound (execute q)
  unfolding execute
  StaysSound-execute q = record { at = λ c h. run_sound q c.faults c h h }

  pub StaysSound-if :
      (b : Bool) (m n : Query A) → StaysSound m → StaysSound n → StaysSound (if b then m else n)
  StaysSound-if true m n k l = k
  StaysSound-if false m n k l = l

module _ {A B : Type 0} (none_answer : B) (f : A → Query B) (k : (a : A) → StaysSound (f a)) where
  answered_or_sound : (r : QueryResult A) → StaysSound (answered_or none_answer f r)
  answered_or_sound (ok a) = k a
  answered_or_sound (err e) = StaysSound-pure none_answer

  pub StaysSound-or_answer : (m : Query A) → StaysSound m → StaysSound (or_answer none_answer m f)
  unfolding or_answer ◌>>=◌
  StaysSound-or_answer m km = record {
    at = λ c h. (answered_or_sound (m c).0).at (m c).1 (km.at c h);
  }

module _ {A : Type 0} (q : Statement A) where
  run_answer : (fs : List Bool) (c : Conn) → fs ≡ [] → (run_statement fs q c).0 ≡ (q c.db).0
  run_answer [] c e = refl
  run_answer (f ∷ fs) c e = absurd (cc)

  -- A statement that cannot fail answers.
  pub execute_answer : (c : Conn) → c.faults ≡ [] → (execute q c).0 ≡ (q c.db).0
  unfolding execute
  execute_answer c e = run_answer c.faults c e
