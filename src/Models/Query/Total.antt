-- ===== src/Models/Query/Total.antt =====
-- Queries that answer whichever statements fail, since they handle every error themselves.
use forkscanner.Prelude.{◌≡◌, refl, Bool, true, false, if◌then◌else◌}
use forkscanner.Models.Rows.{QueryResult, ok, err}
use forkscanner.Models.Query.{Conn, Query, pure, try_query, ◌>>=◌}
use forkscanner.Models.Query.Answers.{or_answer, answered_or}

pub record Total {A : Type 0} (m : Query A) : Type 0 where
  pub at : (c : Conn) → (a : A) × ((m c).0 ≡ ok a)

pub Total-pure : {A : Type 0} (a : A) → Total (pure a)
Total-pure a = record { at = λ c. (a, refl) }

pub Total-if :
    {A : Type 0} (b : Bool) (m n : Query A) → Total m → Total n → Total (if b then m else n)
Total-if true m n k l = k
Total-if false m n k l = l

module _ {A B : Type 0} where
  answered_or-Total :
      (none_answer : B) (f : A → Query B)
      → ((a : A) → Total (f a))
      → (r : QueryResult A) → Total (answered_or none_answer f r)
  answered_or-Total none_answer f k (ok a) = k a
  answered_or-Total none_answer f k (err e) = Total-pure none_answer

  pub Total-or_answer :
      (none_answer : B) (m : Query A) (f : A → Query B)
      → ((a : A) → Total (f a))
      → Total (or_answer none_answer m f)
  unfolding or_answer ◌>>=◌
  Total-or_answer none_answer m f k = record {
    at = λ c. (answered_or-Total none_answer f k (m c).0).at (m c).1;
  }

  pub Total-try_bind :
      (m : Query A) (f : QueryResult A → Query B)
      → ((r : QueryResult A) → Total (f r))
      → Total (try_query m >>= f)
  unfolding ◌>>=◌
  Total-try_bind m f k = record { at = λ c. (k (m c).0).at (m c).1 }

  continue-Total :
      (f : A → Query B)
      → ((a : A) → Total (f a))
      → (r : QueryResult A) (c : Conn) (a : A) → r ≡ ok a
      → (b : B) × ((◌>>=◌ (λ c. (r, c)) f c).0 ≡ ok b)
  unfolding ◌>>=◌
  continue-Total f k (ok a) c x e = (k a).at c
  continue-Total f k (err why) c x e = absurd (cc)

  pub Total-bind :
      (m : Query A) (f : A → Query B) → Total m → ((a : A) → Total (f a)) → Total (m >>= f)
  unfolding ◌>>=◌
  Total-bind m f km kf = record {
    at = λ c. let (a, e) = km.at c in continue-Total f kf (m c).0 (m c).1 a e;
  }

pub ruleset total_rules = (Total-pure, Total-if, Total-or_answer, Total-try_bind, Total-bind)
