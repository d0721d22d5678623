-- ===== src/Models/Query/Answers.antt =====
-- Queries that leave the tables as they are, and what their answers say of the tables, whichever
-- statements fail.
use forkscanner.Prelude.{
  Bool, true, false, ◌≡◌, refl, subst, sym, ap, ◌∙◌, ◌⊎◌, inl, inr, if◌then◌else◌,
}
use forkscanner.Models.Rows.{DbError, QueryResult, ok, err}
use forkscanner.Models.Query.{Db, Conn, Query, select, pure, try_query, ◌>>=◌}
use forkscanner.Models.Query.Keeps.{select_cases}

-- Run on the tables `d`, `m` leaves them, and its answer satisfies `Q`.
pub record Answers {A : Type 0} (d : Db) (Q : A → Type 0) (m : Query A) : Type 0 where
  pub at : (c : Conn) → c.db ≡ d → ((m c).1.db ≡ d) × ((a : A) → (m c).0 ≡ ok a → Q a)

-- `m.ok()?` in a function that returns an option: `none` is its answer if `m` fails.
abbrev pub answered_or : {A B : Type 0} → B → (A → Query B) → QueryResult A → Query B
answered_or none_answer f (ok a) = f a
answered_or none_answer f (err e) = pure none_answer

unfoldable pub or_answer : {A B : Type 0} → B → Query A → (A → Query B) → Query B
unfolding ◌>>=◌
or_answer none_answer m f = try_query m >>= answered_or none_answer f

module _ {A : Type 0} {d : Db} {Q : A → Type 0} where
  pub Answers-pure : (a : A) → Q a → Answers d Q (pure a)
  Answers-pure a q = record { at = λ c e. (e, λ b same. subst Q (answer_eq same) q) }
    where
      answer_eq : {b : A} → ok a ≡ ok b → a ≡ b
      answer_eq e = cc

  pub Answers-if :
      (b : Bool) (m n : Query A)
      → (b ≡ true → Answers d Q m)
      → (b ≡ false → Answers d Q n)
      → Answers d Q (if b then m else n)
  Answers-if true m n k l = k refl
  Answers-if false m n k l = l refl

  -- A statement that only reads answers what it reads.
  pub Answers-select :
      (q : Db → QueryResult A) → ((a : A) → q d ≡ ok a → Q a) → Answers d Q (select q)
  Answers-select q k = record {
    at = λ c e.
        let (same, answer) = select_cases q c in (same ∙ e, λ a h. k a (read c a e h answer));
  }
    where
      read :
          (c : Conn) (a : A)
          → c.db ≡ d
          → (select q c).0 ≡ ok a
          → ((select q c).0 ≡ err DbError.failed) ⊎ ((select q c).0 ≡ q c.db)
          → q d ≡ ok a
      read c a e h (inl failed) = absurd (cc)
      read c a e h (inr answered) = sym (ap q e) ∙ (sym answered ∙ h)

module _ {A B : Type 0} {d : Db} {R : A → Type 0} {Q : B → Type 0} where
  answered_or-Answers :
      (none_answer : B) (f : A → Query B)
      → Q none_answer
      → ((a : A) → R a → Answers d Q (f a))
      → (r : QueryResult A) → ((a : A) → r ≡ ok a → R a)
      → Answers d Q (answered_or none_answer f r)
  answered_or-Answers none_answer f q k (ok a) holds = k a (holds a refl)
  answered_or-Answers none_answer f q k (err e) holds = Answers-pure none_answer q

  pub Answers-or_answer :
      (none_answer : B) (m : Query A) (f : A → Query B)
      → Q none_answer
      → Answers d R m
      → ((a : A) → R a → Answers d Q (f a))
      → Answers d Q (or_answer none_answer m f)
  unfolding or_answer ◌>>=◌
  Answers-or_answer none_answer m f q km kf = record {
    at = λ c e.
        let (same, holds) = km.at c e in
        (answered_or-Answers none_answer f q kf (m c).0 holds).at (m c).1 same;
  }

  continue-Answers :
      (f : A → Query B)
      → ((a : A) → R a → Answers d Q (f a))
      → (r : QueryResult A) (c : Conn) → c.db ≡ d
      → ((a : A) → r ≡ ok a → R a)
      → ((◌>>=◌ (λ c. (r, c)) f c).1.db ≡ d) × ((b : B) → (◌>>=◌ (λ c. (r, c)) f c).0 ≡ ok b → Q b)
  unfolding ◌>>=◌
  continue-Answers f k (ok a) c e holds = (k a (holds a refl)).at c e
  continue-Answers f k (err why) c e holds = (e, λ b same. absurd (cc))

  pub Answers-bind :
      (m : Query A) (f : A → Query B)
      → Answers d R m
      → ((a : A) → R a → Answers d Q (f a))
      → Answers d Q (m >>= f)
  unfolding ◌>>=◌
  Answers-bind m f km kf = record {
    at = λ c e. let (same, holds) = km.at c e in continue-Answers f kf (m c).0 (m c).1 same holds;
  }

  -- The result of a query that is used whether it answers or not.
  pub Answers-try_bind :
      (m : Query A) (f : QueryResult A → Query B)
      → Answers d R m
      → ((r : QueryResult A) → ((a : A) → r ≡ ok a → R a) → Answers d Q (f r))
      → Answers d Q (try_query m >>= f)
  unfolding ◌>>=◌
  Answers-try_bind m f km kf = record {
    at = λ c e. let (same, holds) = km.at c e in (kf (m c).0 holds).at (m c).1 same;
  }

-- A statement that reads rows with a property.
pub Answers-rows :
    {A : Type 0} {d : Db} (Q : A → Type 0) (rows : Db → A)
    → Q (rows d)
    → Answers d Q (select (λ d. ok (rows d)))
Answers-rows {A} {d} Q rows q =
    Answers-select (λ d. ok (rows d)) (λ a e. subst Q (answer_eq (rows d) a e) q)
  where
    answer_eq : (a b : A) → ok a ≡ ok b → a ≡ b
    answer_eq a b e = cc
