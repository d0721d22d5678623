-- ===== src/Models/Blocks/Parents.antt =====
-- What `get` and `parent` of src/models.rs answer.
use forkscanner.Prelude.{◌≡◌, refl, String, Option, none, some}
use forkscanner.Models.Rows.{DbError, ok, Block}
use forkscanner.Models.Query.{Db, first_row, fail}
use forkscanner.Models.Query.Answers.{Answers, Answers-select}
use forkscanner.Models.Blocks.{block_at, get, parent}

first_row-eq : {A : Type 0} (o : Option A) (a : A) → first_row o ≡ ok a → o ≡ some a
first_row-eq none a e = absurd (cc)
first_row-eq (some b) a e = cc

pub get-Answers : (d : Db) (h : String) → Answers d (λ b. block_at d h ≡ some b) (get h)
unfolding get
get-Answers d h = Answers-select _ (λ b e. first_row-eq (block_at d h) b e)

fail-Answers : {A : Type 0} {d : Db} {Q : A → Type 0} (why : DbError) → Answers d Q (fail why)
fail-Answers why = record { at = λ c e. (e, λ a h. absurd (cc)) }

-- `p` is the row that the table answers for the parent hash of `b`.
abbrev pub IsParent : Db → Block → Block → Type 0
IsParent d b p = (h : String) × (b.parent_hash ≡ some h) × (block_at d h ≡ some p)

pub parent-Answers : (d : Db) (b : Block) → Answers d (IsParent d b) (parent b)
unfolding parent get
parent-Answers d b = by_hash b.parent_hash refl
  where
    by_hash :
        (o : Option String)
        → b.parent_hash ≡ o
        → Answers d (IsParent d b) (elim o [ none ↦ fail DbError.not_found | some h ↦ get h ])
    by_hash none e = fail-Answers DbError.not_found
    by_hash (some h) e = Answers-select _ (λ p found. (h, e, first_row-eq (block_at d h) p found))
