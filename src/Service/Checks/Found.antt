-- ===== src/Service/Checks/Found.antt =====
-- What `validation_checks` of src/service.rs answers: every check is one of an active tip, of a
-- candidate in the window below it, and of a block at the candidate's height.
use forkscanner.Prelude.{
  ◌≡◌, refl, true, Option, none, some, List, [], ◌∷◌, ◌==◌, leb, All, All-append, number_comparable,
}
use forkscanner.Prelude.Int.{ℤ}
use forkscanner.Prelude.Members.{IsRow, All-kept}
use forkscanner.Models.Rows.{QueryResult, ok, err, Block, Chaintip, StaleCandidate}
use forkscanner.Models.Query.{Db, Conn, Query}
use forkscanner.Models.Query.Answers.{
  Answers, Answers-pure, Answers-bind, Answers-try_bind, Answers-rows, Answers-or_answer,
}
use forkscanner.Models.Blocks.{get_at_height}
use forkscanner.Models.Chaintips.{is_status, list_active}
use forkscanner.Models.StaleCandidates.{list_ge}
use forkscanner.Scanner.Linking.Ancestry.{ParentsLower}
use forkscanner.Service.Requests.{
  ValidationCheck, Reply, value, error, internal_error, value_or_internal, Returned, returned,
  diverged,
}
use forkscanner.Service.Checks.{
  Candidate, or_default, rows_or_empty, prepend, then_rest, flat_map, as_list, check_block,
  check_candidate, lowest, check_tip, all_checks, checks_reply, validation_checks,
}
use forkscanner.Service.Checks.Answered.{validation_checks-Total}
use forkscanner.Service.Checks.Branch.{IsCheck, IsChecked, new_candidate-Answers}

-- An answer, with `P` of every element.
abbrev pub AllReturned : {B : Type 0} → (B → Type 0) → Returned (List B) → Type 0
AllReturned P diverged = ⊥
AllReturned P (returned xs) = All P xs

module _ {A B : Type 0} {d : Db} {R : A → Type 0} {P : B → Type 0} where
  or_default-Answers :
      (m : Query (List A)) (f : List A → Query (Returned (List B)))
      → Answers d (All R) m
      → ((xs : List A) → All R xs → Answers d (AllReturned P) (f xs))
      → Answers d (AllReturned P) (or_default m f)
  unfolding or_default
  or_default-Answers m f km kf = Answers-try_bind m _ km by_result
    where
      by_result :
          (r : QueryResult (List A))
          → ((xs : List A) → r ≡ ok xs → All R xs)
          → Answers d (AllReturned P) (f (rows_or_empty r))
      by_result (ok xs) holds = kf xs (holds xs refl)
      by_result (err e) holds = kf [] tt

module _ {B : Type 0} {d : Db} {P : B → Type 0} where
  then_rest-Answers :
      (rest : Query (Returned (List B))) (r : Returned (List B))
      → Answers d (AllReturned P) rest
      → AllReturned P r
      → Answers d (AllReturned P) (then_rest rest r)
  then_rest-Answers rest diverged k h = absurd h
  then_rest-Answers rest (returned xs) k h =
      Answers-bind rest _ k (λ ys g. Answers-pure _ (prepended ys g))
    where
      prepended : (ys : Returned (List B)) → AllReturned P ys → AllReturned P (prepend xs ys)
      prepended diverged g = g
      prepended (returned ys) g = All-append P xs ys h g

module _ {A B : Type 0} {d : Db} {R : A → Type 0} {P : B → Type 0} where
  flat_map-Answers :
      (f : A → Query (Returned (List B)))
      → ((a : A) → R a → Answers d (AllReturned P) (f a))
      → (xs : List A) → All R xs
      → Answers d (AllReturned P) (flat_map f xs)
  unfolding flat_map
  flat_map-Answers f k [] h = Answers-pure _ tt
  flat_map-Answers f k (x ∷ xs) h =
      Answers-bind (f x) _ (k x h.0)
        (λ r g. then_rest-Answers (flat_map f xs) r (flat_map-Answers f k xs h.1) g)

-- The check `c` is about these rows.
pub record IsFound (d : Db) (window : ℤ) (c : ValidationCheck) : Type 0 where
  pub tip : Chaintip
  pub candidate : StaleCandidate
  pub block : Block
  pub tip_row : IsRow d.chaintips tip
  pub tip_active : is_status "active" tip ≡ true
  pub candidate_row : IsRow d.stale_candidates candidate
  pub in_window : leb (lowest tip window) candidate.height ≡ true
  pub block_row : IsRow d.blocks block
  pub block_height : (block.height == candidate.height) ≡ true
  pub is_check : IsCheck d tip candidate block.hash c

module _ (d : Db) (lower : ParentsLower d) (window : ℤ) (tip : Chaintip)
    (tip_row : IsRow d.chaintips tip) (tip_active : is_status "active" tip ≡ true) where
  check_candidate-Answers :
      (candidate : StaleCandidate)
      → IsRow d.stale_candidates candidate
      → leb (lowest tip window) candidate.height ≡ true
      → Answers d (AllReturned (IsFound d window)) (check_candidate tip candidate)
  unfolding check_candidate get_at_height
  check_candidate-Answers candidate row inside =
      or_default-Answers (get_at_height candidate.height) _ blocks
        (λ bs rows. flat_map-Answers _ one_block bs rows)
    where
      AtHeight : Block → Type 0
      AtHeight b = IsRow d.blocks b × ((b.height == candidate.height) ≡ true)

      blocks : Answers d (All AtHeight) (get_at_height candidate.height)
      blocks =
          Answers-rows (All AtHeight) _
            (All-kept AtHeight (λ b. b.height == candidate.height) d.blocks (λ b r t. (r, t)))

      listed :
          (b : Block)
          → AtHeight b
          → (r : Candidate) → IsChecked d tip candidate b.hash r
          → AllReturned (IsFound d window) (as_list r)
      listed b at_height diverged h = h
      listed b at_height (returned none) h = tt
      listed b at_height (returned (some c)) h = (
        record {
          tip = tip;
          candidate = candidate;
          block = b;
          tip_row = tip_row;
          tip_active = tip_active;
          candidate_row = row;
          in_window = inside;
          block_row = at_height.0;
          block_height = at_height.1;
          is_check = h;
        },
        tt,
      )

      one_block :
          (b : Block)
          → AtHeight b
          → Answers d (AllReturned (IsFound d window)) (check_block tip candidate b)
      one_block b at_height =
          Answers-bind _ _ (new_candidate-Answers d lower tip candidate b.hash)
            (λ r h. Answers-pure _ (listed b at_height r h))

check_tip-Answers :
    (d : Db) (lower : ParentsLower d) (window : ℤ) (tip : Chaintip)
    → IsRow d.chaintips tip × (is_status "active" tip ≡ true)
    → Answers d (AllReturned (IsFound d window)) (check_tip window tip)
unfolding check_tip list_ge
check_tip-Answers d lower window tip (row, active) =
    or_default-Answers (list_ge (lowest tip window)) _ candidates (λ cs inside.
      flat_map-Answers _
        (λ c (row', low). check_candidate-Answers d lower window tip row active c row' low) cs
        inside)
  where
    InWindow : StaleCandidate → Type 0
    InWindow c = IsRow d.stale_candidates c × (leb (lowest tip window) c.height ≡ true)

    candidates : Answers d (All InWindow) (list_ge (lowest tip window))
    candidates = Answers-rows (All InWindow) _ (
        All-kept InWindow (λ c. leb (lowest tip window) c.height) d.stale_candidates
          (λ c r t. (r, t)))

module _ {V : Type 0} (checks_value : List ValidationCheck → Option V) where
  -- A reply with checks of the tables, or the internal error.
  abbrev pub IsChecksReply : Db → ℤ → Returned (Reply V) → Type 0
  IsChecksReply d window diverged = ⊥
  IsChecksReply d window (returned (error e)) = e ≡ internal_error
  IsChecksReply d window (returned (value v)) =
      (checks : List ValidationCheck) × (checks_value checks ≡ some v)
      × All (IsFound d window) checks

  reply-IsChecksReply :
      (d : Db) (window : ℤ) (r : Returned (List ValidationCheck))
      → AllReturned (IsFound d window) r
      → IsChecksReply d window (checks_reply checks_value r)
  reply-IsChecksReply d window diverged h = h
  reply-IsChecksReply d window (returned checks) h = written (checks_value checks) refl
    where
      written :
          (o : Option V)
          → checks_value checks ≡ o
          → IsChecksReply d window (returned (value_or_internal o))
      written none e = refl
      written (some v) e = (checks, e, h)

  validation_checks-Answers :
      (d : Db) (lower : ParentsLower d) (window : ℤ)
      → Answers d (IsChecksReply d window) (validation_checks checks_value window)
  unfolding validation_checks list_active all_checks
  validation_checks-Answers d lower window =
      Answers-or_answer (returned (error internal_error)) list_active _ refl tips (λ ts active.
        Answers-bind (all_checks window ts) _
          (flat_map-Answers (check_tip window) (check_tip-Answers d lower window) ts active)
          (λ r h. Answers-pure _ (reply-IsChecksReply d window r h)))
    where
      IsActive : Chaintip → Type 0
      IsActive t = IsRow d.chaintips t × (is_status "active" t ≡ true)

      tips : Answers d (All IsActive) list_active
      tips =
          Answers-rows (All IsActive) _
            (All-kept IsActive (is_status "active") d.chaintips (λ t r a. (r, a)))

  -- Where a parent is lower than its child, and whichever statements fail: validation_checks
  -- answers the internal error, or checks. Each check is one of an active tip, of a candidate in
  -- the window below it, and of a block at the candidate's height: its root is a block of the
  -- tip's chain, not above the candidate, that is the block or below it, and its length is the
  -- distance between the two heights.
  pub validation_checks-IsChecksReply :
      (window : ℤ) (c : Conn)
      → ParentsLower c.db
      → (r : Returned (Reply V)) × ((validation_checks checks_value window c).0 ≡ ok r)
        × IsChecksReply c.db window r
  validation_checks-IsChecksReply window c lower =
      let (r, e) = (validation_checks-Total checks_value window).at c in
      (r, e, ((validation_checks-Answers c.db lower window).at c refl).1 r e)
