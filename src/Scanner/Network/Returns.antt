-- ===== src/Scanner/Network/Returns.antt =====
-- Steps of the scanner that do not run out of fuel, where no statement fails.
use forkscanner.Prelude.{◌≡◌, ◌≢◌, refl, Bool, true, false, [], if◌then◌else◌}
use forkscanner.Models.Rows.{QueryResult, ok, err}
use forkscanner.Models.Query.{Db, Conn, Query, select}
use forkscanner.Models.Query.Sound.{StaysSound, StaysSound-execute, execute_answer}
use forkscanner.Models.Query.Answers.{Answers, Answers-select}
use forkscanner.Scanner.Network.{
  RpcResult, Scan, ScanError, ScanResult, World, db, rpc, after_db, after_rpc, pure, fail, try_scan,
  continue, diverged, ◌>>=◌,
}

abbrev pub AnyAnswer : {A : Type 0} → A → Type 0
AnyAnswer a = Unit

after_ok :
    {N A : Type 0} (w : World N) (r : QueryResult A) (c : Conn) (a : A)
    → r ≡ ok a
    → (after_db w (r, c)).0 ≡ ScanResult.ok a
after_ok w (ok b) c a e = cc
after_ok w (err why) c a e = absurd (cc)

after_rpc_ok :
    {N A : Type 0} (w : World N) (r : RpcResult A) (n : N) (a : A)
    → r ≡ RpcResult.ok a
    → (after_rpc w (r, n)).0 ≡ ScanResult.ok a
after_rpc_ok w (RpcResult.ok b) n a e = cc
after_rpc_ok w (RpcResult.err why) n a e = absurd (cc)

module _ {N : Type 0} (d : Db) where
  -- The tables are `d`, and no statement will fail.
  abbrev pub IsAt : World N → Type 0
  IsAt w = (w.conn.db ≡ d) × (w.conn.faults ≡ [])

  -- `m` does not run out of fuel, and its answer satisfies `Q`.
  pub record Returns {A : Type 0} (Q : A → Type 0) (m : Scan N A) : Type 0 where
    pub at :
        (w : World N)
        → IsAt w
        → IsAt (m w).1
          × (((m w).0 ≢ ScanResult.err diverged) × ((a : A) → (m w).0 ≡ ScanResult.ok a → Q a))

  pub Returns-pure : {A : Type 0} (a : A) → Returns AnyAnswer (pure a)
  Returns-pure a = record { at = λ w h. (h, (λ e. absurd (cc), λ b e. tt)) }

  pub Returns-fail :
      {A : Type 0} (e : ScanError) → e ≢ diverged → Returns {A = A} AnyAnswer (fail e)
  Returns-fail e n = record { at = λ w h. (h, (λ f. n (cc), λ b f. tt)) }

  pub Returns-branch :
      {A : Type 0} (b : Bool) (m n : Scan N A)
      → (b ≡ true → Returns AnyAnswer m)
      → (b ≡ false → Returns AnyAnswer n)
      → Returns AnyAnswer (if b then m else n)
  Returns-branch true m n k l = k refl
  Returns-branch false m n k l = l refl

  continue-Returns :
      {A B : Type 0} {Q : A → Type 0} (f : A → Scan N B)
      → ((a : A) → Q a → Returns AnyAnswer (f a))
      → (r : ScanResult A) (w : World N) → IsAt w
      → r ≢ ScanResult.err diverged
      → ((a : A) → r ≡ ScanResult.ok a → Q a)
      → IsAt (continue f r w).1
        × (((continue f r w).0 ≢ ScanResult.err diverged)
            × ((b : B) → (continue f r w).0 ≡ ScanResult.ok b → Unit {0}))
  continue-Returns f k (ScanResult.ok a) w h n q = (k a (q a refl)).at w h
  continue-Returns f k (ScanResult.err e) w h n q = (h, (λ f. n (cc), λ b f. tt))

  pub Returns-then :
      {A B : Type 0} {Q : A → Type 0} (m : Scan N A) (f : A → Scan N B)
      → Returns Q m
      → ((a : A) → Q a → Returns AnyAnswer (f a))
      → Returns AnyAnswer (m >>= f)
  unfolding ◌>>=◌
  Returns-then m f km kf = record {
    at = λ w h. let (kept, (n, q)) = km.at w h in continue-Returns f kf (m w).0 (m w).1 kept n q;
  }

  rpc_result :
      {A : Type 0} (w : World N) (r : RpcResult A) (n : N) → IsAt w → IsAt (after_rpc w (r, n)).1
  rpc_result w (RpcResult.ok a) n h = h
  rpc_result w (RpcResult.err e) n h = h

  -- A call whose failure is handled.
  pub Returns-call :
      {A : Type 0} (call : N → RpcResult A × N) → Returns AnyAnswer (try_scan (rpc call))
  unfolding rpc
  Returns-call call = record {
    at = λ w h. (rpc_result w (call w.nodes).0 (call w.nodes).1 h, (λ e. absurd (cc), λ b e. tt));
  }

  db_result :
      {A : Type 0} {Q : A → Type 0} (w : World N) (r : QueryResult A) (c : Conn)
      → c.db ≡ d
      → c.faults ≡ []
      → ((a : A) → r ≡ ok a → Q a)
      → IsAt (after_db w (r, c)).1
        × (((after_db w (r, c)).0 ≢ ScanResult.err diverged)
            × ((a : A) → (after_db w (r, c)).0 ≡ ScanResult.ok a → Q a))
  db_result w (ok a) c e f q = ((e, f), (λ x. absurd (cc), λ b x. q b (cc)))
  db_result w (err why) c e f q = ((e, f), (λ x. absurd (cc), λ b x. absurd (cc)))

  pub Returns-query :
      {A : Type 0} {Q : A → Type 0} (m : Query A) → Answers d Q m → StaysSound m → Returns Q (db m)
  unfolding db
  Returns-query m k s = record {
    at = λ w h.
        let (same, q) = k.at w.conn h.0 in
        db_result w (m w.conn).0 (m w.conn).1 same (s.at w.conn h.1) q;
  }

  -- A statement that only reads, and cannot fail but by a fault.
  pub Returns-read :
      {A : Type 0} (f : Db → A)
      → Returns (λ r. (a : A) × (r ≡ ScanResult.ok a)) (try_scan (db (select (λ x. ok (f x)))))
  unfolding db
  Returns-read f = record {
    at = λ w h.
        let q = λ (x : Db). ok (f x) in
        let (kept, _) =
          (Returns-query {Q = AnyAnswer} (select q) (Answers-select q (λ a e. tt))
              (StaysSound-execute _)).at
            w h in
        let answer =
          after_ok w (select q w.conn).0 (select q w.conn).1 (f w.conn.db)
            (execute_answer _ w.conn h.1) in
        (kept, (λ e. absurd (cc), λ r e. (f w.conn.db, cc)));
  }

  -- A call that always answers.
  pub Returns-answered :
      {A : Type 0} (call : N → RpcResult A × N)
      → ((n : N) → (a : A) × ((call n).0 ≡ RpcResult.ok a))
      → Returns (λ r. (a : A) × (r ≡ ScanResult.ok a)) (try_scan (rpc call))
  unfolding rpc
  Returns-answered call answers = record {
    at = λ w h.
        let (a, e) = answers w.nodes in
        let answer = after_rpc_ok w (call w.nodes).0 (call w.nodes).1 a e in
        (rpc_result w (call w.nodes).0 (call w.nodes).1 h, (λ x. absurd (cc), λ r x. (a, cc)));
  }
