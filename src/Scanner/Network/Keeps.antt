-- ===== src/Scanner/Network/Keeps.antt =====
-- Invariants of the tables through the scanner's steps, whatever the nodes answer.
use forkscanner.Prelude.{◌≡◌, refl, Bool, true, false, if◌then◌else◌, Option, none, some}
use forkscanner.Models.Rows.{QueryResult}
use forkscanner.Models.Query.{Db, Conn, Query}
use forkscanner.Models.Query.Keeps
use forkscanner.Scanner.Network.{
  RpcResult, World, Scan, ScanError, ScanResult, db, rpc, after_db, after_rpc, pure, fail, try_scan,
  or_fail, continue, ◌>>=◌,
}

-- The tables satisfy `P` after `m` if they did before.
pub record ScanKeeps {N A : Type 0} (P : Db → Type 0) (m : Scan N A) : Type 0 where
  pub at : (w : World N) → P w.conn.db → P (m w).1.conn.db

module _ {N A : Type 0} (P : Db → Type 0) where
  db_result :
      (w : World N) (r : QueryResult A) (c : Conn) → P c.db → P (after_db w (r, c)).1.conn.db
  db_result w (QueryResult.ok a) c h = h
  db_result w (QueryResult.err e) c h = h

  rpc_result :
      (w : World N) (r : RpcResult A) (n : N) → P w.conn.db → P (after_rpc w (r, n)).1.conn.db
  rpc_result w (RpcResult.ok a) n h = h
  rpc_result w (RpcResult.err e) n h = h

module _ {N A : Type 0} {P : Db → Type 0} where
  pub ScanKeeps-db : (q : Query A) → Keeps.Keeps P q → ScanKeeps {N = N} P (db q)
  unfolding db
  ScanKeeps-db q k = record {
    at = λ w h. let (r, c) = q w.conn in db_result P w r c (k.at w.conn h);
  }

  pub ScanKeeps-rpc : (call : N → RpcResult A × N) → ScanKeeps P (rpc call)
  unfolding rpc
  ScanKeeps-rpc call = record { at = λ w h. let (r, n) = call w.nodes in rpc_result P w r n h }

  pub ScanKeeps-done : (a : A) → ScanKeeps {N = N} P (pure a)
  ScanKeeps-done a = record { at = λ w h. h }

  pub ScanKeeps-error : (e : ScanError) → ScanKeeps {N = N} {A = A} P (fail e)
  ScanKeeps-error e = record { at = λ w h. h }

  pub ScanKeeps-caught : (m : Scan N A) → ScanKeeps P m → ScanKeeps P (try_scan m)
  ScanKeeps-caught m k = record { at = k.at }

  pub ScanKeeps-or_fail : (o : Option A) (e : ScanError) → ScanKeeps {N = N} P (or_fail o e)
  ScanKeeps-or_fail none e = ScanKeeps-error e
  ScanKeeps-or_fail (some a) e = ScanKeeps-done a

  -- Each branch may use its test.
  pub ScanKeeps-branch :
      (b : Bool) (m n : Scan N A)
      → (b ≡ true → ScanKeeps P m)
      → (b ≡ false → ScanKeeps P n)
      → ScanKeeps P (if b then m else n)
  ScanKeeps-branch true m n k l = k refl
  ScanKeeps-branch false m n k l = l refl

module _ {N A B : Type 0} {P : Db → Type 0} where
  continued :
      (f : A → Scan N B)
      → ((a : A) → ScanKeeps P (f a))
      → (r : ScanResult A) (w : World N) → P w.conn.db
      → P (continue f r w).1.conn.db
  continued f k (ScanResult.ok a) w h = (k a).at w h
  continued f k (ScanResult.err e) w h = h

  pub ScanKeeps-then :
      (m : Scan N A) (f : A → Scan N B)
      → ScanKeeps P m
      → ((a : A) → ScanKeeps P (f a))
      → ScanKeeps P (m >>= f)
  unfolding ◌>>=◌
  ScanKeeps-then m f km kf = record {
    at = λ w h. let (r, w') = m w in continued f kf r w' (km.at w h);
  }
