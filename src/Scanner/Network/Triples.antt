-- ===== src/Scanner/Network/Triples.antt =====
-- What holds when a step of the scanner answers: rules for each way that a step is built.
use forkscanner.Prelude.{Bool, true, false, ◌≡◌, refl, subst, if◌then◌else◌}
use forkscanner.Scanner.Network.{
  RpcResult, World, Scan, ScanError, ScanResult, rpc, after_rpc, pure, fail, try_scan, continue,
  ◌>>=◌,
}

-- If `P` holds of the world before and `m` answers `a`, `Q a` holds of the world after.
pub record Triple {N A : Type 0} (P : World N → Type 0) (m : Scan N A) (Q : A → World N → Type 0)
    : Type 0 where
  pub at : (w : World N) → P w → (a : A) → (m w).0 ≡ ScanResult.ok a → Q a (m w).1

abbrev pub Always : {N : Type 0} → World N → Type 0
Always w = Unit

answer_eq : {A : Type 0} {a b : A} → ScanResult.ok a ≡ ScanResult.ok b → a ≡ b
answer_eq e = cc

module _ {N A : Type 0} {P : World N → Type 0} {Q : A → World N → Type 0} where
  pub Triple-pure : (a : A) → ((w : World N) → P w → Q a w) → Triple P (pure a) Q
  Triple-pure a k = record { at = λ w h b e. subst (λ x. Q x w) (answer_eq e) (k w h) }

  pub Triple-fail : (e : ScanError) → Triple P (fail e) Q
  Triple-fail e = record { at = λ w h a f. absurd (cc) }

  pub Triple-branch :
      (b : Bool) (m n : Scan N A)
      → (b ≡ true → Triple P m Q)
      → (b ≡ false → Triple P n Q)
      → Triple P (if b then m else n) Q
  Triple-branch true m n k l = k refl
  Triple-branch false m n k l = l refl

module _ {N A B : Type 0} {R : A → World N → Type 0} {Q : B → World N → Type 0} where
  continued :
      (f : A → Scan N B)
      → ((a : A) → Triple (R a) (f a) Q)
      → (r : ScanResult A) (w : World N) → ((a : A) → r ≡ ScanResult.ok a → R a w)
      → (b : B) → (continue f r w).0 ≡ ScanResult.ok b
      → Q b (continue f r w).1
  continued f k (ScanResult.ok a) w h b e = (k a).at w (h a refl) b e
  continued f k (ScanResult.err why) w h b e = absurd (cc)

module _ {N A B : Type 0} {P : World N → Type 0} {R : A → World N → Type 0}
    {Q : B → World N → Type 0} where
  pub Triple-then :
      (m : Scan N A) (f : A → Scan N B)
      → Triple P m R
      → ((a : A) → Triple (R a) (f a) Q)
      → Triple P (m >>= f) Q
  unfolding ◌>>=◌
  Triple-then m f km kf = record {
    at = λ w h b e. let (r, w') = m w in continued f kf r w' (km.at w h) b e;
  }

-- A step of which nothing is asked.
pub Triple-any : {N A : Type 0} {P : World N → Type 0} (m : Scan N A) → Triple P m (λ a w. Always w)
Triple-any m = record { at = λ w h a e. tt }

-- What a node answered, and its state after the call.
abbrev pub IsAnswerOf : {N A : Type 0} → (N → RpcResult A × N) → ScanResult A → World N → Type 0
IsAnswerOf {N} call (ScanResult.ok a) w = (n : N) × (call n ≡ (RpcResult.ok a, w.nodes))
IsAnswerOf call (ScanResult.err e) w = Unit

module _ {N A : Type 0} (call : N → RpcResult A × N) where
  called :
      (w : World N) (n : N) (r : RpcResult A) (n' : N)
      → call n ≡ (r, n')
      → IsAnswerOf call (after_rpc w (r, n')).0 (after_rpc w (r, n')).1
  called w n (RpcResult.ok a) n' e = (n, e)
  called w n (RpcResult.err why) n' e = tt

  pub Triple-call : Triple Always (try_scan (rpc call)) (IsAnswerOf call)
  unfolding rpc
  Triple-call = record {
    at = λ w h a e.
        subst (λ x. IsAnswerOf call x (rpc call w).1) (answer_eq e)
          (called w w.nodes (call w.nodes).0 (call w.nodes).1 refl);
  }
