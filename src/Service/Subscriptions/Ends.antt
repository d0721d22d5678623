-- ===== src/Service/Subscriptions/Ends.antt =====
-- What follows an unsubscription in src/service.rs: the handler's thread ends, and its channel is
-- forgotten.
use forkscanner.Prelude.{
  ℕ, suc, ◌+◌, ◌-◌, ◌≤◌, ◌≡◌, refl, ◌∙◌, sym, ap, String, Bool, true, false, Option, none, some,
  List, [], ◌∷◌, arith, if◌then◌else◌, ◌==◌, number_comparable, text_comparable, Bool-cases, inl,
  inr, update_if, find, find_holds, nat_beq_iff, str_eq_self,
}
use forkscanner.Prelude.Int.{ℤ}
use forkscanner.Models.Tables.{find-update_if}
use forkscanner.Models.Rows.{QueryResult, Chaintip}
use forkscanner.Models.Query.{Conn}
use forkscanner.Service.Requests.{Reply, Returned}
use forkscanner.Service.Messages.{ScannerMessage, Handled, sends, panics}
use forkscanner.Service.Subscriptions.{
  Phase, starting, checking, receiving, ended, Thread, Hub, has_number, thread, is_ended, deliver,
  deliver_to, senders, unsubscribe, SubscribeArgs,
}
use forkscanner.Service.Subscriptions.Endpoints.{subscribe_call-cases}
use forkscanner.Service.Subscriptions.Run.{
  after, take_message, thread_step, step_found, step, Event, published, subscribed, unsubscribed,
  stepped, written, on_event, run,
}
use forkscanner.Service.Subscriptions.Served.{times, retain_closed}
use forkscanner.Service.Subscriptions.Stepped.{thread_step-id, thread-replaced}
use forkscanner.Service.Subscriptions.Killed.{
  steps_left, IsKilled, same-IsKilled, on_scanner_message-IsKilled, flip_switch-IsKilled,
  add_subscription-IsKilled,
}

-- How often the thread `k` is stepped.
abbrev pub steps_of : {P : Type 0} → ℕ → List (Event P) → ℕ
steps_of k [] = 0
steps_of k (stepped pooled j ∷ es) = let rest = steps_of k es in if k == j then suc rest else rest
steps_of k (_ ∷ es) = steps_of k es

module _ {V : Type 0} (validation_checks : ℤ → Conn → QueryResult (Returned (Reply V)) × Conn) where
  -- A thread after a step: its switch is still set, and it has a step less.
  abbrev Fewer : Thread V → Thread V → Type 0
  Fewer t u = (u.exit ≡ true) × (steps_left u.phase ≤ steps_left t.phase - 1)

  after-exit :
      (t : Thread V) (h : Handled V) → t.exit ≡ true → (after validation_checks t h).exit ≡ true
  after-exit t (sends ns) x = x
  after-exit t panics x = x

  after-left : (t : Thread V) (h : Handled V) → steps_left (after validation_checks t h).phase ≤ 1
  after-left t (sends ns) = omega arith
  after-left t panics = omega arith

  take_message-left :
      (q : List ScannerMessage) (pooled : Bool) (current : List Chaintip) (t : Thread V) (c : Conn)
      → t.exit ≡ true
      → ((take_message validation_checks q pooled current t c).0.exit ≡ true)
        × (steps_left (take_message validation_checks q pooled current t c).0.phase ≤ 1)
  take_message-left [] pooled current t c x = (x, omega arith)
  take_message-left (m ∷ ms) pooled current t c x =
      (after-exit (record t { queue = ms }) _ x, after-left (record t { queue = ms }) _)

  thread_step-Fewer :
      (phase : Phase) (pooled : Bool) (current : List Chaintip) (t : Thread V) (c : Conn)
      → t.phase ≡ phase
      → t.exit ≡ true
      → Fewer t (thread_step validation_checks phase pooled current t c).0
  thread_step-Fewer starting pooled current t c e x =
      (after-exit t _ x, omega (arith, after-left t _, ap steps_left e))
  thread_step-Fewer checking pooled current t c e x = rw x (refl, omega arith)
  thread_step-Fewer receiving pooled current t c e x =
      let (x', l) = take_message-left t.queue pooled current t c x in
      (x', omega (arith, l, ap steps_left e))
  thread_step-Fewer ended pooled current t c e x = (x, omega (arith, ap steps_left e))

  module _ (k n : ℕ) (pooled : Bool) (j : ℕ) (hub : Hub V) (s : IsKilled k n hub) where
    same_found : (o : Option (Thread V)) → thread j hub.threads ≡ o → k ≡ j → o ≡ some s.killed
    same_found o e same = sym e ∙ ap (λ x. thread x hub.threads) (sym same) ∙ s.found

    step_found-IsKilled :
        (o : Option (Thread V))
        → thread j hub.threads ≡ o
        → IsKilled k (if k == j then n - 1 else n) (step_found validation_checks o pooled j hub)
    step_found-IsKilled none e = elim (Bool-cases (k == j)) [
      | inl same ↦ absurd (none_some (same_found none e ((nat_beq_iff k j).0 same)))
      | inr other ↦ rw other s
    ]
      where
        none_some : none ≡ some s.killed → ⊥
        none_some e = cc
    step_found-IsKilled (some v) e =
        by_number (k == j) refl (thread-replaced j k hub.threads s.killed v' s.found numbered)
      where
        v' : Thread V
        v' = (thread_step validation_checks v.phase pooled hub.tips v hub.conn).0

        numbered : (v'.id == j) ≡ true
        numbered =
            ap (λ x. x == j) (thread_step-id validation_checks v.phase pooled hub.tips v hub.conn)
            ∙ find_holds (has_number j) hub.threads v e

        some_eq : some v ≡ some s.killed → v ≡ s.killed
        some_eq same = cc

        fewer : v ≡ s.killed → (v'.exit ≡ true) × (steps_left v'.phase ≤ n - 1)
        fewer same =
            let (x, l) =
              thread_step-Fewer v.phase pooled hub.tips v hub.conn refl
                (ap (λ u. u.exit) same ∙ s.exit_set) in
            (x, omega (arith, l, s.left, ap (λ u. steps_left u.phase) same))

        by_number :
            (b : Bool)
            → (k == j) ≡ b
            → thread k (update_if (has_number j) (λ _. v') hub.threads)
              ≡ some (if b then v' else s.killed)
            → IsKilled k
                (if b then n - 1 else n)
                (step_found validation_checks (some v) pooled j hub)
        by_number false other f = record {
          killed = s.killed;
          found = f;
          exit_set = s.exit_set;
          left = s.left;
        }
        by_number true same f =
            let (x, l) = fewer (some_eq (same_found (some v) e ((nat_beq_iff k j).0 same))) in
            record { killed = v'; found = f; exit_set = x; left = l }

  module _ {P : Type 0} (args : SubscribeArgs P) (k : ℕ) where
    weaken : (n m : ℕ) (hub : Hub V) → n ≤ m → IsKilled k n hub → IsKilled k m hub
    weaken n m hub le s = record {
      killed = s.killed;
      found = s.found;
      exit_set = s.exit_set;
      left = omega (arith, le, s.left);
    }

    on_event-IsKilled :
        (n m : ℕ) (e : Event P) (hub : Hub V)
        → n ≤ m + steps_of k (e ∷ [])
        → IsKilled k n hub
        → IsKilled k m (on_event validation_checks args e hub)
    unfolding on_event step unsubscribe
    on_event-IsKilled n m (published msg) hub le s =
        weaken n m _ (omega (arith, le)) (on_scanner_message-IsKilled k n msg hub s)
    on_event-IsKilled n m (subscribed now sub_id pooled method params) hub le s =
        weaken n m _ (omega (arith, le)) (
          subscribe_call-cases (IsKilled k n) hub args now sub_id pooled method params s
            (λ h phase c.
              add_subscription-IsKilled k n sub_id h phase (record hub { conn = c })
                (same-IsKilled k n hub _ s refl)))
    on_event-IsKilled n m (unsubscribed id) hub le s =
        weaken n m _ (omega (arith, le))
          (flip_switch-IsKilled k n (find (λ entry. entry.0 == id) hub.killers) id hub s)
    on_event-IsKilled n m (stepped pooled j) hub le s =
        weaken (if k == j then n - 1 else n) m _ (ground (arith, le))
          (step_found-IsKilled k n pooled j hub s (thread j hub.threads) refl)
    on_event-IsKilled n m (written c) hub le s =
        weaken n m _ (omega (arith, le)) (same-IsKilled k n hub _ s refl)

    steps_of-cons :
        (e : Event P) (es : List (Event P))
        → steps_of k (e ∷ es) ≡ steps_of k (e ∷ []) + steps_of k es
    steps_of-cons (published m) es = omega arith
    steps_of-cons (subscribed now sub_id pooled method params) es = omega arith
    steps_of-cons (unsubscribed id) es = omega arith
    steps_of-cons (stepped pooled j) es = ground arith
    steps_of-cons (written c) es = omega arith

    run-IsKilled :
        (n m : ℕ) (es : List (Event P)) (hub : Hub V)
        → n ≤ m + steps_of k es
        → IsKilled k n hub
        → IsKilled k m (run validation_checks args es hub)
    unfolding run
    run-IsKilled n m [] hub le s = weaken n m hub (omega (arith, le)) s
    run-IsKilled n m (e ∷ es) hub le s =
        run-IsKilled (m + steps_of k es) m es (on_event validation_checks args e hub) (omega arith)
          (on_event-IsKilled n (m + steps_of k es) e hub (omega (arith, le, steps_of-cons e es)) s)

-- The thread `k` has ended, and the next message for its topic takes its sender out of the map.
pub record IsForgotten {V : Type 0} (k : ℕ) (hub : Hub V) : Type 0 where
  pub member : Thread V
  pub found : thread k hub.threads ≡ some member
  pub has_ended : is_ended member.phase ≡ true
  pub dropped :
      (topic : String) (m : ScannerMessage)
      → times k (senders ((deliver topic m hub).subscriptions topic)) ≡ 0

module _ {V : Type 0} (k : ℕ) (hub : Hub V) (t : Thread V) (found : thread k hub.threads ≡ some t)
    (closed : is_ended t.phase ≡ true) (topic : String) (m : ScannerMessage) where
  deliver_to_drops :
      (o : Option (List ℕ))
      → hub.subscriptions topic ≡ o
      → times k (senders ((deliver_to o topic m hub).subscriptions topic)) ≡ 0
  deliver_to_drops none e = rw e refl
  deliver_to_drops (some ks) e =
      rw (str_eq_self topic) (retain_closed k m ks hub.threads t found closed).1

  deliver_drops : times k (senders ((deliver topic m hub).subscriptions topic)) ≡ 0
  unfolding deliver
  deliver_drops = deliver_to_drops (hub.subscriptions topic) refl

ended_of : (phase : Phase) → steps_left phase ≤ 0 → is_ended phase ≡ true
ended_of ended le = refl
ended_of checking le = absurd (omega (arith, le))
ended_of receiving le = absurd (omega (arith, le))
ended_of starting le = absurd (omega (arith, le))

steps_left_le : (phase : Phase) → steps_left phase ≤ 2
steps_left_le ended = omega arith
steps_left_le checking = omega arith
steps_left_le receiving = omega arith
steps_left_le starting = omega arith

module _ {V P : Type 0} (validation_checks : ℤ → Conn → QueryResult (Returned (Reply V)) × Conn)
    (args : SubscribeArgs P) where
  -- The switch of the subscription's thread is set.
  unsubscribe-IsKilled :
      (id k : ℕ) (hub : Hub V) (t : Thread V)
      → find (λ (entry : ℕ × ℕ). entry.0 == id) hub.killers ≡ some (id, k)
      → thread k hub.threads ≡ some t
      → IsKilled k 2 (unsubscribe id hub)
  unfolding unsubscribe
  unsubscribe-IsKilled id k hub t listed found = rw listed (record {
    killed = record t { exit = true };
    found =
        find-update_if (has_number k) (has_number k) (λ (x : Thread V). record x { exit = true })
          (λ x e. refl) hub.threads t found
        ∙ ap (λ b. some (if b then record t { exit = true } else t))
            (find_holds (has_number k) hub.threads t found);
    exit_set = refl;
    left = steps_left_le t.phase;
  })

  -- After a call that unsubscribes, over every run in which the thread of the subscription takes two
  -- steps: the thread has ended, and the next message for a topic takes its sender out of the
  -- topic.
  pub unsubscribe-IsForgotten :
      (id k : ℕ) (hub : Hub V) (t : Thread V) (es : List (Event P))
      → find (λ (entry : ℕ × ℕ). entry.0 == id) hub.killers ≡ some (id, k)
      → thread k hub.threads ≡ some t
      → 2 ≤ steps_of k es
      → IsForgotten k (run validation_checks args es (unsubscribe id hub))
  unsubscribe-IsForgotten id k hub t es listed found enough =
      let s =
        run-IsKilled validation_checks args k 2 0 es (unsubscribe id hub) (omega (arith, enough))
          (unsubscribe-IsKilled id k hub t listed found) in
      let closed = ended_of s.killed.phase s.left in
      record {
        member = s.killed;
        found = s.found;
        has_ended = closed;
        dropped =
            deliver_drops k (run validation_checks args es (unsubscribe id hub)) s.killed s.found
              closed;
      }
