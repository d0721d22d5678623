-- ===== src/Service/Subscriptions/Served.antt =====
-- A message for a topic of src/service.rs reaches every open channel of the topic, once.
use forkscanner.Prelude.{
  ℕ, zero, suc, ◌<◌, ◌≡◌, refl, ◌∙◌, sym, ap, subst, String, Bool, true, false, Option, none, some,
  List, [], ◌∷◌, ◌++◌, arith, if◌then◌else◌, ◌==◌, number_comparable, text_comparable, Bool-cases,
  inl, inr, eq_of_str_eq, count_if, update_if, find_holds, nat_beq_iff,
}
use mathlib.Core.List.{append_assoc, append-nil}
use forkscanner.Models.Tables.{find-update_if}
use forkscanner.Service.Messages.{ScannerMessage}
use forkscanner.Service.Subscriptions.{
  Thread, Hub, has_number, thread, is_ended, is_open, enqueue, retain, deliver_to, senders, set_key,
  topic_of,
}
use forkscanner.Service.Subscriptions.Updates.{for_topic}

-- How often a thread's number is among the senders.
abbrev pub times : ℕ → List ℕ → ℕ
times k ks = count_if (λ j. j == k) ks

abbrev pub copies : ℕ → ScannerMessage → List ScannerMessage
copies zero m = []
copies (suc n) m = m ∷ copies n m

module _ {V : Type 0} (k : ℕ) (m : ScannerMessage) where
  pub enqueue-has_number :
      (j : ℕ) (t : Thread V) → has_number j t ≡ true → has_number k (enqueue m t) ≡ has_number k t
  enqueue-has_number j t e = by_phase (is_ended t.phase)
    where
      by_phase :
          (b : Bool)
          → has_number k (if b then t else record t { queue = t.queue ++ m ∷ [] }) ≡ has_number k t
      by_phase true = refl
      by_phase false = refl

  pub enqueued :
      (j : ℕ) (ts : List (Thread V)) (t : Thread V)
      → thread k ts ≡ some t
      → thread k (update_if (has_number j) (enqueue m) ts)
        ≡ some (if has_number j t then enqueue m t else t)
  enqueued j ts t e =
      find-update_if (has_number k) (has_number j) (enqueue m) (enqueue-has_number j) ts t e

  -- Its number is `k`.
  number_of : (ts : List (Thread V)) (t : Thread V) → thread k ts ≡ some t → has_number k t ≡ true
  number_of ts t e = find_holds (has_number k) ts t e

  other_number :
      (j : ℕ) (ts : List (Thread V)) (t : Thread V)
      → thread k ts ≡ some t
      → (j == k) ≡ false
      → has_number j t ≡ false
  other_number j ts t e other = ground (arith, number_of ts t e, other)

  same_number :
      (j : ℕ) (ts : List (Thread V)) (t : Thread V)
      → thread k ts ≡ some t
      → (j == k) ≡ true
      → has_number j t ≡ true
  same_number j ts t e same = ground (arith, number_of ts t e, same)

  abbrev with_copies : ℕ → Thread V → Thread V
  with_copies n t = record t { queue = t.queue ++ copies n m }

  -- The queue of an open channel grows by a message for each of its senders, which are all kept.
  retain_open :
      (ks : List ℕ) (ts : List (Thread V)) (t : Thread V)
      → thread k ts ≡ some t
      → is_ended t.phase ≡ false
      → (thread k (retain m ks ts).1 ≡ some (with_copies (times k ks) t))
        × (times k (retain m ks ts).0 ≡ times k ks)
  unfolding retain
  retain_open [] ts t e alive =
      (e ∙ ap (λ q. some (record t { queue = q })) (sym (append-nil t.queue)), refl)
  retain_open (j ∷ ks) ts t e alive = elim (Bool-cases (j == k)) [
    | inl same ↦ rw same (
        rw (subst (λ x. thread x ts ≡ some t) (sym ((nat_beq_iff j k).0 same)) e, alive)
          (first same (λ u. retain_open ks ts1 u)))
    | inr other ↦ rw other (
        let (found, kept) = retain_open ks ts1 t (passed other) alive in
        (found, sender other (is_open (thread j ts)) kept))
  ]
    where
      ts1 : List (Thread V)
      ts1 = update_if (has_number j) (enqueue m) ts

      passed : (j == k) ≡ false → thread k ts1 ≡ some t
      passed other = rw (other_number j ts t e other) at (enqueued j ts t e)

      sender :
          (j == k) ≡ false
          → (b : Bool) → times k (retain m ks ts1).0 ≡ times k ks
          → times k (if b then j ∷ (retain m ks ts1).0 else (retain m ks ts1).0) ≡ times k ks
      sender other true kept = rw other kept
      sender other false kept = kept

      first :
          (j == k) ≡ true
          → ((u : Thread V)
              → thread k ts1 ≡ some u
              → is_ended u.phase ≡ false
              → (thread k (retain m ks ts1).1 ≡ some (with_copies (times k ks) u))
                × (times k (retain m ks ts1).0 ≡ times k ks))
          → (thread k (retain m ks ts1).1 ≡ some (with_copies (suc (times k ks)) t))
            × (times k (j ∷ (retain m ks ts1).0) ≡ suc (times k ks))
      first same rest =
          let (found, kept) = rest t1 found1 alive in
          (
            found
                ∙ ap (λ q. some (record t { queue = q }))
                    (append_assoc t.queue (m ∷ []) (copies (times k ks) m)),
            rw same (ap suc kept),
          )
        where
          t1 : Thread V
          t1 = record t { queue = t.queue ++ m ∷ [] }

          found1 : thread k ts1 ≡ some t1
          found1 = rw (same_number j ts t e same, alive) at (enqueued j ts t e)

  pub retain_closed :
      (ks : List ℕ) (ts : List (Thread V)) (t : Thread V)
      → thread k ts ≡ some t
      → is_ended t.phase ≡ true
      → (thread k (retain m ks ts).1 ≡ some t) × (times k (retain m ks ts).0 ≡ 0)
  unfolding retain
  retain_closed [] ts t e closed = (e, refl)
  retain_closed (j ∷ ks) ts t e closed = elim (Bool-cases (j == k)) [
    | inl same ↦
        rw (subst (λ x. thread x ts ≡ some t) (sym ((nat_beq_iff j k).0 same)) e, closed)
          (retain_closed ks ts1 t passed closed)
    | inr other ↦
        let (found, kept) = retain_closed ks ts1 t passed closed in
        (found, sender other (is_open (thread j ts)) kept)
  ]
    where
      ts1 : List (Thread V)
      ts1 = update_if (has_number j) (enqueue m) ts

      same_thread : (b : Bool) → (if b then enqueue m t else t) ≡ t
      same_thread true = rw closed refl
      same_thread false = refl

      passed : thread k ts1 ≡ some t
      passed = enqueued j ts t e ∙ ap some (same_thread (has_number j t))

      sender :
          (j == k) ≡ false
          → (b : Bool) → times k (retain m ks ts1).0 ≡ 0
          → times k (if b then j ∷ (retain m ks ts1).0 else (retain m ks ts1).0) ≡ 0
      sender other true kept = rw other kept
      sender other false kept = kept

-- The thread `k` is there, and while it runs its channel is among those of its topic, once, and of no other.
pub record Serves {V : Type 0} (k : ℕ) (hub : Hub V) (t : Thread V) : Type 0 where
  pub older : k < hub.next
  pub found : thread k hub.threads ≡ some t
  pub listed :
      is_ended t.phase ≡ false
      → (topic : String)
      → times k (senders (hub.subscriptions topic)) ≡ (if topic == topic_of t.handler then 1 else 0)

-- A message for a topic is in the queue of the thread if the topic is that of its handler.
pub record Received {V : Type 0} (ms : List ScannerMessage) (t t' : Thread V) : Type 0 where
  pub same_handler : t'.handler ≡ t.handler
  pub same_phase : t'.phase ≡ t.phase
  pub same_exit : t'.exit ≡ t.exit
  pub same_sent : t'.sent ≡ t.sent
  pub queued : is_ended t.phase ≡ false → t'.queue ≡ t.queue ++ ms

module _ {V : Type 0} (k : ℕ) (topic : String) (m : ScannerMessage) where
  pub deliver_to-Serves :
      (hub : Hub V) (t : Thread V) (o : Option (List ℕ))
      → hub.subscriptions topic ≡ o
      → Serves k hub t
      → (t' : Thread V) × Serves k (deliver_to o topic m hub) t'
        × Received (for_topic topic m t.handler) t t'
  deliver_to-Serves hub t none e s = (
    t,
    s,
    record {
      same_handler = refl;
      same_phase = refl;
      same_exit = refl;
      same_sent = refl;
      queued = λ alive. none_owed (topic == topic_of t.handler) (rw e at (s.listed alive topic));
    },
  )
    where
      none_owed :
          (b : Bool)
          → ◌≡◌ {A = ℕ} 0 (if b then 1 else 0)
          → t.queue ≡ t.queue ++ (if b then m ∷ [] else [])
      none_owed true zero_one = absurd (omega (arith, zero_one))
      none_owed false z = sym (append-nil t.queue)
  deliver_to-Serves hub t (some ks) e s = elim (Bool-cases (is_ended t.phase)) [
    | inl closed ↦ (
      t,
      record {
        older = s.older;
        found = (retain_closed k m ks hub.threads t s.found closed).0;
        listed = λ alive. absurd (differ closed alive);
      },
      record {
        same_handler = refl;
        same_phase = refl;
        same_exit = refl;
        same_sent = refl;
        queued = λ alive. absurd (differ closed alive);
      },
    )
    | inr alive ↦
        let (found, kept) = retain_open k m ks hub.threads t s.found alive in
        let once = rw e at (s.listed alive topic) in
        (
          with_copies k m (times k ks) t,
          record {
            older = s.older;
            found = found;
            listed = λ _ x. still_listed alive x (kept ∙ once);
          },
          record {
            same_handler = refl;
            same_phase = refl;
            same_exit = refl;
            same_sent = refl;
            queued =
                λ _. ap (λ q. t.queue ++ q) (owed (times k ks) (topic == topic_of t.handler) once);
          },
        )
  ]
    where
      differ : is_ended t.phase ≡ true → is_ended t.phase ≡ false → ⊥
      differ closed alive = ground arith

      owed : (n : ℕ) (b : Bool) → n ≡ (if b then 1 else 0) → copies n m ≡ (if b then m ∷ [] else [])
      owed n true one = ap (λ x. copies x m) one
      owed n false no_times = ap (λ x. copies x m) no_times

      still_listed :
          is_ended t.phase ≡ false
          → (x : String)
          → times k (retain m ks hub.threads).0 ≡ (if topic == topic_of t.handler then 1 else 0)
          → times k (senders (set_key topic (retain m ks hub.threads).0 hub.subscriptions x))
            ≡ (if x == topic_of t.handler then 1 else 0)
      still_listed alive x once = elim (Bool-cases (x == topic)) [
        | inl same ↦ rw (same, eq_of_str_eq x topic same) once
        | inr other ↦ rw other (s.listed alive x)
      ]
