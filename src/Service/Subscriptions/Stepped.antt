-- ===== src/Service/Subscriptions/Stepped.antt =====
-- Steps of threads, and calls of clients, in the service of src/service.rs: a subscription goes on.
use forkscanner.Prelude.{
  ℕ, ◌+◌, ◌<◌, ◌≡◌, refl, ◌∙◌, sym, ap, subst, String, Bool, true, false, Option, none, some, List,
  [], ◌∷◌, ◌++◌, arith, if◌then◌else◌, ◌==◌, number_comparable, text_comparable, Bool-cases, inl,
  inr, eq_of_str_eq, update_if, find, find_holds, nat_beq_iff,
}
use forkscanner.Prelude.Int.{ℤ}
use forkscanner.Models.Tables.{find-update_if, count_if-append}
use forkscanner.Models.Rows.{QueryResult, Chaintip}
use forkscanner.Models.Query.{Conn}
use forkscanner.Service.Requests.{Reply, Returned}
use forkscanner.Service.Messages.{Handled, sends, panics, Handler, ScannerMessage}
use forkscanner.Service.Subscriptions.{
  Phase, starting, checking, receiving, ended, Thread, Hub, has_number, thread, senders, set_key,
  topic_of, add_subscription, flip_switch, unsubscribe,
}
use forkscanner.Service.Subscriptions.Run.{after, take_message, thread_step, step_found, step}
use forkscanner.Service.Subscriptions.Updates.{IsDirect}
use forkscanner.Service.Subscriptions.Served.{Serves, times}
use forkscanner.Service.Subscriptions.Delivered.{
  Progress, Progress-refl, StillServes, thread_step-Progress,
}

module _ {V : Type 0} (validation_checks : ℤ → Conn → QueryResult (Returned (Reply V)) × Conn) where
  after-id : (t : Thread V) (h : Handled V) → (after validation_checks t h).id ≡ t.id
  after-id t (sends ns) = refl
  after-id t panics = refl

  take_message-id :
      (q : List ScannerMessage) (pooled : Bool) (current : List Chaintip) (t : Thread V) (c : Conn)
      → (take_message validation_checks q pooled current t c).0.id ≡ t.id
  take_message-id [] pooled current t c = refl
  take_message-id (m ∷ ms) pooled current t c = after-id (record t { queue = ms }) _

  pub thread_step-id :
      (phase : Phase) (pooled : Bool) (current : List Chaintip) (t : Thread V) (c : Conn)
      → (thread_step validation_checks phase pooled current t c).0.id ≡ t.id
  thread_step-id starting pooled current t c = after-id t _
  thread_step-id checking pooled current t c = refl
  thread_step-id receiving pooled current t c = take_message-id t.queue pooled current t c
  thread_step-id ended pooled current t c = refl

-- The thread `k` where a thread `j` was replaced.
pub thread-replaced :
    {V : Type 0} (j k : ℕ) (ts : List (Thread V)) (t u : Thread V)
    → thread k ts ≡ some t
    → (u.id == j) ≡ true
    → thread k (update_if (has_number j) (λ _. u) ts) ≡ some (if k == j then u else t)
thread-replaced j k ts t u found same =
    find-update_if (has_number k) (has_number j) (λ _. u) (λ x e. ground (arith, e, same)) ts t
      found
    ∙ ap (λ b. some (if b then u else t)) (tests (find_holds (has_number k) ts t found))
  where
    tests : has_number k t ≡ true → has_number j t ≡ (k == j)
    tests e = ground (arith, e)

-- A hub with the same channels, where the thread `k` went from `t` to `u`.
serve_again :
    {V : Type 0} (k : ℕ) (hub hub' : Hub V) (t u : Thread V)
    → Serves k hub t
    → hub'.next ≡ hub.next
    → hub'.subscriptions ≡ hub.subscriptions
    → thread k hub'.threads ≡ some u
    → Progress [] t u
    → StillServes k [] t hub'
serve_again k hub hub' t u s same_next same_subs found p = (
  u,
  record {
    older = subst (λ n. k < n) (sym same_next) s.older;
    found = found;
    listed = λ alive topic.
        ap (λ f. times k (senders (f topic))) same_subs
        ∙ s.listed (p.was_running alive) topic
        ∙ ap (λ h. if topic == topic_of h then 1 else 0) (sym p.same_handler);
  },
  p,
)

module _ {V : Type 0} (validation_checks : ℤ → Conn → QueryResult (Returned (Reply V)) × Conn)
    (pooled : Bool) (j k : ℕ) (hub : Hub V) (t : Thread V) where
  step_found-StillServes :
      (o : Option (Thread V))
      → thread j hub.threads ≡ o
      → IsDirect t.handler
      → Serves k hub t
      → StillServes k [] t (step_found validation_checks o pooled j hub)
  step_found-StillServes none e d s = (t, s, Progress-refl t)
  step_found-StillServes (some v) e d s =
      serve_again k hub _ t _ s refl refl (thread-replaced j k hub.threads t v' s.found numbered)
        (progress (k == j) refl)
    where
      v' : Thread V
      v' = (thread_step validation_checks v.phase pooled hub.tips v hub.conn).0

      numbered : (v'.id == j) ≡ true
      numbered =
          ap (λ x. x == j) (thread_step-id validation_checks v.phase pooled hub.tips v hub.conn)
          ∙ find_holds (has_number j) hub.threads v e

      same_thread : (k == j) ≡ true → v ≡ t
      same_thread same =
          some_eq
            (sym e ∙ ap (λ x. thread x hub.threads) (sym ((nat_beq_iff k j).0 same)) ∙ s.found)
        where
          some_eq : some v ≡ some t → v ≡ t
          some_eq e = cc

      progress : (b : Bool) → (k == j) ≡ b → Progress [] t (if b then v' else t)
      progress false other = Progress-refl t
      progress true same =
          subst (λ x. Progress [] x v') (same_thread same)
            (thread_step-Progress validation_checks v.phase pooled hub.tips v hub.conn
              (subst (λ x. IsDirect x.handler) (sym (same_thread same)) d) refl)

  pub step-StillServes :
      IsDirect t.handler → Serves k hub t → StillServes k [] t (step validation_checks pooled j hub)
  unfolding step
  step-StillServes d s = step_found-StillServes (thread j hub.threads) refl d s

module _ {V : Type 0} (k : ℕ) where
  flip_switch-StillServes :
      (o : Option (ℕ × ℕ)) (id : ℕ) (hub : Hub V) (t : Thread V)
      → Serves k hub t
      → StillServes k [] t (flip_switch o id hub)
  flip_switch-StillServes none id hub t s = (t, s, Progress-refl t)
  flip_switch-StillServes (some entry) id hub t s =
      serve_again k hub _ t (if has_number entry.1 t then record t { exit = true } else t) s refl
        refl
        (find-update_if (has_number k) (has_number entry.1) (λ x. record x { exit = true })
          (λ x e. refl) hub.threads t s.found)
        (progress (has_number entry.1 t))
    where
      progress : (b : Bool) → Progress [] t (if b then record t { exit = true } else t)
      progress true =
          let p = Progress-refl t in
          record { same_handler = refl; was_running = p.was_running; given = p.given }
      progress false = Progress-refl t

  pub unsubscribe-StillServes :
      (id : ℕ) (hub : Hub V) (t : Thread V)
      → Serves k hub t
      → StillServes k [] t (unsubscribe id hub)
  unfolding unsubscribe
  unsubscribe-StillServes id hub t s =
      flip_switch-StillServes (find (λ entry. entry.0 == id) hub.killers) id hub t s

  pub find-append :
      (ts us : List (Thread V)) (t : Thread V) → thread k ts ≡ some t → thread k (ts ++ us) ≡ some t
  find-append [] us t e = absurd (cc)
  find-append (x ∷ ts) us t e = elim (Bool-cases (has_number k x)) [
    | inl hit ↦ rw hit (rw hit at e)
    | inr miss ↦ rw miss (find-append ts us t (rw miss at e))
  ]

  -- A new subscription adds a later number.
  pub add_subscription-StillServes :
      (sub_id : ℕ) (h : Handler) (phase : Phase) (hub : Hub V) (t : Thread V)
      → Serves k hub t
      → StillServes k [] t (add_subscription sub_id h phase hub)
  unfolding add_subscription
  add_subscription-StillServes sub_id h phase hub t s = (
    t,
    record {
      older = omega (arith, s.older);
      found = find-append hub.threads _ t s.found;
      listed = λ alive topic. still_listed topic (s.listed alive);
    },
    Progress-refl t,
  )
    where
      later : times k (hub.next ∷ []) ≡ 0
      later = ground (arith, s.older)

      add_nothing : (n : ℕ) → n + 0 ≡ n
      add_nothing n = omega arith

      still_listed :
          (topic : String)
          → ((x : String)
              → times k (senders (hub.subscriptions x))
                ≡ (if x == topic_of t.handler then 1 else 0))
          → times k (
              senders (
                set_key
                  (topic_of h)
                  (senders (hub.subscriptions (topic_of h)) ++ hub.next ∷ [])
                  hub.subscriptions
                  topic))
            ≡ (if topic == topic_of t.handler then 1 else 0)
      still_listed topic listed = elim (Bool-cases (topic == topic_of h)) [
        | inl same ↦ rw same (
            count_if-append (λ j. j == k) (senders (hub.subscriptions (topic_of h))) (hub.next ∷ [])
            ∙ ap (λ n. times k (senders (hub.subscriptions (topic_of h))) + n) later
            ∙ add_nothing (times k (senders (hub.subscriptions (topic_of h))))
            ∙ listed (topic_of h)
            ∙ ap (λ x. if x == topic_of t.handler then 1 else 0)
                (sym (eq_of_str_eq topic (topic_of h) same)))
        | inr other ↦ rw other (listed topic)
      ]
