-- ===== src/Service/Subscriptions/Refined.antt =====
-- Every subscriber of src/service.rs is sent the updates that were published since it subscribed, in
-- order, over every run of the service.
use forkscanner.Prelude.{
  ℕ, ◌≡◌, refl, ◌∙◌, sym, ap, subst, String, false, none, some, List, [], ◌∷◌, ◌++◌, if◌then◌else◌,
  ◌==◌, text_comparable, number_comparable, ◌+◌, arith, Bool-cases, inl, inr,
}
use forkscanner.Prelude.Int.{ℤ}
use forkscanner.Models.Rows.{QueryResult}
use forkscanner.Models.Query.{Conn}
use forkscanner.Models.Tables.{count_if-append, find_absent_append}
use forkscanner.Service.Requests.{Reply, Returned}
use forkscanner.Service.Messages.{ScannerMessage, Handler}
use forkscanner.Service.Subscriptions.{
  starting, Thread, Hub, is_ended, SubscribeArgs, add_subscription, new_thread, has_number, thread,
  senders, set_key, topic_of,
}
use forkscanner.Service.Subscriptions.Numbered.{IsNumbered, run-IsNumbered}
use forkscanner.Service.Subscriptions.Endpoints.{subscribe_call-cases}
use forkscanner.Service.Subscriptions.Run.{
  Event, published, subscribed, unsubscribed, stepped, written, on_event, run,
}
use forkscanner.Service.Subscriptions.Updates.{IsDirect, all_updates}
use forkscanner.Service.Subscriptions.Served.{Serves, times}
use forkscanner.Service.Subscriptions.Delivered.{
  owed, Progress, Progress-refl, Progress-trans, StillServes, on_scanner_message-StillServes,
}
use forkscanner.Service.Subscriptions.Stepped.{
  step-StillServes, unsubscribe-StillServes, add_subscription-StillServes,
}

-- Other tables.
with_conn :
    {V : Type 0} (k : ℕ) (c : Conn) (hub : Hub V) (t : Thread V)
    → Serves k hub t
    → Serves k (record hub { conn = c }) t
with_conn k c hub t s = record { older = s.older; found = s.found; listed = s.listed }

-- The messages of the scanner in a run.
abbrev pub messages : {P : Type 0} → List (Event P) → List ScannerMessage
messages [] = []
messages (published m ∷ es) = m ∷ messages es
messages (_ ∷ es) = messages es

messages-cons :
    {P : Type 0} (e : Event P) (es : List (Event P))
    → messages (e ∷ []) ++ messages es ≡ messages (e ∷ es)
messages-cons (published m) es = refl
messages-cons (subscribed now sub_id pooled method params) es = refl
messages-cons (unsubscribed id) es = refl
messages-cons (stepped pooled j) es = refl
messages-cons (written c) es = refl

module _ {V P : Type 0} (validation_checks : ℤ → Conn → QueryResult (Returned (Reply V)) × Conn)
    (args : SubscribeArgs P) where
  on_event-StillServes :
      (k : ℕ) (e : Event P) (hub : Hub V) (t : Thread V)
      → IsDirect t.handler
      → Serves k hub t
      → StillServes k (messages (e ∷ [])) t (on_event validation_checks args e hub)
  unfolding on_event
  on_event-StillServes k (published m) hub t d s = on_scanner_message-StillServes k m hub t d s
  on_event-StillServes k (subscribed now sub_id pooled method params) hub t d s =
      subscribe_call-cases (StillServes k [] t) hub args now sub_id pooled method params
        (t, s, Progress-refl t)
        (λ h phase c.
          add_subscription-StillServes k sub_id h phase (record hub { conn = c }) t
            (with_conn k c hub t s))
  on_event-StillServes k (unsubscribed id) hub t d s = unsubscribe-StillServes k id hub t s
  on_event-StillServes k (stepped pooled j) hub t d s =
      step-StillServes validation_checks pooled j k hub t d s
  on_event-StillServes k (written c) hub t d s = (t, with_conn k c hub t s, Progress-refl t)

  pub run-StillServes :
      (k : ℕ) (es : List (Event P)) (hub : Hub V) (t : Thread V)
      → IsDirect t.handler
      → Serves k hub t
      → StillServes k (messages es) t (run validation_checks args es hub)
  unfolding run
  run-StillServes k [] hub t d s = (t, s, Progress-refl t)
  run-StillServes k (e ∷ es) hub t d s =
      let (u, su, p) = on_event-StillServes k e hub t d s in
      let (v, sv, q) =
        run-StillServes k es (on_event validation_checks args e hub) u
          (subst IsDirect (sym p.same_handler) d) su in
      (
        v,
        sv,
        subst (λ ms. Progress ms t v) (messages-cons e es)
            (Progress-trans (messages (e ∷ [])) (messages es) t u v p q),
      )

-- The server before its first event.
abbrev pub start_hub : {V : Type 0} → Conn → Hub V
start_hub c = record {
  conn = c;
  tips = [];
  subscriptions = λ topic. none;
  killers = [];
  threads = [];
  next = 0;
}

start_hub-IsNumbered : {V : Type 0} (c : Conn) → IsNumbered {V = V} (start_hub c)
start_hub-IsNumbered c = record { new_senders = λ topic k late. refl; new_threads = λ k late. refl }

-- A new subscription is served.
new-Serves :
    {V : Type 0} (sub_id : ℕ) (h : Handler) (hub : Hub V)
    → IsNumbered hub
    → Serves hub.next (add_subscription sub_id h starting hub) (new_thread hub.next h starting)
unfolding add_subscription
new-Serves sub_id h hub n = record {
  older = omega arith;
  found =
      find_absent_append (has_number hub.next) hub.threads _ (n.new_threads hub.next (omega arith))
      ∙ ground arith;
  listed = λ _ topic. once topic;
}
  where
    once :
        (topic : String)
        → times hub.next (
            senders (
              set_key
                (topic_of h)
                (senders (hub.subscriptions (topic_of h)) ++ hub.next ∷ [])
                hub.subscriptions
                topic))
          ≡ (if topic == topic_of h then 1 else 0)
    once topic = elim (Bool-cases (topic == topic_of h)) [
      | inl same ↦ rw same (
          count_if-append (λ j. j == hub.next) (senders (hub.subscriptions (topic_of h)))
            (hub.next ∷ [])
          ∙ ap (λ i. i + times hub.next (hub.next ∷ []))
              (n.new_senders (topic_of h) hub.next (omega arith))
          ∙ ground arith)
      | inr other ↦ rw other (n.new_senders topic hub.next (omega arith))
    ]

-- What became of a subscriber: while its thread runs, what it was sent and what its channel still
-- holds are the updates of `ms`.
pub record IsServed {V : Type 0} (k : ℕ) (h : Handler) (ms : List ScannerMessage) (hub : Hub V)
    : Type 0 where
  pub member : Thread V
  pub found : thread k hub.threads ≡ some member
  pub served : is_ended member.phase ≡ false → owed member ≡ all_updates h ms

module _ {V P : Type 0} (validation_checks : ℤ → Conn → QueryResult (Returned (Reply V)) × Conn)
    (args : SubscribeArgs P) where
  -- From the start of the server, whatever happens before and after a subscription to the lagging nodes,
  -- the block conflicts or the watched addresses: while the thread of the subscriber runs, what it
  -- was sent and what its channel holds are together the updates that were published since then,
  -- each once and in order.
  pub run-IsServed :
      (c : Conn) (before after : List (Event P)) (sub_id : ℕ) (h : Handler)
      → IsDirect h
      → IsServed (run validation_checks args before (start_hub c)).next h (messages after) (
          run validation_checks args after
            (add_subscription sub_id h starting (run validation_checks args before (start_hub c))))
  run-IsServed c before after sub_id h d =
      let hub = run validation_checks args before (start_hub c) in
      let n = run-IsNumbered validation_checks args before (start_hub c) (start_hub-IsNumbered c) in
      let (t, s, p) =
        run-StillServes validation_checks args hub.next after
          (add_subscription sub_id h starting hub) (new_thread hub.next h starting) d
          (new-Serves sub_id h hub n) in
      record { member = t; found = s.found; served = p.given }
