-- ===== src/Service/Subscriptions/Delivered.antt =====
-- What the subscribers of src/service.rs are sent over a run.
use forkscanner.Prelude.{
  ℕ, ◌≡◌, refl, ◌∙◌, sym, ap, subst, String, Bool, false, List, [], ◌∷◌, ◌++◌, number_comparable,
  text_comparable,
}
use mathlib.Core.List.{append_assoc, append-nil}
use forkscanner.Prelude.Int.{ℤ}
use forkscanner.Models.Rows.{QueryResult, Chaintip}
use forkscanner.Models.Query.{Conn}
use forkscanner.Service.Requests.{Reply, Returned}
use forkscanner.Service.Messages.{
  ScannerMessage, lagging_nodes, new_chaintip, new_block_conflicts, all_chaintips,
  stale_candidate_update, tip_update_failed, tip_updated, watched_address, Notification, Handler,
  subscribe, subscribe_forks, invalid_block_subscribe, lagging_nodes_subscribe, watched_addresses,
  validation_subscribe, Handled, sends, panics,
}
use forkscanner.Service.Subscriptions.{
  Phase, starting, checking, receiving, ended, Thread, Hub, is_ended, deliver, on_scanner_message,
}
use forkscanner.Service.Subscriptions.Run.{after, take_message, thread_step}
use forkscanner.Service.Subscriptions.Updates.{
  IsDirect, updates, all_updates, all_updates-append, on_message-updates, initial_update-direct,
  for_topic,
}
use forkscanner.Service.Subscriptions.Served.{Serves, Received, deliver_to-Serves}

-- What a thread has sent, and what it still owes for the messages in its channel.
abbrev pub owed : {V : Type 0} → Thread V → List (Notification V)
owed t = t.sent ++ all_updates t.handler t.queue

-- From `t` to `t'` the thread was given the messages `ms`, or it ended.
pub record Progress {V : Type 0} (ms : List ScannerMessage) (t t' : Thread V) : Type 0 where
  pub same_handler : t'.handler ≡ t.handler
  pub was_running : is_ended t'.phase ≡ false → is_ended t.phase ≡ false
  pub given : is_ended t'.phase ≡ false → owed t' ≡ owed t ++ all_updates t.handler ms

module _ {V : Type 0} where
  pub Progress-refl : (t : Thread V) → Progress [] t t
  Progress-refl t = record {
    same_handler = refl;
    was_running = λ e. e;
    given = λ _. sym (append-nil (owed t));
  }

  pub Progress-trans :
      (ms ns : List ScannerMessage) (t u v : Thread V)
      → Progress ms t u
      → Progress ns u v
      → Progress (ms ++ ns) t v
  Progress-trans ms ns t u v p q = record {
    same_handler = q.same_handler ∙ p.same_handler;
    was_running = λ e. p.was_running (q.was_running e);
    given = λ e.
        q.given e
        ∙ ap (λ h. owed u ++ all_updates h ns) p.same_handler
        ∙ ap (λ x. x ++ all_updates t.handler ns) (p.given (q.was_running e))
        ∙ append_assoc (owed t) (all_updates t.handler ms) (all_updates t.handler ns)
        ∙ ap (λ x. owed t ++ x) (sym (all_updates-append t.handler ms ns));
  }

  Received-Progress :
      (ms : List ScannerMessage) (t t' : Thread V) → Received ms t t' → Progress ms t t'
  Received-Progress ms t t' r = record {
    same_handler = r.same_handler;
    was_running = λ e. ap is_ended (sym r.same_phase) ∙ e;
    given = λ e.
        ap (λ s. s ++ all_updates t'.handler t'.queue) r.same_sent
        ∙ ap (λ h. t.sent ++ all_updates h t'.queue) r.same_handler
        ∙ ap (λ q. t.sent ++ all_updates t.handler q)
            (r.queued (ap is_ended (sym r.same_phase) ∙ e))
        ∙ ap (λ x. t.sent ++ x) (all_updates-append t.handler t.queue ms)
        ∙ sym (append_assoc t.sent (all_updates t.handler t.queue) (all_updates t.handler ms));
  }

  -- The thread `k` is still served, and was given `ms`.
  abbrev pub StillServes : ℕ → List ScannerMessage → Thread V → Hub V → Type 0
  StillServes k ms t hub = (t' : Thread V) × Serves k hub t' × Progress ms t t'

  deliver-StillServes :
      (k : ℕ) (topic : String) (m : ScannerMessage) (hub : Hub V) (t : Thread V)
      → Serves k hub t
      → StillServes k (for_topic topic m t.handler) t (deliver topic m hub)
  unfolding deliver
  deliver-StillServes k topic m hub t s =
      let (t', s', r) = deliver_to-Serves k topic m hub t (hub.subscriptions topic) refl s in
      (t', s', Received-Progress _ t t' r)

-- The messages of two deliveries.
abbrev for_topics : ScannerMessage → Handler → List ScannerMessage
for_topics new_chaintip h =
    for_topic "active_fork" new_chaintip h ++ for_topic "forks" new_chaintip h
for_topics (lagging_nodes ls) h = for_topic "lagging_nodes" (lagging_nodes ls) h
for_topics (new_block_conflicts bs) h = for_topic "invalid_block_checks" (new_block_conflicts bs) h
for_topics (tip_updated hs) h = for_topic "active_fork" (tip_updated hs) h
for_topics (tip_update_failed e) h = for_topic "active_fork" (tip_update_failed e) h
for_topics (watched_address txs) h = for_topic "watched_addresses" (watched_address txs) h
for_topics stale_candidate_update h = for_topic "validation_checks" stale_candidate_update h
for_topics (all_chaintips ts) h = for_topic "active_fork" new_chaintip h

-- A direct handler sends nothing for the messages of other topics.
topic_updates :
    {V : Type 0} (h : Handler) (m : ScannerMessage)
    → IsDirect h
    → all_updates {V = V} h (for_topics m h) ≡ all_updates h (m ∷ [])
topic_updates invalid_block_subscribe (lagging_nodes ls) d = refl
topic_updates invalid_block_subscribe new_chaintip d = refl
topic_updates invalid_block_subscribe (new_block_conflicts bs) d = refl
topic_updates invalid_block_subscribe (all_chaintips ts) d = refl
topic_updates invalid_block_subscribe stale_candidate_update d = refl
topic_updates invalid_block_subscribe (tip_update_failed e) d = refl
topic_updates invalid_block_subscribe (tip_updated hs) d = refl
topic_updates invalid_block_subscribe (watched_address txs) d = refl
topic_updates lagging_nodes_subscribe (lagging_nodes ls) d = refl
topic_updates lagging_nodes_subscribe new_chaintip d = refl
topic_updates lagging_nodes_subscribe (new_block_conflicts bs) d = refl
topic_updates lagging_nodes_subscribe (all_chaintips ts) d = refl
topic_updates lagging_nodes_subscribe stale_candidate_update d = refl
topic_updates lagging_nodes_subscribe (tip_update_failed e) d = refl
topic_updates lagging_nodes_subscribe (tip_updated hs) d = refl
topic_updates lagging_nodes_subscribe (watched_address txs) d = refl
topic_updates watched_addresses (lagging_nodes ls) d = refl
topic_updates watched_addresses new_chaintip d = refl
topic_updates watched_addresses (new_block_conflicts bs) d = refl
topic_updates watched_addresses (all_chaintips ts) d = refl
topic_updates watched_addresses stale_candidate_update d = refl
topic_updates watched_addresses (tip_update_failed e) d = refl
topic_updates watched_addresses (tip_updated hs) d = refl
topic_updates watched_addresses (watched_address txs) d = refl
topic_updates subscribe m d = absurd d
topic_updates subscribe_forks m d = absurd d
topic_updates (validation_subscribe w) m d = absurd d

module _ {V : Type 0} where
  on_scanner_message-routes :
      (k : ℕ) (m : ScannerMessage) (hub : Hub V) (t : Thread V)
      → Serves k hub t
      → StillServes k (for_topics m t.handler) t (on_scanner_message m hub)
  unfolding on_scanner_message
  on_scanner_message-routes k new_chaintip hub t s =
      let (u, su, p) = deliver-StillServes k "active_fork" new_chaintip hub t s in
      let (v, sv, q) =
        deliver-StillServes k "forks" new_chaintip (deliver "active_fork" new_chaintip hub) u su in
      (
        v,
        sv,
        Progress-trans _ _ t u v p
            (subst (λ h. Progress (for_topic "forks" new_chaintip h) u v) p.same_handler q),
      )
  on_scanner_message-routes k (lagging_nodes ls) hub t s = deliver-StillServes k _ _ hub t s
  on_scanner_message-routes k (new_block_conflicts bs) hub t s = deliver-StillServes k _ _ hub t s
  on_scanner_message-routes k (tip_updated hs) hub t s = deliver-StillServes k _ _ hub t s
  on_scanner_message-routes k (tip_update_failed e) hub t s = deliver-StillServes k _ _ hub t s
  on_scanner_message-routes k (watched_address txs) hub t s = deliver-StillServes k _ _ hub t s
  on_scanner_message-routes k stale_candidate_update hub t s = deliver-StillServes k _ _ hub t s
  on_scanner_message-routes k (all_chaintips ts) hub t s =
      deliver-StillServes k _ _ (record hub { tips = ts }) t
        (record { older = s.older; found = s.found; listed = s.listed })

  pub on_scanner_message-StillServes :
      (k : ℕ) (m : ScannerMessage) (hub : Hub V) (t : Thread V)
      → IsDirect t.handler
      → Serves k hub t
      → StillServes k (m ∷ []) t (on_scanner_message m hub)
  on_scanner_message-StillServes k m hub t d s =
      let (u, su, p) = on_scanner_message-routes k m hub t s in
      (
        u,
        su,
        record {
          same_handler = p.same_handler;
          was_running = p.was_running;
          given = λ e. p.given e ∙ ap (λ x. owed t ++ x) (topic_updates t.handler m d);
        },
      )

sent_eq : {V : Type 0} (ns us : List (Notification V)) → sends ns ≡ sends us → ns ≡ us
sent_eq ns us e = cc

module _ {V : Type 0} (validation_checks : ℤ → Conn → QueryResult (Returned (Reply V)) × Conn) where
  -- A message is taken, and its updates are sent.
  after-Progress :
      (t : Thread V) (m : ScannerMessage) (ms : List ScannerMessage) (h : Handled V)
      → is_ended t.phase ≡ false
      → t.queue ≡ m ∷ ms
      → h ≡ sends (updates t.handler m)
      → Progress [] t (after validation_checks (record t { queue = ms }) h)
  after-Progress t m ms panics alive q e = absurd (cc)
  after-Progress t m ms (sends ns) alive q e = record {
    same_handler = refl;
    was_running = λ _. alive;
    given = λ _.
        append_assoc t.sent ns (all_updates t.handler ms)
        ∙ ap (λ x. t.sent ++ x)
            (ap (λ x. x ++ all_updates t.handler ms) (sent_eq ns (updates t.handler m) e)
              ∙ sym (ap (all_updates t.handler) q))
        ∙ sym (append-nil (owed t));
  }

  start-Progress :
      (t : Thread V) (h : Handled V)
      → is_ended t.phase ≡ false
      → h ≡ sends []
      → Progress [] t (after validation_checks t h)
  start-Progress t panics alive e = absurd (cc)
  start-Progress t (sends ns) alive e = record {
    same_handler = refl;
    was_running = λ _. alive;
    given = λ _.
        ap (λ x. (t.sent ++ x) ++ all_updates t.handler t.queue) (sent_eq ns [] e)
        ∙ ap (λ x. x ++ all_updates t.handler t.queue) (append-nil t.sent)
        ∙ sym (append-nil (owed t));
  }

  take_message-Progress :
      (q : List ScannerMessage) (pooled : Bool) (current : List Chaintip) (t : Thread V) (c : Conn)
      → IsDirect t.handler
      → is_ended t.phase ≡ false
      → t.queue ≡ q
      → Progress [] t (take_message validation_checks q pooled current t c).0
  take_message-Progress [] pooled current t c d alive e = record {
    same_handler = refl;
    was_running = λ _. alive;
    given = λ _. sym (append-nil (owed t));
  }
  take_message-Progress (m ∷ ms) pooled current t c d alive e =
      after-Progress t m ms _ alive e
        (on_message-updates validation_checks t.handler m pooled current c d)

  -- A step of the thread.
  pub thread_step-Progress :
      (phase : Phase) (pooled : Bool) (current : List Chaintip) (t : Thread V) (c : Conn)
      → IsDirect t.handler
      → t.phase ≡ phase
      → Progress [] t (thread_step validation_checks phase pooled current t c).0
  thread_step-Progress starting pooled current t c d e =
      start-Progress t _ (ap is_ended e)
        (initial_update-direct validation_checks t.handler pooled current c d)
  thread_step-Progress checking pooled current t c d e = record {
    same_handler = refl;
    was_running = λ _. ap is_ended e;
    given = λ _. sym (append-nil (owed t));
  }
  thread_step-Progress receiving pooled current t c d e =
      take_message-Progress t.queue pooled current t c d (ap is_ended e) refl
  thread_step-Progress ended pooled current t c d e = Progress-refl t
