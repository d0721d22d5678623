-- ===== src/Service/Subscriptions/Numbered.antt =====
-- The numbers of the threads in src/service.rs: a new subscription has a channel of its own.
use forkscanner.Prelude.{
  ℕ, suc, ◌+◌, ◌≤◌, ◌≡◌, refl, ◌∙◌, ap, subst, String, Bool, true, false, Option, none, some, List,
  [], ◌∷◌, ◌++◌, arith, if◌then◌else◌, ◌==◌, number_comparable, text_comparable, Bool-cases, inl,
  inr, update_if, find, find_holds,
}
use forkscanner.Prelude.Int.{ℤ}
use forkscanner.Models.Tables.{count_if-append, find_absent_append}
use forkscanner.Models.Rows.{QueryResult}
use forkscanner.Models.Query.{Conn}
use forkscanner.Service.Requests.{Reply, Returned}
use forkscanner.Service.Messages.{
  ScannerMessage, lagging_nodes, new_chaintip, new_block_conflicts, all_chaintips,
  stale_candidate_update, tip_update_failed, tip_updated, watched_address, Handler,
}
use forkscanner.Service.Subscriptions.{
  Phase, Thread, Hub, has_number, thread, is_open, enqueue, retain, deliver, deliver_to,
  on_scanner_message, senders, set_key, topic_of, add_subscription, flip_switch, unsubscribe,
  SubscribeArgs,
}
use forkscanner.Service.Subscriptions.Endpoints.{subscribe_call-cases}
use forkscanner.Service.Subscriptions.Run.{
  Event, published, subscribed, unsubscribed, stepped, written, thread_step, step_found, step,
  on_event, run,
}
use forkscanner.Service.Subscriptions.Served.{times, enqueue-has_number}
use forkscanner.Service.Subscriptions.Stepped.{thread_step-id}

-- No sender and no thread has a number that is not given out yet.
pub record IsNumbered {V : Type 0} (hub : Hub V) : Type 0 where
  pub new_senders :
      (topic : String) (k : ℕ) → hub.next ≤ k → times k (senders (hub.subscriptions topic)) ≡ 0
  pub new_threads : (k : ℕ) → hub.next ≤ k → thread k hub.threads ≡ none

module _ {V : Type 0} (k : ℕ) where
  update_if-none :
      (q : Thread V → Bool) (f : Thread V → Thread V)
      → ((x : Thread V) → q x ≡ true → has_number k (f x) ≡ has_number k x)
      → (ts : List (Thread V)) → thread k ts ≡ none
      → thread k (update_if q f ts) ≡ none
  update_if-none q f same [] e = refl
  update_if-none q f same (x ∷ ts) e = ground (arith, same x, update_if-none q f same ts)

  retain-none :
      (m : ScannerMessage) (ks : List ℕ) (ts : List (Thread V))
      → times k ks ≡ 0
      → thread k ts ≡ none
      → (times k (retain m ks ts).0 ≡ 0) × (thread k (retain m ks ts).1 ≡ none)
  unfolding retain
  retain-none m [] ts e missing = (refl, missing)
  retain-none m (j ∷ ks) ts e missing =
      let (absent, missing') =
        retain-none m ks (update_if (has_number j) (enqueue m) ts) (ground (arith, e))
          (update_if-none (has_number j) (enqueue m) (enqueue-has_number k m j) ts missing) in
      (sender (is_open (thread j ts)) (ground (arith, e)) absent, missing')
    where
      ts1 : List (Thread V)
      ts1 = update_if (has_number j) (enqueue m) ts

      sender :
          (b : Bool)
          → (j == k) ≡ false
          → times k (retain m ks ts1).0 ≡ 0
          → times k (if b then j ∷ (retain m ks ts1).0 else (retain m ks ts1).0) ≡ 0
      sender true other absent = rw other absent
      sender false other absent = absent

module _ {V : Type 0} where
  deliver_to-IsNumbered :
      (o : Option (List ℕ)) (topic : String) (m : ScannerMessage) (hub : Hub V)
      → hub.subscriptions topic ≡ o
      → IsNumbered hub
      → IsNumbered (deliver_to o topic m hub)
  deliver_to-IsNumbered none topic m hub e n = n
  deliver_to-IsNumbered (some ks) topic m hub e n = record {
    new_senders = λ x k late. one_topic x k late;
    new_threads = λ k late. (kept k late).1;
  }
    where
      kept :
          (k : ℕ)
          → hub.next ≤ k
          → (times k (retain m ks hub.threads).0 ≡ 0)
            × (thread k (retain m ks hub.threads).1 ≡ none)
      kept k late =
          retain-none k m ks hub.threads (rw e at (n.new_senders topic k late))
            (n.new_threads k late)

      one_topic :
          (x : String) (k : ℕ)
          → hub.next ≤ k
          → times k (senders (set_key topic (retain m ks hub.threads).0 hub.subscriptions x)) ≡ 0
      one_topic x k late = elim (Bool-cases (x == topic)) [
        | inl same ↦ rw same (kept k late).0
        | inr other ↦ rw other (n.new_senders x k late)
      ]

  deliver-IsNumbered :
      (topic : String) (m : ScannerMessage) (hub : Hub V)
      → IsNumbered hub
      → IsNumbered (deliver topic m hub)
  unfolding deliver
  deliver-IsNumbered topic m hub n =
      deliver_to-IsNumbered (hub.subscriptions topic) topic m hub refl n

  on_scanner_message-IsNumbered :
      (m : ScannerMessage) (hub : Hub V) → IsNumbered hub → IsNumbered (on_scanner_message m hub)
  unfolding on_scanner_message
  on_scanner_message-IsNumbered new_chaintip hub n =
      deliver-IsNumbered "forks" _ _ (deliver-IsNumbered "active_fork" _ hub n)
  on_scanner_message-IsNumbered (lagging_nodes ls) hub n = deliver-IsNumbered _ _ hub n
  on_scanner_message-IsNumbered (new_block_conflicts bs) hub n = deliver-IsNumbered _ _ hub n
  on_scanner_message-IsNumbered (tip_updated hs) hub n = deliver-IsNumbered _ _ hub n
  on_scanner_message-IsNumbered (tip_update_failed e) hub n = deliver-IsNumbered _ _ hub n
  on_scanner_message-IsNumbered (watched_address txs) hub n = deliver-IsNumbered _ _ hub n
  on_scanner_message-IsNumbered stale_candidate_update hub n = deliver-IsNumbered _ _ hub n
  on_scanner_message-IsNumbered (all_chaintips ts) hub n =
      deliver-IsNumbered _ _ (record hub { tips = ts })
        (record { new_senders = n.new_senders; new_threads = n.new_threads })

  add_subscription-IsNumbered :
      (sub_id : ℕ) (h : Handler) (phase : Phase) (hub : Hub V)
      → IsNumbered hub
      → IsNumbered (add_subscription sub_id h phase hub)
  unfolding add_subscription
  add_subscription-IsNumbered sub_id h phase hub n = record {
    new_senders = λ x k late. one_topic x k late;
    new_threads = λ k late.
        find_absent_append (has_number k) hub.threads _ (n.new_threads k (omega (arith, late)))
        ∙ ground (arith, late);
  }
    where
      one_topic :
          (x : String) (k : ℕ)
          → suc hub.next ≤ k
          → times k (
              senders (
                set_key
                  (topic_of h)
                  (senders (hub.subscriptions (topic_of h)) ++ hub.next ∷ [])
                  hub.subscriptions
                  x))
            ≡ 0
      one_topic x k late = elim (Bool-cases (x == topic_of h)) [
        | inl same ↦ rw same (
            count_if-append (λ j. j == k) (senders (hub.subscriptions (topic_of h))) (hub.next ∷ [])
            ∙ ap (λ i. i + times k (hub.next ∷ []))
                (n.new_senders (topic_of h) k (omega (arith, late)))
            ∙ ground (arith, late))
        | inr other ↦ rw other (n.new_senders x k (omega (arith, late)))
      ]

  same-IsNumbered :
      (hub hub' : Hub V)
      → IsNumbered hub
      → hub'.next ≡ hub.next
      → hub'.subscriptions ≡ hub.subscriptions
      → ((k : ℕ) → thread k hub.threads ≡ none → thread k hub'.threads ≡ none)
      → IsNumbered hub'
  same-IsNumbered hub hub' n same_next same_subs threads = record {
    new_senders = λ x k late.
        ap (λ f. times k (senders (f x))) same_subs
        ∙ n.new_senders x k (subst (λ i. i ≤ k) same_next late);
    new_threads = λ k late. threads k (n.new_threads k (subst (λ i. i ≤ k) same_next late));
  }

  flip_switch-IsNumbered :
      (o : Option (ℕ × ℕ)) (id : ℕ) (hub : Hub V)
      → IsNumbered hub
      → IsNumbered (flip_switch o id hub)
  flip_switch-IsNumbered none id hub n = n
  flip_switch-IsNumbered (some entry) id hub n =
      same-IsNumbered hub _ n refl refl
        (λ k. update_if-none k (has_number entry.1) _ (λ x e. refl) hub.threads)

module _ {V P : Type 0} (validation_checks : ℤ → Conn → QueryResult (Returned (Reply V)) × Conn)
    (args : SubscribeArgs P) where
  step_found-IsNumbered :
      (o : Option (Thread V)) (pooled : Bool) (j : ℕ) (hub : Hub V)
      → thread j hub.threads ≡ o
      → IsNumbered hub
      → IsNumbered (step_found validation_checks o pooled j hub)
  step_found-IsNumbered none pooled j hub e n = n
  step_found-IsNumbered (some v) pooled j hub e n =
      same-IsNumbered hub _ n refl refl
        (λ k. update_if-none k (has_number j) (λ _. v') (λ x same. numbered k x same) hub.threads)
    where
      v' : Thread V
      v' = (thread_step validation_checks v.phase pooled hub.tips v hub.conn).0

      numbered : (k : ℕ) (x : Thread V) → has_number j x ≡ true → has_number k v' ≡ has_number k x
      numbered k x same =
          ap (λ i. i == k) (thread_step-id validation_checks v.phase pooled hub.tips v hub.conn)
          ∙ ground (arith, same, find_holds (has_number j) hub.threads v e)

  on_event-IsNumbered :
      (e : Event P) (hub : Hub V)
      → IsNumbered hub
      → IsNumbered (on_event validation_checks args e hub)
  unfolding on_event step unsubscribe
  on_event-IsNumbered (published m) hub n = on_scanner_message-IsNumbered m hub n
  on_event-IsNumbered (subscribed now sub_id pooled method params) hub n =
      subscribe_call-cases IsNumbered hub args now sub_id pooled method params n (λ h phase c.
        add_subscription-IsNumbered sub_id h phase (record hub { conn = c })
          (same-IsNumbered hub _ n refl refl (λ k e. e)))
  on_event-IsNumbered (unsubscribed id) hub n =
      flip_switch-IsNumbered (find (λ entry. entry.0 == id) hub.killers) id hub n
  on_event-IsNumbered (stepped pooled j) hub n =
      step_found-IsNumbered (thread j hub.threads) pooled j hub refl n
  on_event-IsNumbered (written c) hub n = same-IsNumbered hub _ n refl refl (λ k e. e)

  -- Over a run, whatever happens: no sender in the map of the topics, and no thread, has a number that was
  -- not given out.
  pub run-IsNumbered :
      (es : List (Event P)) (hub : Hub V)
      → IsNumbered hub
      → IsNumbered (run validation_checks args es hub)
  unfolding run
  run-IsNumbered [] hub n = n
  run-IsNumbered (e ∷ es) hub n =
      run-IsNumbered es (on_event validation_checks args e hub) (on_event-IsNumbered e hub n)
