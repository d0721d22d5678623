-- ===== src/Service/Subscriptions/Run.antt =====
-- The threads of the handlers of src/service.rs, and runs of the service: sequences of messages,
-- calls and steps of threads, in any order.
use forkscanner.Prelude.{
  ℕ, String, Bool, Option, none, some, List, [], ◌∷◌, ◌++◌, if◌then◌else◌, update_if,
}
use forkscanner.Prelude.Int.{ℤ}
use forkscanner.Models.Rows.{QueryResult, Chaintip}
use forkscanner.Models.Query.{Conn}
use forkscanner.Service.Requests.{Reply, Returned}
use forkscanner.Service.Messages.{
  ScannerMessage, Handled, sends, panics, initial_update, on_message,
}
use forkscanner.Service.Subscriptions.{
  Phase, starting, checking, receiving, ended, Thread, Hub, has_number, thread, on_scanner_message,
  SubscribeArgs, subscribe_call, unsubscribe,
}

module _ {V : Type 0} (validation_checks : ℤ → Conn → QueryResult (Returned (Reply V)) × Conn) where
  abbrev pub after : Thread V → Handled V → Thread V
  after t (sends ns) = record t { sent = t.sent ++ ns; phase = checking }
  after t panics = record t { phase = ended }

  abbrev pub take_message :
      List ScannerMessage → Bool → List Chaintip → Thread V → Conn → Thread V × Conn
  take_message [] pooled current t c = (record t { phase = checking }, c)
  take_message (m ∷ ms) pooled current t c =
      let (h, c') = on_message validation_checks t.handler m pooled current c in
      (after (record t { queue = ms }) h, c')

  abbrev pub thread_step : Phase → Bool → List Chaintip → Thread V → Conn → Thread V × Conn
  thread_step starting pooled current t c =
      let (h, c') = initial_update validation_checks t.handler pooled current c in (after t h, c')
  thread_step checking pooled current t c =
      (record t { phase = if t.exit then ended else receiving }, c)
  thread_step receiving pooled current t c = take_message t.queue pooled current t c
  thread_step ended pooled current t c = (t, c)

  abbrev pub step_found : Option (Thread V) → Bool → ℕ → Hub V → Hub V
  step_found none pooled k hub = hub
  step_found (some t) pooled k hub =
      let (t', c) = thread_step t.phase pooled hub.tips t hub.conn in
      record hub { conn = c; threads = update_if (has_number k) (λ u. t') hub.threads }

  -- The thread `k` runs from one of its points to the next.
  unfoldable pub step : Bool → ℕ → Hub V → Hub V
  unfolding initial_update on_message
  step pooled k hub = step_found (thread k hub.threads) pooled k hub

-- What happens next: a message of the scanner, a call of a client, a step of a thread, or a change of the tables
-- by another part of the program. The numbers and the Boolean of `subscribed` are the time, the random id, and
-- whether the pool has a connection; that is also the Boolean of `stepped`.
pub data Event (P : Type 0) : Type 0 where
  published : ScannerMessage → Event P
  subscribed : ℕ → ℕ → Bool → String → P → Event P
  unsubscribed : ℕ → Event P
  stepped : Bool → ℕ → Event P
  written : Conn → Event P

module _ {V P : Type 0} (validation_checks : ℤ → Conn → QueryResult (Returned (Reply V)) × Conn)
    (args : SubscribeArgs P) where
  unfoldable pub on_event : Event P → Hub V → Hub V
  unfolding on_scanner_message subscribe_call unsubscribe step
  on_event (published m) hub = on_scanner_message m hub
  on_event (subscribed now sub_id pooled method params) hub =
      (subscribe_call args now sub_id pooled method params hub).1
  on_event (unsubscribed id) hub = unsubscribe id hub
  on_event (stepped pooled k) hub = step validation_checks pooled k hub
  on_event (written c) hub = record hub { conn = c }

  unfoldable pub run : List (Event P) → Hub V → Hub V
  unfolding on_event
  run [] hub = hub
  run (e ∷ es) hub = run es (on_event e hub)
