-- ===== src/Service/Subscriptions.antt =====
-- The subscriptions of `run_server` in src/service.rs: the listener of the scanner's messages, the
-- endpoints that subscribe and unsubscribe, and the threads of the handlers. A thread's number
-- stands for its channel and for its kill switch.
pub mod Run
pub mod Updates
pub mod Served
pub mod Delivered
pub mod Stepped
pub mod Endpoints
pub mod Refined
pub mod Killed
pub mod Ends
pub mod Numbered
use forkscanner.Prelude.{
  ℕ, suc, String, Bool, true, false, not, ◌&&◌, Option, none, some, List, [], ◌∷◌, ◌++◌, map, ◌==◌,
  if◌then◌else◌, find, keep_if, update_if, number_comparable, text_comparable,
}
use forkscanner.Prelude.Int.{ℤ}
use forkscanner.Models.Rows.{QueryResult, ok, err, Chaintip}
use forkscanner.Models.Query.{Conn}
use forkscanner.Models.Watches
use forkscanner.Service.Requests.{Reply, Returned}
use forkscanner.Service.Checks.{block_window}
use forkscanner.Service.Messages.{
  ScannerMessage, lagging_nodes, new_chaintip, new_block_conflicts, all_chaintips,
  stale_candidate_update, tip_update_failed, tip_updated, watched_address, Notification, Handler,
  subscribe, subscribe_forks, invalid_block_subscribe, lagging_nodes_subscribe, watched_addresses,
  validation_subscribe, Handled, sends, panics, initial_update, on_message,
}

-- Where a thread is: before its first update, at the head of its loop, waiting for a message, or at
-- its end, when its receiver is gone.
pub data Phase : Type 0 where
  starting checking receiving ended : Phase

pub record Thread (V : Type 0) : Type 0 where
  pub id : ℕ
  pub handler : Handler
  -- the kill switch
  pub exit : Bool
  pub phase : Phase
  -- the channel
  pub queue : List ScannerMessage
  -- what it gave to its sink
  pub sent : List (Notification V)

pub record Hub (V : Type 0) : Type 0 where
  pub conn : Conn
  pub tips : List Chaintip
  -- the map from the topics to the senders
  pub subscriptions : String → Option (List ℕ)
  -- the map from the ids of subscriptions to the kill switches
  pub killers : List (ℕ × ℕ)
  pub threads : List (Thread V)
  pub next : ℕ

abbrev pub set_key {ℓ} : {A : Type ℓ} → String → A → (String → Option A) → String → Option A
set_key k v f x = if x == k then some v else f x

abbrev pub topic_of : Handler → String
topic_of subscribe = "active_fork"
topic_of subscribe_forks = "forks"
topic_of (validation_subscribe window) = "validation_checks"
topic_of invalid_block_subscribe = "invalid_block_checks"
topic_of lagging_nodes_subscribe = "lagging_nodes"
topic_of watched_addresses = "watched_addresses"

abbrev pub is_ended : Phase → Bool
is_ended ended = true
is_ended _ = false

abbrev without_key : ℕ → List (ℕ × ℕ) → List (ℕ × ℕ)
without_key id ks = keep_if (λ entry. not (entry.0 == id)) ks

abbrev pub senders : Option (List ℕ) → List ℕ
senders none = []
senders (some ks) = ks

-- The parameters of a subscription, which another library parses.
pub record SubscribeArgs (P : Type 0) : Type 0 where
  pub is_none : P → Bool
  -- `BlockArg`
  pub block_arg : P → Option ℤ
  -- `WatchAddress`
  pub watch_address : P → Option (List String × ℕ)

module _ {V : Type 0} where
  abbrev pub has_number : ℕ → Thread V → Bool
  has_number k t = t.id == k

  abbrev pub thread : ℕ → List (Thread V) → Option (Thread V)
  thread k ts = find (has_number k) ts

  -- `sub.send(...).is_ok()`: the receiver is still there.
  abbrev pub is_open : Option (Thread V) → Bool
  is_open none = false
  is_open (some t) = not (is_ended t.phase)

  abbrev pub enqueue : ScannerMessage → Thread V → Thread V
  enqueue m t = if is_ended t.phase then t else record t { queue = t.queue ++ m ∷ [] }

  -- `retain`: the senders in order, each kept if its message was sent.
  unfoldable pub retain : ScannerMessage → List ℕ → List (Thread V) → List ℕ × List (Thread V)
  retain m [] ts = ([], ts)
  retain m (k ∷ ks) ts =
      let (kept, ts') = retain m ks (update_if (has_number k) (enqueue m) ts) in
      (if is_open (thread k ts) then k ∷ kept else kept, ts')

  abbrev pub deliver_to : Option (List ℕ) → String → ScannerMessage → Hub V → Hub V
  deliver_to none topic m hub = hub
  deliver_to (some ks) topic m hub =
      let (kept, ts) = retain m ks hub.threads in
      record hub { subscriptions = set_key topic kept hub.subscriptions; threads = ts }

  unfoldable pub deliver : String → ScannerMessage → Hub V → Hub V
  unfolding retain
  deliver topic m hub = deliver_to (hub.subscriptions topic) topic m hub

  -- The listener.
  unfoldable pub on_scanner_message : ScannerMessage → Hub V → Hub V
  unfolding deliver
  on_scanner_message new_chaintip hub =
      deliver "forks" new_chaintip (deliver "active_fork" new_chaintip hub)
  on_scanner_message (lagging_nodes ls) hub = deliver "lagging_nodes" (lagging_nodes ls) hub
  on_scanner_message (new_block_conflicts bs) hub =
      deliver "invalid_block_checks" (new_block_conflicts bs) hub
  on_scanner_message (tip_updated hashes) hub = deliver "active_fork" (tip_updated hashes) hub
  on_scanner_message (tip_update_failed e) hub = deliver "active_fork" (tip_update_failed e) hub
  on_scanner_message (watched_address txs) hub =
      deliver "watched_addresses" (watched_address txs) hub
  on_scanner_message stale_candidate_update hub =
      deliver "validation_checks" stale_candidate_update hub
  on_scanner_message (all_chaintips ts) hub =
      deliver "active_fork" new_chaintip (record hub { tips = ts })

  abbrev pub new_thread : ℕ → Handler → Phase → Thread V
  new_thread k h phase = record {
    id = k;
    handler = h;
    exit = false;
    phase = phase;
    queue = [];
    sent = [];
  }

  -- A new kill switch and a new channel, and the thread of the handler. An id that the random
  -- numbers give again takes the place of the old one.
  unfoldable pub add_subscription : ℕ → Handler → Phase → Hub V → Hub V
  add_subscription sub_id h phase hub = record hub {
    killers = (sub_id, hub.next) ∷ without_key sub_id hub.killers;
    subscriptions =
        set_key (topic_of h) (senders (hub.subscriptions (topic_of h)) ++ hub.next ∷ [])
          hub.subscriptions;
    threads = hub.threads ++ new_thread hub.next h phase ∷ [];
    next = suc hub.next;
  }

  abbrev watch_result : ℕ → QueryResult ℕ × Conn → Hub V → Hub V
  watch_result sub_id (ok n, c) hub =
      add_subscription sub_id watched_addresses starting (record hub { conn = c })
  watch_result sub_id (err e, c) hub =
      add_subscription sub_id watched_addresses ended (record hub { conn = c })

  -- `handle_watched_addresses` first writes the addresses; where it panics no thread is started,
  -- and the receiver is gone.
  unfoldable pub add_watch : ℕ → ℕ → List String → ℕ → Bool → Hub V → Hub V
  unfolding add_subscription
  add_watch now sub_id watch watch_until pooled hub =
      if pooled
      then watch_result sub_id (Watches.insert now (map (λ w. (w, watch_until)) watch) hub.conn) hub
      else add_subscription sub_id watched_addresses ended hub

  abbrev flip_switch : Option (ℕ × ℕ) → ℕ → Hub V → Hub V
  flip_switch none id hub = hub
  flip_switch (some entry) id hub = record hub {
    killers = without_key id hub.killers;
    threads =
        update_if (has_number entry.1) (λ (t : Thread V). record t { exit = true }) hub.threads;
  }

  -- All six endpoints look into the same map.
  unfoldable pub unsubscribe : ℕ → Hub V → Hub V
  unsubscribe id hub = flip_switch (find (λ entry. entry.0 == id) hub.killers) id hub

  -- The endpoints that subscribe, with the id that the random numbers give. The answer says whether
  -- the subscription was accepted.
  module _ {P : Type 0} (args : SubscribeArgs P) where
    abbrev accept_none : ℕ → Handler → P → Hub V → Bool × Hub V
    accept_none sub_id h params hub =
        if args.is_none params then (true, add_subscription sub_id h starting hub) else (false, hub)

    abbrev accept_window : ℕ → Option ℤ → Hub V → Bool × Hub V
    accept_window sub_id none hub = (false, hub)
    accept_window sub_id (some window) hub =
        (true, add_subscription sub_id (validation_subscribe window) starting hub)

    abbrev accept_watch : ℕ → ℕ → Bool → Option (List String × ℕ) → Hub V → Bool × Hub V
    accept_watch now sub_id pooled none hub = (false, hub)
    accept_watch now sub_id pooled (some (watch, watch_until)) hub =
        (true, add_watch now sub_id watch watch_until pooled hub)

    unfoldable pub subscribe_call : ℕ → ℕ → Bool → String → P → Hub V → Bool × Hub V
    unfolding add_subscription add_watch
    subscribe_call now sub_id pooled method params hub =
        if method == "subscribe_active_fork"
        then accept_none sub_id subscribe params hub
        else if method == "subscribe_forks"
        then accept_none sub_id subscribe_forks params hub
        else if method == "validation_checks"
        then accept_window sub_id
            (if args.is_none params then some block_window else args.block_arg params) hub
        else if method == "invalid_block_checks"
        then accept_none sub_id invalid_block_subscribe params hub
        else if method == "lagging_nodes_checks"
        then accept_none sub_id lagging_nodes_subscribe params hub
        else if method == "watched_address_checks"
        then accept_watch now sub_id pooled (args.watch_address params) hub
        else (false, hub)
