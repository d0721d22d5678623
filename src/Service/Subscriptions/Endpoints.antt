-- ===== src/Service/Subscriptions/Endpoints.antt =====
-- What the endpoints of src/service.rs that subscribe can do to the hub.
use forkscanner.Prelude.{
  ℕ, String, Bool, true, false, Option, none, some, List, if◌then◌else◌, ◌==◌, text_comparable, map,
}
use forkscanner.Prelude.Int.{ℤ}
use forkscanner.Models.Rows.{QueryResult, ok, err}
use forkscanner.Models.Query.{Conn}
use forkscanner.Models.Watches
use forkscanner.Service.Checks.{block_window}
use forkscanner.Service.Messages.{
  Handler, subscribe, subscribe_forks, invalid_block_subscribe, lagging_nodes_subscribe,
  watched_addresses, validation_subscribe,
}
use forkscanner.Service.Subscriptions.{
  Phase, starting, ended, Hub, SubscribeArgs, add_subscription, add_watch, watch_result,
  accept_none, accept_window, accept_watch, subscribe_call,
}

-- `Q` holds after a call if it holds of the hub, and after every subscription that the call can add.
module _ {V P : Type 0} (Q : Hub V → Type 0) (hub : Hub V) (args : SubscribeArgs P) (now sub_id : ℕ)
    (pooled : Bool) (method : String) (params : P) (same : Q hub)
    (added : (h : Handler) (phase : Phase) (c : Conn)
      → Q (add_subscription sub_id h phase (record hub { conn = c }))) where
  if-hub : (b : Bool) (x y : Bool × Hub V) → Q x.1 → Q y.1 → Q (if b then x else y).1
  if-hub true x y p q = p
  if-hub false x y p q = q

  watch_result-hub : (r : QueryResult ℕ × Conn) → Q (watch_result sub_id r hub)
  watch_result-hub (ok n, c) = added watched_addresses starting c
  watch_result-hub (err e, c) = added watched_addresses ended c

  add_watch-hub :
      (watch : List String) (watch_until : ℕ) (b : Bool)
      → Q (add_watch now sub_id watch watch_until b hub)
  unfolding add_watch
  add_watch-hub watch watch_until true =
      watch_result-hub (Watches.insert now (map (λ w. (w, watch_until)) watch) hub.conn)
  add_watch-hub watch watch_until false = added watched_addresses ended hub.conn

  accept_none-hub : (h : Handler) → Q (accept_none args sub_id h params hub).1
  accept_none-hub h = if-hub (args.is_none params) _ _ (added h starting hub.conn) same

  accept_window-hub : (o : Option ℤ) → Q (accept_window args sub_id o hub).1
  accept_window-hub none = same
  accept_window-hub (some window) = added (validation_subscribe window) starting hub.conn

  accept_watch-hub :
      (o : Option (List String × ℕ)) → Q (accept_watch args now sub_id pooled o hub).1
  accept_watch-hub none = same
  accept_watch-hub (some (watch, watch_until)) = add_watch-hub watch watch_until pooled

  pub subscribe_call-cases : Q (subscribe_call args now sub_id pooled method params hub).1
  unfolding subscribe_call
  subscribe_call-cases =
      if-hub (method == "subscribe_active_fork") _ _ (accept_none-hub subscribe) (
        if-hub (method == "subscribe_forks") _ _ (accept_none-hub subscribe_forks) (
          if-hub (method == "validation_checks") _ _
            (accept_window-hub
              (if args.is_none params then some block_window else args.block_arg params))
            (if-hub (method == "invalid_block_checks") _ _ (accept_none-hub invalid_block_subscribe)
              (if-hub (method == "lagging_nodes_checks") _ _
                (accept_none-hub lagging_nodes_subscribe)
                (if-hub (method == "watched_address_checks") _ _
                  (accept_watch-hub (args.watch_address params)) same)))))
