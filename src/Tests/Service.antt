-- ===== src/Tests/Service.antt =====
-- The theorems of Service at concrete tables, requests and runs.
use forkscanner.Prelude.{
  ℕ, ◌≡◌, refl, String, true, false, not, ◌&&◌, ◌||◌, Option, none, some, List, [], ◌∷◌, map, arith,
}
use forkscanner.Prelude.Int.{ℤ, pos}
use forkscanner.Models.Rows.{QueryResult, ok, Lags}
use forkscanner.Models.Query.{Db, Conn, sound_conn}
use forkscanner.Scanner.Ancestry.{concat_bytes}
use forkscanner.Scanner.Linking.Ancestry.{ParentsLower, lower_of_rows}
use forkscanner.Service.Requests.{Json, ValidationCheck, Reply, value, Returned, returned}
use forkscanner.Service.Blocks.{txid_bytes_to_hex}
use forkscanner.Service.Blocks.Ids.{txid_bytes_to_hex-concat_bytes}
use forkscanner.Service.Checks.{validation_checks}
use forkscanner.Service.Checks.Found.{IsChecksReply, validation_checks-IsChecksReply}
use forkscanner.Service.Rpc.{Server, set_tip_call, tx_is_active, update_watched_addresses}
use forkscanner.Service.Rpc.{Clients}
use forkscanner.Service.Rpc.Active.{IsTxReply, tx_is_active-IsActiveReply}
use forkscanner.Service.Rpc.Commands.{IsSetTip, set_tip_call-IsSetTip}
use forkscanner.Service.Rpc.Watched.{
  is_watched, is_listed, is_added, update_watched_addresses_exact,
}
use forkscanner.Service.Messages.{lagging_nodes, lagging_nodes_subscribe, new_chaintip, subscribe}
use forkscanner.Service.Subscriptions.{
  Hub, set_key, starting, new_thread, SubscribeArgs, add_subscription, unsubscribe,
}
use forkscanner.Service.Subscriptions.Run.{Event, published, subscribed, stepped, run}
use forkscanner.Service.Subscriptions.Refined.{IsServed, messages, start_hub, run-IsServed}
use forkscanner.Service.Subscriptions.Ends.{IsForgotten, unsubscribe-IsForgotten}
use forkscanner.Tests.Data.{forked, conn}

-- An id of 32 equal bytes.
abbrev id_bytes : String → List ℕ
id_bytes id =
    7 ∷ 7 ∷ 7 ∷ 7 ∷ 7 ∷ 7 ∷ 7 ∷ 7 ∷ 7 ∷ 7 ∷ 7 ∷ 7 ∷ 7 ∷ 7 ∷ 7 ∷ 7 ∷ 7 ∷ 7 ∷ 7 ∷ 7 ∷ 7 ∷ 7 ∷ 7 ∷ 7
    ∷ 7 ∷ 7 ∷ 7 ∷ 7 ∷ 7 ∷ 7 ∷ 7 ∷ 7 ∷ []

abbrev hex : List ℕ → String
hex bs = "07"

txid_bytes_to_hex-concat_bytes_example :
    txid_bytes_to_hex hex (some (concat_bytes id_bytes ("t" ∷ "u" ∷ [])))
    ≡ some (map hex (map id_bytes ("t" ∷ "u" ∷ [])))
txid_bytes_to_hex-concat_bytes_example =
    txid_bytes_to_hex-concat_bytes hex id_bytes ("t" ∷ "u" ∷ []) (refl, (refl, tt))

abbrev checks_value : List ValidationCheck → Option ℕ
checks_value cs = some 1

-- Two blocks at height 1, and the tip of node 1 above one of them.
abbrev stale : Db
stale = record forked {
  stale_candidates =
      record { height = 1; n_children = 2; height_processed = none; created_at = 3 } ∷ [];
}

stale-ParentsLower : ParentsLower stale
stale-ParentsLower = lower_of_rows stale (refl, (refl, (refl, (refl, tt))))

validation_checks-IsChecksReply_example :
    (r : Returned (Reply ℕ)) × ((validation_checks checks_value (pos 10) (sound_conn stale)).0
      ≡ ok r)
    × IsChecksReply checks_value stale (pos 10) r
validation_checks-IsChecksReply_example =
    validation_checks-IsChecksReply checks_value (pos 10) (sound_conn stale) stale-ParentsLower

-- The parameters of a call parse as these requests; the values are numbers.
abbrev json : Json (Unit {0}) ℕ ℕ
json = record {
  tip_args = λ p. none;
  node_args = λ p. none;
  node_id = λ p. none;
  block_query = λ p. none;
  block_from_peer = λ p. none;
  set_tip_query = λ p. some (record { node_id = 1; hash = "b" });
  tx_id = λ p. some (record { id = "t" });
  watched_update = λ p. some (record { remove = "x" ∷ []; add = ("y", 9) ∷ [] });
  block_upload = λ p. none;
  text = λ s. 0;
  number = λ n. n;
  boolean = λ b. 2;
  tips = λ ts. some 3;
  peers = λ ps. some 4;
  blocks = λ bs. some 5;
  checks = checks_value;
  encode_hex = hex;
}

-- `t` is in `a`, below the tip of node 1.
abbrev with_tx : Db
with_tx = record forked {
  transactions =
      record { block_id = "a"; txid = "t"; is_coinbase = false; hex = ""; amount = 0; swept = none }
      ∷ [];
  watched = record { address = "x"; created_at = 1; watch_until = 2 } ∷ [];
}

tx_is_active-IsActiveReply_example :
    (r : Reply ℕ) × ((tx_is_active json tt (sound_conn with_tx)).0 ≡ ok r)
    × IsTxReply json with_tx (some (record { id = "t" })) r
tx_is_active-IsActiveReply_example = tx_is_active-IsActiveReply json tt (sound_conn with_tx)

update_watched_addresses_exact_example :
    ((update_watched_addresses json 3 tt (sound_conn with_tx)).0 ≡ ok (value 0))
    × ((a : String)
        → is_watched (update_watched_addresses json 3 tt (sound_conn with_tx)).1.db a
          ≡ ((is_watched with_tx a && not (is_listed ("x" ∷ []) a)) || is_added (("y", 9) ∷ []) a))
update_watched_addresses_exact_example =
    update_watched_addresses_exact json 3 tt (record { remove = "x" ∷ []; add = ("y", 9) ∷ [] })
      with_tx refl

abbrev server : Server ℕ
server = record { conn = conn; nodes = 0; commands = []; receives = true }

set_tip_call-IsSetTip_example : IsSetTip json tt server (set_tip_call json tt server)
set_tip_call-IsSetTip_example = set_tip_call-IsSetTip json tt server

abbrev no_checks : ℤ → Conn → QueryResult (Returned (Reply ℕ)) × Conn
no_checks window c = (ok (returned (value 0)), c)

abbrev args : SubscribeArgs (Unit {0})
args = record { is_none = λ p. true; block_arg = λ p. none; watch_address = λ p. none }

abbrev lag : Lags
lag = record { node_id = 1; created_at = 1; deleted_at = none; updated_at = 1 }

-- Somebody else subscribes before, and a lagging node is published after.
abbrev before : List (Event (Unit {0}))
before =
    subscribed 1 4 true "subscribe_active_fork" tt ∷ published new_chaintip ∷ stepped true 0 ∷ []

abbrev later : List (Event (Unit {0}))
later =
    stepped true 1
    ∷ published (lagging_nodes (lag ∷ []))
    ∷ published new_chaintip
    ∷ stepped true 1
    ∷ stepped true 1
    ∷ []

run-IsServed_example :
    IsServed
      (run no_checks args before (start_hub conn)).next
      lagging_nodes_subscribe
      (messages later)
      (run no_checks args later (
        add_subscription 5 lagging_nodes_subscribe starting
          (run no_checks args before (start_hub conn))))
run-IsServed_example = run-IsServed no_checks args conn before later 5 lagging_nodes_subscribe tt

-- Thread 0 serves the subscription 4.
abbrev one_subscriber : Hub ℕ
one_subscriber = record (start_hub conn) {
  killers = (4, 0) ∷ [];
  threads = new_thread 0 subscribe starting ∷ [];
  subscriptions = set_key "active_fork" (0 ∷ []) (λ topic. none);
  next = 1;
}

abbrev two_steps : List (Event (Unit {0}))
two_steps = stepped true 0 ∷ published new_chaintip ∷ stepped true 0 ∷ []

unsubscribe-IsForgotten_example :
    IsForgotten 0 (run no_checks args two_steps (unsubscribe 4 one_subscriber))
unsubscribe-IsForgotten_example =
    unsubscribe-IsForgotten no_checks args 4 0 one_subscriber (new_thread 0 subscribe starting)
      two_steps refl refl (omega arith)

-- Every node answers.
abbrev clients : Clients ℕ ℕ ℕ
clients = record {
  connects = λ host user pass. true;
  submit_block = λ host b n. (some tt, n);
  get_block_from_peer = λ host h peer n. (some 1, n);
}
