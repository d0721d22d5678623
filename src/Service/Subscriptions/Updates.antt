-- ===== src/Service/Subscriptions/Updates.antt =====
-- What the handlers of src/service.rs send for a message, for those whose updates are the contents of
-- the message.
use forkscanner.Prelude.{
  ◌≡◌, refl, ◌∙◌, sym, ap, String, Bool, List, [], ◌∷◌, ◌++◌, if◌then◌else◌, ◌==◌, text_comparable,
}
use mathlib.Core.List.{append_assoc}
use forkscanner.Prelude.Int.{ℤ}
use forkscanner.Models.Rows.{QueryResult, Chaintip}
use forkscanner.Models.Query.{Conn}
use forkscanner.Service.Requests.{Reply, Returned}
use forkscanner.Service.Messages.{
  ScannerMessage, lagging_nodes, new_chaintip, new_block_conflicts, all_chaintips,
  stale_candidate_update, tip_update_failed, tip_updated, watched_address, Notification, conflicts,
  lags, transactions, Handler, subscribe, subscribe_forks, invalid_block_subscribe,
  lagging_nodes_subscribe, watched_addresses, validation_subscribe, sends, initial_update,
  on_message,
}
use forkscanner.Service.Subscriptions.{topic_of}

-- The handlers that send what a message holds.
abbrev pub IsDirect : Handler → Type 0
IsDirect invalid_block_subscribe = Unit
IsDirect lagging_nodes_subscribe = Unit
IsDirect watched_addresses = Unit
IsDirect _ = ⊥

-- The updates that a subscriber is owed for a message of the scanner.
abbrev pub updates : {V : Type 0} → Handler → ScannerMessage → List (Notification V)
updates invalid_block_subscribe (new_block_conflicts bs) = conflicts bs ∷ []
updates lagging_nodes_subscribe (lagging_nodes ls) = lags ls ∷ []
updates watched_addresses (watched_address txs) = transactions txs ∷ []
updates _ _ = []

abbrev pub all_updates : {V : Type 0} → Handler → List ScannerMessage → List (Notification V)
all_updates h [] = []
all_updates h (m ∷ ms) = updates h m ++ all_updates h ms

pub all_updates-append :
    {V : Type 0} (h : Handler) (ms ns : List ScannerMessage)
    → all_updates {V = V} h (ms ++ ns) ≡ all_updates h ms ++ all_updates h ns
all_updates-append h [] ns = refl
all_updates-append h (m ∷ ms) ns =
    ap (λ us. updates h m ++ us) (all_updates-append h ms ns)
    ∙ sym (append_assoc (updates h m) (all_updates h ms) (all_updates h ns))

module _ {V : Type 0} (validation_checks : ℤ → Conn → QueryResult (Returned (Reply V)) × Conn) where
  pub on_message-updates :
      (h : Handler) (m : ScannerMessage) (pooled : Bool) (current : List Chaintip) (c : Conn)
      → IsDirect h
      → (on_message validation_checks h m pooled current c).0 ≡ sends (updates h m)
  unfolding on_message
  on_message-updates invalid_block_subscribe (lagging_nodes ls) pooled current c d = refl
  on_message-updates invalid_block_subscribe new_chaintip pooled current c d = refl
  on_message-updates invalid_block_subscribe (new_block_conflicts bs) pooled current c d = refl
  on_message-updates invalid_block_subscribe (all_chaintips ts) pooled current c d = refl
  on_message-updates invalid_block_subscribe stale_candidate_update pooled current c d = refl
  on_message-updates invalid_block_subscribe (tip_update_failed e) pooled current c d = refl
  on_message-updates invalid_block_subscribe (tip_updated hs) pooled current c d = refl
  on_message-updates invalid_block_subscribe (watched_address txs) pooled current c d = refl
  on_message-updates lagging_nodes_subscribe (lagging_nodes ls) pooled current c d = refl
  on_message-updates lagging_nodes_subscribe new_chaintip pooled current c d = refl
  on_message-updates lagging_nodes_subscribe (new_block_conflicts bs) pooled current c d = refl
  on_message-updates lagging_nodes_subscribe (all_chaintips ts) pooled current c d = refl
  on_message-updates lagging_nodes_subscribe stale_candidate_update pooled current c d = refl
  on_message-updates lagging_nodes_subscribe (tip_update_failed e) pooled current c d = refl
  on_message-updates lagging_nodes_subscribe (tip_updated hs) pooled current c d = refl
  on_message-updates lagging_nodes_subscribe (watched_address txs) pooled current c d = refl
  on_message-updates watched_addresses (lagging_nodes ls) pooled current c d = refl
  on_message-updates watched_addresses new_chaintip pooled current c d = refl
  on_message-updates watched_addresses (new_block_conflicts bs) pooled current c d = refl
  on_message-updates watched_addresses (all_chaintips ts) pooled current c d = refl
  on_message-updates watched_addresses stale_candidate_update pooled current c d = refl
  on_message-updates watched_addresses (tip_update_failed e) pooled current c d = refl
  on_message-updates watched_addresses (tip_updated hs) pooled current c d = refl
  on_message-updates watched_addresses (watched_address txs) pooled current c d = refl
  on_message-updates subscribe m pooled current c d = absurd d
  on_message-updates subscribe_forks m pooled current c d = absurd d
  on_message-updates (validation_subscribe w) m pooled current c d = absurd d

  pub initial_update-direct :
      (h : Handler) (pooled : Bool) (current : List Chaintip) (c : Conn)
      → IsDirect h
      → (initial_update validation_checks h pooled current c).0 ≡ sends []
  unfolding initial_update
  initial_update-direct invalid_block_subscribe pooled current c d = refl
  initial_update-direct lagging_nodes_subscribe pooled current c d = refl
  initial_update-direct watched_addresses pooled current c d = refl
  initial_update-direct subscribe pooled current c d = absurd d
  initial_update-direct subscribe_forks pooled current c d = absurd d
  initial_update-direct (validation_subscribe w) pooled current c d = absurd d

-- What the thread of a handler is sent of a message for a topic.
abbrev pub for_topic : String → ScannerMessage → Handler → List ScannerMessage
for_topic topic m h = if topic == topic_of h then m ∷ [] else []
