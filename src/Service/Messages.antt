-- ===== src/Service/Messages.antt =====
-- What the scanner tells the service (`ScannerMessage` of src/scanner.rs), and what the subscription
-- handlers of src/service.rs send to their clients.
use forkscanner.Prelude.{String, Bool, List, [], ◌∷◌, if◌then◌else◌}
use forkscanner.Prelude.Int.{ℤ}
use forkscanner.Models.Rows.{QueryResult, ok, err, Chaintip, Lags, Transaction}
use forkscanner.Models.Query.{Conn}
use forkscanner.Models.Chaintips.{list_active}
use forkscanner.Models.Conflicts.{ConflictingBlock}
use forkscanner.Service.Requests.{Reply, value, error, Returned, returned, diverged}

pub data ScannerMessage : Type 0 where
  lagging_nodes : List Lags → ScannerMessage
  new_chaintip : ScannerMessage
  new_block_conflicts : List ConflictingBlock → ScannerMessage
  all_chaintips : List Chaintip → ScannerMessage
  stale_candidate_update : ScannerMessage
  tip_update_failed : String → ScannerMessage
  tip_updated : List String → ScannerMessage
  watched_address : List Transaction → ScannerMessage

-- The arguments of `sink.notify`, before they are written as JSON. `V` are the JSON values.
pub data Notification (V : Type 0) : Type 0 where
  tips : List Chaintip → Notification V
  lags : List Lags → Notification V
  conflicts : List ConflictingBlock → Notification V
  transactions : List Transaction → Notification V
  checks : V → Notification V
  failed_checks : Notification V

-- The functions that serve a subscription, with the window of `handle_validation_subscribe`.
pub data Handler : Type 0 where
  subscribe subscribe_forks invalid_block_subscribe lagging_nodes_subscribe : Handler
  watched_addresses : Handler
  validation_subscribe : ℤ → Handler

-- What a handler does with one message: what it sends, or an `expect` that panics.
pub data Handled (V : Type 0) : Type 0 where
  sends : List (Notification V) → Handled V
  panics : Handled V

module _ {V : Type 0} where
  abbrev send_tips : QueryResult (List Chaintip) → Handled V
  send_tips (ok ts) = sends (tips ts ∷ [])
  send_tips (err e) = sends []

  abbrev send_checks : QueryResult (Returned (Reply V)) → Handled V
  send_checks (ok (returned (value v))) = sends (checks v ∷ [])
  send_checks (ok (returned (error e))) = sends (failed_checks ∷ [])
  send_checks (ok diverged) = sends []
  send_checks (err e) = sends []

  -- `list_active` on a connection of the pool
  abbrev read_tips : Bool → Conn → Handled V × Conn
  read_tips pooled c =
      if pooled then (let (r, c') = list_active c in (send_tips r, c')) else (panics, c)

  module _ (validation_checks : ℤ → Conn → QueryResult (Returned (Reply V)) × Conn) where
    abbrev read_checks : Bool → ℤ → Conn → Handled V × Conn
    read_checks pooled window c =
        if pooled
        then (let (r, c') = validation_checks window c in (send_checks r, c'))
        else (sends [], c)

    -- Before its loop.
    unfoldable pub initial_update : Handler → Bool → List Chaintip → Conn → Handled V × Conn
    initial_update subscribe pooled current c = (sends (tips current ∷ []), c)
    initial_update subscribe_forks pooled current c = read_tips pooled c
    initial_update (validation_subscribe window) pooled current c = read_checks pooled window c
    initial_update _ pooled current c = (sends [], c)

    -- A message of the channel; `pooled` says whether the pool has a connection.
    unfoldable pub on_message :
        Handler → ScannerMessage → Bool → List Chaintip → Conn → Handled V × Conn
    on_message subscribe new_chaintip pooled current c = (sends (tips current ∷ []), c)
    on_message subscribe_forks new_chaintip pooled current c = read_tips pooled c
    on_message (validation_subscribe window) stale_candidate_update pooled current c =
        read_checks pooled window c
    on_message invalid_block_subscribe (new_block_conflicts bs) pooled current c =
        (sends (conflicts bs ∷ []), c)
    on_message lagging_nodes_subscribe (lagging_nodes ls) pooled current c =
        (sends (lags ls ∷ []), c)
    on_message watched_addresses (watched_address txs) pooled current c =
        (sends (transactions txs ∷ []), c)
    on_message _ _ pooled current c = (sends [], c)
