-- ===== src/Service/Subscriptions/Killed.antt =====
-- A thread of src/service.rs whose kill switch is set, through the messages and calls of the others.
use forkscanner.Prelude.{
  ℕ, ◌≤◌, ◌≡◌, refl, ◌∙◌, String, Bool, true, false, Option, none, some, List, [], ◌∷◌, ◌++◌,
  if◌then◌else◌, number_comparable, text_comparable, update_if,
}
use forkscanner.Models.Tables.{find-update_if}
use forkscanner.Service.Messages.{
  ScannerMessage, lagging_nodes, new_chaintip, new_block_conflicts, all_chaintips,
  stale_candidate_update, tip_update_failed, tip_updated, watched_address,
}
use forkscanner.Service.Subscriptions.{
  Phase, starting, checking, receiving, ended, Thread, Hub, has_number, thread, is_ended, enqueue,
  retain, deliver, deliver_to, on_scanner_message, add_subscription, flip_switch,
}
use forkscanner.Service.Subscriptions.Served.{enqueued}
use forkscanner.Service.Subscriptions.Stepped.{find-append}

-- How many steps a thread whose switch is set can still take before it ends.
abbrev pub steps_left : Phase → ℕ
steps_left ended = 0
steps_left checking = 1
steps_left receiving = 2
steps_left starting = 2

-- The thread `k` is there, its switch is set, and it has at most `n` steps left.
pub record IsKilled {V : Type 0} (k n : ℕ) (hub : Hub V) : Type 0 where
  pub killed : Thread V
  pub found : thread k hub.threads ≡ some killed
  pub exit_set : killed.exit ≡ true
  pub left : steps_left killed.phase ≤ n

module _ {V : Type 0} (k n : ℕ) where
  pub retain-found :
      (m : ScannerMessage) (ks : List ℕ) (ts : List (Thread V)) (t : Thread V)
      → thread k ts ≡ some t
      → t.exit ≡ true
      → steps_left t.phase ≤ n
      → (u : Thread V) × (thread k (retain m ks ts).1 ≡ some u)
        × (u.exit ≡ true)
        × (steps_left u.phase ≤ n)
  unfolding retain
  retain-found m [] ts t e x l = (t, e, x, l)
  retain-found m (j ∷ ks) ts t e x l =
      retain-found m ks (update_if (has_number j) (enqueue m) ts)
        (if has_number j t then enqueue m t else t) (enqueued k m j ts t e)
        (same_exit (has_number j t) (is_ended t.phase))
        (same_phase (has_number j t) (is_ended t.phase))
    where
      same_exit :
          (b c : Bool)
          → (if b then (if c then t else record t { queue = t.queue ++ m ∷ [] }) else t).exit ≡ true
      same_exit true true = x
      same_exit true false = x
      same_exit false c = x

      same_phase :
          (b c : Bool)
          → steps_left
              (if b then (if c then t else record t { queue = t.queue ++ m ∷ [] }) else t).phase
            ≤ n
      same_phase true true = l
      same_phase true false = l
      same_phase false c = l

  pub same-IsKilled :
      (hub hub' : Hub V)
      → IsKilled k n hub
      → thread k hub'.threads ≡ thread k hub.threads
      → IsKilled k n hub'
  same-IsKilled hub hub' s e = record {
    killed = s.killed;
    found = e ∙ s.found;
    exit_set = s.exit_set;
    left = s.left;
  }

  deliver_to-IsKilled :
      (o : Option (List ℕ)) (topic : String) (m : ScannerMessage) (hub : Hub V)
      → IsKilled k n hub
      → IsKilled k n (deliver_to o topic m hub)
  deliver_to-IsKilled none topic m hub s = s
  deliver_to-IsKilled (some ks) topic m hub s =
      let (u, e, x, l) = retain-found m ks hub.threads s.killed s.found s.exit_set s.left in
      record { killed = u; found = e; exit_set = x; left = l }

  deliver-IsKilled :
      (topic : String) (m : ScannerMessage) (hub : Hub V)
      → IsKilled k n hub
      → IsKilled k n (deliver topic m hub)
  unfolding deliver
  deliver-IsKilled topic m hub s = deliver_to-IsKilled (hub.subscriptions topic) topic m hub s

  pub on_scanner_message-IsKilled :
      (m : ScannerMessage) (hub : Hub V)
      → IsKilled k n hub
      → IsKilled k n (on_scanner_message m hub)
  unfolding on_scanner_message
  on_scanner_message-IsKilled new_chaintip hub s =
      deliver-IsKilled "forks" _ _ (deliver-IsKilled "active_fork" _ hub s)
  on_scanner_message-IsKilled (lagging_nodes ls) hub s = deliver-IsKilled _ _ hub s
  on_scanner_message-IsKilled (new_block_conflicts bs) hub s = deliver-IsKilled _ _ hub s
  on_scanner_message-IsKilled (tip_updated hs) hub s = deliver-IsKilled _ _ hub s
  on_scanner_message-IsKilled (tip_update_failed e) hub s = deliver-IsKilled _ _ hub s
  on_scanner_message-IsKilled (watched_address txs) hub s = deliver-IsKilled _ _ hub s
  on_scanner_message-IsKilled stale_candidate_update hub s = deliver-IsKilled _ _ hub s
  on_scanner_message-IsKilled (all_chaintips ts) hub s =
      deliver-IsKilled _ _ (record hub { tips = ts }) (same-IsKilled hub _ s refl)

  pub flip_switch-IsKilled :
      (o : Option (ℕ × ℕ)) (id : ℕ) (hub : Hub V)
      → IsKilled k n hub
      → IsKilled k n (flip_switch o id hub)
  flip_switch-IsKilled none id hub s = s
  flip_switch-IsKilled (some entry) id hub s = by_number (has_number entry.1 s.killed) (
      find-update_if (has_number k) (has_number entry.1) (λ x. record x { exit = true })
        (λ x e. refl) hub.threads s.killed s.found)
    where
      by_number :
          (b : Bool)
          → thread k (
              update_if
                (has_number entry.1)
                (λ (x : Thread V). record x { exit = true })
                hub.threads)
            ≡ some (if b then record s.killed { exit = true } else s.killed)
          → IsKilled k n (flip_switch (some entry) id hub)
      by_number true e = record {
        killed = record s.killed { exit = true };
        found = e;
        exit_set = refl;
        left = s.left;
      }
      by_number false e = record {
        killed = s.killed;
        found = e;
        exit_set = s.exit_set;
        left = s.left;
      }

  pub add_subscription-IsKilled :
      (sub_id : ℕ) (h : _) (phase : Phase) (hub : Hub V)
      → IsKilled k n hub
      → IsKilled k n (add_subscription sub_id h phase hub)
  unfolding add_subscription
  add_subscription-IsKilled sub_id h phase hub s = record {
    killed = s.killed;
    found = find-append k hub.threads _ s.killed s.found;
    exit_set = s.exit_set;
    left = s.left;
  }
