-- ===== src/Service/Rpc/Commands.antt =====
-- What `set_tip` of src/service.rs sends to the scanner.
use forkscanner.Prelude.{
  ◌≡◌, refl, sym, ap, Bool, true, false, Option, none, some, List, [], ◌∷◌, ◌++◌, if◌then◌else◌,
  find, number_comparable,
}
use forkscanner.Models.Rows.{QueryResult, ok, err, Node}
use forkscanner.Models.Query.{Conn}
use forkscanner.Models.Query.Results.{execute_ok}
use forkscanner.Models.Nodes.{has_id, list}
use forkscanner.Service.Requests.{Json, SetTipQuery, JsonRpcError, value, error}
use forkscanner.Service.Rpc.{
  set_tip, Server, Outcome, replied, panicked, with_answer, after_query, send, set_tip_query,
  set_tip_call,
}

list-rows : (c : Conn) (ns : List Node) → (list c).0 ≡ ok ns → ns ≡ c.db.nodes
unfolding list
list-rows c ns e = rows_eq (execute_ok (λ d. (ok d.nodes, d)) c ns e).0
  where
    rows_eq : ok c.db.nodes ≡ ok ns → ns ≡ c.db.nodes
    rows_eq same = cc

module _ {P V B N : Type 0} (json : Json P V B) where
  -- The request that a command answers.
  pub record IsCommand (params : P) (s s' : Server N) : Type 0 where
    pub query : SetTipQuery
    pub parses : json.set_tip_query params ≡ some query
    pub node : Node
    pub node_found : find (has_id query.node_id) s.conn.db.nodes ≡ some node
    pub one_more : s'.commands ≡ s.commands ++ set_tip query.node_id query.hash ∷ []

  -- A success has sent the command of the request, for a node of the table; an error, or the panic on
  -- a broken channel, has sent nothing.
  abbrev pub IsSetTip : P → Server N → Outcome V × Server N → Type 0
  IsSetTip params s (replied (value v), s') = IsCommand params s s'
  IsSetTip params s (replied (error e), s') =
      (e ≡ JsonRpcError.invalid_params) × (s'.commands ≡ s.commands)
  IsSetTip params s (panicked, s') = (s.receives ≡ false) × (s'.commands ≡ s.commands)

  module _ (params : P) (s : Server N) (query : SetTipQuery)
      (parses : json.set_tip_query params ≡ some query) where
    send-IsSetTip :
        (c : Conn) (o : Option Node)
        → find (has_id query.node_id) s.conn.db.nodes ≡ o
        → IsSetTip params s (send json query o (record s { conn = c }))
    send-IsSetTip c none e = (refl, refl)
    send-IsSetTip c (some n) e = by_channel s.receives refl
      where
        by_channel :
            (b : Bool)
            → s.receives ≡ b
            → IsSetTip params s (
                if b
                then (
                  replied (value (json.text "success")),
                  record s {
                    conn = c;
                    commands = s.commands ++ set_tip query.node_id query.hash ∷ [];
                  },
                )
                else (panicked, record s { conn = c }))
        by_channel true r = record {
          query = query;
          parses = parses;
          node = n;
          node_found = e;
          one_more = refl;
        }
        by_channel false r = (r, refl)

    listed-IsSetTip :
        (r : QueryResult (List Node)) (c : Conn)
        → ((ns : List Node) → r ≡ ok ns → ns ≡ s.conn.db.nodes)
        → IsSetTip params s (
            after_query
              (λ ns. send json query (find (has_id query.node_id) ns))
              r
              (record s { conn = c }))
    listed-IsSetTip (ok ns) c rows =
        send-IsSetTip c (find (has_id query.node_id) ns)
          (ap (find (has_id query.node_id)) (sym (rows ns refl)))
    listed-IsSetTip (err e) c rows = (refl, refl)

  set_tip_query-IsSetTip :
      (params : P) (s : Server N) (o : Option SetTipQuery)
      → json.set_tip_query params ≡ o
      → IsSetTip params s (set_tip_query json o s)
  unfolding with_answer
  set_tip_query-IsSetTip params s none e = (refl, refl)
  set_tip_query-IsSetTip params s (some query) e =
      listed-IsSetTip params s query e (list s.conn).0 (list s.conn).1 (list-rows s.conn)

  -- Whichever statements fail: set_tip sends the command of the request where it answers a success, and
  -- the node of the request is then in the table; where it answers an error, or panics since the
  -- channel is broken, it sends nothing.
  pub set_tip_call-IsSetTip :
      (params : P) (s : Server N) → IsSetTip params s (set_tip_call json params s)
  unfolding set_tip_call
  set_tip_call-IsSetTip params s = set_tip_query-IsSetTip params s (json.set_tip_query params) refl
