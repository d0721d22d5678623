-- ===== src/Service/Rpc/Active.antt =====
-- What `tx_is_active` of src/service.rs answers.
use forkscanner.Prelude.{
  Option, Option-cases, ◌≡◌, refl, String, Bool, true, false, none, some, List, [], ◌∷◌, ◌++◌, ◌==◌,
  if◌then◌else◌, text_comparable, keep_if, exists, All, All-append, eq_of_str_eq, Bool-cases, inl,
  inr,
}
use forkscanner.Prelude.Members.{IsRow, All-kept, All-rows, All-mono}
use forkscanner.Models.Rows.{QueryResult, ok, err, Block, Chaintip, Transaction}
use forkscanner.Models.Query.{Db, Conn}
use forkscanner.Models.Query.Answers.{
  Answers, Answers-pure, Answers-bind, Answers-try_bind, Answers-rows, Answers-or_answer,
}
use forkscanner.Models.Query.Total.{Total, Total-pure, Total-or_answer}
use forkscanner.Models.Blocks.{has_hash, descendants}
use forkscanner.Models.Blocks.Descendants.{IsAbove, descendants-Answers}
use forkscanner.Models.Chaintips.{is_status, list_active}
use forkscanner.Models.Transactions.{
  blocks_of, answered_rows, all_descendants, tx_block_and_descendants,
}
use forkscanner.Service.Requests.{
  Json, TxId, Reply, value, error, JsonRpcError, internal_error, invalid_params,
}
use forkscanner.Service.Rpc.{is_tip, tx_is_active}

-- A row of the transaction names a block `carrier` that is stored, and `b` is that block or above it.
pub record IsOn (d : Db) (txid : String) (b : Block) : Type 0 where
  pub row : Transaction
  pub in_table : IsRow d.transactions row
  pub names : row.txid ≡ txid
  pub carrier : Block
  pub names_block : carrier.hash ≡ row.block_id
  pub above : IsAbove d.blocks carrier.hash b

-- A block that holds the transaction.
pub record IsCarrier (d : Db) (txid : String) (b : Block) : Type 0 where
  pub row : Transaction
  pub in_table : IsRow d.transactions row
  pub names : row.txid ≡ txid
  pub names_block : b.hash ≡ row.block_id

module _ (d : Db) (txid : String) where
  blocks_of-carriers :
      (ts : List Transaction)
      → All (IsRow d.transactions) ts
      → All (IsCarrier d txid) (blocks_of txid d.blocks ts)
  blocks_of-carriers [] rows = tt
  blocks_of-carriers (t ∷ ts) rows = by_id (blocks_of-carriers ts rows.1) (t.txid == txid) refl
    where
      by_id :
          All (IsCarrier d txid) (blocks_of txid d.blocks ts)
          → (b : Bool) → (t.txid == txid) ≡ b
          → All (IsCarrier d txid) (
              if b
              then keep_if (has_hash t.block_id) d.blocks ++ blocks_of txid d.blocks ts
              else blocks_of txid d.blocks ts)
      by_id rest false e = rest
      by_id rest true e =
          All-append _ _ _
            (All-kept (IsCarrier d txid) (has_hash t.block_id) d.blocks (λ b r hit. record {
              row = t;
              in_table = rows.0;
              names = eq_of_str_eq t.txid txid e;
              names_block = eq_of_str_eq b.hash t.block_id hit;
            }))
            rest

  all_descendants-Answers :
      (bs : List Block)
      → All (IsCarrier d txid) bs
      → Answers d (All (IsOn d txid)) (all_descendants bs)
  unfolding all_descendants
  all_descendants-Answers [] h = Answers-pure _ tt
  all_descendants-Answers (b ∷ bs) h =
      Answers-try_bind (descendants b none) _ (descendants-Answers d b none) (λ r above.
        Answers-bind (all_descendants bs) _ (all_descendants-Answers bs h.1)
          (λ others on. Answers-pure _ (All-append _ _ _ (carried r above) on)))
    where
      on : (x : Block) → IsAbove d.blocks b.hash x → IsOn d txid x
      on x above = record {
        row = h.0.row;
        in_table = h.0.in_table;
        names = h.0.names;
        carrier = b;
        names_block = h.0.names_block;
        above = above;
      }

      carried :
          (r : QueryResult (List Block))
          → ((xs : List Block) → r ≡ ok xs → All (IsAbove d.blocks b.hash) xs)
          → All (IsOn d txid) (answered_rows r)
      carried (ok xs) above = All-mono _ _ xs on (above xs refl)
      carried (err e) above = tt

  tx_block_and_descendants-Answers : Answers d (All (IsOn d txid)) (tx_block_and_descendants txid)
  unfolding tx_block_and_descendants
  tx_block_and_descendants-Answers =
      Answers-bind _ all_descendants
        (Answers-rows (All (IsCarrier d txid)) (λ d. blocks_of txid d.blocks d.transactions)
          (blocks_of-carriers d.transactions (All-rows d.transactions)))
        all_descendants-Answers

exists-All :
    {A : Type 0} (P : A → Type 0) (p : A → Bool) (xs : List A)
    → All P xs
    → exists p xs ≡ true
    → (x : A) × P x × (p x ≡ true)
exists-All P p [] h e = absurd (cc)
exists-All P p (x ∷ xs) h e = elim (Bool-cases (p x)) [
  | inl hit ↦ (x, h.0, hit)
  | inr miss ↦ exists-All P p xs h.1 (rw miss at e)
]

-- An active tip is at a block that holds the transaction, or at one above it.
pub record IsActiveTx (d : Db) (txid : String) : Type 0 where
  pub block : Block
  pub holds : IsOn d txid block
  pub tip : Chaintip
  pub tip_row : IsRow d.chaintips tip
  pub tip_active : is_status "active" tip ≡ true
  pub at_block : tip.block ≡ block.hash

module _ {P V B : Type 0} (json : Json P V B) where
  -- The reply is a Boolean, and `true` only for a transaction of an active chain, or the internal
  -- error.
  abbrev pub IsActiveReply : Db → String → Reply V → Type 0
  IsActiveReply d txid (error e) = e ≡ JsonRpcError.internal_error
  IsActiveReply d txid (value v) =
      (b : Bool) × (v ≡ json.boolean b) × (b ≡ true → IsActiveTx d txid)

  -- The reply by what the parameters say: without an id in them they are invalid.
  abbrev pub IsTxReply : Db → Option TxId → Reply V → Type 0
  IsTxReply d none r = r ≡ error JsonRpcError.invalid_params
  IsTxReply d (some id) r = IsActiveReply d id.id r

  abbrev IsActive : Db → Chaintip → Type 0
  IsActive d t = IsRow d.chaintips t × (is_status "active" t ≡ true)

  found_on :
      (d : Db) (txid : String) (ts : List Chaintip) (bs : List Block)
      → All (IsActive d) ts
      → All (IsOn d txid) bs
      → exists (is_tip json ts) bs ≡ true
      → IsActiveTx d txid
  found_on d txid ts bs active on e =
      let (b, holds, hit) = exists-All (IsOn d txid) (is_tip json ts) bs on e in
      let (t, row, same) = exists-All (IsActive d) (λ t. t.block == b.hash) ts active hit in
      record {
        block = b;
        holds = holds;
        tip = t;
        tip_row = row.0;
        tip_active = row.1;
        at_block = eq_of_str_eq t.block b.hash same;
      }

  module _ (params : P) (id : TxId) (parses : json.tx_id params ≡ some id) where
    tx_is_active-Answers : (d : Db) → Answers d (IsActiveReply d id.id) (tx_is_active json params)
    unfolding tx_is_active list_active
    tx_is_active-Answers d = rw parses (
        Answers-or_answer (error internal_error) list_active _ refl tips (λ ts active.
          Answers-or_answer (error internal_error) (tx_block_and_descendants id.id) _ refl
            (tx_block_and_descendants-Answers d id.id)
            (λ bs on.
              Answers-pure _ (exists (is_tip json ts) bs, refl, found_on d id.id ts bs active on))))
      where
        tips : Answers d (All (IsActive d)) list_active
        tips =
            Answers-rows (All (IsActive d)) _
              (All-kept (IsActive d) (is_status "active") d.chaintips (λ t r a. (r, a)))

    tx_is_active-Total : Total (tx_is_active json params)
    unfolding tx_is_active
    tx_is_active-Total = rw parses (
        Total-or_answer (error internal_error) list_active _ (λ ts.
          Total-or_answer (error internal_error) (tx_block_and_descendants id.id) _
            (λ bs. Total-pure _)))

    answers_parsed :
        (c : Conn)
        → (r : Reply V) × ((tx_is_active json params c).0 ≡ ok r) × IsActiveReply c.db id.id r
    answers_parsed c =
        let (r, e) = tx_is_active-Total.at c in
        (r, e, ((tx_is_active-Answers c.db).at c refl).1 r e)

  refused :
      (params : P) (c : Conn)
      → json.tx_id params ≡ none
      → (tx_is_active json params c).0 ≡ ok (error invalid_params)
  unfolding tx_is_active
  refused params c missing = rw missing refl

  -- Whichever statements fail: `tx_is_active` answers that the parameters are invalid exactly if they
  -- hold no transaction id. Otherwise it answers a Boolean or the internal error, and where it answers
  -- that the transaction is active, an active tip is at a block that holds the transaction, or at a
  -- block above it by the parent hashes of the table.
  pub tx_is_active-IsActiveReply :
      (params : P) (c : Conn)
      → (r : Reply V) × ((tx_is_active json params c).0 ≡ ok r)
        × IsTxReply c.db (json.tx_id params) r
  tx_is_active-IsActiveReply params c = elim (Option-cases (json.tx_id params)) [
    | inl missing ↦ rw missing (error invalid_params, refused params c missing, refl)
    | inr (id, parses) ↦ rw parses (answers_parsed params id parses c)
  ]
