-- ===== src/Scanner/Process/Preserved.antt =====
-- The queries that a scanner pass writes with, as an interface: a property of the tables that all
-- of them keep. The properties of the blocks and of the chain tips fill it.
use forkscanner.Prelude.{
  ℕ, ◌≡◌, refl, sym, subst, text_comparable, String, Bool, false, not, List, arith, ◌==◌,
}
use forkscanner.Models.Rows.{
  DbError, QueryResult, ok, err, Block, Chaintip, Transaction, TransactionAddress,
}
use forkscanner.Models.Query.{Db, Statement, execute}
use forkscanner.Models.Query.Keeps.{
  Keeps, Keeps-execute, Keeps-bind, Keeps-try, Keeps-select, Keeps-pure, Keeps-fail, Keeps-if,
  Keeps-transaction,
}
use forkscanner.Models.Chaintips
use forkscanner.Models.Chaintips.{insert_tip, write_active, set_active_tip, get_active}
use forkscanner.Models.Blocks
use forkscanner.Models.Blocks.{
  Header, get_or_create, create_or_touch, insert_and_connect, insert_block, update_block,
  insert_valid, insert_invalid,
}
use forkscanner.Models.Transactions
use forkscanner.Models.Transactions.{insert_transaction}

pub record IsPreserved (P : Db → Type 0) : Type 0 where
  pub active_tip :
      (height : ℕ) (hash : String) (node_id : ℕ) → Keeps P (set_active_tip height hash node_id)
  pub invalid_fork :
      (height : ℕ) (hash : String) (node_id : ℕ)
      → Keeps P (Chaintips.set_invalid_fork height hash node_id)
  pub valid_fork :
      (height : ℕ) (hash : String) (node_id : ℕ)
      → Keeps P (Chaintips.set_valid_fork height hash node_id)
  pub created :
      (headers_only : Bool) (node_id : ℕ) (bh : Header)
      → Keeps P (get_or_create headers_only node_id bh)
  pub written : (b : Block) → b.connected ≡ false → Keeps P (Blocks.update b)
  pub invalid_mark :
      (hash : String) (node_id now : ℕ) → Keeps P (Blocks.set_invalid hash node_id now)
  pub valid_mark : (hash : String) (node_id now : ℕ) → Keeps P (Blocks.set_valid hash node_id now)
  pub transaction_row :
      (sweep : Bool) (block : String) (idx : ℕ) (tx_id tx_hex : String) (amount : ℕ)
      → Keeps P (Transactions.create sweep block idx tx_id tx_hex amount)
  pub addresses : (rows : List TransactionAddress) → Keeps P (Transactions.insert_addresses rows)

insert_tip-blocks :
    (node_id : ℕ) (status hash : String) (height : ℕ) (d : Db)
    → (insert_tip node_id status hash height d).1.blocks ≡ d.blocks
unfolding insert_tip
insert_tip-blocks node_id status hash height d = ground arith

insert_valid-blocks :
    (hash : String) (node_id now : ℕ) (d : Db)
    → (insert_valid hash node_id now d).1.blocks ≡ d.blocks
unfolding insert_valid
insert_valid-blocks hash node_id now d = ground arith

insert_invalid-blocks :
    (hash : String) (node_id now : ℕ) (d : Db)
    → (insert_invalid hash node_id now d).1.blocks ≡ d.blocks
unfolding insert_invalid
insert_invalid-blocks hash node_id now d = ground arith

insert_transaction-blocks :
    (t : Transaction) (d : Db) → (insert_transaction t d).1.blocks ≡ d.blocks
unfolding insert_transaction
insert_transaction-blocks t d = ground arith

insert_valid-chaintips :
    (hash : String) (node_id now : ℕ) (d : Db)
    → (insert_valid hash node_id now d).1.chaintips ≡ d.chaintips
unfolding insert_valid
insert_valid-chaintips hash node_id now d = ground arith

insert_invalid-chaintips :
    (hash : String) (node_id now : ℕ) (d : Db)
    → (insert_invalid hash node_id now d).1.chaintips ≡ d.chaintips
unfolding insert_invalid
insert_invalid-chaintips hash node_id now d = ground arith

insert_transaction-chaintips :
    (t : Transaction) (d : Db) → (insert_transaction t d).1.chaintips ≡ d.chaintips
unfolding insert_transaction
insert_transaction-chaintips t d = ground arith

insert_block-chaintips : (b : Block) (d : Db) → (insert_block b d).1.chaintips ≡ d.chaintips
unfolding insert_block
insert_block-chaintips b d = ground arith

-- A property of the blocks alone needs no more than the queries that write blocks.
module _ (R : List Block → Type 0) where
  framed :
      {A : Type 0} (q : Statement A)
      → ((d : Db) → (q d).1.blocks ≡ d.blocks)
      → Keeps (λ d. R d.blocks) (execute q)
  framed q same = Keeps-execute q (λ d h. subst R (sym (same d)) h)

  write_active-framed :
      (height : ℕ) (hash : String) (node_id : ℕ) (r : QueryResult Chaintip)
      → Keeps (λ d. R d.blocks) (write_active height hash node_id r)
  unfolding write_active Chaintips.clear_parent Chaintips.move_tip
  write_active-framed height hash node_id (ok t) =
      Keeps-if (not (t.block == hash)) _ _
        (Keeps-bind _ _ (framed _ (λ d. refl)) (λ _. framed _ (λ d. refl))) (Keeps-pure 0)
  write_active-framed height hash node_id (err DbError.not_found) =
      framed _ (insert_tip-blocks node_id "active" hash height)
  write_active-framed height hash node_id (err e) = Keeps-fail e

  pub blocks-IsPreserved :
      ((headers_only : Bool) (node_id : ℕ) (bh : Header)
        → Keeps (λ d. R d.blocks) (get_or_create headers_only node_id bh))
      → ((b : Block) → b.connected ≡ false → Keeps (λ d. R d.blocks) (Blocks.update b))
      → IsPreserved (λ d. R d.blocks)
  unfolding set_active_tip get_active Chaintips.set_invalid_fork Chaintips.set_valid_fork
      Blocks.set_invalid Blocks.set_valid Transactions.create Transactions.insert_addresses
  blocks-IsPreserved create write = record {
    active_tip = λ height hash node_id.
        Keeps-bind _ _ (Keeps-try _ (Keeps-select _)) (write_active-framed height hash node_id);
    invalid_fork =
        λ height hash node_id. framed _ (insert_tip-blocks node_id "invalid" hash height);
    valid_fork =
        λ height hash node_id. framed _ (insert_tip-blocks node_id "valid-fork" hash height);
    created = create;
    written = write;
    invalid_mark = λ hash node_id now. framed _ (insert_invalid-blocks hash node_id now);
    valid_mark = λ hash node_id now. framed _ (insert_valid-blocks hash node_id now);
    transaction_row = λ sweep block idx tx_id tx_hex amount. framed _ (insert_transaction-blocks _);
    addresses = λ rows. framed _ (λ d. refl);
  }

-- The same for the chain tips.
module _ (R : List Chaintip → Type 0) where
  framed_tips :
      {A : Type 0} (q : Statement A)
      → ((d : Db) → (q d).1.chaintips ≡ d.chaintips)
      → Keeps (λ d. R d.chaintips) (execute q)
  framed_tips q same = Keeps-execute q (λ d h. subst R (sym (same d)) h)

  create_or_touch-framed :
      (headers_only : Bool) (node_id : ℕ) (bh : Header) (r : QueryResult Block)
      → Keeps (λ d. R d.chaintips) (create_or_touch headers_only node_id bh r)
  unfolding create_or_touch insert_and_connect Blocks.insert Blocks.update update_block
      Blocks.set_connected
  create_or_touch-framed headers_only node_id bh (err DbError.not_found) =
      Keeps-bind _ _
        (Keeps-transaction _ (
          Keeps-bind _ _ (framed_tips _ (insert_block-chaintips _))
            (λ _. framed_tips _ (λ d. refl))))
        (λ _. Keeps-pure _)
  create_or_touch-framed headers_only node_id bh (ok found) =
      Keeps-bind _ _ (framed_tips _ (λ d. refl)) (λ _. Keeps-pure _)
  create_or_touch-framed headers_only node_id bh (err e) = Keeps-fail e

  pub chaintips-IsPreserved :
      ((height : ℕ) (hash : String) (node_id : ℕ)
        → Keeps (λ d. R d.chaintips) (set_active_tip height hash node_id))
      → ((height : ℕ) (hash : String) (node_id : ℕ)
          → Keeps (λ d. R d.chaintips) (Chaintips.set_invalid_fork height hash node_id))
      → ((height : ℕ) (hash : String) (node_id : ℕ)
          → Keeps (λ d. R d.chaintips) (Chaintips.set_valid_fork height hash node_id))
      → IsPreserved (λ d. R d.chaintips)
  unfolding get_or_create Blocks.get Blocks.update update_block Blocks.set_invalid Blocks.set_valid
      Transactions.create Transactions.insert_addresses
  chaintips-IsPreserved move invalid valid = record {
    active_tip = move;
    invalid_fork = invalid;
    valid_fork = valid;
    created = λ headers_only node_id bh.
        Keeps-bind _ _ (Keeps-try _ (Keeps-select _))
          (create_or_touch-framed headers_only node_id bh);
    written = λ b _. framed_tips _ (λ d. refl);
    invalid_mark = λ hash node_id now. framed_tips _ (insert_invalid-chaintips hash node_id now);
    valid_mark = λ hash node_id now. framed_tips _ (insert_valid-chaintips hash node_id now);
    transaction_row =
        λ sweep block idx tx_id tx_hex amount. framed_tips _ (insert_transaction-chaintips _);
    addresses = λ rows. framed_tips _ (λ d. refl);
  }
