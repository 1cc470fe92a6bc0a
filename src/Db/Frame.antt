-- ===== src/Db/Frame.antt =====
-- Which steps leave the money alone: the tables that hold balances, and the ledger.
use skrynia.Prelude.{ℕ, ◌≡◌, refl, Option, arith, ◌∙◌}
use skrynia.Common.Errors.{ok}
use skrynia.Db.Rows.{
  Db, OrderRow, OrderEvent, OutboxRow, TopupRow, PayoutRow, TransactionType, TransactionStatus,
  Direction,
}
use skrynia.Db.Keys.{WalletId}
use skrynia.Prelude.Int.{ℤ}
use skrynia.Db.Tables.{
  insert_transaction, update_order, take_stock, add_sales, record_order_event,
  create_order_system_message, enqueue_domain_event, update_topup, update_payout, insert_payout,
  insert_order, open_conversation, create_system_message,
}

pub record SameFunds (d d' : Db) : Type 0 where
  pub wallets : d'.wallets ≡ d.wallets
  pub platform_wallets : d'.platform_wallets ≡ d.platform_wallets
  pub ledger : d'.ledger ≡ d.ledger

pub SameFunds-refl : (d : Db) → SameFunds d d
SameFunds-refl d = record { wallets = refl; platform_wallets = refl; ledger = refl }

pub SameFunds-trans : {a b c : Db} → SameFunds a b → SameFunds b c → SameFunds a c
SameFunds-trans p q = record {
  wallets = q.wallets ∙ p.wallets;
  platform_wallets = q.platform_wallets ∙ p.platform_wallets;
  ledger = q.ledger ∙ p.ledger;
}

module _ (d : Db) {d' : Db} where
  pub insert_transaction-SameFunds :
      (w : WalletId) (o : Option ℕ) (t : TransactionType) (x : Direction) (a : ℤ)
      (s : TransactionStatus) {n : ℕ}
      → insert_transaction w o t x a s d ≡ ok (n, d')
      → SameFunds d d'
  unfolding insert_transaction
  insert_transaction-SameFunds w o t x a s h = ground arith

  -- The id of the new row.
  pub inserted_id :
      (w : WalletId) (o : Option ℕ) (t : TransactionType) (x : Direction) (a : ℤ)
      (s : TransactionStatus) {n : ℕ}
      → insert_transaction w o t x a s d ≡ ok (n, d')
      → n ≡ d.next_id
  unfolding insert_transaction
  inserted_id w o t x a s h = ground arith

  pub update_order-SameFunds :
      (o : OrderRow) {u : Unit {0}} → update_order o d ≡ ok (u, d') → SameFunds d d'
  unfolding update_order
  update_order-SameFunds o h = ground arith

  pub take_stock-SameFunds :
      (p q : ℕ) {u : Unit {0}} → take_stock p q d ≡ ok (u, d') → SameFunds d d'
  unfolding take_stock
  take_stock-SameFunds p q h = ground arith

  pub add_sales-SameFunds : (p q : ℕ) {u : Unit {0}} → add_sales p q d ≡ ok (u, d') → SameFunds d d'
  unfolding add_sales
  add_sales-SameFunds p q h = ground arith

  pub record_order_event-SameFunds :
      (e : OrderEvent) {u : Unit {0}} → record_order_event e d ≡ ok (u, d') → SameFunds d d'
  unfolding record_order_event
  record_order_event-SameFunds e h = ground arith

  pub create_order_system_message-SameFunds :
      (o : ℕ) {m : Option ℕ} → create_order_system_message o d ≡ ok (m, d') → SameFunds d d'
  unfolding create_order_system_message
  create_order_system_message-SameFunds o h = ground arith

  pub enqueue_domain_event-SameFunds :
      (e : OutboxRow) {r : OutboxRow} → enqueue_domain_event e d ≡ ok (r, d') → SameFunds d d'
  unfolding enqueue_domain_event
  enqueue_domain_event-SameFunds e h = ground arith

  pub update_topup-SameFunds :
      (id : ℕ) (t : TopupRow) {r : TopupRow} → update_topup id t d ≡ ok (r, d') → SameFunds d d'
  unfolding update_topup
  update_topup-SameFunds id t h = ground arith

  pub update_payout-SameFunds :
      (id : ℕ) (f : PayoutRow → PayoutRow) {r : PayoutRow}
      → update_payout id f d ≡ ok (r, d')
      → SameFunds d d'
  unfolding update_payout
  update_payout-SameFunds id f h = ground arith

  pub insert_payout-SameFunds :
      (p : PayoutRow) {n : ℕ} → insert_payout p d ≡ ok (n, d') → SameFunds d d'
  unfolding insert_payout
  insert_payout-SameFunds p h = ground arith

  pub insert_order-SameFunds :
      (x : OrderRow) {r : OrderRow} → insert_order x d ≡ ok (r, d') → SameFunds d d'
  unfolding insert_order
  insert_order-SameFunds x h = ground arith

  pub open_conversation-SameFunds :
      (n : ℕ) {m : ℕ} → open_conversation n d ≡ ok (m, d') → SameFunds d d'
  unfolding open_conversation
  open_conversation-SameFunds n h = ground arith

  pub create_system_message-SameFunds :
      {m : ℕ} → create_system_message d ≡ ok (m, d') → SameFunds d d'
  unfolding create_system_message
  create_system_message-SameFunds h = ground arith
