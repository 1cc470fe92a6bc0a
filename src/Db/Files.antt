-- ===== src/Db/Files.antt =====
-- Which statements leave the files alone: the tables of orders, top-ups and payouts. Ids are only
-- ever added to.
use skrynia.Prelude.{ℕ, ◌≤◌, ◌≡◌, refl, Option, arith}
use skrynia.Prelude.Int.{ℤ}
use skrynia.Domain.Enums.{CurrencyCode}
use skrynia.Db.Keys.{WalletId}
use skrynia.Db.Rows.{
  Db, WalletRow, OrderEvent, OutboxRow, ReviewRow, TransactionType, TransactionStatus, Direction,
}
use skrynia.Db.Keeps.{Keeps, Keeps-reading, keeps_rules}
use skrynia.Db.Tables.{
  fresh_id, select_wallet, update_wallet, select_platform_wallet, update_platform_wallet,
  insert_transaction, select_order, select_product, take_stock, add_sales, record_order_event,
  create_order_system_message, enqueue_domain_event, open_conversation, create_system_message,
  insert_review,
}

pub record SameFiles (d d' : Db) : Type 0 where
  pub orders : d'.orders ≡ d.orders
  pub topups : d'.topups ≡ d.topups
  pub payouts : d'.payouts ≡ d.payouts
  pub grown : d.next_id ≤ d'.next_id

pub SameFiles-refl : (d : Db) → SameFiles d d
SameFiles-refl d = record { orders = refl; topups = refl; payouts = refl; grown = omega arith }

module _ (o : Db) where
  abbrev pub Filed : Db → Type 0
  Filed = SameFiles o

module _ {o : Db} where
  pub fresh_id-Filed : Keeps (Filed o) fresh_id
  unfolding fresh_id
  fresh_id-Filed = record { at = λ d a d' h e. ground arith }

  pub select_wallet-Filed : (w : WalletId) → Keeps (Filed o) (select_wallet w)
  unfolding select_wallet
  select_wallet-Filed w = Keeps-reading _

  pub update_wallet-Filed :
      (w : WalletId) (f : WalletRow → WalletRow) → Keeps (Filed o) (update_wallet w f)
  unfolding update_wallet
  update_wallet-Filed w f = record { at = λ d a d' h e. ground arith }

  pub select_platform_wallet-Filed : (c : CurrencyCode) → Keeps (Filed o) (select_platform_wallet c)
  unfolding select_platform_wallet
  select_platform_wallet-Filed c = record { at = λ d a d' h e. ground arith }

  pub update_platform_wallet-Filed :
      (c : CurrencyCode) (v : ℤ) → Keeps (Filed o) (update_platform_wallet c v)
  unfolding update_platform_wallet
  update_platform_wallet-Filed c v = record { at = λ d a d' h e. ground arith }

  pub insert_transaction-Filed :
      (w : WalletId) (n : Option ℕ) (t : TransactionType) (x : Direction) (a : ℤ)
      (s : TransactionStatus)
      → Keeps (Filed o) (insert_transaction w n t x a s)
  unfolding insert_transaction
  insert_transaction-Filed w n t x a s = record { at = λ d a d' h e. ground arith }

  pub select_order-Filed : (n : ℕ) → Keeps (Filed o) (select_order n)
  unfolding select_order
  select_order-Filed n = Keeps-reading _

  pub select_product-Filed : (n : ℕ) → Keeps (Filed o) (select_product n)
  unfolding select_product
  select_product-Filed n = record { at = λ d a d' h e. ground arith }

  pub take_stock-Filed : (n q : ℕ) → Keeps (Filed o) (take_stock n q)
  unfolding take_stock
  take_stock-Filed n q = record { at = λ d a d' h e. ground arith }

  pub add_sales-Filed : (n q : ℕ) → Keeps (Filed o) (add_sales n q)
  unfolding add_sales
  add_sales-Filed n q = record { at = λ d a d' h e. ground arith }

  pub record_order_event-Filed : (x : OrderEvent) → Keeps (Filed o) (record_order_event x)
  unfolding record_order_event
  record_order_event-Filed x = record { at = λ d a d' h e. ground arith }

  pub create_order_system_message-Filed : (n : ℕ) → Keeps (Filed o) (create_order_system_message n)
  unfolding create_order_system_message
  create_order_system_message-Filed n = record { at = λ d a d' h e. ground arith }

  pub enqueue_domain_event-Filed : (x : OutboxRow) → Keeps (Filed o) (enqueue_domain_event x)
  unfolding enqueue_domain_event
  enqueue_domain_event-Filed x = record { at = λ d a d' h e. ground arith }

  pub open_conversation-Filed : (n : ℕ) → Keeps (Filed o) (open_conversation n)
  unfolding open_conversation
  open_conversation-Filed n = record { at = λ d a d' h e. ground arith }

  pub create_system_message-Filed : Keeps (Filed o) create_system_message
  unfolding create_system_message
  create_system_message-Filed = record { at = λ d a d' h e. ground arith }

  pub insert_review-Filed : (n : ℕ) (r : ReviewRow) → Keeps (Filed o) (insert_review n r)
  unfolding insert_review
  insert_review-Filed n r = record { at = λ d a d' h e. ground arith }

pub ruleset filed_rules = (
  keeps_rules, fresh_id-Filed, select_wallet-Filed, update_wallet-Filed,
  select_platform_wallet-Filed, update_platform_wallet-Filed, insert_transaction-Filed,
  select_order-Filed, select_product-Filed, take_stock-Filed, add_sales-Filed,
  record_order_event-Filed, create_order_system_message-Filed, enqueue_domain_event-Filed,
  open_conversation-Filed, create_system_message-Filed, insert_review-Filed,
)
