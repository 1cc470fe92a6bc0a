-- ===== src/Db/Requests.antt =====
-- Which statements leave the requests alone: the tables of disputes, top-ups and payouts.
use skrynia.Prelude.{ℕ, ◌≡◌, refl, Option, arith}
use skrynia.Prelude.Int.{ℤ}
use skrynia.Domain.Enums.{CurrencyCode}
use skrynia.Db.Keys.{WalletId}
use skrynia.Db.Rows.{
  Db, OrderRow, WalletRow, OrderEvent, OutboxRow, TransactionType, TransactionStatus, Direction,
}
use skrynia.Db.Keeps.{Keeps, Keeps-reading, keeps_rules}
use skrynia.Db.Tables.{
  fresh_id, select_wallet, update_wallet, select_platform_wallet, update_platform_wallet,
  insert_transaction, select_order, update_order, select_product, take_stock, add_sales,
  record_order_event, create_order_system_message, enqueue_domain_event,
}

pub record SameRequests (d d' : Db) : Type 0 where
  pub disputes : d'.disputes ≡ d.disputes
  pub topups : d'.topups ≡ d.topups
  pub payouts : d'.payouts ≡ d.payouts

pub SameRequests-refl : (d : Db) → SameRequests d d
SameRequests-refl d = record { disputes = refl; topups = refl; payouts = refl }

module _ (o : Db) where
  abbrev pub Rest : Db → Type 0
  Rest = SameRequests o

module _ {o : Db} where
  pub fresh_id-Rest : Keeps (Rest o) fresh_id
  unfolding fresh_id
  fresh_id-Rest = record { at = λ d a d' h e. ground arith }

  pub select_wallet-Rest : (w : WalletId) → Keeps (Rest o) (select_wallet w)
  unfolding select_wallet
  select_wallet-Rest w = Keeps-reading _

  pub update_wallet-Rest :
      (w : WalletId) (f : WalletRow → WalletRow) → Keeps (Rest o) (update_wallet w f)
  unfolding update_wallet
  update_wallet-Rest w f = record { at = λ d a d' h e. ground arith }

  pub select_platform_wallet-Rest : (c : CurrencyCode) → Keeps (Rest o) (select_platform_wallet c)
  unfolding select_platform_wallet
  select_platform_wallet-Rest c = record { at = λ d a d' h e. ground arith }

  pub update_platform_wallet-Rest :
      (c : CurrencyCode) (v : ℤ) → Keeps (Rest o) (update_platform_wallet c v)
  unfolding update_platform_wallet
  update_platform_wallet-Rest c v = record { at = λ d a d' h e. ground arith }

  pub insert_transaction-Rest :
      (w : WalletId) (n : Option ℕ) (t : TransactionType) (x : Direction) (a : ℤ)
      (s : TransactionStatus)
      → Keeps (Rest o) (insert_transaction w n t x a s)
  unfolding insert_transaction
  insert_transaction-Rest w n t x a s = record { at = λ d a d' h e. ground arith }

  pub select_order-Rest : (n : ℕ) → Keeps (Rest o) (select_order n)
  unfolding select_order
  select_order-Rest n = Keeps-reading _

  pub update_order-Rest : (x : OrderRow) → Keeps (Rest o) (update_order x)
  unfolding update_order
  update_order-Rest x = record { at = λ d a d' h e. ground arith }

  pub select_product-Rest : (n : ℕ) → Keeps (Rest o) (select_product n)
  unfolding select_product
  select_product-Rest n = record { at = λ d a d' h e. ground arith }

  pub take_stock-Rest : (n q : ℕ) → Keeps (Rest o) (take_stock n q)
  unfolding take_stock
  take_stock-Rest n q = record { at = λ d a d' h e. ground arith }

  pub add_sales-Rest : (n q : ℕ) → Keeps (Rest o) (add_sales n q)
  unfolding add_sales
  add_sales-Rest n q = record { at = λ d a d' h e. ground arith }

  pub record_order_event-Rest : (x : OrderEvent) → Keeps (Rest o) (record_order_event x)
  unfolding record_order_event
  record_order_event-Rest x = record { at = λ d a d' h e. ground arith }

  pub create_order_system_message-Rest : (n : ℕ) → Keeps (Rest o) (create_order_system_message n)
  unfolding create_order_system_message
  create_order_system_message-Rest n = record { at = λ d a d' h e. ground arith }

  pub enqueue_domain_event-Rest : (x : OutboxRow) → Keeps (Rest o) (enqueue_domain_event x)
  unfolding enqueue_domain_event
  enqueue_domain_event-Rest x = record { at = λ d a d' h e. ground arith }

pub ruleset rest_rules = (
  keeps_rules, fresh_id-Rest, select_wallet-Rest, update_wallet-Rest, select_platform_wallet-Rest,
  update_platform_wallet-Rest, insert_transaction-Rest, select_order-Rest, update_order-Rest,
  select_product-Rest, take_stock-Rest, add_sales-Rest, record_order_event-Rest,
  create_order_system_message-Rest, enqueue_domain_event-Rest,
)
