-- ===== src/Db/Rows.antt =====
-- The rows of the tables (backend/migrations/1782518994595_initial-schema.sql and the migrations
-- after it), as far as the modelled services read or write them. Ids are numbers; times are
-- milliseconds; a `metadata` column keeps only what some code reads back, and a
-- column for the text of an error keeps the error.
use skrynia.Prelude.{ℕ, String, List, Option}
use skrynia.Prelude.Int.{ℤ}
use skrynia.Prelude.Table.{Table}
use skrynia.Common.Errors.{Error}
use skrynia.Domain.Enums.{
  OrderStatus, ProductStatus, DisputeStatus, DisputeDecision, DeliveryType, Role, CurrencyCode,
}
use skrynia.Db.Keys.{AccountCode, LedgerKey, WalletId, EventKey}

pub record WalletRow : Type 0 where
  pub available_cents : ℤ
  pub escrow_cents : ℤ

pub data PaymentProviderName : Type 0 where
  mock stripe liqpay fondy monobank manual_transfer wayforpay : PaymentProviderName

pub record OrderRow : Type 0 where
  pub id : ℕ
  pub buyer_id : ℕ
  pub seller_id : ℕ
  pub product_id : ℕ
  pub quantity : ℕ
  pub amount_cents : ℤ
  pub fee_cents : ℤ
  pub currency : CurrencyCode
  pub status : OrderStatus
  pub payment_provider : Option PaymentProviderName
  pub payment_reference : Option String
  pub delivery_note : Option String
  pub auto_release_at : Option ℕ
  pub paid_at : Option ℕ
  pub delivered_at : Option ℕ
  pub completed_at : Option ℕ
  pub updated_at : ℕ

pub record ProductRow : Type 0 where
  pub seller_id : ℕ
  pub price_cents : ℤ
  pub currency : CurrencyCode
  pub stock : ℕ
  pub status : ProductStatus
  pub delivery_type : DeliveryType
  pub delivery_template : Option String
  pub sales_count : ℕ

pub data TransactionType : Type 0 where
  payment_capture escrow_hold escrow_release platform_fee refunded_payment : TransactionType
  wallet_credit wallet_debit manual_adjustment : TransactionType

pub data Direction : Type 0 where
  credit debit neutral : Direction

pub data TransactionStatus : Type 0 where
  pending_tx posted voided : TransactionStatus

pub record TransactionRow : Type 0 where
  pub id : ℕ
  pub wallet_id : WalletId
  pub order_id : Option ℕ
  pub type : TransactionType
  pub direction : Direction
  pub amount_cents : ℤ
  pub status : TransactionStatus

pub data AccountType : Type 0 where
  asset liability revenue expense equity : AccountType

pub record AccountRow : Type 0 where
  pub account_type : AccountType
  pub currency : CurrencyCode
  pub user_id : Option ℕ

pub data EntryType : Type 0 where
  capture_entry release_entry refund_entry adjustment_entry : EntryType

pub record EntryRow : Type 0 where
  pub entry_type : EntryType
  pub order_id : Option ℕ
  pub currency : CurrencyCode

-- An entry and an account are named by their unique columns.
pub record LedgerLine : Type 0 where
  pub entry : LedgerKey
  pub account : AccountCode
  pub debit_cents : ℤ
  pub credit_cents : ℤ

pub record Ledger : Type 0 where
  pub accounts : Table AccountCode AccountRow
  pub entries : Table LedgerKey EntryRow
  pub lines : List LedgerLine

pub data OrderTransitionRole : Type 0 where
  buyer seller participant admin_role : OrderTransitionRole
  payment_provider_role auto_release test_payment system : OrderTransitionRole

-- `OrderTransitionActor`: a user or a service; the id of a service other than the test payment
-- is a fixed name and is `none` here.
pub record OrderTransitionActor : Type 0 where
  pub id : Option ℕ
  pub role : OrderTransitionRole

pub data OrderTransitionReason : Type 0 where
  payment_captured test_payment_failed seller_started seller_delivered : OrderTransitionReason
  buyer_confirmed auto_released dispute_opened dispute_released : OrderTransitionReason
  dispute_refunded service_released service_refunded : OrderTransitionReason

pub data OrderEventType : Type 0 where
  paid_event canceled_event started_event delivered_event : OrderEventType
  completed_event auto_released_event disputed_event refunded_event : OrderEventType
  dispute_resolved created_event review_event : OrderEventType

-- `metadata.transition` of a timeline row.
pub record Transition : Type 0 where
  pub from : OrderStatus
  pub to : OrderStatus
  pub reason : OrderTransitionReason
  pub actor : OrderTransitionActor

pub record OrderEvent : Type 0 where
  pub order_id : ℕ
  pub actor_id : Option ℕ
  pub type : OrderEventType
  pub body : Option String
  pub transition : Option Transition

pub data OutboxStatus : Type 0 where
  pending_event processing processed failed : OutboxStatus

pub record OutboxRow : Type 0 where
  pub event_key : EventKey
  pub order_id : ℕ
  pub system_message_ids : List ℕ
  pub status : OutboxStatus
  pub attempts : ℕ
  pub available_at : ℕ
  pub locked_at : Option ℕ
  pub locked_by : Option ℕ
  pub processed_at : Option ℕ
  pub last_error : Option Error
  pub created_at : ℕ

pub data TopupStatus : Type 0 where
  pending_topup completed_topup failed_topup : TopupStatus

pub record TopupRow : Type 0 where
  pub user_id : ℕ
  pub amount_cents : ℤ
  pub currency : CurrencyCode
  pub status : TopupStatus
  pub payment_provider : Option String
  pub payment_reference : Option String

pub data PayoutStatus : Type 0 where
  pending_payout processing_payout paid_payout rejected_payout : PayoutStatus

pub data PayoutProviderName : Type 0 where
  manual_payout liqpay_payout : PayoutProviderName

pub record PayoutRow : Type 0 where
  pub user_id : ℕ
  pub transaction_id : ℕ
  pub amount_cents : ℤ
  pub currency : CurrencyCode
  pub provider : PayoutProviderName
  pub destination : String
  pub status : PayoutStatus
  pub reference : Option String
  pub admin_note : Option String
  pub processed_by : Option ℕ

pub record DisputeRow : Type 0 where
  pub order_id : ℕ
  pub status : DisputeStatus
  pub resolution : Option DisputeDecision
  pub resolution_decision : Option DisputeDecision
  pub resolution_operation_id : Option ℕ
  pub resolving_started_at : Option ℕ
  pub resolution_attempts : ℕ
  pub last_resolution_error : Option Error
  pub admin_id : Option ℕ
  pub admin_note : Option String
  pub resolved_at : Option ℕ

-- The row of an order in `reviews`, whose `order_id` is unique.
pub record ReviewRow : Type 0 where
  pub id : ℕ
  pub seller_id : ℕ
  pub buyer_id : ℕ
  pub rating : ℕ
  pub comment : Option String

-- The database: `now` is the time of the running transaction, `next_id` the next
-- generated id, `banned` the users with `is_banned`.
pub record Db : Type 0 where
  pub now : ℕ
  pub next_id : ℕ
  pub users : Table ℕ Role
  pub banned : List ℕ
  pub orders : Table ℕ OrderRow
  pub products : Table ℕ ProductRow
  pub wallets : Table WalletId WalletRow
  pub platform_wallets : Table CurrencyCode ℤ
  pub transactions : List TransactionRow
  pub ledger : Ledger
  pub order_events : List OrderEvent
  pub outbox : Table EventKey OutboxRow
  pub conversations : Table ℕ ℕ
  pub messages : List ℕ
  pub topups : Table ℕ TopupRow
  pub payouts : Table ℕ PayoutRow
  pub disputes : Table ℕ DisputeRow
  pub reviews : Table ℕ ReviewRow
