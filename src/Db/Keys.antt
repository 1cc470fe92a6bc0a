-- ===== src/Db/Keys.antt =====
-- Keys of the tables with a unique text column: the account codes and idempotency keys of
-- backend/src/modules/orders/accounting.service.ts, and the event keys of the outbox. The source
-- joins a kind, a currency and ids by colons; no id holds a colon, so a constructor for each
-- template, with its ids, names the same set of texts.
use skrynia.Prelude.{ℕ, Bool, true, false, ◌&&◌, ◌≡◌, ◌↔◌, ◌==◌, arith}
use skrynia.Prelude.Table.{Eq}
use skrynia.Domain.Enums.{CurrencyCode, same_currency, same_currency_iff}

-- `ledgerAccountCodes`, and the equity account of manual adjustments.
pub data AccountCode : Type 0 where
  provider_clearing platform_revenue manual_adjustment_equity : CurrencyCode → AccountCode
  seller_escrow user_payable : CurrencyCode → ℕ → AccountCode

abbrev pub same_account : AccountCode → AccountCode → Bool
same_account (provider_clearing c) (provider_clearing d) = same_currency c d
same_account (platform_revenue c) (platform_revenue d) = same_currency c d
same_account (manual_adjustment_equity c) (manual_adjustment_equity d) = same_currency c d
same_account (seller_escrow c u) (seller_escrow d v) = same_currency c d && u == v
same_account (user_payable c u) (user_payable d v) = same_currency c d && u == v
same_account _ _ = false

pub same_account_iff : (a b : AccountCode) → (same_account a b ≡ true) ↔ (a ≡ b)
same_account_iff a b = ((λ h. ground arith), (λ h. ground arith))

-- The idempotency keys of ledger entries.
pub data LedgerKey : Type 0 where
  payment_capture_key escrow_release_key refund_key : ℕ → LedgerKey
  wallet_topup_key wallet_withdrawal_key withdrawal_reversal_key : ℕ → LedgerKey
  manual_adjustment_key : ℕ → LedgerKey

abbrev pub same_key : LedgerKey → LedgerKey → Bool
same_key (payment_capture_key a) (payment_capture_key b) = a == b
same_key (escrow_release_key a) (escrow_release_key b) = a == b
same_key (refund_key a) (refund_key b) = a == b
same_key (wallet_topup_key a) (wallet_topup_key b) = a == b
same_key (wallet_withdrawal_key a) (wallet_withdrawal_key b) = a == b
same_key (withdrawal_reversal_key a) (withdrawal_reversal_key b) = a == b
same_key (manual_adjustment_key a) (manual_adjustment_key b) = a == b
same_key _ _ = false

pub same_key_iff : (a b : LedgerKey) → (same_key a b ≡ true) ↔ (a ≡ b)
same_key_iff a b = ((λ h. ground arith), (λ h. ground arith))

-- A wallet is unique for its user and currency, so the pair stands for its id.
pub record WalletId : Type 0 where
  pub user_id : ℕ
  pub currency : CurrencyCode

abbrev pub same_wallet : WalletId → WalletId → Bool
same_wallet a b = a.user_id == b.user_id && same_currency a.currency b.currency

pub same_wallet_iff : (a b : WalletId) → (same_wallet a b ≡ true) ↔ (a ≡ b)
same_wallet_iff a b =
    ((λ h. ground (arith, same_currency_iff a.currency b.currency)), (λ h. ground arith))

-- The event keys of the domain outbox.
pub data EventKey : Type 0 where
  order_paid order_canceled order_started order_delivered : ℕ → EventKey
  order_completed order_refunded dispute_opened_event : ℕ → EventKey
  order_created review_created : ℕ → EventKey
  dispute_resolved_event : ℕ → ℕ → EventKey

abbrev pub same_event_key : EventKey → EventKey → Bool
same_event_key (order_paid a) (order_paid b) = a == b
same_event_key (order_canceled a) (order_canceled b) = a == b
same_event_key (order_started a) (order_started b) = a == b
same_event_key (order_delivered a) (order_delivered b) = a == b
same_event_key (order_completed a) (order_completed b) = a == b
same_event_key (order_refunded a) (order_refunded b) = a == b
same_event_key (dispute_opened_event a) (dispute_opened_event b) = a == b
same_event_key (order_created a) (order_created b) = a == b
same_event_key (review_created a) (review_created b) = a == b
same_event_key (dispute_resolved_event a m) (dispute_resolved_event b n) = a == b && m == n
same_event_key _ _ = false

pub same_event_key_iff : (a b : EventKey) → (same_event_key a b ≡ true) ↔ (a ≡ b)
same_event_key_iff a b = ((λ h. ground arith), (λ h. ground arith))

instance abbrev pub account_eq : Eq AccountCode
account_eq = record { beq = same_account; beq_iff = same_account_iff }

instance abbrev pub key_eq : Eq LedgerKey
key_eq = record { beq = same_key; beq_iff = same_key_iff }

instance abbrev pub wallet_eq : Eq WalletId
wallet_eq = record { beq = same_wallet; beq_iff = same_wallet_iff }

instance abbrev pub event_key_eq : Eq EventKey
event_key_eq = record { beq = same_event_key; beq_iff = same_event_key_iff }
