-- ===== src/Orders/Bookings.antt =====
-- backend/src/modules/orders/accounting.service.ts: the ledger entry of each money movement.
use skrynia.Prelude.{List, [], ◌∷◌, ◌++◌, Option, none, some, ℕ, if◌then◌else◌}
use skrynia.Prelude.Int.{ℤ, pos, ltb_ℤ}
use skrynia.Domain.Enums.{CurrencyCode}
use skrynia.Domain.Money.{assert_postgres_bigint_range, subtract_money_cents, absolute_money_cents}
use skrynia.Db.Keys.{
  LedgerKey, provider_clearing, seller_escrow, user_payable, platform_revenue,
  manual_adjustment_equity, payment_capture_key, escrow_release_key, refund_key, wallet_topup_key,
  wallet_withdrawal_key, withdrawal_reversal_key, manual_adjustment_key,
}
use skrynia.Db.Rows.{
  asset, liability, revenue, equity, capture_entry, release_entry, refund_entry, adjustment_entry,
}
use skrynia.Db.Tx.{Tx, ◌>>=◌, lift}
use skrynia.Orders.Accounting.{
  LedgerLineInput, LedgerEntryInput, debit_line, credit_line, post_ledger_entry,
}

-- `recordPaymentCaptureLedger`.
unfoldable pub payment_capture_entry : ℕ → ℕ → ℤ → CurrencyCode → LedgerEntryInput
payment_capture_entry order seller amount c = record {
  idempotency_key = payment_capture_key order;
  entry_type = capture_entry;
  order_id = some order;
  currency = c;
  lines =
      debit_line (provider_clearing c) asset none amount
      ∷ credit_line (seller_escrow c seller) liability (some seller) amount
      ∷ [];
}

unfoldable pub record_payment_capture_ledger : ℕ → ℕ → ℤ → CurrencyCode → Tx (Option LedgerKey)
record_payment_capture_ledger order seller amount c =
    post_ledger_entry (payment_capture_entry order seller amount c)

-- The credit lines of a release: a line of zero cents is left out.
unfoldable pub positive_line : ℤ → LedgerLineInput → List LedgerLineInput
positive_line v l = if ltb_ℤ (pos 0) v then l ∷ [] else []

unfoldable pub escrow_release_entry : ℕ → ℕ → ℤ → ℤ → ℤ → CurrencyCode → LedgerEntryInput
unfolding positive_line
escrow_release_entry order seller amount net fee c = record {
  idempotency_key = escrow_release_key order;
  entry_type = release_entry;
  order_id = some order;
  currency = c;
  lines =
      debit_line (seller_escrow c seller) liability (some seller) amount
      ∷ (positive_line net (credit_line (user_payable c seller) liability (some seller) net)
          ++ positive_line fee (credit_line (platform_revenue c) revenue none fee));
}

-- `recordEscrowReleaseLedger`.
unfoldable pub record_escrow_release_ledger : ℕ → ℕ → ℤ → ℤ → CurrencyCode → Tx (Option LedgerKey)
record_escrow_release_ledger order seller amount fee c = do
  net ← lift (subtract_money_cents amount fee)
  post_ledger_entry (escrow_release_entry order seller amount net fee c)

unfoldable pub wallet_topup_entry : ℕ → ℕ → ℤ → CurrencyCode → LedgerEntryInput
wallet_topup_entry topup user amount c = record {
  idempotency_key = wallet_topup_key topup;
  entry_type = adjustment_entry;
  order_id = none;
  currency = c;
  lines =
      debit_line (provider_clearing c) asset none amount
      ∷ credit_line (user_payable c user) liability (some user) amount
      ∷ [];
}

-- `recordWalletTopupLedger`.
unfoldable pub record_wallet_topup_ledger : ℕ → ℕ → ℤ → CurrencyCode → Tx (Option LedgerKey)
record_wallet_topup_ledger topup user amount c =
    post_ledger_entry (wallet_topup_entry topup user amount c)

unfoldable pub wallet_withdrawal_entry : ℕ → ℕ → ℤ → CurrencyCode → LedgerEntryInput
wallet_withdrawal_entry tx user amount c = record {
  idempotency_key = wallet_withdrawal_key tx;
  entry_type = adjustment_entry;
  order_id = none;
  currency = c;
  lines =
      debit_line (user_payable c user) liability (some user) amount
      ∷ credit_line (provider_clearing c) asset none amount
      ∷ [];
}

-- `recordWalletWithdrawalLedger`.
unfoldable pub record_wallet_withdrawal_ledger : ℕ → ℕ → ℤ → CurrencyCode → Tx (Option LedgerKey)
record_wallet_withdrawal_ledger tx user amount c =
    post_ledger_entry (wallet_withdrawal_entry tx user amount c)

unfoldable pub withdrawal_reversal_entry : ℕ → ℕ → ℤ → CurrencyCode → LedgerEntryInput
withdrawal_reversal_entry tx user amount c = record {
  idempotency_key = withdrawal_reversal_key tx;
  entry_type = adjustment_entry;
  order_id = none;
  currency = c;
  lines =
      debit_line (provider_clearing c) asset none amount
      ∷ credit_line (user_payable c user) liability (some user) amount
      ∷ [];
}

-- `recordWalletWithdrawalReversalLedger`.
unfoldable pub record_wallet_withdrawal_reversal_ledger :
    ℕ → ℕ → ℤ → CurrencyCode → Tx (Option LedgerKey)
record_wallet_withdrawal_reversal_ledger tx user amount c =
    post_ledger_entry (withdrawal_reversal_entry tx user amount c)

-- The two lines of a manual adjustment, by its sign.
unfoldable pub manual_adjustment_entry : ℕ → ℕ → ℤ → ℤ → CurrencyCode → LedgerEntryInput
manual_adjustment_entry adjustment user signed magnitude c = record {
  idempotency_key = manual_adjustment_key adjustment;
  entry_type = adjustment_entry;
  order_id = none;
  currency = c;
  lines =
      if ltb_ℤ signed (pos 0)
      then credit_line (manual_adjustment_equity c) equity none magnitude
        ∷ debit_line (user_payable c user) liability (some user) magnitude
        ∷ []
      else debit_line (manual_adjustment_equity c) equity none magnitude
        ∷ credit_line (user_payable c user) liability (some user) magnitude
        ∷ [];
}

-- `recordManualAdjustmentLedger`.
unfoldable pub record_manual_adjustment_ledger : ℕ → ℕ → ℤ → CurrencyCode → Tx (Option LedgerKey)
record_manual_adjustment_ledger adjustment user amount c = do
  signed ← lift (assert_postgres_bigint_range amount)
  magnitude ← lift (absolute_money_cents amount)
  post_ledger_entry (manual_adjustment_entry adjustment user signed magnitude c)

unfoldable pub order_refund_entry : ℕ → ℕ → ℕ → ℤ → CurrencyCode → LedgerEntryInput
order_refund_entry order seller buyer amount c = record {
  idempotency_key = refund_key order;
  entry_type = refund_entry;
  order_id = some order;
  currency = c;
  lines =
      debit_line (seller_escrow c seller) liability (some seller) amount
      ∷ credit_line (user_payable c buyer) liability (some buyer) amount
      ∷ [];
}

-- `recordRefundLedger`.
unfoldable pub record_refund_ledger : ℕ → ℕ → ℕ → ℤ → CurrencyCode → Tx (Option LedgerKey)
record_refund_ledger order seller buyer amount c =
    post_ledger_entry (order_refund_entry order seller buyer amount c)
