-- ===== src/Wallet.antt =====
-- backend/src/modules/users/wallet.service.ts: top-ups, withdrawals, manual adjustments and payouts.
-- Notifications and cache invalidation, after the commit, are left out.
pub mod Payouts
pub mod Balances
pub mod Agreement
pub mod Adjustments
pub mod Topups
use skrynia.Prelude.{ℕ, String, Bool, true, false, not, ◌&&◌, Option, none, some, if◌then◌else◌}
use skrynia.Prelude.Int.{ℤ, pos, ltb_ℤ, leb_ℤ, beq_ℤ}
use skrynia.Domain.Enums.{CurrencyCode}
use skrynia.Domain.Money.{
  assert_postgres_bigint_range, add_money_cents, subtract_money_cents, absolute_money_cents,
}
use skrynia.Common.Errors.{Result, bad_request}
use skrynia.Db.Keys.{WalletId}
use skrynia.Db.Rows.{
  WalletRow, TopupRow, TopupStatus, pending_topup, completed_topup, failed_topup, PayoutRow,
  pending_payout, rejected_payout, manual_payout, wallet_credit, wallet_debit, manual_adjustment,
  credit, debit, posted, pending_tx,
}
use skrynia.Db.Tx.{Tx, Action, ◌>>=◌, ◌>>◌, pure, throw_if, lift, rethrow, in_tx}
use skrynia.Db.Tables.{
  select_wallet, update_wallet, insert_transaction, fresh_id, select_topup, update_topup,
  insert_topup, select_payout, update_payout, insert_payout,
}
use skrynia.Orders.Bookings.{
  record_wallet_topup_ledger, record_wallet_withdrawal_ledger,
  record_wallet_withdrawal_reversal_ledger, record_manual_adjustment_ledger,
}
use skrynia.Orders.Escrow.{ensure_wallet, out_of_range}

-- `checkedWalletAddition`.
unfoldable pub checked_wallet_addition : ℤ → ℤ → Result ℤ
checked_wallet_addition current added =
    rethrow (out_of_range "Wallet balance exceeds the supported money range")
      (add_money_cents current added)

-- `checkedWalletSubtraction`.
unfoldable pub checked_wallet_subtraction : ℤ → ℤ → Result ℤ
checked_wallet_subtraction current subtracted =
    rethrow (out_of_range "Wallet balance exceeds the supported money range")
      (subtract_money_cents current subtracted)

abbrev pub is_pending_topup : TopupStatus → Bool
is_pending_topup pending_topup = true
is_pending_topup _ = false

-- `createWalletTopup`, one statement, which returns the id of the row.
unfoldable pub create_wallet_topup : ℕ → ℤ → CurrencyCode → Action ℕ
create_wallet_topup user amount c = in_tx do
  canonical ← lift (assert_postgres_bigint_range amount)
  insert_topup (record {
    user_id = user;
    amount_cents = canonical;
    currency = c;
    status = pending_topup;
    payment_provider = none;
    payment_reference = none;
  })

-- The credit of a pending top-up.
unfoldable pub credit_topup : ℕ → TopupRow → String → String → Tx TopupRow
credit_topup id topup provider reference = do
  wallet ← ensure_wallet topup.user_id topup.currency
  row ← select_wallet wallet
  amount ← lift (assert_postgres_bigint_range topup.amount_cents)
  next ← lift (checked_wallet_addition row.available_cents amount)
  update_wallet wallet (λ w. record w { available_cents = next })
  insert_transaction wallet none wallet_credit credit topup.amount_cents posted
  record_wallet_topup_ledger id topup.user_id amount topup.currency
  update_topup id (record topup {
    status = completed_topup;
    payment_provider = some provider;
    payment_reference = some reference;
  })

-- `completeWalletTopup`: a top-up that is not pending is returned as it is.
unfoldable pub complete_wallet_topup : ℕ → String → String → Tx TopupRow
complete_wallet_topup id provider reference = do
  topup ← select_topup id
  if is_pending_topup topup.status then credit_topup id topup provider reference else pure topup

-- `requestWithdrawal`: the balance is debited at once, and a payout is opened for it.
unfoldable pub request_withdrawal : ℕ → ℤ → CurrencyCode → String → Tx ℕ
request_withdrawal user amount c destination = do
  canonical ← lift (assert_postgres_bigint_range amount)
  throw_if (leb_ℤ canonical (pos 0)) (bad_request "Withdrawal amount must be positive")
  wallet ← ensure_wallet user c
  row ← select_wallet wallet
  throw_if (ltb_ℤ row.available_cents canonical) (bad_request "Insufficient balance")
  next ← lift (checked_wallet_subtraction row.available_cents canonical)
  update_wallet wallet (λ w. record w { available_cents = next })
  transaction ← insert_transaction wallet none wallet_debit debit canonical pending_tx
  record_wallet_withdrawal_ledger transaction user canonical c
  insert_payout (record {
    user_id = user;
    transaction_id = transaction;
    amount_cents = canonical;
    currency = c;
    provider = manual_payout;
    destination = destination;
    status = pending_payout;
    reference = none;
    admin_note = none;
    processed_by = none;
  })

-- `postManualAdjustment`, with the id of its transaction as the result.
unfoldable pub post_manual_adjustment : ℕ → ℤ → CurrencyCode → Tx ℕ
post_manual_adjustment user amount c = do
  throw_if (beq_ℤ amount (pos 0)) (bad_request "Adjustment amount cannot be zero")
  magnitude ← lift (
      rethrow (out_of_range "Adjustment amount magnitude exceeds the supported money range")
        (absolute_money_cents amount))
  wallet ← ensure_wallet user c
  row ← select_wallet wallet
  throw_if (ltb_ℤ amount (pos 0) && ltb_ℤ row.available_cents magnitude)
      (bad_request "Insufficient balance for a negative adjustment")
  next ← lift (checked_wallet_addition row.available_cents amount)
  update_wallet wallet (λ w. record w { available_cents = next })
  adjustment ← fresh_id
  transaction ←
      insert_transaction wallet none manual_adjustment
        (if leb_ℤ (pos 0) amount then credit else debit) magnitude posted
  record_manual_adjustment_ledger adjustment user amount c
  pure transaction
