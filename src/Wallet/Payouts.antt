-- ===== src/Wallet/Payouts.antt =====
-- backend/src/modules/payments/payout.providers.ts and the payouts of
-- backend/src/modules/users/wallet.service.ts. `completePayout` runs its two statements outside a
-- transaction, so it is two steps here, and other transactions may run between them.
pub mod Outcomes
use text.Mathlib.Text.{◌==◌ as str_eq}
use skrynia.Prelude.{ℕ, String, Bool, true, false, not, Option, none, some, if◌then◌else◌}
use skrynia.Prelude.Int.{ℤ}
use skrynia.Domain.Money.{assert_postgres_bigint_range}
use skrynia.Common.Errors.{Result, ok, err, plain, bad_request}
use skrynia.Db.Rows.{
  WalletRow, PayoutRow, PayoutStatus, pending_payout, paid_payout, rejected_payout,
  PayoutProviderName, manual_payout, liqpay_payout, wallet_credit, credit, posted,
}
use skrynia.Db.Tx.{Tx, ◌>>=◌, ◌>>◌, pure, throw_if, lift}
use skrynia.Db.Tables.{
  select_wallet, update_wallet, insert_transaction, select_payout, update_payout,
}
use skrynia.Orders.Bookings.{record_wallet_withdrawal_reversal_ledger}
use skrynia.Orders.Escrow.{ensure_wallet}
use skrynia.Wallet.{checked_wallet_addition}

abbrev pub is_pending_payout : PayoutStatus → Bool
is_pending_payout pending_payout = true
is_pending_payout _ = false

-- `ManualPayoutProvider.payout` and `LiqpayPayoutProvider.payout`: the reference, or the error.
unfoldable pub payout_reference : PayoutProviderName → Option String → Result String
payout_reference manual_payout (some reference) =
    if str_eq reference ""
    then err (plain "Manual payout requires an admin-supplied bank transaction reference")
    else ok reference
payout_reference manual_payout none =
    err (plain "Manual payout requires an admin-supplied bank transaction reference")
payout_reference liqpay_payout reference =
    err (plain "LiqPay payout integration is not implemented yet")

-- `completePayout`, up to its write: the read, its guards and the provider.
unfoldable pub begin_payout : ℕ → Option String → Tx String
begin_payout id reference = do
  payout ← select_payout id
  throw_if (not (is_pending_payout payout.status))
      (bad_request "Only pending payouts can be completed")
  canonical ← lift (assert_postgres_bigint_range payout.amount_cents)
  lift (payout_reference payout.provider reference)

-- Its write, which has no condition on the status.
unfoldable pub finish_payout : ℕ → ℕ → String → Tx PayoutRow
finish_payout id admin reference =
    update_payout id
      λ p. record p { status = paid_payout; reference = some reference; processed_by = some admin }

-- `completePayout`, when nothing runs between its two statements.
unfoldable pub complete_payout : ℕ → ℕ → Option String → Tx PayoutRow
complete_payout id admin reference = do
  outcome ← begin_payout id reference
  finish_payout id admin outcome

-- `rejectPayout`: the wallet is refunded.
unfoldable pub reject_payout : ℕ → ℕ → String → Tx PayoutRow
reject_payout id admin reason = do
  payout ← select_payout id
  throw_if (not (is_pending_payout payout.status))
      (bad_request "Only pending payouts can be rejected")
  wallet ← ensure_wallet payout.user_id payout.currency
  row ← select_wallet wallet
  amount ← lift (assert_postgres_bigint_range payout.amount_cents)
  next ← lift (checked_wallet_addition row.available_cents amount)
  update_wallet wallet (λ w. record w { available_cents = next })
  insert_transaction wallet none wallet_credit credit payout.amount_cents posted
  record_wallet_withdrawal_reversal_ledger payout.transaction_id payout.user_id amount
      payout.currency
  update_payout id λ p. record p {
    status = rejected_payout;
    admin_note = some reason;
    processed_by = some admin;
  }
