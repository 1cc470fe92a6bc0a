-- ===== src/Orders/Escrow.antt =====
-- backend/src/modules/orders/ledger.service.ts: the escrow of an order, from capture to release or
-- refund: what its three operations share. Cache invalidation, after the commit, is left out.
pub mod Lock
pub mod Capture
pub mod Release
pub mod Settlement
pub mod Shortfall
pub mod Requests
pub mod Files
pub mod Refund
pub mod Restitution
use text.Mathlib.Text.{◌==◌ as str_eq}
use skrynia.Prelude.{
  ℕ, String, List, [], ◌∷◌, Bool, true, false, not, ◌&&◌, ◌||◌, Option, none, some, ◌==◌, ltb,
  if◌then◌else◌,
}
use skrynia.Prelude.Int.{ℤ, pos, ltb_ℤ}
use skrynia.Prelude.Table.{◌=?◌, find, put}
use skrynia.Domain.Enums.{
  OrderStatus, status_eq, CurrencyCode, ProductStatus, active, DeliveryType, instant, pending, paid,
  in_progress, delivered, disputed, completed, refunded,
}
use skrynia.Domain.Money.{
  assert_postgres_bigint_range, add_money_cents, subtract_money_cents, platform_fee_cents,
}
use skrynia.Common.Errors.{Error, Result, ok, err, money_range, plain, bad_request, forbidden}
use skrynia.Db.Keys.{WalletId, wallet_eq}
use skrynia.Db.Rows.{
  Db, WalletRow, OrderRow, ProductRow, PaymentProviderName, mock, OrderTransitionActor,
  OrderTransitionReason, buyer, admin_role, auto_release, test_payment, system, payment_captured,
  buyer_confirmed, auto_released, dispute_released, service_released, dispute_refunded,
  service_refunded, payment_capture, escrow_hold, escrow_release, platform_fee, refunded_payment,
  credit, debit, neutral, posted,
}
use skrynia.Db.Tx.{Tx, ◌>>=◌, ◌>>◌, pure, throw_if, lift, rethrow}
use skrynia.Db.Tables.{
  select_wallet, update_wallet, select_platform_wallet, update_platform_wallet, insert_transaction,
  select_order, update_order, select_product, take_stock, add_sales, create_order_system_message,
}
use skrynia.Orders.Transitions.{can_transition_order}
use skrynia.Orders.Policy.{TransitionOrderInput}
use skrynia.Orders.Lifecycle.{Config, transition_order}
use skrynia.Orders.Bookings.{
  record_payment_capture_ledger, record_escrow_release_ledger, record_refund_ledger,
}

abbrev pub wallet_of : ℕ → CurrencyCode → WalletId
wallet_of user c = record { user_id = user; currency = c }

-- `ensureWallet`: `on conflict (user_id, currency) do update`, which keeps the balances.
unfoldable pub ensure_wallet : ℕ → CurrencyCode → Tx WalletId
ensure_wallet user c d = elim (find (wallet_of user c) d.wallets) [
  | some row ↦ ok (wallet_of user c, d)
  | none ↦ ok (
    wallet_of user c,
    record d {
      wallets =
          put (wallet_of user c) (record { available_cents = pos 0; escrow_cents = pos 0 })
            d.wallets;
    },
  )
]

-- `feeFor`.
unfoldable pub fee_for : Config → ℤ → Result ℤ
fee_for c amount = platform_fee_cents amount (pos c.platform_fee_bps)

-- `catch (error) { if (error instanceof MoneyRangeError) throw badRequest(…); throw error; }`.
abbrev pub out_of_range : String → Error → Error
out_of_range m money_range = bad_request m
out_of_range m e = e

-- `checkedBalanceAddition`.
unfoldable pub checked_balance_addition : ℤ → ℤ → Result ℤ
checked_balance_addition current added =
    rethrow (out_of_range "Balance exceeds the supported money range")
      (add_money_cents current added)

-- `checkedBalanceSubtraction`.
unfoldable pub checked_balance_subtraction : ℤ → ℤ → Result ℤ
checked_balance_subtraction current subtracted =
    if ltb_ℤ current subtracted
    then err (bad_request "Balance is insufficient")
    else rethrow (out_of_range "Balance exceeds the supported money range")
        (subtract_money_cents current subtracted)

-- What `provider.capture` is asked, and answers; the provider is a parameter of `lock_escrow`.
pub record CaptureInput : Type 0 where
  pub order_id : ℕ
  pub amount_cents : ℤ
  pub currency : CurrencyCode
  pub external_reference : Option String

pub record PaymentResult : Type 0 where
  pub provider : PaymentProviderName
  pub reference : String

abbrev pub Capture : Type 0
Capture = CaptureInput → Result PaymentResult

abbrev pub message_ids : Option ℕ → List ℕ
message_ids none = []
message_ids (some m) = m ∷ []

abbrev pub is_active : ProductStatus → Bool
is_active active = true
is_active _ = false

abbrev pub is_instant_type : DeliveryType → Bool
is_instant_type instant = true
is_instant_type _ = false

abbrev pub is_text : Option String → Bool
is_text none = false
is_text (some s) = not (str_eq s "")

abbrev pub is_mock : PaymentProviderName → Bool
is_mock mock = true
is_mock _ = false

-- `product.delivery_type === "instant" && product.delivery_template`.
unfoldable pub is_instant : ProductRow → Bool
is_instant p = is_instant_type p.delivery_type && is_text p.delivery_template

-- `!product || product.status !== "active"` throws.
unfoldable pub available_product : Option ProductRow → Result ProductRow
available_product none = err (bad_request "Product is no longer available")
available_product (some p) =
    if is_active p.status then ok p else err (bad_request "Product is no longer available")
