-- ===== src/Orders/Escrow/Lock.antt =====
-- `lockEscrow` of backend/src/modules/orders/ledger.service.ts: a pending order is paid, and its
-- amount is held in the seller's escrow.
use skrynia.Prelude.{ℕ, String, [], ◌∷◌, not, Option, none, some, ◌==◌, ltb, if◌then◌else◌}
use skrynia.Prelude.Int.{ℤ}
use skrynia.Prelude.Table.{◌=?◌}
use skrynia.Domain.Enums.{status_eq, pending, paid, delivered}
use skrynia.Domain.Money.{assert_postgres_bigint_range}
use skrynia.Common.Errors.{bad_request, forbidden}
use skrynia.Db.Rows.{
  OrderRow, ProductRow, PaymentProviderName, OrderTransitionActor, buyer, test_payment,
  payment_captured, payment_capture, escrow_hold, credit, neutral, posted,
}
use skrynia.Db.Tx.{Tx, ◌>>=◌, ◌>>◌, throw_if, lift}
use skrynia.Db.Tables.{
  select_wallet, update_wallet, insert_transaction, select_order, update_order, select_product,
  take_stock, create_order_system_message,
}
use skrynia.Orders.Policy.{TransitionOrderInput}
use skrynia.Orders.Lifecycle.{Config, transition_order}
use skrynia.Orders.Bookings.{record_payment_capture_ledger}
use skrynia.Orders.Escrow.{
  ensure_wallet, fee_for, checked_balance_addition, Capture, PaymentResult, message_ids, is_mock,
  is_instant, available_product,
}

-- The actor of the transition, by the options and the provider.
unfoldable pub paying_actor :
    Option OrderTransitionActor → PaymentProviderName → ℕ → OrderTransitionActor
paying_actor (some a) provider b = a
paying_actor none provider b =
    if is_mock provider
    then record { id = some b; role = test_payment }
    else record { id = some b; role = buyer }

-- The order row with what the payment tells of it.
unfoldable pub paid_order : OrderRow → ProductRow → ℤ → PaymentResult → OrderRow
paid_order o p fee r = record o {
  fee_cents = fee;
  payment_provider = some r.provider;
  payment_reference = some r.reference;
  delivery_note = if is_instant p then p.delivery_template else o.delivery_note;
}

-- The `transitionOrder` call that ends the payment.
unfoldable pub capture_transition :
    OrderRow → ProductRow → OrderTransitionActor → Option ℕ → TransitionOrderInput
capture_transition o p actor message = record {
  order_id = o.id;
  to = if is_instant p then delivered else paid;
  actor = actor;
  reason = payment_captured;
  expected_from = some (pending ∷ []);
  dispute_reason = none;
  dispute_id = none;
  system_message_ids = message_ids message;
}

-- The rows, message and transition that record a payment whose money is held.
unfoldable pub finish_lock :
    Config → OrderRow → ProductRow → ℤ → PaymentResult → OrderTransitionActor → Tx OrderRow
finish_lock c o p fee payment actor = do
  update_order (paid_order o p fee payment)
  message ← create_order_system_message o.id
  transition_order c (capture_transition o p actor message)

-- `lockEscrow`, with the provider's `capture` as a parameter.
unfoldable pub lock_escrow :
    Config
    → (PaymentProviderName → Capture)
    → ℕ
    → ℕ
    → PaymentProviderName
    → Option String
    → Option OrderTransitionActor
    → Tx OrderRow
lock_escrow c capture order_id buyer_id provider external actor = do
  o ← select_order order_id
  throw_if (not (o.buyer_id == buyer_id)) (forbidden "Only the buyer can pay this order")
  throw_if (not (o.status =? pending)) (bad_request "Only pending orders can be paid")
  found ← select_product o.product_id
  p ← lift (available_product found)
  throw_if (ltb p.stock o.quantity) (bad_request "Not enough stock")
  seller_wallet ← ensure_wallet o.seller_id o.currency
  buyer_wallet ← ensure_wallet o.buyer_id o.currency
  row ← select_wallet seller_wallet
  amount ← lift (assert_postgres_bigint_range o.amount_cents)
  next_escrow ← lift (checked_balance_addition row.escrow_cents amount)
  fee ← lift (fee_for c amount)
  take_stock o.product_id o.quantity
  payment ← lift (
      capture provider (record {
        order_id = o.id;
        amount_cents = amount;
        currency = o.currency;
        external_reference = external;
      }))
  update_wallet seller_wallet (λ w. record w { escrow_cents = next_escrow })
  insert_transaction buyer_wallet (some o.id) payment_capture neutral amount posted
  insert_transaction seller_wallet (some o.id) escrow_hold credit amount posted
  record_payment_capture_ledger o.id o.seller_id amount o.currency
  finish_lock c o p fee payment (paying_actor actor provider o.buyer_id)
