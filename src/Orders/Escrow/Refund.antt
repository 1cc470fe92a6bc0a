-- ===== src/Orders/Escrow/Refund.antt =====
-- `refundEscrow` of backend/src/modules/orders/ledger.service.ts: the held amount goes back to the
-- buyer's available balance.
use skrynia.Prelude.{ℕ, List, [], ◌∷◌, not, Option, none, some}
use skrynia.Domain.Enums.{OrderStatus, paid, in_progress, delivered, disputed, refunded}
use skrynia.Domain.Money.{assert_postgres_bigint_range}
use skrynia.Common.Errors.{bad_request}
use skrynia.Db.Rows.{
  OrderRow, OrderTransitionActor, OrderTransitionReason, admin_role, system, dispute_refunded,
  service_refunded, refunded_payment, credit, debit, posted,
}
use skrynia.Db.Tx.{Tx, ◌>>=◌, ◌>>◌, pure, throw_if, lift}
use skrynia.Db.Tables.{select_wallet, update_wallet, insert_transaction, select_order}
use skrynia.Orders.Transitions.{can_transition_order}
use skrynia.Orders.Policy.{TransitionOrderInput}
use skrynia.Orders.Lifecycle.{Config, transition_order}
use skrynia.Orders.Bookings.{record_refund_ledger}
use skrynia.Orders.Escrow.{ensure_wallet, checked_balance_addition, checked_balance_subtraction}

-- The actor, reason and expected statuses: an administrator's, or the service's own.
unfoldable pub refund_actor : Option ℕ → OrderTransitionActor
refund_actor (some admin) = record { id = some admin; role = admin_role }
refund_actor none = record { id = none; role = system }

unfoldable pub refund_reason : Option ℕ → OrderTransitionReason
refund_reason (some admin) = dispute_refunded
refund_reason none = service_refunded

unfoldable pub refund_expected : Option ℕ → List OrderStatus
refund_expected (some admin) = disputed ∷ []
refund_expected none = paid ∷ in_progress ∷ delivered ∷ disputed ∷ []

unfoldable pub refund_transition : ℕ → Option ℕ → TransitionOrderInput
refund_transition id admin = record {
  order_id = id;
  to = refunded;
  actor = refund_actor admin;
  reason = refund_reason admin;
  expected_from = some (refund_expected admin);
  dispute_reason = none;
  dispute_id = none;
  system_message_ids = [];
}

-- The money of a refund, after its transition.
unfoldable pub refund_funds : OrderRow → Tx (Unit {0})
refund_funds o = do
  seller_wallet ← ensure_wallet o.seller_id o.currency
  buyer_wallet ← ensure_wallet o.buyer_id o.currency
  seller_row ← select_wallet seller_wallet
  buyer_row ← select_wallet buyer_wallet
  amount ← lift (assert_postgres_bigint_range o.amount_cents)
  next_escrow ← lift (checked_balance_subtraction seller_row.escrow_cents amount)
  next_available ← lift (checked_balance_addition buyer_row.available_cents amount)
  update_wallet seller_wallet (λ w. record w { escrow_cents = next_escrow })
  update_wallet buyer_wallet (λ w. record w { available_cents = next_available })
  insert_transaction seller_wallet (some o.id) refunded_payment debit amount posted
  insert_transaction buyer_wallet (some o.id) refunded_payment credit amount posted
  record_refund_ledger o.id o.seller_id o.buyer_id amount o.currency
  pure tt

-- `refundEscrow`.
unfoldable pub refund_escrow : Config → ℕ → Option ℕ → Tx OrderRow
refund_escrow c id admin = do
  o ← select_order id
  throw_if (not (can_transition_order o.status refunded))
      (bad_request "Only escrowed orders can be refunded")
  updated ← transition_order c (refund_transition id admin)
  refund_funds o
  pure updated
