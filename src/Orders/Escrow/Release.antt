-- ===== src/Orders/Escrow/Release.antt =====
-- `releaseEscrow` of backend/src/modules/orders/ledger.service.ts: the held amount goes to the
-- seller, less the platform's fee.
use skrynia.Prelude.{ℕ, List, [], ◌∷◌, not, Option, none, some, if◌then◌else◌}
use skrynia.Prelude.Int.{ℤ, pos, ltb_ℤ}
use skrynia.Domain.Enums.{OrderStatus, CurrencyCode, delivered, disputed, completed}
use skrynia.Domain.Money.{assert_postgres_bigint_range, subtract_money_cents}
use skrynia.Common.Errors.{Result, err, plain, bad_request}
use skrynia.Db.Rows.{
  OrderRow, OrderTransitionActor, OrderTransitionReason, buyer, admin_role, auto_release, system,
  buyer_confirmed, auto_released, dispute_released, service_released, escrow_release, platform_fee,
  credit, debit, posted,
}
use skrynia.Db.Tx.{Tx, ◌>>=◌, ◌>>◌, pure, throw_if, lift}
use skrynia.Db.Tables.{
  select_wallet, update_wallet, select_platform_wallet, update_platform_wallet, insert_transaction,
  select_order, add_sales, create_order_system_message,
}
use skrynia.Orders.Transitions.{can_transition_order}
use skrynia.Orders.Policy.{TransitionOrderInput}
use skrynia.Orders.Lifecycle.{Config, transition_order}
use skrynia.Orders.Bookings.{record_escrow_release_ledger}
use skrynia.Orders.Escrow.{
  ensure_wallet, checked_balance_addition, checked_balance_subtraction, message_ids,
}

-- `ReleaseEscrowOptions["source"]`.
pub data ReleaseSource : Type 0 where
  by_buyer by_timer by_dispute by_service : ReleaseSource

-- `ReleaseEscrowOptions`, its source filled in.
pub record ReleaseOptions : Type 0 where
  pub admin_id : Option ℕ
  pub source : ReleaseSource
  pub actor_id : Option ℕ

-- `options.source ?? (options.adminId ? "dispute" : "service")`.
unfoldable pub release_options : Option ReleaseSource → Option ℕ → Option ℕ → ReleaseOptions
release_options (some s) admin actor = record { admin_id = admin; source = s; actor_id = actor }
release_options none (some a) actor = record {
  admin_id = some a;
  source = by_dispute;
  actor_id = actor;
}
release_options none none actor = record { admin_id = none; source = by_service; actor_id = actor }

abbrev pub or_else : Option ℕ → ℕ → Option ℕ
or_else none n = some n
or_else (some a) n = some a

-- The actor, reason and expected statuses, by the source.
unfoldable pub release_actor : ReleaseOptions → ReleaseSource → OrderRow → OrderTransitionActor
release_actor i by_buyer o = record { id = or_else i.actor_id o.buyer_id; role = buyer }
release_actor i by_timer o = record { id = none; role = auto_release }
release_actor i by_dispute o = record { id = i.admin_id; role = admin_role }
release_actor i by_service o = record { id = none; role = system }

unfoldable pub release_reason : ReleaseSource → OrderTransitionReason
release_reason by_buyer = buyer_confirmed
release_reason by_timer = auto_released
release_reason by_dispute = dispute_released
release_reason by_service = service_released

unfoldable pub release_expected : ReleaseSource → List OrderStatus
release_expected by_buyer = delivered ∷ []
release_expected by_timer = delivered ∷ []
release_expected by_dispute = disputed ∷ []
release_expected by_service = delivered ∷ disputed ∷ []

-- The system message of a release that the buyer or the timer makes.
unfoldable pub release_message : ReleaseSource → ℕ → Tx (Option ℕ)
release_message by_buyer order = create_order_system_message order
release_message by_timer order = create_order_system_message order
release_message by_dispute order = pure none
release_message by_service order = pure none

unfoldable pub release_transition : ReleaseOptions → ℕ → OrderRow → Option ℕ → TransitionOrderInput
release_transition i id o message = record {
  order_id = id;
  to = completed;
  actor = release_actor i i.source o;
  reason = release_reason i.source;
  expected_from = some (release_expected i.source);
  dispute_reason = none;
  dispute_id = none;
  system_message_ids = message_ids message;
}

-- `if (!platformWallet.rows[0]) throw new Error(…)`, and the checked sum.
unfoldable pub next_revenue : Option ℤ → ℤ → Result ℤ
next_revenue none fee = err (plain "Platform wallet is missing")
next_revenue (some revenue) fee = checked_balance_addition revenue fee

-- The platform's share: nothing is read or written for a fee of zero.
unfoldable pub platform_share : CurrencyCode → ℤ → Tx (Option ℤ)
platform_share c fee =
    if ltb_ℤ (pos 0) fee
    then (do row ← select_platform_wallet c; next ← lift (next_revenue row fee); pure (some next))
    else pure none

unfoldable pub pay_platform : CurrencyCode → Option ℤ → Tx (Unit {0})
pay_platform c none = pure tt
pay_platform c (some next) = update_platform_wallet c next

-- The money of a release, after its transition.
unfoldable pub release_funds : OrderRow → Tx (Unit {0})
release_funds o = do
  seller_wallet ← ensure_wallet o.seller_id o.currency
  row ← select_wallet seller_wallet
  amount ← lift (assert_postgres_bigint_range o.amount_cents)
  fee ← lift (assert_postgres_bigint_range o.fee_cents)
  throw_if (ltb_ℤ amount fee) (bad_request "Platform fee exceeds the order amount")
  net ← lift (subtract_money_cents amount fee)
  next_escrow ← lift (checked_balance_subtraction row.escrow_cents amount)
  next_available ← lift (checked_balance_addition row.available_cents net)
  next_revenue ← platform_share o.currency fee
  update_wallet seller_wallet
      (λ w. record w { escrow_cents = next_escrow; available_cents = next_available })
  pay_platform o.currency next_revenue
  insert_transaction seller_wallet (some o.id) escrow_release credit net posted
  insert_transaction seller_wallet (some o.id) platform_fee debit fee posted
  record_escrow_release_ledger o.id o.seller_id amount fee o.currency
  add_sales o.product_id o.quantity

-- `releaseEscrow`.
unfoldable pub release_escrow : Config → ℕ → ReleaseOptions → Tx OrderRow
release_escrow c id i = do
  o ← select_order id
  throw_if (not (can_transition_order o.status completed))
      (bad_request "Only delivered or disputed orders can be released")
  message ← release_message i.source id
  updated ← transition_order c (release_transition i id o message)
  release_funds o
  pure updated
