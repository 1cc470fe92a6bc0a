-- ===== src/Orders/Policy.antt =====
-- backend/src/modules/orders/order-transition.service.ts: who may make which transition, and the
-- timeline and outbox rows that each reason leaves.
pub mod Authority
use text.Mathlib.Text.{◌==◌ as str_eq}
use skrynia.Prelude.{
  ℕ, ◌+◌, ◌*◌, String, List, [], ◌∷◌, Bool, true, false, not, ◌&&◌, ◌||◌, any, Option, none, some,
  ◌==◌, if◌then◌else◌,
}
use skrynia.Prelude.Table.{◌=?◌, find, nat_eq}
use skrynia.Domain.Enums.{
  OrderStatus, status_eq, Role, pending, paid, in_progress, delivered, disputed, completed,
  refunded, canceled, admin,
}
use skrynia.Common.Errors.{Error, Result, ok, err, plain, bad_request, forbidden}
use skrynia.Db.Keys.{
  order_paid, order_canceled, order_started, order_delivered, order_completed, order_refunded,
  dispute_opened_event, EventKey,
}
use skrynia.Db.Rows.{
  Db, OrderRow, OrderEvent, OrderEventType, Transition, OrderTransitionActor, OrderTransitionRole,
  OrderTransitionReason, OutboxRow, pending_event, buyer, seller, participant, admin_role,
  payment_provider_role, auto_release, test_payment, system, payment_captured, test_payment_failed,
  seller_started, seller_delivered, buyer_confirmed, auto_released, dispute_opened,
  dispute_released, dispute_refunded, service_released, service_refunded, paid_event,
  canceled_event, started_event, delivered_event, completed_event, auto_released_event,
  disputed_event, refunded_event, dispute_resolved, created_event, review_event,
}
use skrynia.Db.Tx.{Tx, ◌>>=◌, ◌>>◌, pure, throw_if, lift, gets}
use skrynia.Db.Tables.{select_order, update_order, record_order_event, enqueue_domain_event}
use skrynia.Orders.Transitions.{can_transition_order, has_status}

-- `TransitionOrderInput`, with the entries of its metadata that are read.
pub record TransitionOrderInput : Type 0 where
  pub order_id : ℕ
  pub to : OrderStatus
  pub actor : OrderTransitionActor
  pub reason : OrderTransitionReason
  pub expected_from : Option (List OrderStatus)
  pub dispute_reason : Option String
  pub dispute_id : Option ℕ
  pub system_message_ids : List ℕ

abbrev pub role_code : OrderTransitionRole → ℕ
role_code buyer = 0
role_code seller = 1
role_code participant = 2
role_code admin_role = 3
role_code payment_provider_role = 4
role_code auto_release = 5
role_code test_payment = 6
role_code system = 7

abbrev pub same_role : OrderTransitionRole → OrderTransitionRole → Bool
same_role a b = role_code a == role_code b

abbrev pub reason_code : OrderTransitionReason → ℕ
reason_code payment_captured = 0
reason_code test_payment_failed = 1
reason_code seller_started = 2
reason_code seller_delivered = 3
reason_code buyer_confirmed = 4
reason_code auto_released = 5
reason_code dispute_opened = 6
reason_code dispute_released = 7
reason_code dispute_refunded = 8
reason_code service_released = 9
reason_code service_refunded = 10

abbrev pub event_type_code : OrderEventType → ℕ
event_type_code paid_event = 0
event_type_code canceled_event = 1
event_type_code started_event = 2
event_type_code delivered_event = 3
event_type_code completed_event = 4
event_type_code auto_released_event = 5
event_type_code disputed_event = 6
event_type_code refunded_event = 7
event_type_code dispute_resolved = 8
event_type_code created_event = 9
event_type_code review_event = 10

-- `REASON_POLICIES[reason].to`.
unfoldable pub policy_to : OrderTransitionReason → List OrderStatus
policy_to payment_captured = paid ∷ delivered ∷ []
policy_to test_payment_failed = canceled ∷ []
policy_to seller_started = in_progress ∷ []
policy_to seller_delivered = delivered ∷ []
policy_to buyer_confirmed = completed ∷ []
policy_to auto_released = completed ∷ []
policy_to dispute_opened = disputed ∷ []
policy_to dispute_released = completed ∷ []
policy_to dispute_refunded = refunded ∷ []
policy_to service_released = completed ∷ []
policy_to service_refunded = refunded ∷ []

-- `REASON_POLICIES[reason].roles`.
unfoldable pub policy_roles : OrderTransitionReason → List OrderTransitionRole
policy_roles payment_captured = buyer ∷ admin_role ∷ payment_provider_role ∷ test_payment ∷ []
policy_roles test_payment_failed = test_payment ∷ []
policy_roles seller_started = seller ∷ []
policy_roles seller_delivered = seller ∷ []
policy_roles buyer_confirmed = buyer ∷ []
policy_roles auto_released = auto_release ∷ []
policy_roles dispute_opened = participant ∷ []
policy_roles dispute_released = admin_role ∷ []
policy_roles dispute_refunded = admin_role ∷ []
policy_roles service_released = system ∷ []
policy_roles service_refunded = system ∷ []

abbrev pub has_role : OrderTransitionRole → List OrderTransitionRole → Bool
has_role r = any (λ x. same_role x r)

-- `metadataString`: a missing or empty text is `undefined`, and an error where it is required.
abbrev pub required_text : Option String → Result (Option String)
required_text none = err (plain "Order transition metadata is required")
required_text (some s) =
    if str_eq s "" then err (plain "Order transition metadata is required") else ok (some s)

abbrev pub required_id : Option ℕ → Result ℕ
required_id none = err (plain "Order transition metadata is required")
required_id (some n) = ok n

-- `eventDescriptor`: the type of the timeline row and its body.
unfoldable pub event_descriptor : TransitionOrderInput → Result (OrderEventType × Option String)
event_descriptor i = by_reason i.reason
  where
    with_body : Result (Option String) → Result (OrderEventType × Option String)
    with_body (ok b) = ok (disputed_event, b)
    with_body (err e) = err e

    by_reason : OrderTransitionReason → Result (OrderEventType × Option String)
    by_reason payment_captured = ok (paid_event, none)
    by_reason test_payment_failed = ok (canceled_event, none)
    by_reason seller_started = ok (started_event, none)
    by_reason seller_delivered = ok (delivered_event, none)
    by_reason buyer_confirmed = ok (completed_event, none)
    by_reason service_released = ok (completed_event, none)
    by_reason auto_released = ok (auto_released_event, none)
    by_reason dispute_opened = with_body (required_text i.dispute_reason)
    by_reason dispute_released = ok (completed_event, none)
    by_reason dispute_refunded = ok (refunded_event, none)
    by_reason service_refunded = ok (refunded_event, none)

-- The event key of `outboxInput`.
unfoldable pub event_key_of : OrderTransitionReason → ℕ → Option ℕ → Result EventKey
event_key_of payment_captured o dispute = ok (order_paid o)
event_key_of test_payment_failed o dispute = ok (order_canceled o)
event_key_of seller_started o dispute = ok (order_started o)
event_key_of seller_delivered o dispute = ok (order_delivered o)
event_key_of buyer_confirmed o dispute = ok (order_completed o)
event_key_of auto_released o dispute = ok (order_completed o)
event_key_of dispute_released o dispute = ok (order_completed o)
event_key_of service_released o dispute = ok (order_completed o)
event_key_of dispute_opened o none = err (plain "Order transition metadata is required")
event_key_of dispute_opened o (some n) = ok (dispute_opened_event n)
event_key_of dispute_refunded o dispute = ok (order_refunded o)
event_key_of service_refunded o dispute = ok (order_refunded o)

-- A new outbox row, by the defaults of the table.
unfoldable pub new_event : EventKey → ℕ → List ℕ → ℕ → OutboxRow
new_event key order messages now = record {
  event_key = key;
  order_id = order;
  system_message_ids = messages;
  status = pending_event;
  attempts = 0;
  available_at = now;
  locked_at = none;
  locked_by = none;
  processed_at = none;
  last_error = none;
  created_at = now;
}

abbrev pub same_id : Option ℕ → Option ℕ → Bool
same_id none none = true
same_id (some a) (some b) = a == b
same_id _ _ = false

abbrev pub is_user_role : OrderTransitionRole → Bool
is_user_role buyer = true
is_user_role seller = true
is_user_role participant = true
is_user_role admin_role = true
is_user_role _ = false

-- `transitionActorId`.
unfoldable pub transition_actor_id : OrderTransitionActor → Option ℕ
transition_actor_id a = if is_user_role a.role || same_role a.role test_payment then a.id else none

abbrev pub is_admin : Option Role → Bool
is_admin (some admin) = true
is_admin _ = false

abbrev pub role_of : Db → Option ℕ → Option Role
role_of d none = none
role_of d (some u) = find u d.users

-- `assertActorPermission`, with the role that the users table gives the actor.
unfoldable pub permission :
    OrderRow
    → OrderTransitionActor
    → OrderTransitionReason
    → OrderStatus
    → Option Role
    → Result (Unit {0})
unfolding policy_to policy_roles
permission o actor reason to stored =
    if not (has_status to (policy_to reason) && has_role actor.role (policy_roles reason))
    then err (forbidden "This actor cannot perform the requested order transition")
    else if same_role actor.role buyer && not (same_id actor.id (some o.buyer_id))
    then err (forbidden "Only the buyer can perform this order transition")
    else if same_role actor.role seller && not (same_id actor.id (some o.seller_id))
    then err (forbidden "Only the seller can perform this order transition")
    else if same_role actor.role participant
        && not (same_id actor.id (some o.buyer_id))
        && not (same_id actor.id (some o.seller_id))
    then err (forbidden "Only an order participant can perform this transition")
    else if same_role actor.role test_payment && not (same_id actor.id (some o.buyer_id))
    then err (forbidden "Only the buyer can simulate payment for this order")
    else if same_role actor.role admin_role && not (is_admin stored)
    then err (forbidden "Only an admin can perform this order transition")
    else ok tt
