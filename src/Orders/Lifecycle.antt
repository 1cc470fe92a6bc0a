-- ===== src/Orders/Lifecycle.antt =====
-- backend/src/modules/orders/order-transition.service.ts: `transitionOrder`, the one writer of an
-- order's status. The two settings are those of backend/src/config/env.ts.
pub mod Effects
pub mod Repeats
pub mod Legality
pub mod Success
pub mod History
use skrynia.Prelude.{
  ℕ, String, ◌+◌, ◌*◌, List, [], ◌∷◌, Bool, true, false, not, ◌&&◌, ◌||◌, any, Option, none, some,
  ◌==◌, if◌then◌else◌,
}
use skrynia.Prelude.Table.{◌=?◌, nat_eq}
use skrynia.Domain.Enums.{OrderStatus, status_eq, pending, paid, delivered, completed, refunded}
use skrynia.Common.Errors.{Result, ok, err, bad_request}
use skrynia.Db.Rows.{Db, OrderRow, OrderEvent, OrderEventType, Transition}
use skrynia.Db.Tx.{Tx, ◌>>=◌, ◌>>◌, pure, throw_if, lift, gets, reads}
use skrynia.Db.Tables.{select_order, update_order, record_order_event, enqueue_domain_event}
use skrynia.Orders.Transitions.{can_transition_order, has_status}
use skrynia.Orders.Policy.{
  TransitionOrderInput, same_role, reason_code, event_descriptor, event_key_of, new_event, same_id,
  transition_actor_id, permission, role_of, event_type_code,
}

pub record Config : Type 0 where
  pub platform_fee_bps : ℕ
  pub auto_release_hours : ℕ

-- The timeline row of this very transition: `metadata->'transition' @> {to, reason, actor}`.
abbrev pub is_same_transition : TransitionOrderInput → Option Transition → Bool
is_same_transition i none = false
is_same_transition i (some t) =
    (t.to =? i.to)
    && (reason_code t.reason == reason_code i.reason)
    && same_role t.actor.role i.actor.role
    && same_id t.actor.id i.actor.id

abbrev pub is_event_of : TransitionOrderInput → ℕ → OrderEventType → OrderEvent → Bool
is_event_of i order type e =
    (e.order_id == order)
    && (event_type_code e.type == event_type_code type)
    && is_same_transition i e.transition

-- `isIdempotentRepeat`, over the timeline that it reads.
unfoldable pub is_idempotent_repeat :
    OrderRow → TransitionOrderInput → List OrderEvent → Result Bool
is_idempotent_repeat o i events = if o.status =? i.to then found (event_descriptor i) else ok false
  where
    found : Result (OrderEventType × Option String) → Result Bool
    found (ok (type, body)) = ok (any (is_event_of i o.id type) events)
    found (err e) = err e

unfoldable pub expects : Option (List OrderStatus) → OrderStatus → Bool
expects none s = true
expects (some l) s = has_status s l

-- The `update orders set status = $2, …` of the transition.
unfoldable pub advanced : Config → OrderRow → OrderStatus → ℕ → OrderRow
advanced c o to now = record o {
  status = to;
  paid_at =
      if (o.status =? pending) && has_status to (paid ∷ delivered ∷ [])
      then some now
      else o.paid_at;
  delivered_at = if to =? delivered then some now else o.delivered_at;
  completed_at = if has_status to (completed ∷ refunded ∷ []) then some now else o.completed_at;
  auto_release_at =
      if to =? delivered then some (now + c.auto_release_hours * 3_600_000) else o.auto_release_at;
  updated_at = now;
}

-- The writes of a transition that passed its guards.
unfoldable pub apply_transition : Config → OrderRow → TransitionOrderInput → Tx OrderRow
apply_transition c o i = do
  now ← gets (λ d. d.now)
  let next = advanced c o i.to now
  update_order next
  descriptor ← lift (event_descriptor i)
  record_order_event (record {
    order_id = o.id;
    actor_id = transition_actor_id i.actor;
    type = descriptor.0;
    body = descriptor.1;
    transition = some (record { from = o.status; to = i.to; reason = i.reason; actor = i.actor });
  })
  key ← lift (event_key_of i.reason o.id i.dispute_id)
  enqueue_domain_event (new_event key o.id i.system_message_ids now)
  pure next

-- The guards of a transition that is no repeat, and its writes.
unfoldable pub checked_transition : Config → OrderRow → TransitionOrderInput → Tx OrderRow
checked_transition c o i = do
  throw_if (not (expects i.expected_from o.status)) (bad_request "Order cannot transition")
  throw_if (not (can_transition_order o.status i.to)) (bad_request "Order cannot transition")
  reads (λ d. permission o i.actor i.reason i.to (role_of d i.actor.id))
  apply_transition c o i

-- `transitionOrder`.
unfoldable pub transition_order : Config → TransitionOrderInput → Tx OrderRow
unfolding checked_transition
transition_order c i = do
  o ← select_order i.order_id
  repeat ← reads (λ d. is_idempotent_repeat o i d.order_events)
  if repeat then pure o else checked_transition c o i
