-- ===== src/Orders/Transitions.antt =====
-- backend/src/modules/orders/order-transitions.ts: which status changes are legal.
pub mod Graph
use skrynia.Prelude.{List, [], ◌∷◌, Bool, any, if◌then◌else◌}
use skrynia.Prelude.Table.{◌=?◌}
use skrynia.Domain.Enums.{
  OrderStatus, status_eq, pending, paid, in_progress, delivered, disputed, completed, refunded,
  canceled,
}
use skrynia.Common.Errors.{Result, ok, err, plain}

-- `ORDER_TRANSITIONS`.
unfoldable pub order_transitions : OrderStatus → List OrderStatus
order_transitions pending = paid ∷ delivered ∷ canceled ∷ []
order_transitions paid = in_progress ∷ delivered ∷ disputed ∷ refunded ∷ []
order_transitions in_progress = delivered ∷ disputed ∷ refunded ∷ []
order_transitions delivered = completed ∷ disputed ∷ refunded ∷ []
order_transitions disputed = completed ∷ refunded ∷ []
order_transitions completed = []
order_transitions refunded = []
order_transitions canceled = []

abbrev pub has_status : OrderStatus → List OrderStatus → Bool
has_status s = any (λ x. x =? s)

unfoldable pub can_transition_order : OrderStatus → OrderStatus → Bool
unfolding order_transitions
can_transition_order from to = has_status to (order_transitions from)

-- `assertOrderTransition`; the error is an `InvalidOrderTransitionError`.
unfoldable pub assert_order_transition : OrderStatus → OrderStatus → Result (Unit {0})
unfolding can_transition_order
assert_order_transition from to =
    if can_transition_order from to then ok tt else err (plain "Order cannot transition")
