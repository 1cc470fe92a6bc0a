-- ===== src/Orders/Transitions/Graph.antt =====
-- The lifecycle as an inductive relation, and the histories that it allows.
use mathlib.Core.Logic.{◌↔◌}
use skrynia.Prelude.{ℕ, suc, ◌<◌, ◌≤◌, ◌+◌, ◌≡◌, ◌≢◌, refl, ◌⊎◌, inl, inr, true, arith}
use skrynia.Domain.Enums.{
  OrderStatus, pending, paid, in_progress, delivered, disputed, completed, refunded, canceled,
}
use skrynia.Orders.Transitions.{can_transition_order}

-- One legal step.
infix 40 ◌⟶◌ ◌⟶*◌
pub data ◌⟶◌ : OrderStatus → OrderStatus → Type 0 where
  pay : pending ⟶ paid
  pay_instant : pending ⟶ delivered
  cancel : pending ⟶ canceled
  start : paid ⟶ in_progress
  deliver_paid : paid ⟶ delivered
  deliver_started : in_progress ⟶ delivered
  dispute_paid : paid ⟶ disputed
  dispute_started : in_progress ⟶ disputed
  dispute_delivered : delivered ⟶ disputed
  complete_delivered : delivered ⟶ completed
  complete_disputed : disputed ⟶ completed
  refund_paid : paid ⟶ refunded
  refund_started : in_progress ⟶ refunded
  refund_delivered : delivered ⟶ refunded
  refund_disputed : disputed ⟶ refunded

pub data ◌⟶*◌ : OrderStatus → OrderStatus → Type 0 where
  here : {s : OrderStatus} → s ⟶* s
  along : {s t u : OrderStatus} → s ⟶ t → t ⟶* u → s ⟶* u

pub ruleset edges = (
  pay, pay_instant, cancel, start, deliver_paid, deliver_started, dispute_paid, dispute_started,
  dispute_delivered, complete_delivered, complete_disputed, refund_paid, refund_started,
  refund_delivered, refund_disputed,
)

edge_of_can : (s t : OrderStatus) → can_transition_order s t ≡ true → s ⟶ t
unfolding can_transition_order
edge_of_can s t h = grind (arith, edges)

can_of_edge : {s t : OrderStatus} → s ⟶ t → can_transition_order s t ≡ true
unfolding can_transition_order
can_of_edge pay = refl
can_of_edge _ = refl

-- The test of the code decides the relation, in both directions.
pub can_transition_order_iff : (s t : OrderStatus) → (can_transition_order s t ≡ true) ↔ (s ⟶ t)
can_transition_order_iff s t = (edge_of_can s t, can_of_edge)

-- How far along its life an order is.
abbrev pub rank : OrderStatus → ℕ
rank pending = 0
rank paid = 1
rank in_progress = 2
rank delivered = 3
rank disputed = 4
rank completed = 5
rank refunded = 5
rank canceled = 5

rank-edge : {s t : OrderStatus} → s ⟶ t → rank s < rank t
rank-edge pay = omega arith
rank-edge _ = omega arith

-- The number of status changes in a history.
abbrev pub changes : {s t : OrderStatus} → s ⟶* t → ℕ
changes here = 0
changes (along e r) = suc (changes r)

-- A history from one status to another has no more changes than the difference of their ranks: no
-- order changes its status more than five times, and none comes back to a status that it left.
pub changes-le-rank : {s t : OrderStatus} (r : s ⟶* t) → changes r + rank s ≤ rank t
changes-le-rank here = omega arith
changes-le-rank (along e r) = omega (arith, rank-edge e, changes-le-rank r)

-- Nothing leaves a status of which the order's money is settled, or that it never had.
abbrev pub IsTerminal : OrderStatus → Type 0
IsTerminal s = (s ≡ completed) ⊎ (s ≡ refunded) ⊎ (s ≡ canceled)

pub IsTerminal-edge : {s t : OrderStatus} → s ⟶ t → ¬ IsTerminal s
IsTerminal-edge pay h = ground arith
IsTerminal-edge _ h = ground arith

-- Nothing leads back to `pending`.
pub pending-not-after : {s t : OrderStatus} → s ⟶ t → t ≢ pending
pending-not-after pay h = ground arith
pending-not-after _ h = ground arith

-- A completed, refunded or canceled order keeps its status for good; so no order is both released
-- and refunded.
pub terminal_absorbs : {s t : OrderStatus} → s ⟶* t → IsTerminal s → s ≡ t
terminal_absorbs here h = refl
terminal_absorbs (along e r) h = absurd (IsTerminal-edge e h)

-- Every status is reached from `pending`.
pub pending-reaches : (t : OrderStatus) → pending ⟶* t
pending-reaches pending = here
pending-reaches paid = search (here, along, edges)
pending-reaches in_progress = search (here, along, edges)
pending-reaches delivered = search (here, along, edges)
pending-reaches disputed = search (here, along, edges)
pending-reaches completed = search (here, along, edges)
pending-reaches refunded = search (here, along, edges)
pending-reaches canceled = search (here, along, edges)

-- From every status but the three terminal ones there is a way to settle the buyer's money.
pub settles : (s : OrderStatus) → ¬ IsTerminal s → (s ⟶* completed) × (s ⟶* refunded)
settles pending h = search (here, along, edges)
settles paid h = search (here, along, edges)
settles in_progress h = search (here, along, edges)
settles delivered h = search (here, along, edges)
settles disputed h = search (here, along, edges)
settles completed h = absurd (h (inl refl))
settles refunded h = absurd (h (inr (inl refl)))
settles canceled h = absurd (h (inr (inr refl)))
