-- ===== src/Orders/Lifecycle/Success.antt =====
-- When `transitionOrder` of backend/src/modules/orders/order-transition.service.ts commits.
use skrynia.Prelude.{String, ◌≡◌, refl, true, false, Option, some, inl, inr, Option-cases, ◌∷◌}
use skrynia.Prelude.Table.{find, put, nat_eq, ◌=?◌}
use skrynia.Domain.Enums.{status_eq}
use skrynia.Common.Errors.{ok}
use skrynia.Db.Keys.{EventKey, event_key_eq}
use skrynia.Db.Rows.{Db, OrderRow, OrderEventType, OutboxRow}
use skrynia.Db.Tx.{Tx, ◌>>=◌, pure, lift, gets, reads, throw_if}
use skrynia.Db.Tables.{select_order, update_order, record_order_event, enqueue_domain_event}
use skrynia.Orders.Transitions.{can_transition_order}
use skrynia.Orders.Transitions.Graph.{◌⟶◌, can_transition_order_iff}
use skrynia.Orders.Policy.{
  TransitionOrderInput, permission, role_of, event_descriptor, event_key_of, new_event,
}
use skrynia.Orders.Lifecycle.Legality.{timeline_row}
use skrynia.Orders.Lifecycle.{
  Config, transition_order, checked_transition, apply_transition, is_idempotent_repeat, expects,
  advanced,
}

then_commits :
    {A B : Type 0} (m : Tx A) (f : A → Tx B) (d : Db) {a : A} {s : Db} {b : B} {t : Db}
    → m d ≡ ok (a, s)
    → f a s ≡ ok (b, t)
    → (m >>= f) d ≡ ok (b, t)
unfolding ◌>>=◌
then_commits m f d h k = rw h k

pub enqueue-commits :
    (e : OutboxRow) (d : Db) → (r : OutboxRow) × (s : Db) × (enqueue_domain_event e d ≡ ok (r, s))
unfolding enqueue_domain_event
enqueue-commits e d = elim (Option-cases (find e.event_key d.outbox)) [
  | inl f ↦ (e, record d { outbox = put e.event_key e d.outbox }, rw (enqueue_domain_event, f) refl)
  | inr (old, f) ↦ (old, d, rw (enqueue_domain_event, f) refl)
]

module _ (c : Config) (i : TransitionOrderInput) (d : Db) (o : OrderRow)
    (x : OrderEventType × Option String) (key : EventKey) (described : event_descriptor i ≡ ok x)
    (keyed : event_key_of i.reason o.id i.dispute_id ≡ ok key) where
  apply_transition-commits :
      (d' : Db) × (apply_transition c o i d ≡ ok (advanced c o i.to d.now, d'))
  unfolding apply_transition ◌>>=◌ gets update_order record_order_event lift pure
  apply_transition-commits =
      let s : Db = record d {
        orders = put (advanced c o i.to d.now).id (advanced c o i.to d.now) d.orders;
        order_events = timeline_row i o x ∷ d.order_events;
      } in
      let (r, d', q) = enqueue-commits (new_event key o.id i.system_message_ids d.now) s in
      (d', rw (described, keyed, q) refl)

  -- A transition commits, with the advanced row as its result, where its order is on file and not yet in the target status, the caller's
  -- expectation holds, the order graph has the step, the actor may make it, and its metadata has
  -- what the reason requires.
  pub transition_order-commits :
      find i.order_id d.orders ≡ some o
      → (o.status =? i.to) ≡ false
      → expects i.expected_from o.status ≡ true
      → o.status ⟶ i.to
      → permission o i.actor i.reason i.to (role_of d i.actor.id) ≡ ok tt
      → (d' : Db) × (transition_order c i d ≡ ok (advanced c o i.to d.now, d'))
  unfolding transition_order checked_transition is_idempotent_repeat ◌>>=◌ select_order reads lift
      throw_if
  transition_order-commits found fresh expected step may =
      let (d', q) = apply_transition-commits in
      let can : can_transition_order o.status i.to ≡ true =
        (can_transition_order_iff o.status i.to).1 step in
      (d', rw (found, fresh, expected, can, may) q)
