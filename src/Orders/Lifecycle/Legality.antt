-- ===== src/Orders/Lifecycle/Legality.antt =====
-- Committed calls of `transitionOrder` of backend/src/modules/orders/order-transition.service.ts: what
-- they must have been, and the rows that they write.
use skrynia.Prelude.{
  ◌≡◌, refl, ap, sym, ◌∙◌, ◌⊎◌, inl, inr, arith, true, Option, some, List, ◌∷◌, is_some, String,
  Option-cases,
}
use skrynia.Prelude.Table.{find, put, nat_eq, find-put_self}
use skrynia.Domain.Enums.{status_eq, same_status_iff}
use skrynia.Common.Errors.{ok}
use skrynia.Db.Keys.{EventKey, event_key_eq}
use skrynia.Db.Rows.{Db, OrderRow, OrderEvent, OrderEventType, OutboxRow}
use skrynia.Db.Tx.{gets}
use skrynia.Db.Tables.{update_order, record_order_event, enqueue_domain_event}
use skrynia.Db.Steps.{bind-step, lift-step, pure-eq-ok}
use skrynia.Orders.Transitions.Graph.{◌⟶◌, can_transition_order_iff}
use skrynia.Orders.Policy.{
  TransitionOrderInput, permission, role_of, event_descriptor, event_key_of, transition_actor_id,
  new_event,
}
use skrynia.Orders.Lifecycle.{
  Config, transition_order, apply_transition, is_idempotent_repeat, advanced,
}
use skrynia.Orders.Lifecycle.Repeats.{IsRecorded, is_idempotent_repeat-IsRecorded}
use skrynia.Orders.Lifecycle.Effects.{transition_order-eq-ok, checked_transition-eq-ok}

-- What the writes of a transition leave.
module _ (d : Db) {s : Db} where
  gets-eq-ok : {A : Type 0} (f : Db → A) {a : A} → gets f d ≡ ok (a, s) → (a ≡ f d) × (s ≡ d)
  unfolding gets
  gets-eq-ok f h = ground arith

  pub update_order-eq-ok :
      (o : OrderRow) {u : Unit {0}}
      → update_order o d ≡ ok (u, s)
      → s ≡ record d { orders = put o.id o d.orders }
  unfolding update_order
  update_order-eq-ok o h = ground arith

  record_order_event-eq-ok :
      (e : OrderEvent) {u : Unit {0}}
      → record_order_event e d ≡ ok (u, s)
      → s ≡ record d { order_events = e ∷ d.order_events }
  unfolding record_order_event
  record_order_event-eq-ok e h = ground arith

  enqueue_domain_event-eq-ok :
      (e : OutboxRow) {r : OutboxRow}
      → enqueue_domain_event e d ≡ ok (r, s)
      → (s ≡ record d { outbox = s.outbox }) × (is_some (find e.event_key s.outbox) ≡ true)
  unfolding enqueue_domain_event
  enqueue_domain_event-eq-ok e h = elim (Option-cases (find e.event_key d.outbox)) [
    | inl f ↦ (ground arith, ground (arith, find-put_self e.event_key e d.outbox))
    | inr (old, f) ↦ (ground arith, ground arith)
  ]

-- The timeline row of a transition.
abbrev pub timeline_row :
    TransitionOrderInput → OrderRow → OrderEventType × Option String → OrderEvent
timeline_row i o descriptor = record {
  order_id = o.id;
  actor_id = transition_actor_id i.actor;
  type = descriptor.0;
  body = descriptor.1;
  transition = some (record { from = o.status; to = i.to; reason = i.reason; actor = i.actor });
}

-- A transition was written: the order's row, one timeline row on top of the others, and an event
-- under the key of its reason.
abbrev pub IsWritten : Config → TransitionOrderInput → OrderRow → OrderRow → Db → Db → Type 0
IsWritten c i o r d d' =
    (descriptor : OrderEventType × Option String) × (key : EventKey) × (event_descriptor i
      ≡ ok descriptor)
    × (event_key_of i.reason o.id i.dispute_id ≡ ok key)
    × (r ≡ advanced c o i.to d.now)
    × (d'.orders ≡ put o.id r d.orders)
    × (d'.order_events ≡ timeline_row i o descriptor ∷ d.order_events)
    × (is_some (find key d'.outbox) ≡ true)

apply_transition-IsWritten :
    (c : Config) (o : OrderRow) (i : TransitionOrderInput) (d : Db) {r : OrderRow} {d' : Db}
    → apply_transition c o i d ≡ ok (r, d')
    → IsWritten c i o r d d'
unfolding apply_transition advanced new_event
apply_transition-IsWritten c o i d {r} h = bind-step d _ _ h λ now s₀ e₀ h.
    bind-step s₀ _ _ h λ _ s₁ e₁ h. lift-step s₁ _ _ h λ descriptor ed h.
      bind-step s₁ _ _ h λ _ s₂ e₂ h. lift-step s₂ _ _ h λ key ek h.
        bind-step s₂ _ _ h λ row s₃ e₃ h.
          let (en, f₀) = gets-eq-ok d _ e₀ in
          let f₁ = update_order-eq-ok s₀ _ e₁ in
          let f₂ = record_order_event-eq-ok s₁ _ e₂ in
          let (f₃, queued) = enqueue_domain_event-eq-ok s₂ _ e₃ in
          let (er, f₄) = pure-eq-ok s₃ h in
          let made : r ≡ advanced c o i.to d.now = sym er ∙ ap (advanced c o i.to) en in
          (
            descriptor,
            key,
            ed,
            ek,
            made,
            ap (λ x. x.orders) (sym f₄ ∙ f₃)
                ∙ ap (λ x. x.orders) f₂
                ∙ ap (λ x. x.orders) f₁
                ∙ rw (er, f₀) refl,
            ap (λ x. x.order_events) (sym f₄ ∙ f₃)
                ∙ ap (λ x. x.order_events) f₂
                ∙ ap (λ x. timeline_row i o descriptor ∷ x.order_events) (f₁)
                ∙ rw f₀ refl,
            ap (λ x. is_some (find key x.outbox)) (sym f₄) ∙ queued,
          )

module _ (c : Config) (i : TransitionOrderInput) (o : OrderRow) where
  pub repeat-status :
      (events : List OrderEvent) → is_idempotent_repeat o i events ≡ ok true → o.status ≡ i.to
  unfolding is_idempotent_repeat
  repeat-status events h = grind (arith, same_status_iff o.status i.to)

  written-status : (d d' : Db) {r : OrderRow} → IsWritten c i o r d d' → r.status ≡ i.to
  unfolding advanced
  written-status d d' (_, _, _, _, made, _, _, _) = ap (λ x. x.status) made

-- What a transition that commits must have been.
module _ (c : Config) (i : TransitionOrderInput) (d : Db) {r : OrderRow} {d' : Db} where
  -- A transition that commits finds its order. Then either the timeline has it already (a row of the
  -- order for the same status and reason, by the same user in the same role), the order is in the
  -- target status and nothing changes; or the order graph has the step, the actor
  -- may make it, the order gets the target status, and the row, the timeline and the outbox are
  -- written.
  pub transition_order-legal :
      transition_order c i d ≡ ok (r, d')
      → (o : OrderRow) × (find i.order_id d.orders ≡ some o)
        × (((o.status ≡ i.to) × IsRecorded i o d.order_events × (r ≡ o) × (d' ≡ d))
            ⊎ ((o.status ⟶ i.to)
                × (permission o i.actor i.reason i.to (role_of d i.actor.id) ≡ ok tt)
                × (r.status ≡ i.to)
                × IsWritten c i o r d d'))
  transition_order-legal h =
      let (o, e, cases) = transition_order-eq-ok c i d h in
      elim cases [
        | inl (same, kept, repeat) ↦
            let status = repeat-status c i o d.order_events repeat in
            (
              o,
              e,
              inl (
                status,
                is_idempotent_repeat-IsRecorded i o d.order_events repeat status,
                kept,
                same,
              ),
            )
        | inr checked ↦
            let (_, can, may, applied) = checked_transition-eq-ok c o i d checked in
            let w = apply_transition-IsWritten c o i d applied in
            (
              o,
              e,
              inr (
                (can_transition_order_iff o.status i.to).0 can,
                may,
                written-status c i o d d' w,
                w,
              ),
            )
      ]
