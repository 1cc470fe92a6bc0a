-- ===== src/Orders/Lifecycle/Effects.antt =====
-- What a committed transition did, step by step.
use skrynia.Prelude.{◌≡◌, ap, ◌⊎◌, inl, inr, arith, true, some, Option-cases}
use skrynia.Prelude.Table.{find, nat_eq}
use skrynia.Domain.Enums.{status_eq}
use skrynia.Common.Errors.{ok}
use skrynia.Db.Rows.{Db, OrderRow}
use skrynia.Db.Tx.{◌>>=◌, pure, throw_if, lift, gets, reads}
use skrynia.Db.Tables.{select_order, update_order, record_order_event, enqueue_domain_event}
use skrynia.Db.Frame.{SameFunds, SameFunds-refl}
use skrynia.Orders.Transitions.{can_transition_order}
use skrynia.Orders.Policy.{TransitionOrderInput, permission, role_of}
use skrynia.Orders.Lifecycle.{
  Config, transition_order, apply_transition, checked_transition, is_idempotent_repeat, expects,
}

module _ (c : Config) (o : OrderRow) (i : TransitionOrderInput) (d : Db) {r : OrderRow}
    {d' : Db} where
  apply_transition-SameFunds : apply_transition c o i d ≡ ok (r, d') → SameFunds d d'
  unfolding apply_transition ◌>>=◌ pure lift gets update_order record_order_event
      enqueue_domain_event
  apply_transition-SameFunds h = ground arith

  apply_transition-ids : apply_transition c o i d ≡ ok (r, d') → d'.next_id ≡ d.next_id
  unfolding apply_transition ◌>>=◌ pure lift gets update_order record_order_event
      enqueue_domain_event
  apply_transition-ids h = ground arith

  -- The guards of a checked transition, and the state in which it writes.
  pub checked_transition-eq-ok :
      checked_transition c o i d ≡ ok (r, d')
      → (expects i.expected_from o.status ≡ true)
        × (can_transition_order o.status i.to ≡ true)
        × (permission o i.actor i.reason i.to (role_of d i.actor.id) ≡ ok tt)
        × (apply_transition c o i d ≡ ok (r, d'))
  unfolding checked_transition ◌>>=◌ throw_if reads
  checked_transition-eq-ok h = ground arith

module _ (c : Config) (i : TransitionOrderInput) (d : Db) {r : OrderRow} {d' : Db} where
  -- A committed transition was a repeat, and wrote nothing, or passed the guards.
  pub transition_order-eq-ok :
      transition_order c i d ≡ ok (r, d')
      → (o : OrderRow) × (find i.order_id d.orders ≡ some o)
        × (((d' ≡ d) × (r ≡ o) × (is_idempotent_repeat o i d.order_events ≡ ok true))
            ⊎ (checked_transition c o i d ≡ ok (r, d')))
  unfolding transition_order ◌>>=◌ reads pure select_order
  transition_order-eq-ok h = elim (Option-cases (find i.order_id d.orders)) [
    | inl e ↦ ground arith
    | inr (o, e) ↦ (o, e, ground arith)
  ]

module _ (c : Config) (i : TransitionOrderInput) (d : Db) {r : OrderRow} {d' : Db} where
  -- A transition moves no money.
  pub transition_order-SameFunds : transition_order c i d ≡ ok (r, d') → SameFunds d d'
  transition_order-SameFunds h =
      let (o, _, cases) = transition_order-eq-ok c i d h in
      elim cases [
        | inl (same, _, _) ↦ rw same (SameFunds-refl d)
        | inr checked ↦
            apply_transition-SameFunds c o i d ((checked_transition-eq-ok c o i d checked).3)
      ]

  -- A transition takes no id.
  pub transition_order-ids : transition_order c i d ≡ ok (r, d') → d'.next_id ≡ d.next_id
  transition_order-ids h =
      let (o, _, cases) = transition_order-eq-ok c i d h in
      elim cases [
        | inl (same, _, _) ↦ ap (λ x. x.next_id) same
        | inr checked ↦ apply_transition-ids c o i d ((checked_transition-eq-ok c o i d checked).3)
      ]
