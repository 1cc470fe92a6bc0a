-- ===== src/Disputes/Applied.antt =====
-- When `finalizeIfApplied` of backend/src/modules/disputes/dispute-resolution.service.ts commits.
use skrynia.Prelude.{
  ℕ, suc, ◌≡◌, refl, Option, none, some, true, false, arith, inl, inr, ◌∷◌, ◌++◌, Option-cases,
  ◌==◌,
}
use skrynia.Prelude.Table.{find, put, nat_eq}
use skrynia.Domain.Enums.{DisputeDecision, resolving, decision_eq, same_decision}
use skrynia.Common.Errors.{ok}
use skrynia.Db.Rows.{Db, DisputeRow, OrderRow, OrderEvent, dispute_resolved}
use skrynia.Db.Keys.{dispute_resolved_event}
use skrynia.Orders.Policy.{new_event}
use skrynia.Orders.Escrow.{message_ids}
use skrynia.Db.Tx.{◌>>=◌, pure, gets, throw_if}
use skrynia.Db.Tables.{
  dispute_fits, is_claimed, update_dispute, record_order_event, create_order_system_message,
}
use skrynia.Orders.Lifecycle.Success.{enqueue-commits}
use skrynia.Disputes.{
  ResolutionRow, terminal_decision, is_decision, decision_matches, operation_matches,
  assert_decision, assert_operation,
}
use skrynia.Disputes.Effects.{select_resolution-finds}
use skrynia.Disputes.Finalize.{settled_row, settle_dispute, finalize_if_applied, is_resolved}

message-commits :
    (n : ℕ) (d : Db) → (m : Option ℕ) × (s : Db) × (create_order_system_message n d ≡ ok (m, s))
unfolding create_order_system_message
message-commits n d = elim (Option-cases (find n d.conversations)) [
  | inl e ↦ (none, d, rw (create_order_system_message, e) refl)
  | inr (c, e) ↦ (
    some d.next_id,
    record d { next_id = suc d.next_id; messages = d.next_id ∷ d.messages },
    rw (create_order_system_message, e) refl,
  )
]

-- The row that the join makes of a dispute and its order.
abbrev pub joined_row : DisputeRow → OrderRow → ResolutionRow
joined_row row o = record {
  dispute = row;
  order_status = o.status;
  buyer_id = o.buyer_id;
  seller_id = o.seller_id;
}

-- A lawful dispute in resolution may be settled.
settled-fits :
    (row : DisputeRow) (now : ℕ)
    → row.status ≡ resolving
    → (x : DisputeDecision) → row.resolution_decision ≡ some x
    → dispute_fits row ≡ true
    → dispute_fits (settled_row row now) ≡ true
unfolding settled_row
settled-fits row now running x decided fits =
    let same : same_decision x x ≡ true = (decision_eq.beq_iff x x).1 refl in
    let claimed : is_claimed row ≡ true = (rw running at fits) in
    elim (Option-cases row.resolved_at) [ inl e ↦ ground arith | inr (t, e) ↦ ground arith ]

module _ (id operation : ℕ) (d : Db) where
  settle_dispute-commits :
      (r : ResolutionRow)
      → dispute_fits (settled_row r.dispute d.now) ≡ true
      → (d' : Db) × (settle_dispute id operation r d
          ≡ ok (some (record r { dispute = settled_row r.dispute d.now }, true), d'))
  unfolding settle_dispute ◌>>=◌ gets pure update_dispute record_order_event
  settle_dispute-commits r fits =
      let x = settled_row r.dispute d.now in
      let event : OrderEvent = record {
        order_id = x.order_id;
        actor_id = x.admin_id;
        type = dispute_resolved;
        body = x.admin_note;
        transition = none;
      } in
      let s = record d { disputes = put id x d.disputes; order_events = event ∷ d.order_events } in
      let (m₁, s₁, q₁) = message-commits x.order_id s in
      let (m₂, s₂, q₂) = message-commits x.order_id s₁ in
      let (e, s₃, q₃) =
        enqueue-commits
          (new_event (dispute_resolved_event id operation) x.order_id
            (message_ids m₁ ++ message_ids m₂) d.now)
          s₂ in
      (s₃, rw (fits, q₁, q₂, q₃) refl)

  -- The result of a finalization that applies.
  pub finalize-applies :
      (x : DisputeDecision) (row : DisputeRow) (o : OrderRow)
      → find id d.disputes ≡ some row
      → find row.order_id d.orders ≡ some o
      → row.status ≡ resolving
      → row.resolution_decision ≡ some x
      → row.resolution_operation_id ≡ some operation
      → terminal_decision o.status ≡ some x
      → dispute_fits row ≡ true
      → (d' : Db) × (finalize_if_applied id x operation d
          ≡ ok (some (record (joined_row row o) { dispute = settled_row row d.now }, true), d'))
  unfolding finalize_if_applied assert_decision assert_operation ◌>>=◌ throw_if
  finalize-applies x row o there ordered running decided chosen applied fits =
      let same : same_decision x x ≡ true = (decision_eq.beq_iff x x).1 refl in
      let this : (operation == operation) ≡ true = (nat_eq.beq_iff operation operation).1 refl in
      let matches : decision_matches row.resolution_decision x ≡ true = rw (decided, same) refl in
      let operates : operation_matches row.resolution_operation_id (some operation) ≡ true =
        rw (chosen, this) refl in
      let unresolved : is_resolved row.status ≡ false = rw running refl in
      let reached : is_decision (terminal_decision o.status) x ≡ true = rw (applied, same) refl in
      let (d', q) =
        settle_dispute-commits (joined_row row o) (settled-fits row d.now running x decided fits) in
      (
        d',
        rw
            (
              select_resolution-finds id d row o there ordered,
              matches,
              operates,
              unresolved,
              reached,
            )
            q,
      )
