-- ===== src/Disputes/Finalize.antt =====
-- `finalizeIfApplied` and `markResolutionFailed` of
-- backend/src/modules/disputes/dispute-resolution.service.ts.
use skrynia.Prelude.{ℕ, ◌++◌, Bool, true, false, ◌&&◌, Option, none, some, ◌==◌, if◌then◌else◌}
use skrynia.Prelude.Table.{find, nat_eq}
use skrynia.Domain.Enums.{DisputeStatus, resolving, resolved, resolution_failed, DisputeDecision}
use skrynia.Common.Errors.{Error, ok}
use skrynia.Db.Keys.{dispute_resolved_event}
use skrynia.Db.Rows.{DisputeRow, dispute_resolved}
use skrynia.Db.Tx.{Tx, ◌>>=◌, ◌>>◌, pure, gets}
use skrynia.Db.Tables.{
  update_dispute, record_order_event, create_order_system_message, enqueue_domain_event,
}
use skrynia.Orders.Policy.{new_event}
use skrynia.Orders.Escrow.{message_ids}
use skrynia.Disputes.{
  ResolutionRow, terminal_decision, is_decision, select_resolution, assert_decision,
  assert_operation,
}

abbrev pub first_of : Option ℕ → ℕ → Option ℕ
first_of (some t) now = some t
first_of none now = some now

-- `set status = 'resolved', resolution = resolution_decision, …`.
unfoldable pub settled_row : DisputeRow → ℕ → DisputeRow
settled_row row now = record row {
  status = resolved;
  resolution = row.resolution_decision;
  resolved_at = first_of row.resolved_at now;
  last_resolution_error = none;
}

abbrev pub is_resolved : DisputeStatus → Bool
is_resolved resolved = true
is_resolved _ = false

abbrev pub is_resolving : DisputeStatus → Bool
is_resolving resolving = true
is_resolving _ = false

-- The writes of a finalization: the dispute, a timeline row, two messages and an event.
unfoldable pub settle_dispute : ℕ → ℕ → ResolutionRow → Tx (Option (ResolutionRow × Bool))
settle_dispute id operation row = do
  now ← gets (λ d. d.now)
  written ← update_dispute id (settled_row row.dispute now)
  record_order_event (record {
    order_id = written.order_id;
    actor_id = written.admin_id;
    type = dispute_resolved;
    body = written.admin_note;
    transition = none;
  })
  resolution_message ← create_order_system_message written.order_id
  outcome_message ← create_order_system_message written.order_id
  enqueue_domain_event (
      new_event (dispute_resolved_event id operation) written.order_id
        (message_ids resolution_message ++ message_ids outcome_message) now)
  pure (some (record row { dispute = written }, true))

-- `finalizeIfApplied`: nothing where the order has not reached the status of the decision.
unfoldable pub finalize_if_applied : ℕ → DisputeDecision → ℕ → Tx (Option (ResolutionRow × Bool))
finalize_if_applied id decision operation = do
  row ← select_resolution id
  assert_decision row decision
  assert_operation row (some operation)
  if is_resolved row.dispute.status
      then pure (some (row, false))
      else if is_decision (terminal_decision row.order_status) decision
      then settle_dispute id operation row
      else pure none

abbrev pub is_operation : Option ℕ → ℕ → Bool
is_operation none n = false
is_operation (some m) n = m == n

-- `markResolutionFailed`: one statement, on the row of this operation if it is still resolving.
unfoldable pub mark_resolution_failed : ℕ → ℕ → Error → Tx (Unit {0})
mark_resolution_failed id operation error d = elim (find id d.disputes) [
  | none ↦ ok (tt, d)
  | some row ↦
      if is_operation row.resolution_operation_id operation && is_resolving row.status
      then (do
        update_dispute id
            (record row { status = resolution_failed; last_resolution_error = some error })
        pure tt)
          d
      else ok (tt, d)
]
