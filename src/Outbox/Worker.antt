-- ===== src/Outbox/Worker.antt =====
-- `processClaimedEvent` and `processOutboxBatch` of backend/src/modules/outbox/outbox.worker.ts. The
-- handler is a parameter: whatever runs while it does, heartbeats and other workers too, is part of
-- what it does to the database. The events of a batch are worked one after the other; metrics and the
-- log are left out.
use skrynia.Prelude.{
  ℕ, ◌-◌, Bool, true, false, List, [], ◌∷◌, Option, none, some, length, if◌then◌else◌,
}
use skrynia.Prelude.Table.{find, put}
use skrynia.Prelude.Order.{filter}
use skrynia.Common.Errors.{Error, Result, ok, err, plain}
use skrynia.Db.Keys.{EventKey, event_key_eq}
use skrynia.Db.Rows.{Db, OutboxRow}
use skrynia.Db.Tx.{Tx, Action, in_tx}
use skrynia.Outbox.{OutboxOptions, is_locked_by, completed_row, failed_row}
use skrynia.Outbox.Claim.{Event, claim_outbox_batch}

abbrev pub Handler : Type 0
Handler = OutboxRow → Action (Unit {0})

-- A row's new value, if the worker still holds its lock.
abbrev pub changed : ℕ → (OutboxRow → OutboxRow) → Option OutboxRow → Option OutboxRow
changed worker change none = none
changed worker change (some row) = if is_locked_by worker row then some (change row) else none

abbrev pub written_or_lost : EventKey → Option OutboxRow → Tx (Unit {0})
written_or_lost k none d = err (plain "Outbox lock was lost before event completed")
written_or_lost k (some row) d = ok (tt, record d { outbox = put k row d.outbox })

-- `markProcessed`.
unfoldable pub mark_processed : ℕ → EventKey → Tx (Unit {0})
mark_processed worker k d =
    written_or_lost k (changed worker (completed_row d.now) (find k d.outbox)) d

abbrev pub written_or_same : EventKey → Option OutboxRow → Db → Db
written_or_same k none d = d
written_or_same k (some row) d = record d { outbox = put k row d.outbox }

-- `markFailed`: a result that comes after the lock was lost is dropped.
unfoldable pub mark_failed : OutboxOptions → Event → Error → Db → Db
mark_failed o event error d =
    written_or_same event.0
      (changed o.worker_id (failed_row o d.now event.1 error) (find event.0 d.outbox)) d

-- `heartbeatEvent`.
unfoldable pub heartbeat_event : ℕ → EventKey → Db → Db
heartbeat_event worker k d =
    written_or_same k
      (changed worker (λ row. record row { locked_at = some d.now }) (find k d.outbox)) d

abbrev pub after_mark : OutboxOptions → Event → Result (Unit {0}) × Db → Bool × Db
after_mark o event (ok u, d) = (true, d)
after_mark o event (err e, d) = (false, mark_failed o event e d)

abbrev pub after_handler : OutboxOptions → Event → Result (Unit {0}) × Db → Bool × Db
after_handler o event (ok u, d) = after_mark o event (in_tx (mark_processed o.worker_id event.0) d)
after_handler o event (err e, d) = (false, mark_failed o event e d)

-- `processClaimedEvent`.
unfoldable pub process_claimed_event : OutboxOptions → Handler → Event → Db → Bool × Db
process_claimed_event o handler event d = after_handler o event (handler event.1 d)

-- `mapWithConcurrency` with the work of `processOutboxBatch`.
unfoldable pub process_events : OutboxOptions → Handler → List Event → Db → List Bool × Db
process_events o handler [] d = ([], d)
process_events o handler (event ∷ events) d =
    let (done, s) = process_claimed_event o handler event d in
    let (results, t) = process_events o handler events s in (done ∷ results, t)

-- `ProcessOutboxResult`.
pub record ProcessOutboxResult : Type 0 where
  pub claimed : ℕ
  pub processed : ℕ
  pub failed : ℕ

abbrev pub batch_result : ℕ → List Bool → ProcessOutboxResult
batch_result claimed results = record {
  claimed = claimed;
  processed = length (filter (λ b. b) results);
  failed = claimed - length (filter (λ b. b) results);
}

-- The work after the claim.
unfoldable pub after_batch :
    OutboxOptions → Handler → Result (List Event) × Db → Result ProcessOutboxResult × Db
after_batch o handler (err e, d) = (err e, d)
after_batch o handler (ok events, d) =
    let (results, s) = process_events o handler events d in
    (ok (batch_result (length events) results), s)

-- `processOutboxBatch`.
unfoldable pub process_outbox_batch :
    (EventKey → EventKey → Bool) → OutboxOptions → Handler → Action ProcessOutboxResult
process_outbox_batch id_before o handler d =
    after_batch o handler (in_tx (claim_outbox_batch id_before o) d)
