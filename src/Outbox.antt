-- ===== src/Outbox.antt =====
-- backend/src/modules/outbox/outbox.worker.ts: the worker that hands the events of the domain outbox
-- to their handlers. Its options, and what its statements do to one row.
pub mod Claim
pub mod Worker
pub mod Backoff
pub mod Promises
pub mod Claims
pub mod Rows
pub mod Settling
pub mod Steps
pub mod History
pub mod Batches
use skrynia.Prelude.{
  ℕ, suc, ◌+◌, ◌-◌, ◌*◌, ◌^◌, Bool, true, false, ◌&&◌, ◌||◌, Option, none, some, ◌==◌, ltb, leb,
  if◌then◌else◌,
}
use skrynia.Common.Errors.{Error, plain}
use skrynia.Db.Rows.{OutboxRow, OutboxStatus, pending_event, processing, processed, failed}

-- `ProcessOutboxOptions`, filled in; a worker's id is a number, as in `locked_by`.
pub record OutboxOptions : Type 0 where
  pub worker_id : ℕ
  pub batch_size : ℕ
  pub max_attempts : ℕ
  pub base_backoff_ms : ℕ
  pub lock_timeout_ms : ℕ

-- `MAX_BACKOFF_MS`.
abbrev pub max_backoff_ms : ℕ
max_backoff_ms = 86_400_000

abbrev pub min : ℕ → ℕ → ℕ
min a b = if leb a b then a else b

-- `backoffMs`: a difference of numbers stops at 0, as `Math.max(0, attempts - 1)` does.
unfoldable pub backoff_ms : ℕ → ℕ → ℕ
backoff_ms attempts base_backoff_ms = min (base_backoff_ms * 2 ^ (attempts - 1)) max_backoff_ms

abbrev pub is_pending : OutboxStatus → Bool
is_pending pending_event = true
is_pending _ = false

abbrev pub is_processing : OutboxStatus → Bool
is_processing processing = true
is_processing _ = false

abbrev pub is_failed : OutboxStatus → Bool
is_failed failed = true
is_failed _ = false

-- `locked_at < now() - timeout`, which is not so where `locked_at` is null.
abbrev pub is_before : Option ℕ → ℕ → ℕ → Bool
is_before none timeout now = false
is_before (some t) timeout now = ltb (t + timeout) now

-- `coalesce(last_error, …)`.
abbrev pub error_or : Option Error → Error → Option Error
error_or none e = some e
error_or (some x) e = some x

-- A row whose worker has not renewed its lock in time.
unfoldable pub is_expired : OutboxOptions → ℕ → OutboxRow → Bool
is_expired o now row = is_processing row.status && is_before row.locked_at o.lock_timeout_ms now

-- The first statement of `claimOutboxBatch`: an expired row that has no attempt left fails.
unfoldable pub fail_expired : OutboxOptions → ℕ → OutboxRow → OutboxRow
fail_expired o now row =
    if is_expired o now row && leb o.max_attempts row.attempts
    then record row {
      status = failed;
      locked_at = none;
      locked_by = none;
      last_error = error_or row.last_error (plain "Worker lock expired after maximum attempts");
    }
    else row

-- The `where` of its second statement.
unfoldable pub is_candidate : OutboxOptions → ℕ → OutboxRow → Bool
is_candidate o now row =
    is_pending row.status && leb row.available_at now && ltb row.attempts o.max_attempts
    || is_expired o now row && ltb row.attempts o.max_attempts

-- Its `set`.
unfoldable pub claimed : OutboxOptions → ℕ → OutboxRow → OutboxRow
claimed o now row = record row {
  status = processing;
  attempts = suc row.attempts;
  locked_at = some now;
  locked_by = some o.worker_id;
  processed_at = none;
}

-- `status = 'processing' and locked_by = $2`.
abbrev pub is_worker : Option ℕ → ℕ → Bool
is_worker none w = false
is_worker (some v) w = v == w

unfoldable pub is_locked_by : ℕ → OutboxRow → Bool
is_locked_by worker row = is_processing row.status && is_worker row.locked_by worker

-- The `set` of `markProcessed`.
unfoldable pub completed_row : ℕ → OutboxRow → OutboxRow
completed_row now row = record row {
  status = processed;
  locked_at = none;
  locked_by = none;
  processed_at = some now;
  last_error = none;
}

-- The `set` of `markFailed`, for the event as it was claimed.
unfoldable pub failed_row : OutboxOptions → ℕ → OutboxRow → Error → OutboxRow → OutboxRow
failed_row o now event error row = record row {
  status = if leb o.max_attempts event.attempts then failed else pending_event;
  available_at =
      if leb o.max_attempts event.attempts
      then row.available_at
      else now + backoff_ms event.attempts o.base_backoff_ms;
  locked_at = none;
  locked_by = none;
  processed_at = none;
  last_error = some error;
}
