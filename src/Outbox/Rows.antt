-- ===== src/Outbox/Rows.antt =====
-- What can happen to one row of the outbox.
use skrynia.Prelude.{
  ℕ, ◌≤◌, ◌≡◌, refl, Bool, true, false, ◌&&◌, not, some, is_some, arith, if◌then◌else◌,
}
use skrynia.Common.Errors.{Error}
use skrynia.Db.Rows.{OutboxRow, OutboxStatus, processed}
use skrynia.Outbox.{
  OutboxOptions, is_processing, is_failed, is_expired, fail_expired, is_candidate, claimed,
  is_locked_by, completed_row, failed_row,
}
use skrynia.Outbox.Claim.{retried}

-- `domain_outbox_lock_bundle_check` and `domain_outbox_processed_bundle_check`.
abbrev pub is_processed : OutboxStatus → Bool
is_processed processed = true
is_processed _ = false

abbrev pub row_fits : OutboxRow → Bool
row_fits row =
    (if is_processing row.status
      then is_some row.locked_at && is_some row.locked_by
      else not (is_some row.locked_at) && not (is_some row.locked_by))
    && (if is_processed row.status
        then is_some row.processed_at
        else not (is_some row.processed_at))

-- One statement of a worker with `max` attempts, on one row.
pub data RowStep (max : ℕ) : OutboxRow → OutboxRow → Type 0 where
  untouched : {row : OutboxRow} → RowStep max row row
  expired :
      {row : OutboxRow} (o : OutboxOptions) (now : ℕ) → RowStep max row (fail_expired o now row)
  taken :
      {row : OutboxRow} (o : OutboxOptions) (now : ℕ)
      → o.max_attempts ≡ max
      → is_candidate o now row ≡ true
      → RowStep max row (claimed o now row)
  completed :
      {row : OutboxRow} (worker now : ℕ)
      → is_locked_by worker row ≡ true
      → RowStep max row (completed_row now row)
  refused :
      {row : OutboxRow} (o : OutboxOptions) (now : ℕ) (event : OutboxRow) (e : Error)
      → is_locked_by o.worker_id row ≡ true
      → RowStep max row (failed_row o now event e row)
  renewed :
      {row : OutboxRow} (worker now : ℕ)
      → is_locked_by worker row ≡ true
      → RowStep max row (record row { locked_at = some now })
  restarted :
      {row : OutboxRow} (now : ℕ) → is_failed row.status ≡ true → RowStep max row (retried now row)

-- The row meets the checks of its table, and has had at most `max` attempts.
abbrev pub IsSound : ℕ → OutboxRow → Type 0
IsSound max row = (row_fits row ≡ true) × (row.attempts ≤ max)

module _ {max : ℕ} where
  pub RowStep-IsSound :
      {row row' : OutboxRow} → RowStep max row row' → IsSound max row → IsSound max row'
  unfolding fail_expired is_expired is_candidate claimed is_locked_by completed_row failed_row
      retried
  RowStep-IsSound untouched h = h
  RowStep-IsSound (expired o now) h = (ground arith, ground arith)
  RowStep-IsSound (taken o now m c) h = (ground arith, ground arith)
  RowStep-IsSound (completed w now l) h = (ground arith, ground arith)
  RowStep-IsSound (refused o now event e l) h = (ground arith, ground arith)
  RowStep-IsSound (renewed w now l) h = (ground arith, ground arith)
  RowStep-IsSound (restarted now f) h = (ground arith, ground arith)

  pub RowStep-final :
      {row row' : OutboxRow} → RowStep max row row' → row.status ≡ processed → row' ≡ row
  unfolding fail_expired is_expired is_candidate is_locked_by
  RowStep-final untouched h = refl
  RowStep-final (expired o now) h = ground arith
  RowStep-final (taken o now m c) h = ground arith
  RowStep-final (completed w now l) h = ground arith
  RowStep-final (refused o now event e l) h = ground arith
  RowStep-final (renewed w now l) h = ground arith
  RowStep-final (restarted now f) h = ground arith
