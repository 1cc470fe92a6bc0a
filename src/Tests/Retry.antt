-- ===== src/Tests/Retry.antt =====
-- The theorem on retried transactions, at one whose first attempt collides with another.
use skrynia.Prelude.{ℕ, suc, ◌≤◌, ◌<◌, ◌≡◌, ◌==◌, Option, none, some, false, if◌then◌else◌}
use skrynia.Common.Errors.{Error, err, PgError, serialization_failure}
use skrynia.Db.Rows.{Db}
use skrynia.Db.Tables.{fresh_id}
use skrynia.Db.Retry.{
  is_retryable, attempt, in_serializable_tx, Failures, in_serializable_tx-bounded,
}
use skrynia.Tests.Fixtures.{start}

-- Before each attempt another transaction takes an id.
abbrev others : ℕ → Db → Db
others n d = record d { next_id = suc d.next_id }

abbrev collision : ℕ → Db → Option PgError
collision n d = if n == 1 then some serialization_failure else none

in_serializable_tx-bounded_example :
    (m : ℕ) × (s : Db) × (m ≤ 3)
    × Failures fresh_id others collision 1 m start s
    × (in_serializable_tx fresh_id others collision none start
        ≡ attempt fresh_id others collision m s)
    × (m < 3
        → (e : Error) → attempt fresh_id others collision m s ≡ (err e, others m s)
        → is_retryable e ≡ false)
in_serializable_tx-bounded_example = in_serializable_tx-bounded fresh_id others collision none start
