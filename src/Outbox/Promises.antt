-- ===== src/Outbox/Promises.antt =====
-- What the statements of backend/src/modules/outbox/outbox.worker.ts promise of a row, field by field.
use skrynia.Prelude.{
  ℕ, ◌+◌, ◌-◌, ◌*◌, ◌^◌, ◌≤◌, ◌<◌, ◌≡◌, refl, ap, ◌⊎◌, inl, inr, true, Option, none, some, arith,
  Bool-cases, leb, ◌&&◌,
}
use skrynia.Common.Errors.{Error}
use skrynia.Db.Rows.{OutboxRow, OutboxStatus, pending_event, processing, failed}
use skrynia.Outbox.{
  OutboxOptions, is_expired, is_candidate, fail_expired, is_locked_by, failed_row, backoff_ms,
  is_processing, is_pending, is_before, is_worker,
}

-- The lock of the row was taken, and not renewed, longer ago than the timeout.
pub record IsAbandoned (o : OutboxOptions) (now : ℕ) (row : OutboxRow) : Type 0 where
  pub status : row.status ≡ processing
  pub lock : (t : ℕ) × (row.locked_at ≡ some t) × (t + o.lock_timeout_ms < now)

-- The row may be claimed.
pub record IsClaimable (o : OutboxOptions) (now : ℕ) (row : OutboxRow) : Type 0 where
  pub due : ((row.status ≡ pending_event) × (row.available_at ≤ now)) ⊎ IsAbandoned o now row
  pub left : row.attempts < o.max_attempts

is_processing_iff : (s : OutboxStatus) → is_processing s ≡ true → s ≡ processing
is_processing_iff s h = ground arith

is_pending_iff : (s : OutboxStatus) → is_pending s ≡ true → s ≡ pending_event
is_pending_iff s h = ground arith

is_before-lock :
    (m : Option ℕ) (timeout now : ℕ)
    → is_before m timeout now ≡ true
    → (t : ℕ) × (m ≡ some t) × (t + timeout < now)
is_before-lock none timeout now h = absurd (cc)
is_before-lock (some t) timeout now h = (t, refl, ground arith)

pub is_expired-IsAbandoned :
    (o : OutboxOptions) (now : ℕ) (row : OutboxRow)
    → is_expired o now row ≡ true
    → IsAbandoned o now row
unfolding is_expired
is_expired-IsAbandoned o now row h = record {
  status = is_processing_iff row.status (ground arith);
  lock = is_before-lock row.locked_at o.lock_timeout_ms now (ground arith);
}

IsAbandoned-is_expired :
    (o : OutboxOptions) (now : ℕ) (row : OutboxRow)
    → IsAbandoned o now row
    → is_expired o now row ≡ true
unfolding is_expired
IsAbandoned-is_expired o now row h =
    let (t, locked, old) = h.lock in rw (h.status, locked) (ground arith)

pub is_candidate-IsClaimable :
    (o : OutboxOptions) (now : ℕ) (row : OutboxRow)
    → is_candidate o now row ≡ true
    → IsClaimable o now row
unfolding is_candidate
is_candidate-IsClaimable o now row h = elim (Bool-cases (is_expired o now row)) [
  | inl old ↦ record { due = inr (is_expired-IsAbandoned o now row old); left = ground arith }
  | inr fresh ↦ record {
    due = inl (is_pending_iff row.status (ground arith), ground arith);
    left = ground arith;
  }
]

pub IsClaimable-is_candidate :
    (o : OutboxOptions) (now : ℕ) (row : OutboxRow)
    → IsClaimable o now row
    → is_candidate o now row ≡ true
unfolding is_candidate
IsClaimable-is_candidate o now row h = elim h.due [
  | inl (waiting, due) ↦ let left = h.left in rw (waiting) (ground arith)
  | inr old ↦ let left = h.left in ground (arith, IsAbandoned-is_expired o now row old)
]

-- What a claim leaves of a row that it does not take: its failure where the lock was abandoned and no
-- attempt is left, and the row itself everywhere else.
abbrev pub IsLeft : OutboxOptions → ℕ → OutboxRow → OutboxRow → Type 0
IsLeft o now row new =
    ((new ≡ row) × ¬ (IsAbandoned o now row × (o.max_attempts ≤ row.attempts)))
    ⊎ (IsAbandoned o now row
        × (o.max_attempts ≤ row.attempts)
        × (new ≡ record row {
          status = failed;
          locked_at = none;
          locked_by = none;
          last_error = new.last_error;
        }))

pub fail_expired-IsLeft :
    (o : OutboxOptions) (now : ℕ) (row : OutboxRow) → IsLeft o now row (fail_expired o now row)
unfolding fail_expired
fail_expired-IsLeft o now row =
    elim (Bool-cases (is_expired o now row && leb o.max_attempts row.attempts)) [
      | inl over ↦
          rw over (inr (is_expired-IsAbandoned o now row (ground arith), ground arith, refl))
      | inr other ↦ rw other (
          inl (
            refl,
            λ (abandoned, used).
                let old = IsAbandoned-is_expired o now row abandoned in absurd (ground arith),
          ))
    ]

-- The worker holds the lock of the row.
abbrev pub HoldsLock : ℕ → OutboxRow → Type 0
HoldsLock worker row = (row.status ≡ processing) × (row.locked_by ≡ some worker)

is_worker_iff : (m : Option ℕ) (worker : ℕ) → is_worker m worker ≡ true → m ≡ some worker
is_worker_iff none worker h = absurd (cc)
is_worker_iff (some v) worker h = ap some (ground arith)

pub is_locked_by-HoldsLock :
    (worker : ℕ) (row : OutboxRow) → is_locked_by worker row ≡ true → HoldsLock worker row
unfolding is_locked_by
is_locked_by-HoldsLock worker row h =
    (is_processing_iff row.status (ground arith), is_worker_iff row.locked_by worker (ground arith))

pub HoldsLock-is_locked_by :
    (worker : ℕ) (row : OutboxRow) → HoldsLock worker row → is_locked_by worker row ≡ true
unfolding is_locked_by
HoldsLock-is_locked_by worker row (work, mine) = rw (work, mine) (ground arith)

-- The base delay, doubled for each attempt after the first one, but never above a day.
abbrev pub IsDelay : ℕ → ℕ → ℕ → Type 0
IsDelay base attempts delay =
    ((delay ≡ base * 2 ^ (attempts - 1)) × (delay ≤ 86_400_000))
    ⊎ ((delay ≡ 86_400_000) × (86_400_000 ≤ base * 2 ^ (attempts - 1)))

-- A failure of the attempt that the event was claimed for: the row is failed where the attempts are
-- used up, and else pending again, due after the delay; its lock is free and the error is kept.
pub record IsFailure (o : OutboxOptions) (now : ℕ) (event : OutboxRow) (e : Error)
    (row new : OutboxRow) : Type 0 where
  pub others : new ≡ record row {
    status = new.status;
    available_at = new.available_at;
    locked_at = none;
    locked_by = none;
    processed_at = none;
    last_error = some e;
  }
  pub outcome :
      ((o.max_attempts ≤ event.attempts)
        × (new.status ≡ failed)
        × (new.available_at ≡ row.available_at))
      ⊎ ((event.attempts < o.max_attempts)
          × (new.status ≡ pending_event)
          × ((delay : ℕ) × (new.available_at ≡ now + delay)
              × IsDelay o.base_backoff_ms event.attempts delay))

backoff_ms-IsDelay : (attempts base : ℕ) → IsDelay base attempts (backoff_ms attempts base)
unfolding backoff_ms
backoff_ms-IsDelay attempts base = elim (Bool-cases (leb (base * 2 ^ (attempts - 1)) 86_400_000)) [
  | inl short ↦ inl (rw short refl, rw short (ground arith))
  | inr long ↦ inr (rw long refl, ground arith)
]

pub failed_row-IsFailure :
    (o : OutboxOptions) (now : ℕ) (event : OutboxRow) (e : Error) (row : OutboxRow)
    → IsFailure o now event e row (failed_row o now event e row)
unfolding failed_row
failed_row-IsFailure o now event e row = record {
  others = refl;
  outcome = elim (Bool-cases (leb o.max_attempts event.attempts)) [
    | inl over ↦ inl (ground arith, rw over refl, rw over refl)
    | inr left ↦ inr (
      ground arith,
      rw left refl,
      (
        backoff_ms event.attempts o.base_backoff_ms,
        rw left refl,
        backoff_ms-IsDelay event.attempts o.base_backoff_ms,
      ),
    )
  ];
}
