-- ===== src/Outbox/Settling.antt =====
-- How the work on a claimed event ends, whatever its handler does.
use mathlib.Core.Path.{subst}
use skrynia.Prelude.{
  ℕ, ◌≡◌, refl, sym, ap, ◌∙◌, ◌⊎◌, inl, inr, Bool, true, false, Option, none, some, Option-cases,
  Bool-cases,
}
use skrynia.Prelude.Table.{find, put, find-put_self}
use skrynia.Common.Errors.{Error, Result, ok, err, plain}
use skrynia.Db.Keys.{EventKey, event_key_eq}
use skrynia.Db.Rows.{Db, OutboxRow, processed}
use skrynia.Db.Tx.{in_tx-ok, in_tx-err}
use skrynia.Outbox.{OutboxOptions, is_locked_by, completed_row, failed_row}
use skrynia.Outbox.Promises.{
  HoldsLock, IsFailure, is_locked_by-HoldsLock, HoldsLock-is_locked_by, failed_row-IsFailure,
}
use skrynia.Outbox.Claim.{Event}
use skrynia.Outbox.Worker.{
  Handler, mark_processed, mark_failed, process_claimed_event, after_handler, after_mark, changed,
}

abbrev held : ℕ → Option OutboxRow → Bool
held worker none = false
held worker (some row) = is_locked_by worker row

-- The worker holds the lock of the row that was found.
abbrev pub IsHeld : ℕ → Option OutboxRow → Type 0
IsHeld worker found = (row : OutboxRow) × (found ≡ some row) × HoldsLock worker row

IsHeld-held :
    (worker : ℕ) (found : Option OutboxRow) → IsHeld worker found → held worker found ≡ true
IsHeld-held worker found (row, there, holds) = rw there (HoldsLock-is_locked_by worker row holds)

not_held :
    (worker : ℕ) (found : Option OutboxRow) → held worker found ≡ false → ¬ IsHeld worker found
not_held worker found free holds = let x = IsHeld-held worker found holds in absurd (cc)

-- A failure was written, and if the lock was lost, nothing was.
abbrev pub IsFailed : OutboxOptions → Event → Error → Db → Db → Type 0
IsFailed o event e d d' =
    (¬ IsHeld o.worker_id (find event.0 d.outbox) × (d' ≡ d))
    ⊎ ((row new : OutboxRow) × (find event.0 d.outbox ≡ some row)
        × HoldsLock o.worker_id row
        × IsFailure o d.now event.1 e row new
        × (d' ≡ record d { outbox = put event.0 new d.outbox }))

-- A success was written, under the lock.
abbrev pub IsCompleted : OutboxOptions → Event → Db → Db → Type 0
IsCompleted o event d d' =
    (row : OutboxRow) × (find event.0 d.outbox ≡ some row)
    × HoldsLock o.worker_id row
    × (d' ≡ record d {
      outbox =
          put event.0
            (record row {
              status = processed;
              locked_at = none;
              locked_by = none;
              processed_at = some d.now;
              last_error = none;
            })
            d.outbox;
    })

module _ (worker : ℕ) (k : EventKey) (change : OutboxRow → OutboxRow) (d : Db) where
  pub changed-cases :
      ((held worker (find k d.outbox) ≡ false) × (changed worker change (find k d.outbox) ≡ none))
      ⊎ ((row : OutboxRow) × (find k d.outbox ≡ some row)
          × (is_locked_by worker row ≡ true)
          × (changed worker change (find k d.outbox) ≡ some (change row)))
  changed-cases = elim (Option-cases (find k d.outbox)) [
    | inl x ↦ inl (rw x refl, rw x refl)
    | inr (row, x) ↦ elim (Bool-cases (is_locked_by worker row)) [
      | inl mine ↦ inr (row, x, mine, rw (x, mine) refl)
      | inr lost ↦ inl (rw x lost, rw (x, lost) refl)
    ]
  ]

-- Why a failure is written: the handler's own error, or that the lock was lost.
abbrev pub IsReason : OutboxOptions → Event → Result (Unit {0}) → Error → Db → Type 0
IsReason o event r e d = (r ≡ err e) ⊎ ((r ≡ ok tt) × ¬ IsHeld o.worker_id (find event.0 d.outbox))

module _ (o : OutboxOptions) (event : Event) (d : Db) where
  mark_failed-IsFailed : (e : Error) → IsFailed o event e d (mark_failed o event e d)
  unfolding mark_failed
  mark_failed-IsFailed e =
      elim (changed-cases o.worker_id event.0 (failed_row o d.now event.1 e) d) [
        | inl (lost, x) ↦ inl (not_held o.worker_id (find event.0 d.outbox) lost, rw x refl)
        | inr (row, found, mine, x) ↦ inr (
          row,
          failed_row o d.now event.1 e row,
          found,
          is_locked_by-HoldsLock o.worker_id row mine,
          failed_row-IsFailure o d.now event.1 e row,
          rw x refl,
        )
      ]

  -- What the work writes after the handler: its success under the lock, or a failure, the handler's or
  -- that the lock was lost.
  after_handler-cases :
      (r : Result (Unit {0})) {b : Bool} {d' : Db}
      → after_handler o event (r, d) ≡ (b, d')
      → ((b ≡ true) × (r ≡ ok tt) × IsCompleted o event d d')
        ⊎ ((b ≡ false) × ((e : Error) × IsReason o event r e d × IsFailed o event e d d'))
  unfolding mark_processed completed_row
  after_handler-cases (err e) h = inr (
    ap (λ x. x.0) (sym h),
    (e, inl refl, subst (IsFailed o event e d) (ap (λ x. x.1) h) (mark_failed-IsFailed e)),
  )
  after_handler-cases (ok u) {b} {d'} h =
      let mark = mark_processed o.worker_id event.0 in
      elim (changed-cases o.worker_id event.0 (completed_row d.now) d) [
        | inl (lost, x) ↦
            let e = plain "Outbox lock was lost before event completed" in
            let k : after_handler o event (ok u, d) ≡ (false, mark_failed o event e d) =
              ap (after_mark o event) (in_tx-err mark d (rw x refl)) in
            inr (
              ap (λ x. x.0) (sym h ∙ k),
              (
                e,
                inr (refl, not_held o.worker_id (find event.0 d.outbox) lost),
                subst (IsFailed o event e d) (ap (λ x. x.1) (sym k ∙ h)) (mark_failed-IsFailed e),
              ),
            )
        | inr (row, found, mine, x) ↦
            let t : Db = record d { outbox = put event.0 (completed_row d.now row) d.outbox } in
            let k : after_handler o event (ok u, d) ≡ (true, t) =
              ap (after_mark o event) (in_tx-ok mark d (rw x refl)) in
            inl (
              ap (λ x. x.0) (sym h ∙ k),
              refl,
              (row, found, is_locked_by-HoldsLock o.worker_id row mine, ap (λ x. x.1) (sym h ∙ k)),
            )
      ]

-- A row whose lock is free frees the event.
put-frees :
    (worker : ℕ) (k : EventKey) (row : OutboxRow) (d d' : Db)
    → d' ≡ record d { outbox = put k row d.outbox }
    → row.locked_by ≡ none
    → ¬ IsHeld worker (find k d'.outbox)
put-frees worker k row d d' e free (x, there, (_, mine)) =
    let found : find k d'.outbox ≡ some row =
      ap (λ y. find k y.outbox) e ∙ find-put_self k row d.outbox in
    absurd (cc)

IsFailed-frees :
    (o : OutboxOptions) (event : Event) (e : Error) (d d' : Db)
    → IsFailed o event e d d'
    → ¬ IsHeld o.worker_id (find event.0 d'.outbox)
IsFailed-frees o event e d d' (inl (lost, same)) =
    subst (λ x. ¬ IsHeld o.worker_id (find event.0 x.outbox)) (sym same) lost
IsFailed-frees o event e d d' (inr (row, new, _, _, f, x)) =
    put-frees o.worker_id event.0 new d d' x (ap (λ r. r.locked_by) f.others)

IsCompleted-frees :
    (o : OutboxOptions) (event : Event) (d d' : Db)
    → IsCompleted o event d d'
    → ¬ IsHeld o.worker_id (find event.0 d'.outbox)
IsCompleted-frees o event d d' (row, _, _, x) = put-frees o.worker_id event.0 _ d d' x refl

-- Whatever the handler of an event does and leaves behind, the work on the event ends with its worker
-- holding no lock on it. It reports true where the handler returned and the row, which the worker still
-- held, was written as processed at that moment. It reports false where the handler threw or the lock
-- was lost: then nothing is written if the lock was lost, and else the row keeps the error and is failed
-- when the attempts of the claimed event are used up, and pending again before that, due after the base
-- delay doubled for each attempt after the first, a day at most.
pub process_claimed_event-settles :
    (o : OutboxOptions) (handler : Handler) (event : Event) (d s : Db) (r : Result (Unit {0}))
    {b : Bool} {d' : Db}
    → handler event.1 d ≡ (r, s)
    → process_claimed_event o handler event d ≡ (b, d')
    → (¬ IsHeld o.worker_id (find event.0 d'.outbox))
      × (((b ≡ true) × (r ≡ ok tt) × IsCompleted o event s d')
          ⊎ ((b ≡ false) × ((e : Error) × IsReason o event r e s × IsFailed o event e s d')))
unfolding process_claimed_event
process_claimed_event-settles o handler event d s r {b} {d'} ran h =
    let cases = after_handler-cases o event s r (ap (after_handler o event) (sym ran) ∙ h) in
    elim cases [
      | inl (done, returned, x) ↦ (IsCompleted-frees o event s d' x, inl (done, returned, x))
      | inr (undone, (e, why, x)) ↦ (IsFailed-frees o event e s d' x, inr (undone, (e, why, x)))
    ]
