-- ===== src/Tests/Outbox.antt =====
-- The theorems on the outbox worker, at two events: one that is due, and one that was processed.
use skrynia.Prelude.{
  ◌+◌, ◌≤◌, ◌≡◌, refl, ◌⊎◌, List, [], ◌∷◌, Bool, true, false, none, some, any, arith, length,
}
use skrynia.Prelude.Table.{find}
use skrynia.Prelude.Order.{has_key, IsUnique}
use skrynia.Common.Errors.{Error, Result, ok, err, plain}
use skrynia.Db.Keys.{EventKey, order_paid, order_canceled, event_key_eq}
use skrynia.Db.Rows.{Db, OutboxRow, pending_event, processing, processed}
use skrynia.Db.Tx.{◌>>=◌, gets, modify, pure}
use skrynia.Outbox.{OutboxOptions, claimed}
use skrynia.Outbox.Claim.{Event, claim_outbox_batch}
use skrynia.Outbox.Claims.{claim_outbox_batch-rows}
use skrynia.Outbox.Promises.{IsClaimable, IsLeft}
use skrynia.Outbox.Worker.{Handler, process_claimed_event}
use skrynia.Outbox.Settling.{IsHeld, IsCompleted, IsFailed, IsReason, process_claimed_event-settles}
use skrynia.Outbox.Steps.{claim}
use skrynia.Outbox.History.{OutboxRun, stop, next, AllSound, OutboxRun-AllSound}
use skrynia.Tests.Fixtures.{start, out, is_ok, committed}

abbrev due : OutboxRow
due = record {
  event_key = order_paid 1;
  order_id = 1;
  system_message_ids = [];
  status = pending_event;
  attempts = 0;
  available_at = 100;
  locked_at = none;
  locked_by = none;
  processed_at = none;
  last_error = none;
  created_at = 100;
}

abbrev done : OutboxRow
done = record due {
  event_key = order_canceled 2;
  order_id = 2;
  status = processed;
  attempts = 1;
  processed_at = some 90;
}

abbrev queued : Db
queued = record start { outbox = (order_paid 1, due) ∷ (order_canceled 2, done) ∷ [] }

abbrev options : OutboxOptions
options = record {
  worker_id = 5;
  batch_size = 2;
  max_attempts = 3;
  base_backoff_ms = 1_000;
  lock_timeout_ms = 300_000;
}

-- No two ids are equal, so any order of them will do.
abbrev unordered : EventKey → EventKey → Bool
unordered j k = false

abbrev refusing : Handler
refusing event d = (err (plain "unreachable"), d)

abbrev claim_run : Result (List Event × Db)
claim_run = claim_outbox_batch unordered options queued

abbrev claim_out : List Event × Db
claim_out = out ([], queued) claim_run

claim_ok : is_ok claim_run ≡ true
unfolding claim_outbox_batch ◌>>=◌ gets modify pure
claim_ok = refl

claims : claim_run ≡ ok claim_out
claims = committed ([], queued) claim_run claim_ok

queued-IsUnique : IsUnique queued.outbox
unfolding find
queued-IsUnique = (refl, (refl, tt))

done_there : find (order_canceled 2) queued.outbox ≡ some done
unfolding find
done_there = refl

queued-AllSound : AllSound 3 queued
unfolding find
queued-AllSound k row h = (ground arith, ground arith)

one_claim : OutboxRun unordered 3 queued claim_out.1
one_claim = next (claim options refl claims) stop

claim_outbox_batch-rows_example :
    (length claim_out.0 ≤ 2)
    × ((k : EventKey) (row : OutboxRow)
        → find k queued.outbox ≡ some row
        → ((any (has_key k) claim_out.0 ≡ true)
            × IsClaimable options 100 row
            × (find k claim_out.1.outbox
                ≡ some (record row {
                  status = processing;
                  attempts = row.attempts + 1;
                  locked_at = some 100;
                  locked_by = some 5;
                  processed_at = none;
                })))
          ⊎ ((any (has_key k) claim_out.0 ≡ false)
              × ((new : OutboxRow) × (find k claim_out.1.outbox ≡ some new)
                  × IsLeft options 100 row new)
              × (IsClaimable options 100 row → length claim_out.0 ≡ 2)))
claim_outbox_batch-rows_example =
    claim_outbox_batch-rows unordered options queued queued-IsUnique claims

OutboxRun-AllSound_example : IsUnique claim_out.1.outbox × AllSound 3 claim_out.1
OutboxRun-AllSound_example = OutboxRun-AllSound one_claim queued-IsUnique queued-AllSound

abbrev at_work : Event
at_work = (order_paid 1, claimed options 100 due)

abbrev unreachable : Result (Unit {0})
unreachable = err (plain "unreachable")

abbrev settled : Bool × Db
settled = process_claimed_event options refusing at_work claim_out.1

process_claimed_event-settles_example :
    (¬ IsHeld 5 (find (order_paid 1) settled.1.outbox))
    × (((settled.0 ≡ true)
          × (unreachable ≡ ok tt)
          × IsCompleted options at_work claim_out.1 settled.1)
        ⊎ ((settled.0 ≡ false)
            × ((e : Error) × IsReason options at_work unreachable e claim_out.1
                × IsFailed options at_work e claim_out.1 settled.1)))
process_claimed_event-settles_example =
    process_claimed_event-settles options refusing at_work claim_out.1 claim_out.1 unreachable refl
      refl
