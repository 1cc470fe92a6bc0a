-- ===== src/Outbox/Claim.antt =====
-- `claimOutboxBatch` and `retryFailedOutboxEvents` of backend/src/modules/outbox/outbox.worker.ts.
-- Rows of equal times are ordered by their ids, which are random: the order of the ids is the
-- parameter `id_before`. A claim returns its rows in the order in which it found them.
use skrynia.Prelude.{
  ℕ, Bool, true, ◌&&◌, ◌||◌, Option, none, some, List, [], ◌∷◌, map, ◌==◌, ltb, leb, any,
  if◌then◌else◌,
}
use skrynia.Prelude.Table.{Table, ◌=?◌}
use skrynia.Prelude.Order.{filter, sort_by, take, update_all, has_key}
use skrynia.Db.Keys.{EventKey, event_key_eq}
use skrynia.Db.Rows.{OutboxRow, pending_event}
use skrynia.Db.Tx.{Tx, ◌>>=◌, ◌>>◌, pure, gets, modify}
use skrynia.Outbox.{OutboxOptions, fail_expired, is_candidate, is_failed, claimed, min}

abbrev pub Event : Type 0
Event = EventKey × OutboxRow

-- The `set` of a retry.
unfoldable pub retried : ℕ → OutboxRow → OutboxRow
retried now row = record row {
  status = pending_event;
  attempts = 0;
  available_at = now;
  locked_at = none;
  locked_by = none;
  processed_at = none;
  last_error = none;
}

-- `$1 is null or id = any($1)`, where no ids were given or the list of them is empty.
abbrev pub is_asked : List EventKey → EventKey → Bool
is_asked [] k = true
is_asked (j ∷ ks) k = any (λ i. i =? k) (j ∷ ks)

-- `Math.min(Math.max(input.limit ?? 100, 1), 500)`.
abbrev pub retry_limit : Option ℕ → ℕ
retry_limit none = 100
retry_limit (some n) = min (if leb n 1 then 1 else n) 500

module _ (id_before : EventKey → EventKey → Bool) where
  -- `order by available_at, created_at, id`.
  unfoldable pub by_due_time : Event → Event → Bool
  by_due_time (j, a) (k, b) =
      ltb a.available_at b.available_at
      || (a.available_at == b.available_at)
        && (ltb a.created_at b.created_at || (a.created_at == b.created_at) && id_before j k)

  -- `order by created_at, id`.
  unfoldable pub by_age : Event → Event → Bool
  by_age (j, a) (k, b) =
      ltb a.created_at b.created_at || (a.created_at == b.created_at) && id_before j k

  unfoldable pub candidates : OutboxOptions → ℕ → Table EventKey OutboxRow → List Event
  candidates o now rows =
      take o.batch_size (sort_by by_due_time (filter (λ (k, row). is_candidate o now row) rows))

  -- `claimOutboxBatch`: the events as they were written.
  unfoldable pub claim_outbox_batch : OutboxOptions → Tx (List Event)
  claim_outbox_batch o = do
    now ← gets (λ d. d.now)
    modify (λ d. record d { outbox = update_all (λ k row. fail_expired o now row) d.outbox })
    batch ← gets (λ d. candidates o now d.outbox)
    modify (λ d. record d {
      outbox =
          update_all (λ k row. if any (has_key k) batch then claimed o now row else row) d.outbox;
    })
    pure (map (λ (k, row). (k, claimed o now row)) batch)

  -- `retryFailedOutboxEvents`.
  unfoldable pub retry_failed_outbox_events : List EventKey → Option ℕ → Tx (List EventKey)
  retry_failed_outbox_events event_ids limit = do
    now ← gets (λ d. d.now)
    batch ← gets (λ d. take (retry_limit limit) (
        sort_by by_age
          (filter (λ (k, row). is_failed row.status && is_asked event_ids k) d.outbox)))
    modify (λ d. record d {
      outbox =
          update_all (λ k row. if any (has_key k) batch then retried now row else row) d.outbox;
    })
    pure (map (λ (k, row). k) batch)
