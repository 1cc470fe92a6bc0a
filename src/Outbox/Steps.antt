-- ===== src/Outbox/Steps.antt =====
-- The outbox under any number of workers: every statement of a worker, an enqueued event and the
-- passage of time is one step, in any order. What one step does to the rows.
use mathlib.Core.Path.{subst}
use skrynia.Prelude.{
  ℕ, ◌≡◌, refl, ap, sym, ◌∙◌, inl, inr, Bool, true, List, Option, none, some, Bool-cases,
}
use skrynia.Prelude.Table.{find, put, find-put, Table}
use skrynia.Prelude.Order.{
  IsUnique, IsUnique-put, IsUnique-update_all, find-update_all, update_all, mapped,
}
use skrynia.Common.Errors.{Error, ok}
use skrynia.Db.Keys.{EventKey, event_key_eq}
use skrynia.Db.Rows.{Db, OutboxRow}
use skrynia.Db.Tables.{enqueue_domain_event}
use skrynia.Orders.Policy.{new_event}
use skrynia.Outbox.{OutboxOptions, is_locked_by}
use skrynia.Outbox.Claim.{Event, claim_outbox_batch, retry_failed_outbox_events}
use skrynia.Outbox.Worker.{mark_processed, mark_failed, heartbeat_event, changed, written_or_same}
use skrynia.Outbox.Settling.{changed-cases}
use skrynia.Outbox.Rows.{RowStep, untouched, IsSound}

module _ (id_before : EventKey → EventKey → Bool) (max : ℕ) where
  pub data OutboxStep : Db → Db → Type 0 where
    elapse : {d : Db} (t : ℕ) → OutboxStep d (record d { now = t })
    enqueue :
        {d d' : Db} {r : OutboxRow} (k : EventKey) (order : ℕ) (messages : List ℕ)
        → enqueue_domain_event (new_event k order messages d.now) d ≡ ok (r, d')
        → OutboxStep d d'
    claim :
        {d d' : Db} {batch : List Event} (o : OutboxOptions)
        → o.max_attempts ≡ max
        → claim_outbox_batch id_before o d ≡ ok (batch, d')
        → OutboxStep d d'
    complete :
        {d d' : Db} {u : Unit {0}} (worker : ℕ) (k : EventKey)
        → mark_processed worker k d ≡ ok (u, d')
        → OutboxStep d d'
    refuse :
        {d : Db} (o : OutboxOptions) (event : Event) (e : Error)
        → OutboxStep d (mark_failed o event e d)
    renew : {d : Db} (worker : ℕ) (k : EventKey) → OutboxStep d (heartbeat_event worker k d)
    restart :
        {d d' : Db} {ks : List EventKey} (event_ids : List EventKey) (limit : Option ℕ)
        → retry_failed_outbox_events id_before event_ids limit d ≡ ok (ks, d')
        → OutboxStep d d'

-- Every row of `t` made at most one step, and a row that is new in `t'` is as the checks want it.
pub record RowsStep (max : ℕ) (t t' : Table EventKey OutboxRow) : Type 0 where
  pub unique : IsUnique t'
  pub kept :
      (k : EventKey) (row : OutboxRow)
      → find k t ≡ some row
      → (row' : OutboxRow) × (find k t' ≡ some row') × RowStep max row row'
  pub fresh :
      (k : EventKey) (row : OutboxRow) → find k t ≡ none → find k t' ≡ some row → IsSound max row

pub one_row :
    (t : Table EventKey OutboxRow) {j k : EventKey} {a b : OutboxRow}
    → j ≡ k
    → find j t ≡ some a
    → find k t ≡ some b
    → a ≡ b
one_row t e x y = cc

module _ {max : ℕ} {t : Table EventKey OutboxRow} (u : IsUnique t) where
  pub RowsStep-refl : RowsStep max t t
  RowsStep-refl = record {
    unique = u;
    kept = λ k row h. (row, h, untouched);
    fresh = λ k row h f. cc;
  }

  RowsStep-put :
      (k : EventKey) (row row' : OutboxRow)
      → find k t ≡ some row
      → RowStep max row row'
      → RowsStep max t (put k row' t)
  RowsStep-put k row row' there s = record {
    unique = IsUnique-put k row' t u;
    kept = λ j old h. elim (Bool-cases (event_key_eq.beq k j)) [
      | inl same ↦
          let e = (event_key_eq.beq_iff k j).0 same in
          (
            row',
            find-put k j row' t ∙ rw same refl,
            subst (λ r. RowStep max r row') (one_row t e there h) s,
          )
      | inr other ↦ (old, find-put k j row' t ∙ rw other h, untouched)
    ];
    fresh = λ j new free f. elim (Bool-cases (event_key_eq.beq k j)) [
      | inl same ↦ let e = (event_key_eq.beq_iff k j).0 same in cc
      | inr other ↦
          let x : find j (put k row' t) ≡ find j t = find-put k j row' t ∙ rw other refl in cc
    ];
  }

  pub RowsStep-update_all :
      (f : EventKey → OutboxRow → OutboxRow)
      → ((k : EventKey) (row : OutboxRow) → find k t ≡ some row → RowStep max row (f k row))
      → RowsStep max t (update_all f t)
  RowsStep-update_all f s = record {
    unique = IsUnique-update_all f t u;
    kept = λ k row h. (f k row, find-update_all f k t ∙ ap (mapped (f k)) h, s k row h);
    fresh = λ k row h g. let x = find-update_all f k t ∙ ap (mapped (f k)) h in cc;
  }

  pub RowsStep-changed :
      (worker : ℕ) (k : EventKey) (change : OutboxRow → OutboxRow) (d : Db)
      → d.outbox ≡ t
      → ((row : OutboxRow) → is_locked_by worker row ≡ true → RowStep max row (change row))
      → RowsStep max t ((written_or_same k (changed worker change (find k d.outbox)) d).outbox)
  RowsStep-changed worker k change d e s = elim (changed-cases worker k change d) [
    | inl (_, x) ↦ rw (x, e) RowsStep-refl
    | inr (row, found, mine, x) ↦
        rw (x, e) (RowsStep-put k row (change row) (ap (find k) (sym e) ∙ found) (s row mine))
  ]
