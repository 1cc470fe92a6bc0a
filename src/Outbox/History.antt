-- ===== src/Outbox/History.antt =====
-- The outbox over time: what holds after any number of steps, in any order.
use mathlib.Core.Path.{subst}
use skrynia.Prelude.{
  ℕ, ◌≡◌, refl, ap, sym, ◌∙◌, inl, inr, Bool, true, List, Option, none, some, arith, any,
  Option-cases, Bool-cases, if◌then◌else◌, ◌&&◌,
}
use skrynia.Prelude.Table.{find, put, find-put}
use skrynia.Prelude.Order.{
  IsUnique, IsUnique-put, IsUnique-update_all, find-update_all, update_all, mapped, has_key, holds,
  filter, take, sort_by, any-take, any-sort_by, any-filter,
}
use skrynia.Common.Errors.{ok}
use skrynia.Db.Keys.{EventKey, event_key_eq}
use skrynia.Db.Rows.{Db, OutboxRow, processed}
use skrynia.Db.Tables.{enqueue_domain_event}
use skrynia.Db.Tx.{gets, modify, pure, ◌>>=◌}
use skrynia.Orders.Policy.{new_event}
use skrynia.Outbox.{OutboxOptions, completed_row, failed_row, is_failed}
use skrynia.Outbox.Claim.{
  Event, claim_outbox_batch, retry_failed_outbox_events, retried, retry_limit, by_age, is_asked,
}
use skrynia.Outbox.Claims.{claim_outbox_batch-computed, claim_outbox_batch-eq-ok, unexpired}
use skrynia.Outbox.Worker.{
  mark_processed, mark_failed, heartbeat_event, changed, written_or_same, written_or_lost,
}
use skrynia.Outbox.Rows.{untouched, expired, taken, completed, refused, renewed, restarted, IsSound}
use skrynia.Outbox.Rows.{RowStep-IsSound, RowStep-final}
use skrynia.Outbox.Steps.{
  OutboxStep, elapse, enqueue, claim, complete, refuse, renew, restart, RowsStep, RowsStep-refl,
  RowsStep-update_all, RowsStep-changed, one_row,
}

RowsStep-enqueue :
    (max : ℕ) (k : EventKey) (order : ℕ) (messages : List ℕ) (d : Db) {r : OutboxRow} {d' : Db}
    → IsUnique d.outbox
    → enqueue_domain_event (new_event k order messages d.now) d ≡ ok (r, d')
    → RowsStep max d.outbox d'.outbox
unfolding enqueue_domain_event new_event
RowsStep-enqueue max k order messages d {r} {d'} u h = elim (Option-cases (find k d.outbox)) [
  | inr (old, x) ↦ let e : d'.outbox ≡ d.outbox = ground arith in rw e (RowsStep-refl u)
  | inl free ↦
      let row = new_event k order messages d.now in
      let e : d'.outbox ≡ put k row d.outbox = ground arith in
      rw e (record {
        unique = IsUnique-put k row d.outbox u;
        kept = λ j old there. elim (Bool-cases (event_key_eq.beq k j)) [
          | inl same ↦ let q = (event_key_eq.beq_iff k j).0 same in cc
          | inr other ↦ (old, find-put k j row d.outbox ∙ rw other there, untouched)
        ];
        fresh = λ j new none_there there. elim (Bool-cases (event_key_eq.beq k j)) [
          | inl same ↦
              let q : find j (put k row d.outbox) ≡ some row =
                find-put k j row d.outbox ∙ rw same refl in
              let x : new ≡ row = cc in rw x (refl, omega arith)
          | inr other ↦
              let q : find j (put k row d.outbox) ≡ find j d.outbox =
                find-put k j row d.outbox ∙ rw other refl in
              cc
        ];
      })
]

module _ (id_before : EventKey → EventKey → Bool) (d : Db) (u : IsUnique d.outbox) {d' : Db} where
  RowsStep-claim :
      (o : OutboxOptions) {batch : List Event}
      → claim_outbox_batch id_before o d ≡ ok (batch, d')
      → RowsStep o.max_attempts d.outbox d'.outbox
  RowsStep-claim o h =
      let (_, rows) = claim_outbox_batch-computed id_before o d u h in
      let (_, t) = claim_outbox_batch-eq-ok id_before o d h in
      record {
        unique = rw t (IsUnique-update_all _ _ (IsUnique-update_all _ _ u));
        kept = λ k row there. elim (rows k row there) [
          | inl (_, candidate, x) ↦ (_, x, taken o d.now refl candidate)
          | inr (_, x, _) ↦ (_, x, expired o d.now)
        ];
        fresh = λ k row free there.
            let x : find k d'.outbox ≡ none =
              ap (find k) t
              ∙ find-update_all _ k (unexpired o d)
              ∙ ap (mapped _) (find-update_all _ k d.outbox ∙ ap (mapped _) free) in
            cc;
      }

  RowsStep-restart :
      (max : ℕ) (event_ids : List EventKey) (limit : Option ℕ) {ks : List EventKey}
      → retry_failed_outbox_events id_before event_ids limit d ≡ ok (ks, d')
      → RowsStep max d.outbox d'.outbox
  unfolding retry_failed_outbox_events ◌>>=◌ gets modify pure
  RowsStep-restart max event_ids limit h =
      let asked : Event → Bool = λ (k, row). is_failed row.status && is_asked event_ids k in
      let batch = take (retry_limit limit) (sort_by (by_age id_before) (filter asked d.outbox)) in
      let change : EventKey → OutboxRow → OutboxRow =
        λ k row. if any (has_key k) batch then retried d.now row else row in
      let t : d'.outbox ≡ update_all change d.outbox = cc in
      rw t (
        RowsStep-update_all u change (λ k row there. elim (Bool-cases (any (has_key k) batch)) [
          | inr left ↦ rw left untouched
          | inl chosen ↦
              let x = any-sort_by (has_key k) (by_age id_before) (filter asked d.outbox) in
              let y = any-filter asked k d.outbox u ∙ ap (holds (λ r. asked (k, r))) there in
              let z : (is_failed row.status && is_asked event_ids k) ≡ true =
                sym y ∙ sym x ∙ any-take (has_key k) (retry_limit limit) _ chosen in
              rw chosen (restarted d.now (ground arith))
        ]))

written_same :
    (k : EventKey) (x : Option OutboxRow) (d : Db) {a : Unit {0}} {d' : Db}
    → written_or_lost k x d ≡ ok (a, d')
    → d' ≡ written_or_same k x d
written_same k none d h = cc
written_same k (some row) d h = cc

module _ {id_before : EventKey → EventKey → Bool} {max : ℕ} where
  OutboxStep-rows :
      {d d' : Db}
      → OutboxStep id_before max d d'
      → IsUnique d.outbox
      → RowsStep max d.outbox d'.outbox
  unfolding mark_processed mark_failed heartbeat_event
  OutboxStep-rows (elapse t) u = RowsStep-refl u
  OutboxStep-rows {d} (enqueue k order messages h) u = RowsStep-enqueue max k order messages d u h
  OutboxStep-rows {d} (claim o m h) u = rw⁻¹ m (RowsStep-claim id_before d u o h)
  OutboxStep-rows {d} (complete worker k h) u =
      rw (written_same k (changed worker (completed_row d.now) (find k d.outbox)) d h) (
        RowsStep-changed u worker k (completed_row d.now) d refl
          (λ row mine. completed worker d.now mine))
  OutboxStep-rows {d} (refuse o event e) u =
      RowsStep-changed u o.worker_id event.0 (failed_row o d.now event.1 e) d refl
        (λ row mine. refused o d.now event.1 e mine)
  OutboxStep-rows {d} (renew worker k) u =
      RowsStep-changed u worker k (λ row. record row { locked_at = some d.now }) d refl
        (λ row mine. renewed worker d.now mine)
  OutboxStep-rows {d} (restart event_ids limit h) u =
      RowsStep-restart id_before d u max event_ids limit h

-- Any number of steps.
module _ (id_before : EventKey → EventKey → Bool) (max : ℕ) where
  pub data OutboxRun : Db → Db → Type 0 where
    stop : {d : Db} → OutboxRun d d
    next : {d s d' : Db} → OutboxStep id_before max d s → OutboxRun s d' → OutboxRun d d'

-- Every row is as the checks of its table want it, with at most `max` attempts.
abbrev pub AllSound : ℕ → Db → Type 0
AllSound max d = (k : EventKey) (row : OutboxRow) → find k d.outbox ≡ some row → IsSound max row

module _ {id_before : EventKey → EventKey → Bool} {max : ℕ} where
  step-AllSound :
      {d d' : Db}
      → OutboxStep id_before max d d'
      → IsUnique d.outbox
      → AllSound max d
      → AllSound max d'
  step-AllSound {d} {d'} s u sound k row' there =
      let r = OutboxStep-rows s u in
      elim (Option-cases (find k d.outbox)) [
        | inl free ↦ r.fresh k row' free there
        | inr (row, old) ↦
            let (new, here, step) = r.kept k row old in
            subst (IsSound max) (one_row d'.outbox refl here there)
              (RowStep-IsSound step (sound k row old))
      ]

  -- Through any steps of any number of workers with the same maximum of attempts, and of the services
  -- that enqueue, no key comes to have two rows, no row comes to break the checks of its table on locks
  -- and results, and none has more attempts than the maximum.
  pub OutboxRun-AllSound :
      {d d' : Db}
      → OutboxRun id_before max d d'
      → IsUnique d.outbox
      → AllSound max d
      → IsUnique d'.outbox × AllSound max d'
  OutboxRun-AllSound stop u sound = (u, sound)
  OutboxRun-AllSound (next s run) u sound =
      OutboxRun-AllSound run ((OutboxStep-rows s u).unique) (step-AllSound s u sound)

  -- An event that was processed stays as it is, through any such steps: it is not processed again, not
  -- claimed and not retried.
  pub processed_for_good :
      {d d' : Db} (k : EventKey) (row : OutboxRow)
      → OutboxRun id_before max d d'
      → IsUnique d.outbox
      → find k d.outbox ≡ some row
      → row.status ≡ processed
      → find k d'.outbox ≡ some row
  processed_for_good k row stop u there done = there
  processed_for_good k row (next s run) u there done =
      let r = OutboxStep-rows s u in
      let (new, here, step) = r.kept k row there in
      let same : new ≡ row = RowStep-final step done in
      processed_for_good k row run r.unique (here ∙ ap some same) done
