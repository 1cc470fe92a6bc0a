-- ===== src/Outbox/Claims.antt =====
-- Which rows a claim of the outbox takes, and what it leaves of the others.
use mathlib.Core.Path.{subst}
use skrynia.Prelude.{
  ℕ, ◌+◌, none, ◌≡◌, refl, sym, ap, ◌∙◌, ◌⊎◌, inl, inr, Bool, true, false, some, arith, any,
  Bool-cases, List, [], ◌∷◌, map, length, ◌≤◌, suc, if◌then◌else◌, ◌||◌,
}
use skrynia.Prelude.Table.{find, Table}
use skrynia.Prelude.Order.{
  has_key, holds, mapped, update_all, find-update_all, any-filter, any-sort_by, any-take,
  any-take_full, length-take, IsUnique, IsUnique-update_all, filter, sort_by, take,
}
use skrynia.Common.Errors.{ok}
use skrynia.Db.Keys.{EventKey, event_key_eq}
use skrynia.Db.Rows.{Db, OutboxRow, processing}
use skrynia.Db.Tx.{gets, modify, pure, ◌>>=◌}
use skrynia.Outbox.{OutboxOptions, fail_expired, is_candidate, is_expired, claimed}
use skrynia.Outbox.Promises.{
  IsClaimable, IsLeft, is_candidate-IsClaimable, IsClaimable-is_candidate, fail_expired-IsLeft,
}
use skrynia.Outbox.Claim.{Event, by_due_time, candidates, claim_outbox_batch}

-- A row that is still a candidate after the first statement of a claim was left alone by it.
candidate_kept :
    (o : OutboxOptions) (now : ℕ) (row : OutboxRow)
    → is_candidate o now (fail_expired o now row) ≡ is_candidate o now row
unfolding is_candidate fail_expired is_expired
candidate_kept o now row = ground arith

candidate_fresh :
    (o : OutboxOptions) (now : ℕ) (row : OutboxRow)
    → is_candidate o now row ≡ true
    → fail_expired o now row ≡ row
unfolding is_candidate fail_expired
candidate_fresh o now row h = ground arith

length-map {ℓ κ} :
    {A : Type ℓ} {B : Type κ} (f : A → B) (xs : List A) → length (map f xs) ≡ length xs
length-map f [] = refl
length-map f (x ∷ xs) = ap suc (length-map f xs)

any-map_key :
    (k : EventKey) (f : EventKey → OutboxRow → OutboxRow) (xs : List Event)
    → any (has_key k) (map (λ (j, row). (j, f j row)) xs) ≡ any (has_key k) xs
any-map_key k f [] = refl
any-map_key k f ((j, row) ∷ xs) = ap (λ b. event_key_eq.beq j k || b) (any-map_key k f xs)

-- The rows after the first statement of a claim.
abbrev pub unexpired : OutboxOptions → Db → Table EventKey OutboxRow
unexpired o d = update_all (λ k row. fail_expired o d.now row) d.outbox

abbrev pub keys_of : List Event → EventKey → Bool
keys_of batch k = any (has_key k) batch

module _ (id_before : EventKey → EventKey → Bool) (o : OutboxOptions) (d : Db) where
  pub claim_outbox_batch-eq-ok :
      {batch : List Event} {d' : Db}
      → claim_outbox_batch id_before o d ≡ ok (batch, d')
      → (batch
          ≡ map
              (λ (k, row). (k, claimed o d.now row))
              (candidates id_before o d.now (unexpired o d)))
        × (d'.outbox
            ≡ update_all
                (λ k row.
                  if keys_of (candidates id_before o d.now (unexpired o d)) k
                  then claimed o d.now row
                  else row)
                (unexpired o d))
  unfolding claim_outbox_batch ◌>>=◌ gets modify pure
  claim_outbox_batch-eq-ok h = (cc, cc)

  candidates-has :
      (k : EventKey) (row : OutboxRow)
      → IsUnique d.outbox
      → find k d.outbox ≡ some row
      → any (has_key k) (
          sort_by
            (by_due_time id_before)
            (filter (λ (j, r). is_candidate o d.now r) (unexpired o d)))
        ≡ is_candidate o d.now row
  candidates-has k row u e =
      any-sort_by (has_key k) (by_due_time id_before)
        (filter (λ (j, r). is_candidate o d.now r) (unexpired o d))
      ∙ any-filter (λ (j, r). is_candidate o d.now r) k (unexpired o d)
          (IsUnique-update_all (λ j r. fail_expired o d.now r) d.outbox u)
      ∙ ap (holds (is_candidate o d.now)) (
          find-update_all (λ j r. fail_expired o d.now r) k d.outbox
          ∙ ap (mapped (fail_expired o d.now)) e)
      ∙ candidate_kept o d.now row

  claimed_fields :
      (row : OutboxRow)
      → some (claimed o d.now row)
        ≡ some (record row {
          status = processing;
          attempts = row.attempts + 1;
          locked_at = some d.now;
          locked_by = some o.worker_id;
          processed_at = none;
        })
  unfolding claimed
  claimed_fields row =
      ap
        (λ n. some (record row {
          status = processing;
          attempts = n;
          locked_at = some d.now;
          locked_by = some o.worker_id;
          processed_at = none;
        }))
        (omega arith)

  -- Each row after a claim, in the words of the statements.
  pub claim_outbox_batch-computed :
      {batch : List Event} {d' : Db}
      → IsUnique d.outbox
      → claim_outbox_batch id_before o d ≡ ok (batch, d')
      → (length batch ≤ o.batch_size)
        × ((k : EventKey) (row : OutboxRow)
            → find k d.outbox ≡ some row
            → ((any (has_key k) batch ≡ true)
                × (is_candidate o d.now row ≡ true)
                × (find k d'.outbox ≡ some (claimed o d.now row)))
              ⊎ ((any (has_key k) batch ≡ false)
                  × (find k d'.outbox ≡ some (fail_expired o d.now row))
                  × (is_candidate o d.now row ≡ true → length batch ≡ o.batch_size)))
  unfolding candidates
  claim_outbox_batch-computed {batch} {d'} u h =
      let (b, t) = claim_outbox_batch-eq-ok h in
      let sorted =
        sort_by (by_due_time id_before)
          (filter (λ (j, r). is_candidate o d.now r) (unexpired o d)) in
      let size : length batch ≡ length (take o.batch_size sorted) = ap length b ∙ length-map _ _ in
      let bound = length-take o.batch_size sorted in
      (
        ground arith,
        λ k row e.
            let has = candidates-has k row u e in
            let same : any (has_key k) batch ≡ any (has_key k) (take o.batch_size sorted) =
              ap (any (has_key k)) b
              ∙ any-map_key k (λ j r. claimed o d.now r) (take o.batch_size sorted) in
            let there : find k d'.outbox
                ≡ some (
                    if any (has_key k) (take o.batch_size sorted)
                    then claimed o d.now (fail_expired o d.now row)
                    else fail_expired o d.now row) =
              ap (find k) t
              ∙ find-update_all _ k (unexpired o d)
              ∙ ap (mapped _) (find-update_all _ k d.outbox ∙ ap (mapped _) e) in
            elim (Bool-cases (any (has_key k) (take o.batch_size sorted))) [
              | inl taken ↦
                  let due = any-take (has_key k) o.batch_size sorted taken in
                  let candidate : is_candidate o d.now row ≡ true = sym has ∙ due in
                  inl (
                    same ∙ taken,
                    candidate,
                    there ∙ rw (taken, candidate_fresh o d.now row candidate) refl,
                  )
              | inr passed ↦ inr (
                same ∙ passed,
                there ∙ rw passed refl,
                λ candidate.
                    size ∙ any-take_full (has_key k) o.batch_size sorted (has ∙ candidate) passed,
              )
            ],
      )

  -- A claim takes at most a batch. Where no key has two rows, a row that it returns was pending and due
  -- or had a lock that was abandoned, with an attempt left, and it is now processing, locked by this
  -- worker at this moment, with one attempt more; a row that it does not return is failed where its lock
  -- was abandoned and no attempt is left, and stays as it was everywhere else; and it passes over a row
  -- that it could have claimed only where the batch is full.
  pub claim_outbox_batch-rows :
      {batch : List Event} {d' : Db}
      → IsUnique d.outbox
      → claim_outbox_batch id_before o d ≡ ok (batch, d')
      → (length batch ≤ o.batch_size)
        × ((k : EventKey) (row : OutboxRow)
            → find k d.outbox ≡ some row
            → ((any (has_key k) batch ≡ true)
                × IsClaimable o d.now row
                × (find k d'.outbox
                    ≡ some (record row {
                      status = processing;
                      attempts = row.attempts + 1;
                      locked_at = some d.now;
                      locked_by = some o.worker_id;
                      processed_at = none;
                    })))
              ⊎ ((any (has_key k) batch ≡ false)
                  × ((new : OutboxRow) × (find k d'.outbox ≡ some new) × IsLeft o d.now row new)
                  × (IsClaimable o d.now row → length batch ≡ o.batch_size)))
  claim_outbox_batch-rows u h =
      let (bound, rows) = claim_outbox_batch-computed u h in
      (
        bound,
        λ k row e. elim (rows k row e) [
          | inl (taken, candidate, x) ↦
              inl (taken, is_candidate-IsClaimable o d.now row candidate, x ∙ claimed_fields row)
          | inr (passed, x, full) ↦ inr (
            passed,
            (fail_expired o d.now row, x, fail_expired-IsLeft o d.now row),
            λ may. full (IsClaimable-is_candidate o d.now row may),
          )
        ],
      )

  -- A claim commits.
  pub claim_outbox_batch-commits :
      (batch : List Event) × (d' : Db) × (claim_outbox_batch id_before o d ≡ ok (batch, d'))
      × (length batch ≤ o.batch_size)
  unfolding claim_outbox_batch ◌>>=◌ gets modify pure candidates
  claim_outbox_batch-commits =
      let sorted =
        sort_by (by_due_time id_before)
          (filter (λ (j, r). is_candidate o d.now r) (unexpired o d)) in
      let bound = length-take o.batch_size sorted in
      let mark : Event → Event = λ (j, r). (j, claimed o d.now r) in
      (
        _,
        _,
        refl,
        subst (λ n. n ≤ o.batch_size) (sym (length-map mark (take o.batch_size sorted))) bound,
      )
