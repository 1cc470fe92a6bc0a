-- ===== src/Idempotency/Stored.antt =====
-- The row that a request leaves, and how long it stays.
use skrynia.Prelude.{
  ℕ, ◌+◌, ◌≡◌, refl, ap, sym, ◌∙◌, Bool, true, false, Option, none, some, any, arith, Bool-cases,
  inl, inr, ◌==◌,
}
use skrynia.Prelude.Table.{find, put, find-put_self}
use skrynia.Prelude.Order.{
  IsUnique, IsUnique-filter, find-filter, any-filter, any-sort_by, any-take, filter, sort_by, take,
  has_key, holds,
}
use skrynia.Common.Errors.{Result, ok, err}
use skrynia.Idempotency.{
  RequestKey, request_eq, Json, completed_request, IdempotencyStatus, stored_response,
  StoredIdempotencyRow, IdempotentResponse, IdempotentTransactionResult, IdempotentInput, Keys,
  has_expired, by_expiry, expired_cleanup_batch_size, delete_own, delete_expired,
  cleanup_expired_keys, claim_row, replay, completed_response,
}
use skrynia.Idempotency.Run.{
  complete, normalized, after_execute, claim_or_replay, transaction, run_idempotent_transaction,
  concluded, answered,
}

module _ {B : Type 0} (now : ℕ) (k : RequestKey) (keys : Keys B) (u : IsUnique keys) where
  delete_own-keeps :
      (row : StoredIdempotencyRow B)
      → find k keys ≡ some row
      → has_expired now row ≡ false
      → find k (delete_own now k keys) ≡ some row
  unfolding delete_own
  delete_own-keeps row there live = find-filter _ k row keys there (ground arith)

  delete_expired-keeps :
      (row : StoredIdempotencyRow B)
      → find k keys ≡ some row
      → has_expired now row ≡ false
      → find k (delete_expired now keys) ≡ some row
  unfolding delete_expired
  delete_expired-keeps row there live =
      let old : RequestKey × StoredIdempotencyRow B → Bool = λ (i, r). has_expired now r in
      let sorted = sort_by by_expiry (filter old keys) in
      let expires : any (has_key k) sorted ≡ false =
        any-sort_by (has_key k) by_expiry (filter old keys)
        ∙ any-filter old k keys u
        ∙ ap (holds (has_expired now)) there
        ∙ live in
      let spared : any (has_key k) (take expired_cleanup_batch_size sorted) ≡ false =
        elim (Bool-cases (any (has_key k) (take expired_cleanup_batch_size sorted))) [
          | inl hit ↦ let x = any-take (has_key k) expired_cleanup_batch_size sorted hit in cc
          | inr miss ↦ miss
        ] in
      find-filter _ k row keys there (rw spared refl)

-- A row that has not expired outlives the cleanup.
pub cleanup-keeps :
    {B : Type 0} (now : ℕ) (k : RequestKey) (keys : Keys B) (row : StoredIdempotencyRow B)
    → IsUnique keys
    → find k keys ≡ some row
    → has_expired now row ≡ false
    → find k (cleanup_expired_keys now k keys) ≡ some row
unfolding cleanup_expired_keys delete_own
cleanup-keeps now k keys row u there live =
    delete_expired-keeps now k (delete_own now k keys) (IsUnique-filter _ keys u) row
      (delete_own-keeps now k keys u row there live) live

-- The row that a request leaves.
abbrev pub stored_row :
    {B : Type 0} → IdempotentInput → IdempotentTransactionResult B → StoredIdempotencyRow B
stored_row i r = record {
  request_hash = i.request_hash;
  status = completed_request;
  response_status = some r.status_code;
  response_body = some r.body;
  resource_id = r.resource_id;
  expires_at = i.now + i.ttl_ms;
}

module _ {B : Type 0} where
  stored_response-replayed :
      (st : IdempotencyStatus) (a : Option ℕ) (b : Option (Json B)) (c : Option ℕ)
      {r : IdempotentTransactionResult B}
      → stored_response st a b c ≡ ok r
      → r.replayed ≡ true
  stored_response-replayed st a b c h = ground arith

  replay-replayed :
      (i : IdempotentInput) (row : StoredIdempotencyRow B) {r : IdempotentTransactionResult B}
      → replay i row ≡ ok r
      → r.replayed ≡ true
  unfolding replay
  replay-replayed i row h = elim (Bool-cases (row.request_hash == i.request_hash)) [
    | inl same ↦
        stored_response-replayed row.status row.response_status row.response_body row.resource_id
          (rw same at h)
    | inr other ↦ cc (rw other at h)
  ]

  answered-replayed :
      {S : Type 0} (x : Result (IdempotentTransactionResult B)) (keys : Keys B) (s : S)
      {r : IdempotentTransactionResult B} {keys' : Keys B} {s' : S}
      → ((q : IdempotentTransactionResult B) → x ≡ ok q → q.replayed ≡ true)
      → answered keys s x ≡ ok (r, (keys', s'))
      → r.replayed ≡ true
  answered-replayed (ok q) keys s {r = r} f h =
      let e : q ≡ r = cc in ap (λ y. y.replayed) (sym e) ∙ f q refl
  answered-replayed (err e) keys s f h = cc

module _ {B S T : Type 0} (to_json : T → Option (Json B)) (i : IdempotentInput) where
  complete-stores :
      (response : IdempotentResponse T) (body : Json B) (keys : Keys B) (s : S)
      {r : IdempotentTransactionResult B} {keys' : Keys B} {s' : S}
      → complete to_json i response body (some (claim_row i)) keys s ≡ ok (r, (keys', s'))
      → find i.request keys' ≡ some (stored_row i r)
  unfolding complete
  complete-stores response body keys s h =
      let row = completed_response (claim_row i) response.status_code body response.resource_id in
      ground (arith, find-put_self i.request row keys)

  normalized-stores :
      (response : IdempotentResponse T) (body : Option (Json B)) (keys : Keys B) (s : S)
      {r : IdempotentTransactionResult B} {keys' : Keys B} {s' : S}
      → find i.request keys ≡ some (claim_row i)
      → normalized to_json i response body keys s ≡ ok (r, (keys', s'))
      → find i.request keys' ≡ some (stored_row i r)
  unfolding normalized
  normalized-stores response none keys s there h = cc
  normalized-stores response (some body) keys s there h =
      complete-stores response body keys s (rw there at h)

  after_execute-stores :
      (keys : Keys B) (x : Result (IdempotentResponse T × S)) {r : IdempotentTransactionResult B}
      {keys' : Keys B} {s' : S}
      → find i.request keys ≡ some (claim_row i)
      → after_execute to_json i keys x ≡ ok (r, (keys', s'))
      → find i.request keys' ≡ some (stored_row i r)
  unfolding after_execute
  after_execute-stores keys (err e) there h = cc
  after_execute-stores keys (ok (response, s)) there h =
      normalized-stores response (to_json response.body) keys s there h

  claim_or_replay-stores :
      (execute : S → Result (IdempotentResponse T × S)) (found : Option (StoredIdempotencyRow B))
      (keys : Keys B) (s : S) {r : IdempotentTransactionResult B} {keys' : Keys B} {s' : S}
      → claim_or_replay to_json i execute found keys s ≡ ok (r, (keys', s'))
      → r.replayed ≡ false
      → find i.request keys' ≡ some (stored_row i r)
  unfolding claim_or_replay replay
  claim_or_replay-stores execute (some row) keys s h once =
      let x = answered-replayed (replay i row) keys s (λ q. replay-replayed i row) h in cc
  claim_or_replay-stores execute none keys s h once =
      after_execute-stores (put i.request (claim_row i) keys) (execute s)
        (find-put_self i.request (claim_row i) keys) h

-- The transaction of a run.
concluded-eq-ok :
    {B S : Type 0} (x : Result (IdempotentTransactionResult B × (Keys B × S))) (d : Keys B × S)
    {r : IdempotentTransactionResult B} {d' : Keys B × S}
    → concluded x d ≡ (ok r, d')
    → x ≡ ok (r, d')
concluded-eq-ok (ok (r, d)) d₀ h = cc
concluded-eq-ok (err e) d₀ h = cc

module _ {B S T : Type 0} (to_json : T → Option (Json B)) (i : IdempotentInput) (keys : Keys B)
    (s : S) where
  pub run-stores :
      (execute : S → Result (IdempotentResponse T × S)) {r : IdempotentTransactionResult B}
      {keys' : Keys B} {s' : S}
      → run_idempotent_transaction to_json i execute (keys, s) ≡ (ok r, (keys', s'))
      → r.replayed ≡ false
      → find i.request keys' ≡ some (stored_row i r)
  unfolding run_idempotent_transaction transaction
  run-stores execute h once =
      let ran = concluded-eq-ok _ (keys, s) h in
      elim (Bool-cases (i.ttl_ms == 0)) [
        | inl zero ↦ cc (rw zero at ran)
        | inr lasting ↦
            claim_or_replay-stores to_json i execute
              (find i.request (cleanup_expired_keys i.now i.request keys))
              (cleanup_expired_keys i.now i.request keys) s (rw lasting at ran) once
      ]
