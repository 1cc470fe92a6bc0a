-- ===== src/Idempotency/Replay.antt =====
-- What a repeated request is answered, and that it does nothing.
use skrynia.Prelude.{ℕ, ◌+◌, ◌<◌, ◌≡◌, ◌≢◌, refl, ◌∙◌, true, false, Option, some, arith, ◌==◌}
use skrynia.Prelude.Table.{find}
use skrynia.Prelude.Order.{IsUnique}
use skrynia.Common.Errors.{Result, ok, err}
use skrynia.Idempotency.{
  RequestKey, request_eq, Json, json_value, json_null, completed_request, stored_response,
  StoredIdempotencyRow, IdempotentResponse, IdempotentTransactionResult, IdempotentInput, Keys,
  has_expired, cleanup_expired_keys, replay, key_reused, still_processing,
}
use skrynia.Idempotency.Run.{
  claim_or_replay, transaction, run_idempotent_transaction, concluded, answered,
}
use skrynia.Idempotency.Stored.{cleanup-keeps, stored_row, run-stores}

module _ {B S T : Type 0} (to_json : T → Option (Json B)) (i : IdempotentInput) (keys : Keys B)
    (s : S) where
  -- What a run does with a key that is taken.
  run-taken :
      (execute : S → Result (IdempotentResponse T × S)) (row : StoredIdempotencyRow B)
      → IsUnique keys
      → find i.request keys ≡ some row
      → has_expired i.now row ≡ false
      → (i.ttl_ms == 0) ≡ false
      → run_idempotent_transaction to_json i execute (keys, s)
        ≡ concluded
            (answered (cleanup_expired_keys i.now i.request keys) s (replay i row))
            (keys, s)
  unfolding run_idempotent_transaction transaction claim_or_replay
  run-taken execute row u there live lasting =
      rw (lasting, cleanup-keeps i.now i.request keys row u there live) refl

  -- A request with a positive time to live under a key whose only row has not expired and has another
  -- request's hash throws, whatever it would have done, and changes nothing.
  run-refuses :
      (execute : S → Result (IdempotentResponse T × S)) (row : StoredIdempotencyRow B)
      → IsUnique keys
      → find i.request keys ≡ some row
      → i.now < row.expires_at
      → 0 < i.ttl_ms
      → row.request_hash ≢ i.request_hash
      → run_idempotent_transaction to_json i execute (keys, s) ≡ (err key_reused, (keys, s))
  unfolding replay
  run-refuses execute row u there live lasting other =
      let apart : (row.request_hash == i.request_hash) ≡ false = ground arith in
      run-taken execute row u there (ground arith) (ground arith) ∙ rw apart refl

answers :
    {B : Type 0} (status : ℕ) (body : Json B) (resource : Option ℕ)
    → body ≢ json_null
    → stored_response completed_request (some status) (some body) resource
      ≡ ok (record { status_code = status; body = body; resource_id = resource; replayed = true })
answers status json_null resource h = elim (h refl) [ ]
answers status (json_value b) resource h = refl

-- The tables after others: the row of the request is as it was left.
abbrev pub IsLeft : {B : Type 0} → RequestKey → Keys B → Keys B → Type 0
IsLeft k keys later = IsUnique later × (find k later ≡ find k keys)

module _ {B S T U : Type 0} (to_json : T → Option (Json B)) (i : IdempotentInput) (keys : Keys B)
    (s : S) (execute : S → Result (IdempotentResponse T × S)) {r : IdempotentTransactionResult B}
    {keys' : Keys B} {s' : S}
    (ran : run_idempotent_transaction to_json i execute (keys, s) ≡ (ok r, (keys', s')))
    (once : r.replayed ≡ false) (to_json' : U → Option (Json B)) (now ttl_ms : ℕ) where
  abbrev again : IdempotentInput
  again = record i { now = now; ttl_ms = ttl_ms }

  -- Once a request has run and has stored a body other than `null`, every repetition of it with a
  -- positive time to live before the row expires, where no key has two rows, is answered with the
  -- stored status, body and resource, as a replay, whatever the repetition would have done, and the
  -- tables of the service stay as they are. Other requests may have changed all but the row of this
  -- key in between.
  pub run-replays :
      (later : Keys B) (t : S) (execute' : S → Result (IdempotentResponse U × S))
      → IsLeft i.request keys' later
      → now < i.now + i.ttl_ms
      → 0 < ttl_ms
      → r.body ≢ json_null
      → run_idempotent_transaction to_json' again execute' (later, t)
        ≡ (ok (record r { replayed = true }), (cleanup_expired_keys now i.request later, t))
  unfolding replay
  run-replays later t execute' (u, left) soon lasting body =
      let there : find i.request later ≡ some (stored_row i r) =
        left ∙ run-stores to_json i keys s execute ran once in
      let this : (i.request_hash == i.request_hash) ≡ true = ground arith in
      run-taken to_json' again later t execute' (stored_row i r) u there (ground arith)
        (ground arith)
      ∙ rw (this, answers r.status_code r.body r.resource_id body) refl

  -- Once a request has run and has stored the body `null`, every repetition of it with a positive time
  -- to live before the row expires, where no key has two rows, is told that the request is still
  -- processing, and changes nothing.
  pub run-null_body :
      (later : Keys B) (t : S) (execute' : S → Result (IdempotentResponse U × S))
      → IsLeft i.request keys' later
      → now < i.now + i.ttl_ms
      → 0 < ttl_ms
      → r.body ≡ json_null
      → run_idempotent_transaction to_json' again execute' (later, t)
        ≡ (err still_processing, (later, t))
  unfolding replay
  run-null_body later t execute' (u, left) soon lasting body =
      let there : find i.request later ≡ some (stored_row i r) =
        left ∙ run-stores to_json i keys s execute ran once in
      let this : (i.request_hash == i.request_hash) ≡ true = ground arith in
      run-taken to_json' again later t execute' (stored_row i r) u there (ground arith)
        (ground arith)
      ∙ rw (this, body) refl
