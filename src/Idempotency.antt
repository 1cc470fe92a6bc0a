-- ===== src/Idempotency.antt =====
-- backend/src/modules/idempotency/idempotency.service.ts: a request that carries a key runs once, and
-- its stored response answers every repetition. The tables that the request itself writes are a
-- parameter `S`, and what it does to them another. The request hash is the number that its digits
-- spell; a response body is a value of `T`, and `to_json` is what `JSON.parse(JSON.stringify(body))`
-- makes of it, or nothing where `JSON.stringify` gives `undefined`.
pub mod Run
pub mod Stored
pub mod Replay
use skrynia.Prelude.{
  ℕ, ◌+◌, Bool, true, false, not, ◌&&◌, ◌||◌, Option, none, some, List, ◌==◌, ltb, leb, any,
  if◌then◌else◌, ◌↔◌, ◌≡◌, refl, arith,
}
use skrynia.Prelude.Table.{Eq, Table, find, put}
use skrynia.Prelude.Order.{filter, sort_by, take, has_key}
use skrynia.Common.Errors.{Error, Result, ok, err, api, plain, pg, check_violation}

-- The unique columns of `idempotency_keys`.
pub record RequestKey : Type 0 where
  pub user_id : ℕ
  pub scope : ℕ
  pub key : ℕ

abbrev pub same_request : RequestKey → RequestKey → Bool
same_request a b = a.user_id == b.user_id && (a.scope == b.scope && a.key == b.key)

pub same_request_iff : (a b : RequestKey) → (same_request a b ≡ true) ↔ (a ≡ b)
same_request_iff a b = ((λ h. ground arith), (λ h. ground arith))

instance abbrev pub request_eq : Eq RequestKey
request_eq = record { beq = same_request; beq_iff = same_request_iff }

-- A JSON value: `null`, or another one.
pub data Json (B : Type 0) : Type 0 where
  json_null : Json B
  json_value : B → Json B

pub data IdempotencyStatus : Type 0 where
  in_progress completed_request : IdempotencyStatus

-- `StoredIdempotencyRow`, with the row's expiry. A column that is null is `none`.
pub record StoredIdempotencyRow (B : Type 0) : Type 0 where
  pub request_hash : ℕ
  pub status : IdempotencyStatus
  pub response_status : Option ℕ
  pub response_body : Option (Json B)
  pub resource_id : Option ℕ
  pub expires_at : ℕ

-- `IdempotentResponse`.
pub record IdempotentResponse (T : Type 0) : Type 0 where
  pub status_code : ℕ
  pub body : T
  pub resource_id : Option ℕ

-- `IdempotentTransactionResult`.
pub record IdempotentTransactionResult (B : Type 0) : Type 0 where
  pub status_code : ℕ
  pub body : Json B
  pub resource_id : Option ℕ
  pub replayed : Bool

-- The input of `runIdempotentTransaction`, less `execute`.
pub record IdempotentInput : Type 0 where
  pub request : RequestKey
  pub request_hash : ℕ
  pub ttl_ms : ℕ
  pub now : ℕ

abbrev pub Keys : Type 0 → Type 0
Keys B = Table RequestKey (StoredIdempotencyRow B)

-- `EXPIRED_CLEANUP_BATCH_SIZE`.
abbrev pub expired_cleanup_batch_size : ℕ
expired_cleanup_batch_size = 100

abbrev pub has_expired : {B : Type 0} → ℕ → StoredIdempotencyRow B → Bool
has_expired now row = leb row.expires_at now

abbrev pub key_reused : Error
key_reused = api (record {
  status = 409;
  message = "This idempotency key was already used with a different request";
  code = "idempotency_key_reused";
})

abbrev pub still_processing : Error
still_processing = api (record {
  status = 409;
  message = "A request with this idempotency key is still processing";
  code = "idempotency_in_progress";
})

abbrev pub is_http_status : ℕ → Bool
is_http_status status = leb 100 status && leb status 599

module _ {B : Type 0} where
  abbrev pub by_expiry :
      RequestKey × StoredIdempotencyRow B → RequestKey × StoredIdempotencyRow B → Bool
  by_expiry (j, a) (k, b) = ltb a.expires_at b.expires_at

  -- The first statement of `cleanupExpiredKeys`.
  unfoldable pub delete_own : ℕ → RequestKey → Keys B → Keys B
  delete_own now k rows = filter (λ (j, row). not (request_eq.beq j k && has_expired now row)) rows

  -- Its second statement, when no other transaction holds a row.
  unfoldable pub delete_expired : ℕ → Keys B → Keys B
  delete_expired now rows =
      filter
        (λ (j, row). not (
          any (has_key j) (
            take expired_cleanup_batch_size
              (sort_by by_expiry (filter (λ (i, r). has_expired now r) rows)))))
        rows

  -- `cleanupExpiredKeys`.
  unfoldable pub cleanup_expired_keys : ℕ → RequestKey → Keys B → Keys B
  cleanup_expired_keys now k rows = delete_expired now (delete_own now k rows)

  -- The row of a claim, under the check that it expires after it was created.
  abbrev pub claim_row : IdempotentInput → StoredIdempotencyRow B
  claim_row i = record {
    request_hash = i.request_hash;
    status = in_progress;
    response_status = none;
    response_body = none;
    resource_id = none;
    expires_at = i.now + i.ttl_ms;
  }

  -- The stored response, where there is one: both columns are there, and the body that the driver
  -- parsed is not `null`.
  abbrev pub stored_response :
      IdempotencyStatus
      → Option ℕ
      → Option (Json B)
      → Option ℕ
      → Result (IdempotentTransactionResult B)
  stored_response completed_request (some status) (some (json_value b)) resource = ok (record {
    status_code = status;
    body = json_value b;
    resource_id = resource;
    replayed = true;
  })
  stored_response _ _ _ _ = err still_processing

  -- A request whose key is taken.
  unfoldable pub replay :
      IdempotentInput → StoredIdempotencyRow B → Result (IdempotentTransactionResult B)
  replay i row =
      if row.request_hash == i.request_hash
      then stored_response row.status row.response_status row.response_body row.resource_id
      else err key_reused

  -- The row of a response.
  abbrev pub completed_response :
      StoredIdempotencyRow B → ℕ → Json B → Option ℕ → StoredIdempotencyRow B
  completed_response row status body resource = record row {
    status = completed_request;
    response_status = some status;
    response_body = some body;
    resource_id = resource;
  }
