-- ===== src/Idempotency/Run.antt =====
-- `runIdempotentTransaction` of backend/src/modules/idempotency/idempotency.service.ts. Two requests
-- with one key run one after the other: the second insert waits for the first transaction.
use skrynia.Prelude.{Bool, true, false, Option, none, some, ◌==◌, if◌then◌else◌}
use skrynia.Prelude.Table.{find, put}
use skrynia.Common.Errors.{Result, ok, err, plain, pg, check_violation}
use skrynia.Idempotency.{
  request_eq, Json, IdempotencyStatus, in_progress, completed_request, StoredIdempotencyRow,
  IdempotentResponse, IdempotentTransactionResult, IdempotentInput, Keys, cleanup_expired_keys,
  claim_row, replay, is_http_status, completed_response,
}

abbrev pub is_in_progress : IdempotencyStatus → Bool
is_in_progress in_progress = true
is_in_progress completed_request = false

-- What a transaction returns: a result and the tables, or what it throws.
abbrev pub Outcome : Type 0 → Type 0 → Type 0
Outcome B S = Result (IdempotentTransactionResult B × (Keys B × S))

module _ {B S : Type 0} where
  abbrev pub answered : Keys B → S → Result (IdempotentTransactionResult B) → Outcome B S
  answered keys s (ok r) = ok (r, (keys, s))
  answered keys s (err e) = err e

  -- The commit, and the rollback.
  abbrev pub concluded :
      Outcome B S → Keys B × S → Result (IdempotentTransactionResult B) × (Keys B × S)
  concluded (ok (r, d)) d₀ = (ok r, d)
  concluded (err e) d₀ = (err e, d₀)

module _ {B S T : Type 0} (to_json : T → Option (Json B)) (i : IdempotentInput) where
  -- `update idempotency_keys … where id = $1 and status = 'processing'`, with the check on the
  -- status of a response.
  unfoldable pub complete :
      IdempotentResponse T → Json B → Option (StoredIdempotencyRow B) → Keys B → S → Outcome B S
  complete response body none keys s = err (plain "Idempotency result could not be completed")
  complete response body (some row) keys s =
      if is_in_progress row.status
      then (if is_http_status response.status_code
          then ok (
            record {
              status_code = response.status_code;
              body = body;
              resource_id = response.resource_id;
              replayed = false;
            },
            (
              put i.request (completed_response row response.status_code body response.resource_id)
                  keys,
              s,
            ),
          )
          else err (pg check_violation))
      else err (plain "Idempotency result could not be completed")

  -- `normalizeResponseBody`, and the completion.
  unfoldable pub normalized : IdempotentResponse T → Option (Json B) → Keys B → S → Outcome B S
  normalized response none keys s = err (plain "Idempotent response body must be JSON serializable")
  normalized response (some body) keys s = complete response body (find i.request keys) keys s

  unfoldable pub after_execute : Keys B → Result (IdempotentResponse T × S) → Outcome B S
  after_execute keys (err e) = err e
  after_execute keys (ok (response, s)) = normalized response (to_json response.body) keys s

  -- The insert, and what follows where it wrote a row and where the key was taken.
  unfoldable pub claim_or_replay :
      (S → Result (IdempotentResponse T × S))
      → Option (StoredIdempotencyRow B)
      → Keys B
      → S
      → Outcome B S
  claim_or_replay execute (some row) keys s = answered keys s (replay i row)
  claim_or_replay execute none keys s = after_execute (put i.request (claim_row i) keys) (execute s)

  -- The check on the expiry is made before the unique index is looked at.
  unfoldable pub transaction : (S → Result (IdempotentResponse T × S)) → Keys B → S → Outcome B S
  transaction execute keys s =
      if i.ttl_ms == 0
      then err (pg check_violation)
      else claim_or_replay execute (find i.request (cleanup_expired_keys i.now i.request keys))
          (cleanup_expired_keys i.now i.request keys) s

  -- `runIdempotentTransaction`.
  unfoldable pub run_idempotent_transaction :
      (S → Result (IdempotentResponse T × S))
      → Keys B × S
      → Result (IdempotentTransactionResult B) × (Keys B × S)
  run_idempotent_transaction execute d = concluded (transaction execute d.0 d.1) d
