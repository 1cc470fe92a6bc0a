-- ===== src/Tests/Idempotency.antt =====
-- The theorems on repeated requests, at a service that counts its orders.
use skrynia.Prelude.{
  ℕ, suc, ◌≡◌, ◌≢◌, refl, true, false, Option, none, some, [], arith, ◌==◌, if◌then◌else◌,
}
use skrynia.Prelude.Table.{find, put}
use skrynia.Prelude.Order.{IsUnique, filter, sort_by, take}
use skrynia.Common.Errors.{Result, ok, err}
use skrynia.Idempotency.{
  request_eq, Json, json_value, json_null, IdempotentResponse, IdempotentTransactionResult,
  IdempotentInput, Keys, delete_own, delete_expired, cleanup_expired_keys, still_processing,
}
use skrynia.Idempotency.Run.{
  complete, normalized, after_execute, claim_or_replay, transaction, run_idempotent_transaction,
}
use skrynia.Idempotency.Replay.{run-replays, run-null_body}
use skrynia.Tests.Fixtures.{is_ok, out, committed}

abbrev number_json : ℕ → Option (Json ℕ)
number_json n = if n == 0 then some json_null else some (json_value n)

abbrev order_request : IdempotentInput
order_request = record {
  request = record { user_id = 10; scope = 1; key = 4 };
  request_hash = 12_345;
  ttl_ms = 86_400_000;
  now = 100;
}

-- It counts one order more, and answers with a number.
abbrev place_order : ℕ → ℕ → Result (IdempotentResponse ℕ × ℕ)
place_order body orders =
    ok (record { status_code = 201; body = body; resource_id = some 3 }, suc orders)

abbrev no_response : IdempotentTransactionResult ℕ
no_response = record { status_code = 0; body = json_null; resource_id = none; replayed = true }

abbrev first_run : ℕ → Result (IdempotentTransactionResult ℕ) × (Keys ℕ × ℕ)
first_run body = run_idempotent_transaction number_json order_request (place_order body) ([], 0)

abbrev first_out : ℕ → IdempotentTransactionResult ℕ
first_out body = out no_response (first_run body).0

ordered : is_ok (first_run 7).0 ≡ true
unfolding run_idempotent_transaction transaction claim_or_replay after_execute normalized complete
    cleanup_expired_keys delete_own delete_expired find put filter sort_by take
ordered = refl

emptied : is_ok (first_run 0).0 ≡ true
unfolding run_idempotent_transaction transaction claim_or_replay after_execute normalized complete
    cleanup_expired_keys delete_own delete_expired find put filter sort_by take
emptied = refl

first_ran : first_run 7 ≡ (ok (first_out 7), (first_run 7).1)
first_ran = λ j. (committed no_response (first_run 7).0 ordered j, (first_run 7).1)

null_ran : first_run 0 ≡ (ok (first_out 0), (first_run 0).1)
null_ran = λ j. (committed no_response (first_run 0).0 emptied j, (first_run 0).1)

facts :
    ((first_out 7).replayed ≡ false)
    × ((first_out 7).body ≡ json_value 7)
    × IsUnique (first_run 7).1.0
    × ((first_out 0).replayed ≡ false)
    × ((first_out 0).body ≡ json_null)
    × IsUnique (first_run 0).1.0
unfolding run_idempotent_transaction transaction claim_or_replay after_execute normalized complete
    cleanup_expired_keys delete_own delete_expired find put filter sort_by take
facts = (refl, refl, (refl, tt), refl, refl, (refl, tt))

has_body : (first_out 7).body ≢ json_null
has_body e = let x = facts.1 in cc

run-replays_example :
    run_idempotent_transaction number_json
      (record order_request { now = 500; ttl_ms = 10 })
      (place_order 9)
      ((first_run 7).1.0, 4)
    ≡ (
      ok (record (first_out 7) { replayed = true }),
      (cleanup_expired_keys 500 order_request.request (first_run 7).1.0, 4),
    )
run-replays_example =
    run-replays number_json order_request [] 0 (place_order 7) first_ran facts.0 number_json 500 10
      (first_run 7).1.0 4 (place_order 9) (facts.2, refl) (omega arith) (omega arith) has_body

run-null_body_example :
    run_idempotent_transaction number_json
      (record order_request { now = 500; ttl_ms = 10 })
      (place_order 0)
      ((first_run 0).1.0, 1)
    ≡ (err still_processing, ((first_run 0).1.0, 1))
run-null_body_example =
    run-null_body number_json order_request [] 0 (place_order 0) null_ran facts.3 number_json 500 10
      (first_run 0).1.0 1 (place_order 0) (facts.5, refl) (omega arith) (omega arith) facts.4
