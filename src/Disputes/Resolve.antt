-- ===== src/Disputes/Resolve.antt =====
-- `resolveDisputeResolution` of backend/src/modules/disputes/dispute-resolution.service.ts: claim,
-- escrow, finalization, each in a transaction of its own.
use skrynia.Prelude.{ℕ, Bool, true, false, Option, none, some, if◌then◌else◌}
use skrynia.Domain.Enums.{DisputeDecision, refund, release}
use skrynia.Common.Errors.{Error, Result, ok, err, plain, conflict}
use skrynia.Db.Rows.{Db, OrderRow}
use skrynia.Db.Tx.{Tx, Action, in_tx}
use skrynia.Orders.Lifecycle.{Config}
use skrynia.Orders.Escrow.Release.{release_escrow, by_dispute}
use skrynia.Orders.Escrow.Refund.{refund_escrow}
use skrynia.Disputes.{ResolutionRow, ResolutionInput}
use skrynia.Disputes.Claim.{ResolutionClaim, claim_resolution}
use skrynia.Disputes.Finalize.{finalize_if_applied, mark_resolution_failed}

-- `DisputeResolutionResult`.
pub record DisputeResolutionResult : Type 0 where
  pub dispute : ResolutionRow
  pub order : Option OrderRow
  pub newly_resolved : Bool
  pub escrow_executed : Bool
  pub operation_id : ℕ

-- `claim.row.admin_id ?? input.adminId`.
abbrev pub acting_admin : Option ℕ → ℕ → ℕ
acting_admin none n = n
acting_admin (some a) n = a

-- The escrow operation of a decision, in its own transaction.
unfoldable pub execute_escrow : Config → DisputeDecision → ℕ → ℕ → Tx OrderRow
execute_escrow c refund order admin = refund_escrow c order (some admin)
execute_escrow c release order admin =
    release_escrow c order (record { admin_id = some admin; source = by_dispute; actor_id = none })

-- A failure is recorded in a transaction of its own, and thrown.
unfoldable pub fail_resolution : ResolutionInput → ℕ → Error → Action DisputeResolutionResult
fail_resolution i operation error d =
    (err error, (in_tx (mark_resolution_failed i.dispute_id operation error) d).1)

-- After a finalization: the result, or what to do where it did not apply.
unfoldable pub after_finalize :
    Option OrderRow
    → Bool
    → ℕ
    → Action DisputeResolutionResult
    → Result (Option (ResolutionRow × Bool)) × Db
    → Result DisputeResolutionResult × Db
after_finalize order executed operation otherwise (err e, d) = (err e, d)
after_finalize order executed operation otherwise (ok none, d) = otherwise d
after_finalize order executed operation otherwise (ok (some (row, newly)), d) = (
  ok (record {
    dispute = row;
    order = order;
    newly_resolved = newly;
    escrow_executed = executed;
    operation_id = operation;
  }),
  d,
)

-- The finalization at the end, which must apply.
unfoldable pub finish_resolution :
    ResolutionInput → ℕ → Option OrderRow → Bool → Action DisputeResolutionResult
finish_resolution i operation order executed d =
    after_finalize order executed operation
      (fail_resolution i operation
        (conflict "Escrow operation did not reach the expected terminal order status"))
      (in_tx (finalize_if_applied i.dispute_id i.decision operation) d)

-- After the escrow: on an error, another run may have applied the decision.
unfoldable pub after_escrow :
    ResolutionInput → ℕ → Result OrderRow × Db → Result DisputeResolutionResult × Db
after_escrow i operation (ok order, d) = finish_resolution i operation (some order) true d
after_escrow i operation (err error, d) =
    after_finalize none false operation (fail_resolution i operation error)
      (in_tx (finalize_if_applied i.dispute_id i.decision operation) d)

-- After the claim, with its operation.
unfoldable pub run_claim :
    Config → ResolutionInput → ResolutionClaim → ℕ → Action DisputeResolutionResult
run_claim c i claim operation d =
    if claim.already_resolved
    then (
      ok (record {
        dispute = claim.row;
        order = none;
        newly_resolved = false;
        escrow_executed = false;
        operation_id = operation;
      }),
      d,
    )
    else if claim.should_execute_escrow
    then after_escrow i operation (
        in_tx
          (execute_escrow c i.decision claim.row.dispute.order_id
            (acting_admin claim.row.dispute.admin_id i.admin_id))
          d)
    else finish_resolution i operation none false d

unfoldable pub after_claim :
    Config → ResolutionInput → Result ResolutionClaim × Db → Result DisputeResolutionResult × Db
after_claim c i (err e, d) = (err e, d)
after_claim c i (ok claim, d) = elim claim.row.dispute.resolution_operation_id [
  | none ↦ (err (plain "Claimed dispute is missing a resolution operation ID"), d)
  | some operation ↦ run_claim c i claim operation d
]

-- `resolveDisputeResolution`, when no other transaction runs between its own.
unfoldable pub resolve_dispute_resolution :
    Config → ResolutionInput → Action DisputeResolutionResult
resolve_dispute_resolution c i d = after_claim c i (in_tx (claim_resolution i) d)
