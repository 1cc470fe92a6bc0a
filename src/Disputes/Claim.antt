-- ===== src/Disputes/Claim.antt =====
-- `claimResolution` of backend/src/modules/disputes/dispute-resolution.service.ts: the first of the
-- transactions of a resolution, which reserves the dispute for one decision.
use skrynia.Prelude.{
  ℕ, suc, ◌+◌, Bool, true, false, not, ◌&&◌, none, some, leb, get_or, is_some, if◌then◌else◌,
}
use skrynia.Domain.Enums.{DisputeStatus, open_dispute, resolving, resolved, resolution_failed}
use skrynia.Common.Errors.{conflict}
use skrynia.Db.Rows.{DisputeRow}
use skrynia.Db.Tx.{Tx, ◌>>=◌, ◌>>◌, pure, throw_if, gets}
use skrynia.Db.Tables.{fresh_id, update_dispute}
use skrynia.Disputes.{
  ResolutionRow, ResolutionInput, stale_resolution_ms, terminal_decision, is_decision,
  select_resolution, assert_decision, assert_operation, order_can_continue, order_refusal,
}

-- `ResolutionClaim`.
pub record ResolutionClaim : Type 0 where
  pub row : ResolutionRow
  pub should_execute_escrow : Bool
  pub already_resolved : Bool

-- The claim of a row that was written: the escrow runs unless the order is in a terminal status.
unfoldable pub claimed : ResolutionRow → DisputeRow → ResolutionClaim
claimed row written = record {
  row = record row { dispute = written };
  should_execute_escrow = not (is_some (terminal_decision row.order_status));
  already_resolved = false;
}

-- A first claim, which fixes the decision and a new operation.
unfoldable pub claim_open : ResolutionInput → ResolutionRow → Tx ResolutionClaim
claim_open i row = do
  operation ← fresh_id
  now ← gets (λ d. d.now)
  written ← update_dispute i.dispute_id (record (row.dispute) {
    status = resolving;
    resolution_decision = some i.decision;
    resolution_operation_id = some operation;
    admin_id = some i.admin_id;
    admin_note = some i.admin_note;
    resolving_started_at = some now;
    resolution_attempts = 1;
    last_resolution_error = none;
  })
  pure (claimed row written)

-- A further attempt under the decision and the operation that were fixed.
unfoldable pub claim_again : ResolutionInput → ResolutionRow → Tx ResolutionClaim
claim_again i row = do
  now ← gets (λ d. d.now)
  written ← update_dispute i.dispute_id (record (row.dispute) {
    status = resolving;
    resolving_started_at = some now;
    resolution_attempts = suc row.dispute.resolution_attempts;
    last_resolution_error = none;
  })
  pure (claimed row written)

-- `resolvingStartedAt <= Date.now() - STALE_RESOLUTION_MS`.
unfoldable pub is_stale : DisputeRow → ℕ → Bool
is_stale row now = leb (get_or row.resolving_started_at 0 + stale_resolution_ms) now

-- The claim of a dispute that another attempt has claimed.
unfoldable pub claim_resolving : ResolutionInput → ResolutionRow → Tx ResolutionClaim
claim_resolving i row =
    if is_decision (terminal_decision row.order_status) i.decision
    then pure (record { row = row; should_execute_escrow = false; already_resolved = false })
    else (do
      now ← gets (λ d. d.now)
      throw_if (not (i.allow_stale && is_stale row.dispute now))
          (conflict "Dispute resolution is already in progress")
      claim_again i row)

unfoldable pub claim_by_status :
    DisputeStatus → ResolutionInput → ResolutionRow → Tx ResolutionClaim
claim_by_status resolved i row =
    pure (record { row = row; should_execute_escrow = false; already_resolved = true })
claim_by_status open_dispute i row = claim_open i row
claim_by_status resolution_failed i row = claim_again i row
claim_by_status resolving i row = claim_resolving i row

-- `claimResolution`.
unfoldable pub claim_resolution : ResolutionInput → Tx ResolutionClaim
claim_resolution i = do
  row ← select_resolution i.dispute_id
  assert_decision row i.decision
  assert_operation row i.expected_operation_id
  throw_if (not (order_can_continue row.order_status i.decision))
      (conflict (order_refusal row.order_status i.decision))
  claim_by_status row.dispute.status i row
