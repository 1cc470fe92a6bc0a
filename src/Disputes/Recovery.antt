-- ===== src/Disputes/Recovery.antt =====
-- A resolution that is run again, after one that had moved the money and did not finish.
use skrynia.Prelude.{ℕ, ◌≡◌, refl, ap, ◌∙◌, none, some, true, false, arith, inl, inr, ◌≢◌}
use skrynia.Prelude.Table.{find, nat_eq}
use skrynia.Domain.Enums.{DisputeDecision, resolving, decision_eq, same_decision}
use skrynia.Common.Errors.{ok, err, conflict}
use skrynia.Db.Rows.{Db, DisputeRow, OrderRow}
use skrynia.Db.Tx.{in_tx, ◌>>=◌, pure, throw_if}
use skrynia.Db.Tables.{dispute_fits}
use skrynia.Orders.Books.{books}
use skrynia.Orders.Lifecycle.{Config}
use skrynia.Disputes.{
  ResolutionRow, ResolutionInput, terminal_decision, is_decision, decision_matches,
  operation_matches, order_can_continue, assert_decision, assert_operation,
}
use skrynia.Disputes.Claim.{ResolutionClaim, claim_resolving, claim_by_status, claim_resolution}
use skrynia.Disputes.Effects.{select_resolution-finds, finalize_if_applied-eq-ok}
use skrynia.Disputes.Money.{resolve_dispute-books}
use skrynia.Disputes.Finalize.{settled_row, finalize_if_applied}
use skrynia.Disputes.Resolve.{
  DisputeResolutionResult, run_claim, after_claim, finish_resolution, after_finalize,
  resolve_dispute_resolution,
}
use skrynia.Db.Tx.{in_tx-ok, in_tx-err}
use skrynia.Disputes.Applied.{joined_row, finalize-applies}

after_claim-runs :
    (c : Config) (i : ResolutionInput) (claim : ResolutionClaim) (n : ℕ) (d : Db)
    → claim.row.dispute.resolution_operation_id ≡ some n
    → after_claim c i (ok claim, d) ≡ run_claim c i claim n d
unfolding after_claim
after_claim-runs c i claim n d h = simp h

module _ (i : ResolutionInput) (d : Db) (row : DisputeRow) (o : OrderRow) (n : ℕ)
    (there : find i.dispute_id d.disputes ≡ some row)
    (ordered : find row.order_id d.orders ≡ some o) (running : row.status ≡ resolving)
    (decided : row.resolution_decision ≡ some i.decision)
    (chosen : row.resolution_operation_id ≡ some n)
    (operates : operation_matches (some n) i.expected_operation_id ≡ true)
    (applied : terminal_decision o.status ≡ some i.decision) where
  -- The claim finds the order in the status of the decision, and leaves the escrow alone.
  claim-resumes :
      claim_resolution i d
      ≡ ok (
        record { row = joined_row row o; should_execute_escrow = false; already_resolved = false },
        d,
      )
  unfolding claim_resolution claim_by_status claim_resolving order_can_continue assert_decision
      assert_operation ◌>>=◌ throw_if pure
  claim-resumes =
      let same : same_decision i.decision i.decision ≡ true =
        (decision_eq.beq_iff i.decision i.decision).1 refl in
      let matches : decision_matches row.resolution_decision i.decision ≡ true =
        rw (decided, same) refl in
      let holds : operation_matches row.resolution_operation_id i.expected_operation_id ≡ true =
        rw chosen operates in
      let reached : is_decision (terminal_decision o.status) i.decision ≡ true =
        rw (applied, same) refl in
      let status : (r : ResolutionRow) → claim_by_status row.status i r ≡ claim_resolving i r =
        λ r. rw running refl in
      rw
        (
          select_resolution-finds i.dispute_id d row o there ordered,
          matches,
          holds,
          applied,
          same,
          status,
          reached,
        )
        refl

  -- A dispute that an attempt has claimed, and whose order has reached the status of the decision, is
  -- resolved by a further attempt at the same decision and operation: that attempt returns, it reports
  -- the dispute as newly resolved, it runs no escrow and it leaves the books as they are. The dispute
  -- meets the database's check.
  pub resolve_dispute-resumes :
      (c : Config)
      → dispute_fits row ≡ true
      → (r : DisputeResolutionResult) × (d' : Db) × (resolve_dispute_resolution c i d ≡ (ok r, d'))
        × (r.newly_resolved ≡ true)
        × (r.escrow_executed ≡ false)
        × (find i.dispute_id d'.disputes ≡ some (settled_row row d.now))
        × (books d' ≡ books d)
  unfolding resolve_dispute_resolution run_claim finish_resolution after_finalize
  resolve_dispute-resumes c fits =
      let (d', f) =
        finalize-applies i.dispute_id n d i.decision row o there ordered running decided chosen
          applied fits in
      let (found, _, _, _) = finalize_if_applied-eq-ok i.dispute_id i.decision n d f in
      let r : DisputeResolutionResult = record {
        dispute = record (joined_row row o) { dispute = settled_row row d.now };
        order = none;
        newly_resolved = true;
        escrow_executed = false;
        operation_id = n;
      } in
      let returns : resolve_dispute_resolution c i d ≡ (ok r, d') =
        ap (after_claim c i) (in_tx-ok (claim_resolution i) d claim-resumes)
        ∙ after_claim-runs c i _ n d chosen
        ∙ rw (in_tx-ok (finalize_if_applied i.dispute_id i.decision n) d f) refl in
      let (_, _, _, _, booked) = resolve_dispute-books c i d returns in
      (r, d', returns, refl, refl, found, elim booked [ inl (_, same) ↦ same | inr (ran, _) ↦ cc ])

-- A resolution for another decision than the one that was claimed throws, and changes nothing.
resolve_dispute-refuses :
    (c : Config) (i : ResolutionInput) (d : Db) (row : DisputeRow) (o : OrderRow)
    (x : DisputeDecision)
    → find i.dispute_id d.disputes ≡ some row
    → find row.order_id d.orders ≡ some o
    → row.resolution_decision ≡ some x
    → x ≢ i.decision
    → resolve_dispute_resolution c i d
      ≡ (err (conflict "Dispute resolution is already claimed for"), d)
unfolding resolve_dispute_resolution claim_resolution assert_decision ◌>>=◌ throw_if in_tx
    after_claim
resolve_dispute-refuses c i d row o x there ordered decided other =
    let apart : same_decision x i.decision ≡ false =
      ground (arith, decision_eq.beq_iff x i.decision) in
    let differs : decision_matches row.resolution_decision i.decision ≡ false =
      rw (decided, apart) refl in
    let thrown : claim_resolution i d ≡ err (conflict "Dispute resolution is already claimed for") =
      rw (select_resolution-finds i.dispute_id d row o there ordered, differs) refl in
    ap (after_claim c i) (in_tx-err (claim_resolution i) d thrown)
