-- ===== src/Disputes/Claimed.antt =====
-- What a claim that committed has found and written.
use mathlib.Core.Path.{subst}
use skrynia.Prelude.{◌≡◌, refl, ap, sym, ◌∙◌, true, false, Bool, Bool-cases, inl, inr, ◌⊎◌, not}
use skrynia.Prelude.Table.{nat_eq}
use skrynia.Domain.Enums.{resolved, resolving, open_dispute, resolution_failed, DisputeStatus}
use skrynia.Common.Errors.{ok}
use skrynia.Db.Rows.{Db}
use skrynia.Db.Steps.{bind-step, guard-step, pure-eq-ok}
use skrynia.Disputes.{
  ResolutionRow, ResolutionInput, terminal_decision, is_decision, decision_matches,
  order_can_continue, assert_decision, assert_operation,
}
use skrynia.Disputes.Claim.{
  ResolutionClaim, claim_resolution, claim_by_status, claim_open, claim_again, claim_resolving,
  claimed,
}
use skrynia.Disputes.Effects.{IsRead, select_resolution-eq-ok, update_dispute-eq-ok}

matches_lem : {b : Bool} → not b ≡ false → b ≡ true
matches_lem {b = true} h = refl
matches_lem {b = false} h = cc

-- How a claim answers: the dispute was resolved before, or it is claimed, for the same order.
abbrev pub IsClaim : DisputeStatus → ResolutionRow → ResolutionClaim → Db → Db → Type 0
IsClaim st row claim d s =
    ((claim.already_resolved ≡ true) × (claim.row ≡ row) × (st ≡ resolved) × (s ≡ d))
    ⊎ ((claim.already_resolved ≡ false) × (claim.row.dispute.order_id ≡ row.dispute.order_id))

module _ (i : ResolutionInput) (row : ResolutionRow) where
  claim_open-IsClaim :
      (d : Db) {claim : ResolutionClaim} {s : Db}
      → claim_open i row d ≡ ok (claim, s)
      → (claim.already_resolved ≡ false) × (claim.row.dispute.order_id ≡ row.dispute.order_id)
  unfolding claim_open claimed
  claim_open-IsClaim d h = bind-step d _ _ h λ operation s₁ _ h. bind-step s₁ _ _ h λ now s₂ _ h.
      bind-step s₂ _ _ h λ written s₃ e h.
        let (w, _, _, _) = update_dispute-eq-ok i.dispute_id s₂ _ e in
        let (x, _) = pure-eq-ok s₃ h in
        (
          ap (λ c. c.already_resolved) (sym x),
          ap (λ c. c.row.dispute.order_id) (sym x) ∙ ap (λ r. r.order_id) w,
        )

  claim_again-IsClaim :
      (d : Db) {claim : ResolutionClaim} {s : Db}
      → claim_again i row d ≡ ok (claim, s)
      → (claim.already_resolved ≡ false) × (claim.row.dispute.order_id ≡ row.dispute.order_id)
  unfolding claim_again claimed
  claim_again-IsClaim d h = bind-step d _ _ h λ now s₂ _ h. bind-step s₂ _ _ h λ written s₃ e h.
      let (w, _, _, _) = update_dispute-eq-ok i.dispute_id s₂ _ e in
      let (x, _) = pure-eq-ok s₃ h in
      (
        ap (λ c. c.already_resolved) (sym x),
        ap (λ c. c.row.dispute.order_id) (sym x) ∙ ap (λ r. r.order_id) w,
      )

  claim_resolving-IsClaim :
      (d : Db) {claim : ResolutionClaim} {s : Db}
      → claim_resolving i row d ≡ ok (claim, s)
      → (claim.already_resolved ≡ false) × (claim.row.dispute.order_id ≡ row.dispute.order_id)
  unfolding claim_resolving
  claim_resolving-IsClaim d h =
      elim (Bool-cases (is_decision (terminal_decision row.order_status) i.decision)) [
        | inl applied ↦
            let (x, _) = pure-eq-ok d (rw applied at h) in
            (ap (λ c. c.already_resolved) (sym x), ap (λ c. c.row.dispute.order_id) (sym x))
        | inr unapplied ↦
            bind-step d _ _ (rw unapplied at h)
              λ now s₁ _ h. guard-step s₁ _ _ _ h λ _ h. claim_again-IsClaim s₁ h
      ]

  claim_by_status-IsClaim :
      (st : DisputeStatus) (d : Db) {claim : ResolutionClaim} {s : Db}
      → claim_by_status st i row d ≡ ok (claim, s)
      → IsClaim st row claim d s
  unfolding claim_by_status
  claim_by_status-IsClaim resolved d h =
      let (x, e) = pure-eq-ok d h in
      inl (ap (λ c. c.already_resolved) (sym x), ap (λ c. c.row) (sym x), refl, sym e)
  claim_by_status-IsClaim open_dispute d h = inr (claim_open-IsClaim d h)
  claim_by_status-IsClaim resolution_failed d h = inr (claim_again-IsClaim d h)
  claim_by_status-IsClaim resolving d h = inr (claim_resolving-IsClaim d h)

pub claim_resolution-eq-ok :
    (i : ResolutionInput) (d : Db) {claim : ResolutionClaim} {s : Db}
    → claim_resolution i d ≡ ok (claim, s)
    → (row : ResolutionRow) × IsRead i.dispute_id row d
      × (decision_matches row.dispute.resolution_decision i.decision ≡ true)
      × (order_can_continue row.order_status i.decision ≡ true)
      × IsClaim row.dispute.status row claim d s
unfolding claim_resolution assert_decision assert_operation
claim_resolution-eq-ok i d {claim = claim} {s = s'} h = bind-step d _ _ h λ row s e h.
    guard-step s _ _ _ h λ matches h. guard-step s _ _ _ h λ _ h.
      guard-step s _ _ _ h λ continues h.
        let (same, read) = select_resolution-eq-ok i.dispute_id d e in
        let kind : IsClaim row.dispute.status row claim d s' =
          subst (λ x. IsClaim row.dispute.status row claim x s') same
            (claim_by_status-IsClaim i row row.dispute.status s h) in
        (row, read, matches_lem matches, matches_lem continues, kind)
