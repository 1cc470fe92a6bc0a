-- ===== src/Disputes/Outcomes.antt =====
-- What a resolution that returns has done.
use skrynia.Prelude.{
  ℕ, ◌≡◌, refl, ◌∙◌, true, false, Bool, Option, none, some, arith, Bool-cases, Option-cases, inl,
  inr, ◌⊎◌,
}
use skrynia.Prelude.Table.{find, nat_eq}
use skrynia.Domain.Enums.{DisputeDecision, resolved}
use skrynia.Common.Errors.{Error, ok, conflict}
use skrynia.Db.Rows.{Db, DisputeRow, OrderRow}
use skrynia.Db.Tx.{in_tx}
use skrynia.Orders.Lifecycle.{Config}
use skrynia.Disputes.{ResolutionInput, terminal_decision, is_decision, decision_matches}
use skrynia.Disputes.Claim.{ResolutionClaim, claim_resolution}
use skrynia.Disputes.Finalize.{finalize_if_applied}
use skrynia.Disputes.Effects.{finalize_if_applied-eq-ok}
use skrynia.Disputes.Lawful.{
  IsLawful, claim_resolution-IsLawful, finalize_if_applied-IsLawful, execute_escrow-IsLawful,
}
use skrynia.Db.Tables.{dispute_fits}
use skrynia.Disputes.Resolve.{
  DisputeResolutionResult, acting_admin, execute_escrow, fail_resolution, after_finalize,
  finish_resolution, after_escrow, run_claim, after_claim, resolve_dispute_resolution,
}
use skrynia.Db.Tx.{in_tx-cases}
use skrynia.Disputes.Claimed.{claim_resolution-eq-ok}

-- The money of a resolution: the escrow of its decision ran, or nothing did.
abbrev pub IsMoved :
    Config → ResolutionInput → ResolutionClaim → DisputeResolutionResult → Db → Db → Type 0
IsMoved c i claim r s t =
    ((r.escrow_executed ≡ false) × (t ≡ s))
    ⊎ ((r.escrow_executed ≡ true)
        × ((o : OrderRow) × (execute_escrow c i.decision claim.row.dispute.order_id
                (acting_admin claim.row.dispute.admin_id i.admin_id) s
              ≡ ok (o, t))))

-- How a resolution that returns ends after its claim.
abbrev pub IsEnd :
    Config → ResolutionInput → ResolutionClaim → DisputeResolutionResult → Db → Db → Type 0
IsEnd c i claim r s d' =
    ((claim.already_resolved ≡ true)
      × (r.dispute ≡ claim.row)
      × (r.newly_resolved ≡ false)
      × (r.escrow_executed ≡ false)
      × (d' ≡ s))
    ⊎ ((claim.already_resolved ≡ false)
        × ((t : Db) × (operation : ℕ) × IsMoved c i claim r s t
            × (finalize_if_applied i.dispute_id i.decision operation t
                ≡ ok (some (r.dispute, r.newly_resolved), d'))))

module _ (i : ResolutionInput) (operation : ℕ) (order : Option OrderRow) (executed : Bool)
    (e : Error) where
  -- A finalization after which the resolution returns has applied.
  after_finalize-eq-ok :
      (t : Db) {r : DisputeResolutionResult} {d' : Db}
      → after_finalize order executed operation
          (fail_resolution i operation e)
          (in_tx (finalize_if_applied i.dispute_id i.decision operation) t)
        ≡ (ok r, d')
      → (r.escrow_executed ≡ executed)
        × (finalize_if_applied i.dispute_id i.decision operation t
            ≡ ok (some (r.dispute, r.newly_resolved), d'))
  unfolding after_finalize fail_resolution
  after_finalize-eq-ok t h =
      elim (in_tx-cases (finalize_if_applied i.dispute_id i.decision operation) t) [
        | inr (x, f, q) ↦ cc (rw q at h)
        | inl (none, u, f, q) ↦ cc (rw q at h)
        | inl (some (row, newly), u, f, q) ↦ let k = (rw q at h) in (ground arith, ground arith)
      ]

module _ (c : Config) (i : ResolutionInput) (claim : ResolutionClaim) (operation : ℕ) where
  run_claim-eq-ok :
      (s : Db) {r : DisputeResolutionResult} {d' : Db}
      → run_claim c i claim operation s ≡ (ok r, d')
      → IsEnd c i claim r s d'
  unfolding run_claim finish_resolution after_escrow
  run_claim-eq-ok s h = elim (Bool-cases claim.already_resolved) [
    | inl already ↦
        let k = (rw already at h) in
        inl (already, ground arith, ground arith, ground arith, ground arith)
    | inr fresh ↦ elim (Bool-cases claim.should_execute_escrow) [
      | inr idle ↦
          let (x, f) =
            after_finalize-eq-ok i operation none false
              (conflict "Escrow operation did not reach the expected terminal order status") s
              (rw (fresh, idle) at h) in
          inr (fresh, (s, operation, inl (x, refl), f))
      | inl runs ↦
          let escrow =
            execute_escrow c i.decision claim.row.dispute.order_id
              (acting_admin claim.row.dispute.admin_id i.admin_id) in
          elim (in_tx-cases escrow s) [
            | inl (o, t, e, q) ↦
                let (x, f) =
                  after_finalize-eq-ok i operation (some o) true
                    (conflict "Escrow operation did not reach the expected terminal order status") t
                    (rw (fresh, runs, q) at h) in
                inr (fresh, (t, operation, inr (x, (o, e)), f))
            | inr (x, e, q) ↦
                let (y, f) =
                  after_finalize-eq-ok i operation none false x s (rw (fresh, runs, q) at h) in
                inr (fresh, (s, operation, inl (y, refl), f))
          ]
    ]
  ]

-- A resolution that returns: its claim committed, and how it ended.
pub resolve-IsEnd :
    (c : Config) (i : ResolutionInput) (d : Db) {r : DisputeResolutionResult} {d' : Db}
    → resolve_dispute_resolution c i d ≡ (ok r, d')
    → (claim : ResolutionClaim) × (s : Db) × (claim_resolution i d ≡ ok (claim, s))
      × IsEnd c i claim r s d'
unfolding resolve_dispute_resolution after_claim
resolve-IsEnd c i d h = elim (in_tx-cases (claim_resolution i) d) [
  | inr (x, e, q) ↦ cc (rw q at h)
  | inl (claim, s, e, q) ↦ elim (Option-cases claim.row.dispute.resolution_operation_id) [
    | inl missing ↦ cc (rw (q, missing) at h)
    | inr (operation, there) ↦
        (claim, s, e, run_claim-eq-ok c i claim operation s (rw (q, there) at h))
  ]
]

-- A lawful dispute that is resolved, for a decision that it matches, has that decision.
resolved_for :
    (row : DisputeRow) (decision : DisputeDecision)
    → dispute_fits row ≡ true
    → row.status ≡ resolved
    → decision_matches row.resolution_decision decision ≡ true
    → row.resolution ≡ some decision
resolved_for row decision fits done matches = ground arith

moved-IsLawful :
    (c : Config) (i : ResolutionInput) (claim : ResolutionClaim) (r : DisputeResolutionResult)
    (s t : Db)
    → IsLawful s
    → IsMoved c i claim r s t
    → IsLawful t
moved-IsLawful c i claim r s t lawful (inl (_, same)) = rw same lawful
moved-IsLawful c i claim r s t lawful (inr (_, (o, e))) =
    (execute_escrow-IsLawful c i.decision claim.row.dispute.order_id
        (acting_admin claim.row.dispute.admin_id i.admin_id)).at
      s o t lawful e

-- If every dispute meets the database's check, a resolution that returns leaves the dispute
-- resolved for the decision that was asked for; and where it reports that it resolved the dispute
-- newly, the order had reached the status of that decision.
pub resolve_dispute-settles :
    (c : Config) (i : ResolutionInput) (d : Db) {r : DisputeResolutionResult} {d' : Db}
    → IsLawful d
    → resolve_dispute_resolution c i d ≡ (ok r, d')
    → (find i.dispute_id d'.disputes ≡ some r.dispute.dispute)
      × (r.dispute.dispute.status ≡ resolved)
      × (r.dispute.dispute.resolution ≡ some i.decision)
      × (r.newly_resolved ≡ true
          → is_decision (terminal_decision r.dispute.order_status) i.decision ≡ true)
resolve_dispute-settles c i d {r} {d'} lawful h =
    let (claim, s, e, end) = resolve-IsEnd c i d h in
    let (row, (there, _), matches, _, kind) = claim_resolution-eq-ok i d e in
    elim end [
      | inl (already, same, stale, _, kept) ↦ elim kind [
        | inr (fresh, _) ↦ cc
        | inl (_, found, done, quiet) ↦
            let all : r.dispute ≡ row = same ∙ found in
            let state : d' ≡ d = kept ∙ quiet in
            rw (all, state)
              (
                there,
                done,
                resolved_for row.dispute i.decision (lawful i.dispute_id row.dispute there) done
                    matches,
                λ n. cc,
              )
      ]
      | inr (_, (t, operation, moved, f)) ↦
          let (here, done, fits, applied) =
            finalize_if_applied-eq-ok i.dispute_id i.decision operation t f in
          let lawful_s : IsLawful s = (claim_resolution-IsLawful i).at d claim s lawful e in
          let lawful_t : IsLawful t = moved-IsLawful c i claim r s t lawful_s moved in
          let lawful_end : IsLawful d' =
            (finalize_if_applied-IsLawful i.dispute_id i.decision operation).at t _ d' lawful_t f in
          (
            here,
            done,
            resolved_for r.dispute.dispute i.decision
                (lawful_end i.dispute_id r.dispute.dispute here) done fits,
            applied,
          )
    ]
