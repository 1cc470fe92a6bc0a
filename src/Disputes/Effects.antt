-- ===== src/Disputes/Effects.antt =====
-- What the committed transactions of a resolution read and write, step by step.
use skrynia.Prelude.{
  ℕ, ◌≡◌, refl, ap, sym, ◌∙◌, true, Bool, Option, some, arith, Bool-cases, Option-cases, inl, inr,
}
use skrynia.Prelude.Table.{find, nat_eq, find-put_self}
use skrynia.Domain.Enums.{DisputeDecision, resolved}
use skrynia.Common.Errors.{ok}
use skrynia.Db.Rows.{Db, DisputeRow, OrderRow}
use skrynia.Db.Tx.{gets}
use skrynia.Db.Tables.{dispute_fits, update_dispute}
use skrynia.Db.Steps.{bind-step, guard-step, pure-eq-ok}
use skrynia.Db.Requests.{
  SameRequests-refl, record_order_event-Rest, create_order_system_message-Rest,
  enqueue_domain_event-Rest,
}
use skrynia.Disputes.{
  ResolutionRow, select_resolution, assert_decision, assert_operation, terminal_decision,
  is_decision, decision_matches,
}
use skrynia.Disputes.Finalize.{settled_row, settle_dispute, finalize_if_applied, is_resolved}

-- The row that was read stands in the tables.
abbrev pub IsRead : ℕ → ResolutionRow → Db → Type 0
IsRead id row d =
    (find id d.disputes ≡ some row.dispute)
    × ((o : OrderRow) × (find row.dispute.order_id d.orders ≡ some o)
        × (row.order_status ≡ o.status))

module _ (id : ℕ) (d : Db) where
  pub select_resolution-eq-ok :
      {row : ResolutionRow} {s : Db}
      → select_resolution id d ≡ ok (row, s)
      → (s ≡ d) × IsRead id row d
  unfolding select_resolution
  select_resolution-eq-ok h = elim (Option-cases (find id d.disputes)) [
    | inl e ↦ ground arith
    | inr (x, e) ↦ elim (Option-cases (find x.order_id d.orders)) [
      | inl f ↦ ground arith
      | inr (o, f) ↦ (ground arith, (ground arith, (o, ground arith, ground arith)))
    ]
  ]

  pub select_resolution-finds :
      (row : DisputeRow) (o : OrderRow)
      → find id d.disputes ≡ some row
      → find row.order_id d.orders ≡ some o
      → select_resolution id d
        ≡ ok (
          record {
            dispute = row;
            order_status = o.status;
            buyer_id = o.buyer_id;
            seller_id = o.seller_id;
          },
          d,
        )
  unfolding select_resolution
  select_resolution-finds row o e f = ground arith

  pub update_dispute-eq-ok :
      (row : DisputeRow) {r : DisputeRow} {s : Db}
      → update_dispute id row d ≡ ok (r, s)
      → (r ≡ row)
        × (dispute_fits row ≡ true)
        × (find id s.disputes ≡ some row)
        × (s ≡ record d { disputes = s.disputes })
  unfolding update_dispute
  update_dispute-eq-ok row h = ground (arith, find-put_self id row d.disputes)

-- A finalization that wrote: the row is settled, and found again.
pub settle_dispute-eq-ok :
    (id operation : ℕ) (row : ResolutionRow) (d : Db) {x : Option (ResolutionRow × Bool)} {d' : Db}
    → settle_dispute id operation row d ≡ ok (x, d')
    → (x ≡ some (record row { dispute = settled_row row.dispute d.now }, true))
      × (find id d'.disputes ≡ some (settled_row row.dispute d.now))
unfolding settle_dispute gets
settle_dispute-eq-ok id operation row d h = bind-step d _ _ h λ now s₀ e₀ h.
    bind-step s₀ _ _ h λ written s₁ e₁ h. bind-step s₁ _ _ h λ _ s₂ e₂ h.
      bind-step s₂ _ _ h λ m₁ s₃ e₃ h. bind-step s₃ _ _ h λ m₂ s₄ e₄ h.
        bind-step s₄ _ _ h λ _ s₅ e₅ h.
          let time : now ≡ d.now = ground arith in
          let (w, _, there, _) = update_dispute-eq-ok id s₀ (settled_row row.dispute now) e₁ in
          let k₂ = (record_order_event-Rest {o = s₁} _).at s₁ _ s₂ (SameRequests-refl s₁) e₂ in
          let k₃ = (create_order_system_message-Rest {o = s₁} _).at s₂ _ s₃ k₂ e₃ in
          let k₄ = (create_order_system_message-Rest {o = s₁} _).at s₃ _ s₄ k₃ e₄ in
          let k₅ = (enqueue_domain_event-Rest {o = s₁} _).at s₄ _ s₅ k₄ e₅ in
          let (here, last) = pure-eq-ok s₅ h in
          (
            sym here ∙ rw (w, time) refl,
            ap (λ x. find id x.disputes) (sym last)
                ∙ ap (find id) k₅.disputes
                ∙ there
                ∙ rw time refl,
          )

-- A finalization that found the decision applied: the dispute is resolved, for this decision; where it
-- is newly so, the order has reached the decision's status.
pub finalize_if_applied-eq-ok :
    (id : ℕ) (decision : DisputeDecision) (operation : ℕ) (d : Db) {row : ResolutionRow}
    {newly : Bool} {d' : Db}
    → finalize_if_applied id decision operation d ≡ ok (some (row, newly), d')
    → (find id d'.disputes ≡ some row.dispute)
      × (row.dispute.status ≡ resolved)
      × (decision_matches row.dispute.resolution_decision decision ≡ true)
      × (newly ≡ true → is_decision (terminal_decision row.order_status) decision ≡ true)
unfolding finalize_if_applied assert_decision assert_operation settled_row
finalize_if_applied-eq-ok id decision operation d {row} {newly} {d'} h =
    bind-step d _ _ h λ r s e h. guard-step s _ _ _ h λ matches h. guard-step s _ _ _ h λ _ h.
      let (same, (there, _)) = select_resolution-eq-ok id d e in
      elim (Bool-cases (is_resolved r.dispute.status)) [
        | inl done ↦
            let (x, here) = pure-eq-ok s (rw done at h) in
            (ground arith, ground arith, ground arith, λ n. ground arith)
        | inr open_still ↦
            elim (Bool-cases (is_decision (terminal_decision r.order_status) decision)) [
              | inr unapplied ↦ let (x, here) = pure-eq-ok s (rw (open_still, unapplied) at h) in cc
              | inl applied ↦
                  let (x, found) =
                    settle_dispute-eq-ok id operation r s (rw (open_still, applied) at h) in
                  (ground arith, ground arith, ground arith, λ n. ground arith)
            ]
      ]
