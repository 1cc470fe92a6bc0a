-- ===== src/Wallet/Topups.antt =====
-- `completeWalletTopup` of backend/src/modules/users/wallet.service.ts, which a payment provider's
-- webhook may call more than once.
use skrynia.Prelude.{
  ℕ, String, ◌≡◌, refl, ap, sym, ◌∙◌, true, false, some, ◌⊎◌, inl, inr, Bool-cases,
}
use skrynia.Prelude.Table.{find, nat_eq}
use skrynia.Common.Errors.{ok}
use skrynia.Db.Rows.{Db, TopupRow, completed_topup}
use skrynia.Db.Tx.{◌>>=◌, pure}
use skrynia.Db.Tables.{select_topup}
use skrynia.Db.Steps.{
  bind-step, lift-step, wallet-step, range-step, topup-step, update_topup-found, pure-eq-ok,
}
use skrynia.Orders.Books.{books}
use skrynia.Wallet.{credit_topup, complete_wallet_topup, is_pending_topup}
use skrynia.Wallet.Balances.{topup_spec, credit_topup-books}

module _ (id : ℕ) (provider reference : String) where
  -- The row that a credited top-up leaves.
  credit_topup-row :
      (t : TopupRow) (d : Db) {r : TopupRow} {d' : Db}
      → credit_topup id t provider reference d ≡ ok (r, d')
      → (r.status ≡ completed_topup) × (find id d'.topups ≡ some r)
  unfolding credit_topup
  credit_topup-row t d h = bind-step d _ _ h λ w s₁ e₁ h. wallet-step s₁ _ _ h λ row er h.
      lift-step s₁ _ _ (range-step s₁ _ _ h) λ next en h. bind-step s₁ _ _ h λ _ s₂ e₂ h.
        bind-step s₂ _ _ h λ _ s₃ e₃ h. bind-step s₃ _ _ h λ _ s₄ e₄ h.
          let (row, there) = update_topup-found s₄ id _ h in (ap (λ x. x.status) row, there)

  module _ (d : Db) {r : TopupRow} {d' : Db} where
    -- A committed completion of a pending top-up makes its amount available to the user, posts the
    -- top-up entry unless its key is taken, and marks the row completed; of any other top-up it
    -- returns the row and changes nothing.
    pub complete_wallet_topup-books :
        (t : TopupRow)
        → find id d.topups ≡ some t
        → complete_wallet_topup id provider reference d ≡ ok (r, d')
        → ((is_pending_topup t.status ≡ true)
            × (books d' ≡ topup_spec id t (books d))
            × (r.status ≡ completed_topup))
          ⊎ ((is_pending_topup t.status ≡ false) × (r ≡ t) × (d' ≡ d))
    unfolding complete_wallet_topup
    complete_wallet_topup-books t found h = topup-step d _ _ h λ t' e h.
        let same : t' ≡ t = (cc) in
        elim (Bool-cases (is_pending_topup t'.status)) [
          | inl p ↦
              let credited : credit_topup id t' provider reference d ≡ ok (r, d') = (rw p at h) in
              inl (
                ap (λ x. is_pending_topup x.status) (sym same) ∙ p,
                credit_topup-books id t' provider reference d credited
                    ∙ ap (λ x. topup_spec id x (books d)) same,
                (credit_topup-row t' d credited).0,
              )
          | inr p ↦
              let (kept, here) = pure-eq-ok d (rw p at h) in
              inr (ap (λ x. is_pending_topup x.status) (sym same) ∙ p, sym kept ∙ same, sym here)
        ]

    -- The row of a completed top-up is there and is no longer pending.
    complete_wallet_topup-row :
        complete_wallet_topup id provider reference d ≡ ok (r, d')
        → (find id d'.topups ≡ some r) × (is_pending_topup r.status ≡ false)
    unfolding complete_wallet_topup
    complete_wallet_topup-row h = topup-step d _ _ h λ t e h.
        elim (Bool-cases (is_pending_topup t.status)) [
          | inl p ↦
              let (done, there) = credit_topup-row t d (rw p at h) in
              (there, ap is_pending_topup done)
          | inr p ↦
              let (kept, here) = pure-eq-ok d (rw p at h) in
              (rw (← here, ← kept) e, ap (λ x. is_pending_topup x.status) (sym kept) ∙ p)
        ]

    -- Once a completion has committed, every later one commits, returns the same row and changes
    -- nothing, whatever provider and reference it names.
    pub complete_wallet_topup-again :
        (provider' reference' : String)
        → complete_wallet_topup id provider reference d ≡ ok (r, d')
        → complete_wallet_topup id provider' reference' d' ≡ ok (r, d')
    unfolding complete_wallet_topup select_topup ◌>>=◌ pure
    complete_wallet_topup-again provider' reference' h =
        let (there, settled) = complete_wallet_topup-row h in rw (there, settled) refl
