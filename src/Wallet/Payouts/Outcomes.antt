-- ===== src/Wallet/Payouts/Outcomes.antt =====
-- How often a payout is settled: one operation at a time, and when `rejectPayout` runs between the
-- read and the write of `completePayout`.
use skrynia.Prelude.{ℕ, String, ◌≡◌, refl, ap, ◌∙◌, false, Option, some, arith, ◌⊎◌, inl, inr}
use skrynia.Prelude.Table.{find, put, nat_eq}
use skrynia.Common.Errors.{ok, err, bad_request}
use skrynia.Db.Rows.{Db, PayoutRow, paid_payout, rejected_payout}
use skrynia.Db.Tx.{◌>>=◌, throw_if}
use skrynia.Db.Tables.{select_payout, update_payout}
use skrynia.Db.Steps.{
  bind-step, guard-step, lift-step, wallet-step, range-step, payout-step, update_payout-found,
}
use skrynia.Orders.Books.{books}
use skrynia.Wallet.Balances.{rejection_spec, reject_payout-books}
use skrynia.Wallet.Payouts.{
  begin_payout, finish_payout, complete_payout, reject_payout, is_pending_payout,
}

module _ (id : ℕ) (d : Db) {r : PayoutRow} {d' : Db} where
  complete_payout-row :
      (admin : ℕ) (reference : Option String)
      → complete_payout id admin reference d ≡ ok (r, d')
      → (find id d'.payouts ≡ some r) × (r.status ≡ paid_payout)
  unfolding complete_payout finish_payout
  complete_payout-row admin reference h = bind-step d _ _ h λ outcome s e h.
      let (p, _, row, there, _) = update_payout-found s id _ h in (there, ap (λ x. x.status) row)

  reject_payout-row :
      (admin : ℕ) (reason : String)
      → reject_payout id admin reason d ≡ ok (r, d')
      → (find id d'.payouts ≡ some r) × (r.status ≡ rejected_payout)
  unfolding reject_payout
  reject_payout-row admin reason h = payout-step d _ _ h λ p ep h. guard-step d _ _ _ h λ _ h.
      bind-step d _ _ h λ w s₁ e₁ h. wallet-step s₁ _ _ h λ row er h.
        lift-step s₁ _ _ (range-step s₁ _ _ h) λ next en h. bind-step s₁ _ _ h λ _ s₂ e₂ h.
          bind-step s₂ _ _ h λ _ s₃ e₃ h. bind-step s₃ _ _ h λ _ s₄ e₄ h.
            let (_, _, row, there, _) = update_payout-found s₄ id _ h in
            (there, ap (λ x. x.status) row)

-- A payout that is not pending can be neither completed nor rejected.
module _ (id : ℕ) (p : PayoutRow) (d : Db) (admin : ℕ) where
  complete_payout-refused :
      (reference : Option String)
      → find id d.payouts ≡ some p
      → is_pending_payout p.status ≡ false
      → complete_payout id admin reference d
        ≡ err (bad_request "Only pending payouts can be completed")
  unfolding complete_payout begin_payout select_payout ◌>>=◌ throw_if
  complete_payout-refused reference e s = rw (e, s) refl

  reject_payout-refused :
      (reason : String)
      → find id d.payouts ≡ some p
      → is_pending_payout p.status ≡ false
      → reject_payout id admin reason d ≡ err (bad_request "Only pending payouts can be rejected")
  unfolding reject_payout select_payout ◌>>=◌ throw_if
  reject_payout-refused reason e s = rw (e, s) refl

-- Once a completion or a rejection of a payout has committed, with nothing run inside it, every
-- later completion and every later rejection of that payout throws.
pub payout_settles_once :
    (id admin admin' : ℕ) (reference reference' : Option String) (reason reason' : String) (d : Db)
    {r : PayoutRow} {d' : Db}
    → (complete_payout id admin reference d ≡ ok (r, d'))
      ⊎ (reject_payout id admin reason d ≡ ok (r, d'))
    → (complete_payout id admin' reference' d'
        ≡ err (bad_request "Only pending payouts can be completed"))
      × (reject_payout id admin' reason' d'
          ≡ err (bad_request "Only pending payouts can be rejected"))
payout_settles_once id admin admin' reference reference' reason reason' d {r} {d'} (inl h) =
    let (there, s) = complete_payout-row id d admin reference h in
    let settled : is_pending_payout r.status ≡ false = ap is_pending_payout s in
    (
      complete_payout-refused id r d' admin' reference' there settled,
      reject_payout-refused id r d' admin' reason' there settled,
    )
payout_settles_once id admin admin' reference reference' reason reason' d {r} {d'} (inr h) =
    let (there, s) = reject_payout-row id d admin reason h in
    let settled : is_pending_payout r.status ≡ false = ap is_pending_payout s in
    (
      complete_payout-refused id r d' admin' reference' there settled,
      reject_payout-refused id r d' admin' reason' there settled,
    )

-- The write of a completion commits on any payout that is there, and moves no money.
finish_payout-commits :
    (id admin : ℕ) (reference : String) (p : PayoutRow) (d : Db)
    → find id d.payouts ≡ some p
    → (q : PayoutRow) × (d' : Db) × (finish_payout id admin reference d ≡ ok (q, d'))
      × (q.status ≡ paid_payout)
      × (books d' ≡ books d)
unfolding finish_payout update_payout books
finish_payout-commits id admin reference p d e =
    let paid : PayoutRow = record p {
      status = paid_payout;
      reference = some reference;
      processed_by = some admin;
    } in
    (paid, record d { payouts = put id paid d.payouts }, ground arith, refl, refl)

-- If a payout is rejected after `completePayout` has read it and before it writes, the write still
-- commits: the payout ends as paid and its amount has been returned to the wallet.
pub paid_and_refunded :
    (id admin admin' : ℕ) (reference : Option String) (reason outcome : String) (p : PayoutRow)
    (d : Db) {r : PayoutRow} {d₁ : Db}
    → find id d.payouts ≡ some p
    → begin_payout id reference d ≡ ok (outcome, d)
    → reject_payout id admin reason d ≡ ok (r, d₁)
    → (q : PayoutRow) × (d₂ : Db) × (finish_payout id admin' outcome d₁ ≡ ok (q, d₂))
      × (q.status ≡ paid_payout)
      × (books d₂ ≡ rejection_spec p (books d))
paid_and_refunded id admin admin' reference reason outcome p d {r} {d₁} found read h =
    let (there, _) = reject_payout-row id d admin reason h in
    let (q, d₂, e, s, b) = finish_payout-commits id admin' outcome r d₁ there in
    (q, d₂, e, s, b ∙ reject_payout-books id admin reason p d found h)
