-- ===== src/Orders/Reconciliation/Operations.antt =====
-- The escrow operations of backend/src/modules/orders/ledger.service.ts, against the comparison of
-- wallets and ledger.
use skrynia.Prelude.{String, ℕ, ◌≡◌, false, Option, some}
use skrynia.Prelude.Int.{◌≤ℤ◌, int_laws}
use skrynia.Prelude.Table.{find, nat_eq}
use skrynia.Common.Errors.{ok}
use skrynia.Db.Keys.{payment_capture_key, escrow_release_key, refund_key}
use skrynia.Db.Rows.{Db, OrderRow, PaymentProviderName, OrderTransitionActor}
use skrynia.Db.Steps.{bind-step, guard-step, order-step, wallet-step, range-step}
use skrynia.Orders.Lifecycle.{Config}
use skrynia.Orders.Books.{books}
use skrynia.Orders.Escrow.{Capture}
use skrynia.Orders.Escrow.Lock.{lock_escrow}
use skrynia.Orders.Escrow.Capture.{lock_escrow-books}
use skrynia.Orders.Escrow.Release.{ReleaseOptions, release_escrow, release_funds}
use skrynia.Orders.Escrow.Settlement.{release_escrow-books}
use skrynia.Orders.Escrow.Refund.{refund_escrow}
use skrynia.Orders.Escrow.Restitution.{refund_escrow-books}
use skrynia.Orders.Reconciliation.{
  IsReconciled, capture-IsReconciled, release-IsReconciled, refund-IsReconciled,
}

release_funds-fits :
    (o : OrderRow) (d : Db) {u : Unit {0}} {d' : Db}
    → release_funds o d ≡ ok (u, d')
    → o.fee_cents ≤ℤ o.amount_cents
unfolding release_funds
release_funds-fits o d h = bind-step d _ _ h λ w s₁ e₁ h.
    wallet-step s₁ _ _ h λ row er h.
      guard-step s₁ _ _ _ (range-step s₁ _ _ (range-step s₁ _ _ h)) λ g h. grind int_laws

-- A release that commits never takes a fee above the amount of the order.
release_escrow-fits :
    (c : Config) (id : ℕ) (i : ReleaseOptions) (d : Db) {u : OrderRow} {d' : Db} (o : OrderRow)
    → find id d.orders ≡ some o
    → release_escrow c id i d ≡ ok (u, d')
    → o.fee_cents ≤ℤ o.amount_cents
unfolding release_escrow
release_escrow-fits c id i d o e h = order-step d _ _ h λ o' e' h. guard-step d _ _ _ h λ _ h.
    bind-step d _ _ h λ m s₁ e₁ h. bind-step s₁ _ _ h λ r s₂ e₂ h.
      bind-step s₂ _ _ h
        λ _ s₃ e₃ h. let same : o' ≡ o = (cc) in rw (← same) (release_funds-fits o' s₂ e₃)

module _ (c : Config) (id : ℕ) (d : Db) {u : OrderRow} {d' : Db} (o : OrderRow)
    (there : find id d.orders ≡ some o) (agree : IsReconciled (books d)) where
  -- A committed payment whose capture entry was not posted before keeps wallets and ledger in
  -- agreement.
  pub lock_escrow-IsReconciled :
      (capture : PaymentProviderName → Capture) (buyer : ℕ) (provider : PaymentProviderName)
      (reference : Option String) (actor : Option OrderTransitionActor)
      → (books d).posted (payment_capture_key o.id) ≡ false
      → lock_escrow c capture id buyer provider reference actor d ≡ ok (u, d')
      → IsReconciled (books d')
  lock_escrow-IsReconciled capture buyer provider reference actor free h =
      rw (lock_escrow-books c capture id buyer provider reference actor d o there h)
        (capture-IsReconciled o (books d) agree free)

  -- A committed release whose ledger entry was not posted before keeps wallets and ledger in
  -- agreement.
  pub release_escrow-IsReconciled :
      (i : ReleaseOptions)
      → (books d).posted (escrow_release_key o.id) ≡ false
      → release_escrow c id i d ≡ ok (u, d')
      → IsReconciled (books d')
  release_escrow-IsReconciled i free h =
      rw (release_escrow-books c id i d o there h)
        (release-IsReconciled o (books d) agree free (release_escrow-fits c id i d o there h))

  -- A committed refund whose ledger entry was not posted before keeps wallets and ledger in
  -- agreement.
  pub refund_escrow-IsReconciled :
      (admin : Option ℕ)
      → (books d).posted (refund_key o.id) ≡ false
      → refund_escrow c id admin d ≡ ok (u, d')
      → IsReconciled (books d')
  refund_escrow-IsReconciled admin free h =
      rw (refund_escrow-books c id admin d o there h) (refund-IsReconciled o (books d) agree free)
