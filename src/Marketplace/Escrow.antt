-- ===== src/Marketplace/Escrow.antt =====
-- The operations of backend/src/modules/orders/ledger.service.ts as moves of one order.
use skrynia.Prelude.{
  if◌then◌else◌, ℕ, String, ◌≡◌, refl, ◌≢◌, ap, sym, ◌∙◌, inl, inr, arith, Option, some,
}
use skrynia.Prelude.Int.{ℤ, ◌-ℤ◌}
use skrynia.Prelude.Table.{find, put, nat_eq}
use skrynia.Domain.Enums.{
  OrderStatus, status_eq, same_status_iff, pending, paid, delivered, completed, refunded,
}
use skrynia.Common.Errors.{ok}
use skrynia.Db.Rows.{Db, OrderRow, ProductRow, PaymentProviderName, OrderTransitionActor}
use skrynia.Db.Files.{
  SameFiles, SameFiles-refl, create_order_system_message-Filed, take_stock-Filed,
  update_wallet-Filed, insert_transaction-Filed,
}
use skrynia.Db.Steps.{
  bind-step, guard-step, lift-step, order-step, product-step, wallet-step, pure-eq-ok,
}
use skrynia.Db.Keys.{payment_capture_key, escrow_release_key, refund_key}
use skrynia.Orders.Transitions.Graph.{can_transition_order_iff, IsTerminal-edge}
use skrynia.Orders.Bookings.{
  record_payment_capture_ledger, payment_capture_entry, escrow_release_entry, order_refund_entry,
}
use skrynia.Orders.Books.{books}
use skrynia.Orders.Lifecycle.{Config}
use skrynia.Orders.Lifecycle.Legality.{update_order-eq-ok}
use skrynia.Orders.Lifecycle.History.{IsKeyed, put-IsKeyed}
use skrynia.Orders.Escrow.{Capture, PaymentResult, is_instant}
use skrynia.Orders.Escrow.Lock.{lock_escrow, finish_lock, paid_order, capture_transition}
use skrynia.Orders.Escrow.Release.{ReleaseOptions, release_escrow, release_transition}
use skrynia.Orders.Escrow.Refund.{refund_escrow, refund_transition}
use skrynia.Orders.Escrow.Files.{
  ensure_wallet-Filed, post_ledger_entry-Filed, release_message-Filed, release_funds-Filed,
  refund_funds-Filed,
}
use skrynia.Orders.Escrow.Capture.{lock_escrow-books, hold}
use skrynia.Orders.Escrow.Settlement.{release_escrow-books, settle}
use skrynia.Orders.Escrow.Restitution.{refund_escrow-books, give_back}
use skrynia.Orders.Reconciliation.Operations.{
  lock_escrow-IsReconciled, release_escrow-IsReconciled, refund_escrow-IsReconciled,
}
use skrynia.Marketplace.Openings.{IsSound, IsOpen, posted-open}
use skrynia.Marketplace.Moves.{Moved, Moved-IsSound, Moved-paid, Moved-released, Moved-refunded}
use skrynia.Marketplace.Orders.{Moved-between, Moved-put, transition_order-Moved}

module _ (c : Config) (id : ℕ) (d : Db) {u : OrderRow} {d' : Db} where
  pub release_escrow-Moved :
      (i : ReleaseOptions)
      → IsKeyed d
      → release_escrow c id i d ≡ ok (u, d')
      → (o : OrderRow) × (find id d.orders ≡ some o)
        × (o.status ≢ completed)
        × Moved id completed d d'
  unfolding release_escrow release_transition
  release_escrow-Moved i k h = order-step d _ _ h λ o f h. guard-step d _ _ _ h λ may h.
      bind-step d _ _ h λ m s₁ e₁ h. bind-step s₁ _ _ h λ r s₂ e₂ h. bind-step s₂ _ _ h λ _ s₃ e₃ h.
        let before : SameFiles d s₁ =
          (release_message-Filed i.source id).at d m s₁ (SameFiles-refl d) e₁ in
        let after : SameFiles s₂ s₃ = (release_funds-Filed o).at s₂ _ s₃ (SameFiles-refl s₂) e₃ in
        let keyed : IsKeyed s₁ = λ j x g. k j x (ap (find j) (sym before.orders) ∙ g) in
        let edge = (can_transition_order_iff o.status completed).0 (ground arith) in
        (
          o,
          f,
          λ done. IsTerminal-edge edge (inl done),
          rw (← (pure-eq-ok s₃ h).1) (
              Moved-between before
                (transition_order-Moved c (release_transition i id o m) s₁ keyed e₂) after),
        )

  refund_escrow-Moved :
      (admin : Option ℕ)
      → IsKeyed d
      → refund_escrow c id admin d ≡ ok (u, d')
      → (o : OrderRow) × (find id d.orders ≡ some o)
        × (o.status ≢ refunded)
        × Moved id refunded d d'
  unfolding refund_escrow refund_transition
  refund_escrow-Moved admin k h = order-step d _ _ h λ o f h. guard-step d _ _ _ h λ may h.
      bind-step d _ _ h λ r s₂ e₂ h. bind-step s₂ _ _ h λ _ s₃ e₃ h.
        let after : SameFiles s₂ s₃ = (refund_funds-Filed o).at s₂ _ s₃ (SameFiles-refl s₂) e₃ in
        let edge = (can_transition_order_iff o.status refunded).0 (ground arith) in
        (
          o,
          f,
          λ done. IsTerminal-edge edge (inr (inl done)),
          rw (← (pure-eq-ok s₃ h).1) (
              Moved-between (SameFiles-refl d)
                (transition_order-Moved c (refund_transition id admin) d k e₂) after),
        )

  pub release_escrow-IsSound :
      (i : ReleaseOptions) → release_escrow c id i d ≡ ok (u, d') → IsSound d → IsSound d'
  unfolding escrow_release_entry
  release_escrow-IsSound i h s =
      let (o, f, n, m) = release_escrow-Moved i s.keyed h in
      let own : o.id ≡ id = s.keyed id o f in
      let still : IsOpen d (escrow_release_key o.id) = rw own (inr (o, f, n)) in
      Moved-IsSound m s (release_escrow-IsReconciled c id d o f s.agree i (s.unposted _ still) h) (
        posted-open
          (escrow_release_entry o.id o.seller_id o.amount_cents (o.amount_cents -ℤ o.fee_cents)
            o.fee_cents o.currency)
          (settle o (books d)) d' (release_escrow-books c id i d o f h)
          (rw own (Moved-released m s refl)))

  pub refund_escrow-IsSound :
      (admin : Option ℕ) → refund_escrow c id admin d ≡ ok (u, d') → IsSound d → IsSound d'
  unfolding order_refund_entry
  refund_escrow-IsSound admin h s =
      let (o, f, n, m) = refund_escrow-Moved admin s.keyed h in
      let own : o.id ≡ id = s.keyed id o f in
      let still : IsOpen d (refund_key o.id) = rw own (inr (o, f, n)) in
      Moved-IsSound m s (refund_escrow-IsReconciled c id d o f s.agree admin (s.unposted _ still) h)
        (posted-open (order_refund_entry o.id o.seller_id o.buyer_id o.amount_cents o.currency)
          (give_back o (books d)) d' (refund_escrow-books c id admin d o f h)
          (rw own (Moved-refunded m s refl)))

-- What ends a payment: the order's row, with its payment, and the transition to `paid` or
-- `delivered`.
finish_lock-Moved :
    (c : Config) (o : OrderRow) (p : ProductRow) (fee : ℤ) (r : PaymentResult)
    (a : OrderTransitionActor) (d : Db) {u : OrderRow} {d' : Db}
    → IsKeyed d
    → find o.id d.orders ≡ some o
    → finish_lock c o p fee r a d ≡ ok (u, d')
    → (t : OrderStatus) × (t ≢ pending) × Moved o.id t d d'
unfolding finish_lock paid_order capture_transition
finish_lock-Moved c o p fee r a d {d' = d'} k f h = bind-step d _ _ h λ _ s₁ e₁ h.
    bind-step s₁ _ _ h λ m s₂ e₂ h.
      let written : s₁ ≡ record d { orders = put o.id (paid_order o p fee r) d.orders } =
        update_order-eq-ok d (paid_order o p fee r) e₁ in
      let quiet : SameFiles s₁ s₂ =
        (create_order_system_message-Filed o.id).at s₁ m s₂ (SameFiles-refl s₁) e₂ in
      let keyed : IsKeyed s₁ =
        put-IsKeyed d s₁ o (paid_order o p fee r) refl (ap (λ x. x.orders) written) k in
      let keyed₂ : IsKeyed s₂ = λ j x g. keyed j x (ap (find j) (sym quiet.orders) ∙ g) in
      let t : OrderStatus = if is_instant p then delivered else paid in
      (
        t,
        ground arith,
        Moved-put o (paid_order o p fee r) f refl refl refl written (
            Moved-between quiet (transition_order-Moved c (capture_transition o p a m) s₂ keyed₂ h)
              (SameFiles-refl d')),
      )

module _ (c : Config) (capture : PaymentProviderName → Capture) (id buyer : ℕ)
    (provider : PaymentProviderName) (reference : Option String)
    (actor : Option OrderTransitionActor) (d : Db) {u : OrderRow} {d' : Db} where
  lock_escrow-Moved :
      IsKeyed d
      → lock_escrow c capture id buyer provider reference actor d ≡ ok (u, d')
      → (o : OrderRow) × (find id d.orders ≡ some o)
        × (o.status ≡ pending)
        × ((t : OrderStatus) × (t ≢ pending) × Moved o.id t d d')
  unfolding lock_escrow record_payment_capture_ledger
  lock_escrow-Moved k h = order-step d _ _ h λ o f h. guard-step d _ _ _ h λ _ h.
      guard-step d _ _ _ h λ waiting h. lift-step d _ _ (product-step d _ _ h) λ p _ h.
        guard-step d _ _ _ h λ _ h. bind-step d _ _ h λ sw s₁ e₁ h. bind-step s₁ _ _ h λ bw s₂ e₂ h.
          wallet-step s₂ _ _ h λ row er h. lift-step s₂ _ _ h λ amount ea h.
            lift-step s₂ _ _ h λ next en h. lift-step s₂ _ _ h λ fee _ h.
              bind-step s₂ _ _ h λ _ s₃ e₃ h. lift-step s₃ _ _ h λ payment _ h.
                bind-step s₃ _ _ h λ _ s₄ e₄ h. bind-step s₄ _ _ h λ t₁ s₅ e₅ h.
                  bind-step s₅ _ _ h λ t₂ s₆ e₆ h. bind-step s₆ _ _ h λ key s₇ e₇ h.
                    let f₁ : SameFiles d s₁ =
                      (ensure_wallet-Filed o.seller_id o.currency).at d _ s₁ (SameFiles-refl d)
                        e₁ in
                    let f₂ : SameFiles d s₂ =
                      (ensure_wallet-Filed o.buyer_id o.currency).at s₁ _ s₂ f₁ e₂ in
                    let f₃ : SameFiles d s₃ = (take_stock-Filed _ _).at s₂ _ s₃ f₂ e₃ in
                    let f₄ : SameFiles d s₄ = (update_wallet-Filed _ _).at s₃ _ s₄ f₃ e₄ in
                    let f₅ : SameFiles d s₅ =
                      (insert_transaction-Filed _ _ _ _ _ _).at s₄ _ s₅ f₄ e₅ in
                    let f₆ : SameFiles d s₆ =
                      (insert_transaction-Filed _ _ _ _ _ _).at s₅ _ s₆ f₅ e₆ in
                    let f₇ : SameFiles d s₇ = (post_ledger_entry-Filed _).at s₆ _ s₇ f₆ e₇ in
                    let own : o.id ≡ id = k id o f in
                    let keyed : IsKeyed s₇ = λ j x g. k j x (ap (find j) (sym f₇.orders) ∙ g) in
                    let there : find o.id s₇.orders ≡ some o =
                      ap (find o.id) f₇.orders ∙ ap (λ j. find j d.orders) own ∙ f in
                    let (t, n, m) = finish_lock-Moved c o p fee payment _ s₇ keyed there h in
                    (
                      o,
                      f,
                      (same_status_iff o.status pending).0 (ground arith),
                      (t, n, Moved-between f₇ m (SameFiles-refl d')),
                    )

  pub lock_escrow-IsSound :
      lock_escrow c capture id buyer provider reference actor d ≡ ok (u, d')
      → IsSound d
      → IsSound d'
  unfolding payment_capture_entry
  lock_escrow-IsSound h s =
      let (o, f, w, (t, n, m)) = lock_escrow-Moved s.keyed h in
      let own : o.id ≡ id = s.keyed id o f in
      let still : IsOpen d (payment_capture_key o.id) = rw own (inr (o, f, w)) in
      Moved-IsSound m s
        (lock_escrow-IsReconciled c id d o f s.agree capture buyer provider reference actor
          (s.unposted _ still) h)
        (posted-open (payment_capture_entry o.id o.seller_id o.amount_cents o.currency)
          (hold o (books d)) d'
          (lock_escrow-books c capture id buyer provider reference actor d o f h)
          (Moved-paid m s n))
