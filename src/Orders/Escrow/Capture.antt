-- ===== src/Orders/Escrow/Capture.antt =====
-- What a committed `lockEscrow` does to the books.
use skrynia.Prelude.{ℕ, String, ◌≡◌, ap, sym, ◌∙◌, Option, some}
use skrynia.Prelude.Int.{ℤ, ◌+ℤ◌}
use skrynia.Prelude.Table.{find, nat_eq}
use skrynia.Common.Errors.{ok}
use skrynia.Db.Keys.{WalletId, wallet_eq}
use skrynia.Db.Rows.{Db, OrderRow, WalletRow, ProductRow, PaymentProviderName, OrderTransitionActor}
use skrynia.Db.Frame.{
  SameFunds, SameFunds-trans, update_order-SameFunds, create_order_system_message-SameFunds,
  take_stock-SameFunds, insert_transaction-SameFunds,
}
use skrynia.Db.Tables.{update_wallet}
use skrynia.Db.Steps.{bind-step, guard-step, lift-step, order-step, wallet-step, product-step}
use skrynia.Orders.Lifecycle.{Config}
use skrynia.Orders.Lifecycle.Effects.{transition_order-SameFunds}
use skrynia.Orders.Bookings.{payment_capture_entry, record_payment_capture_ledger}
use skrynia.Orders.Books.{Books, books, books-SameFunds, books-post, post_spec, set_at}
use skrynia.Orders.Books.Wallets.{
  ensure_wallet-eq-ok, update_wallet-eq-ok, books-put_escrow, books-escrow,
  checked_balance_addition-eq-ok, assert_postgres_bigint_range-eq-ok,
}
use skrynia.Orders.Escrow.{checked_balance_addition, Capture, PaymentResult, wallet_of}
use skrynia.Orders.Escrow.Lock.{lock_escrow, finish_lock, paid_order, capture_transition}

finish_lock-SameFunds :
    (c : Config) (o : OrderRow) (p : ProductRow) (fee : ℤ) (r : PaymentResult)
    (a : OrderTransitionActor) (d : Db) {u : OrderRow} {d' : Db}
    → finish_lock c o p fee r a d ≡ ok (u, d')
    → SameFunds d d'
unfolding finish_lock
finish_lock-SameFunds c o p fee r a d h = bind-step d _ _ h λ _ s₁ e₁ h₁.
    bind-step s₁ _ _ h₁ λ m s₂ e₂ h₂.
      SameFunds-trans (update_order-SameFunds d (paid_order o p fee r) e₁) (
        SameFunds-trans (create_order_system_message-SameFunds s₁ o.id e₂)
          (transition_order-SameFunds c (capture_transition o p a m) s₂ h₂))

-- The held amount, in the seller's wallet and in the ledger.
abbrev pub hold : OrderRow → Books → Books
hold o m = record m {
  escrow =
      set_at (wallet_of o.seller_id o.currency)
        (m.escrow (wallet_of o.seller_id o.currency) +ℤ o.amount_cents) m.escrow;
}

abbrev pub capture_spec : OrderRow → Books → Books
capture_spec o m =
    post_spec (payment_capture_entry o.id o.seller_id o.amount_cents o.currency) (hold o m)

-- The wallet write of a capture, between the state that its amounts were read from and the next.
held :
    (o : OrderRow) (w : WalletId) (row : WalletRow) (next : ℤ) (d s t v : Db) {u : Unit {0}}
    → w ≡ wallet_of o.seller_id o.currency
    → books s ≡ books d
    → find w s.wallets ≡ some row
    → checked_balance_addition row.escrow_cents o.amount_cents ≡ ok next
    → SameFunds s t
    → update_wallet w (λ r. record r { escrow_cents = next }) t ≡ ok (u, v)
    → books v ≡ hold o (books d)
held o w row next d s t v ew es er en f e =
    let there : find w t.wallets ≡ some row = ap (find w) f.wallets ∙ er in
    let same : books t ≡ books d = books-SameFunds f ∙ es in
    let sum : next ≡ (books d).escrow (wallet_of o.seller_id o.currency) +ℤ o.amount_cents =
      checked_balance_addition-eq-ok row.escrow_cents o.amount_cents en
      ∙ ap (λ x. x +ℤ o.amount_cents)
          (sym (books-escrow w row s er) ∙ ap (λ b. b.escrow w) es ∙ ap (books d).escrow ew) in
    ap books (update_wallet-eq-ok w row t (λ r. record r { escrow_cents = next }) there e)
    ∙ books-put_escrow w row next t there
    ∙ rw (same, ew, sum)

module _ (c : Config) (capture : PaymentProviderName → Capture) (id buyer : ℕ)
    (provider : PaymentProviderName) (reference : Option String)
    (actor : Option OrderTransitionActor) (d : Db) {u : OrderRow} {d' : Db} where
  found-capture :
      lock_escrow c capture id buyer provider reference actor d ≡ ok (u, d')
      → (o : OrderRow) × (find id d.orders ≡ some o) × (books d' ≡ capture_spec o (books d))
  unfolding lock_escrow record_payment_capture_ledger
  found-capture h = order-step d _ _ h λ o eo h. guard-step d _ _ _ h λ _ h.
      guard-step d _ _ _ h λ _ h. lift-step d _ _ (product-step d _ _ h) λ p _ h.
        guard-step d _ _ _ h λ _ h. bind-step d _ _ h λ sw s₁ e₁ h. bind-step s₁ _ _ h λ bw s₂ e₂ h.
          wallet-step s₂ _ _ h λ row er h. lift-step s₂ _ _ h λ amount ea h.
            lift-step s₂ _ _ h λ next en h. lift-step s₂ _ _ h λ fee _ h.
              bind-step s₂ _ _ h λ _ s₃ e₃ h. lift-step s₃ _ _ h λ payment _ h.
                bind-step s₃ _ _ h λ _ s₄ e₄ h. bind-step s₄ _ _ h λ t₁ s₅ e₅ h.
                  bind-step s₅ _ _ h λ t₂ s₆ e₆ h. bind-step s₆ _ _ h λ k s₇ e₇ h.
                    let am : amount ≡ o.amount_cents =
                      assert_postgres_bigint_range-eq-ok o.amount_cents ea in
                    let en' : checked_balance_addition row.escrow_cents o.amount_cents ≡ ok next =
                      ap (checked_balance_addition row.escrow_cents) (sym am) ∙ en in
                    let (w₁, b₁, _) = ensure_wallet-eq-ok o.seller_id o.currency d e₁ in
                    let (_, b₂, _) = ensure_wallet-eq-ok o.buyer_id o.currency s₁ e₂ in
                    let funds : books s₄ ≡ hold o (books d) =
                      held o sw row next d s₂ s₃ s₄ w₁ (b₂ ∙ b₁) er en'
                        (take_stock-SameFunds s₂ _ _ e₃) e₄ in
                    let logged : SameFunds s₄ s₆ =
                      SameFunds-trans (insert_transaction-SameFunds s₄ _ _ _ _ _ _ e₅)
                        (insert_transaction-SameFunds s₅ _ _ _ _ _ _ e₆) in
                    (
                      o,
                      eo,
                      books-SameFunds (finish_lock-SameFunds c o p fee payment _ s₇ h)
                          ∙ books-post _ s₆ e₇
                          ∙ rw am (
                              ap
                                (post_spec (
                                  payment_capture_entry o.id o.seller_id o.amount_cents o.currency))
                                (books-SameFunds logged ∙ funds)),
                    )

  -- A committed payment of an order holds exactly the order's amount in the seller's escrow and
  -- posts the capture entry, unless its key is taken; no other balance or account changes.
  pub lock_escrow-books :
      (o : OrderRow)
      → find id d.orders ≡ some o
      → lock_escrow c capture id buyer provider reference actor d ≡ ok (u, d')
      → books d' ≡ capture_spec o (books d)
  lock_escrow-books o e h =
      let (o', e', b) = found-capture h in
      let same : o' ≡ o = (cc) in b ∙ ap (λ x. capture_spec x (books d)) same
