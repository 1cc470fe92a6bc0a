-- ===== src/Orders/Escrow/Restitution.antt =====
-- What a committed `refundEscrow` does to the books.
use skrynia.Prelude.{ℕ, ◌≡◌, ap, sym, ◌∙◌, Option, some, arith, if◌then◌else◌}
use skrynia.Prelude.Int.{ℤ, ◌+ℤ◌, ◌-ℤ◌}
use skrynia.Prelude.Table.{find, put, nat_eq, find-put}
use skrynia.Common.Errors.{ok}
use skrynia.Db.Keys.{WalletId, wallet_eq}
use skrynia.Db.Rows.{Db, OrderRow, WalletRow}
use skrynia.Db.Frame.{SameFunds, SameFunds-trans, insert_transaction-SameFunds}
use skrynia.Db.Tables.{update_wallet}
use skrynia.Db.Steps.{
  bind-step, guard-step, lift-step, order-step, wallet-step, pure-eq-ok, range-step,
}
use skrynia.Orders.Lifecycle.{Config}
use skrynia.Orders.Lifecycle.Effects.{transition_order-SameFunds}
use skrynia.Orders.Bookings.{order_refund_entry, record_refund_ledger}
use skrynia.Orders.Books.{Books, books, books-SameFunds, books-post, post_spec, set_at}
use skrynia.Orders.Books.Wallets.{
  ensure_wallet-eq-ok, update_wallet-eq-ok, books-put_escrow, books-put_available, books-escrow,
  books-available, checked_balance_addition-eq-ok, checked_balance_subtraction-eq-ok,
}
use skrynia.Orders.Escrow.{wallet_of, checked_balance_addition, checked_balance_subtraction}
use skrynia.Orders.Escrow.Refund.{refund_escrow, refund_funds, refund_transition}

-- The amount leaves the seller's escrow and is available to the buyer.
abbrev pub give_back : OrderRow → Books → Books
give_back o m = record m {
  escrow =
      set_at (wallet_of o.seller_id o.currency)
        (m.escrow (wallet_of o.seller_id o.currency) -ℤ o.amount_cents) m.escrow;
  available =
      set_at (wallet_of o.buyer_id o.currency)
        (m.available (wallet_of o.buyer_id o.currency) +ℤ o.amount_cents) m.available;
}

abbrev pub refund_spec : OrderRow → Books → Books
refund_spec o m =
    post_spec (order_refund_entry o.id o.seller_id o.buyer_id o.amount_cents o.currency)
      (give_back o m)

-- A row stays there, whatever other row is written.
still_there :
    (w v : WalletId) (new old : WalletRow) (d : Db)
    → find v d.wallets ≡ some old
    → find v (put w new d.wallets) ≡ some (if wallet_eq.beq w v then new else old)
still_there w v new old d e = ground (arith, find-put w v new d.wallets)

-- The two wallet writes, after the state that the amounts were read from.
returned :
    (o : OrderRow) (sw bw : WalletId) (sr br : WalletRow) (ne na : ℤ) (d s t v : Db)
    {u₁ u₂ : Unit {0}}
    → sw ≡ wallet_of o.seller_id o.currency
    → bw ≡ wallet_of o.buyer_id o.currency
    → books s ≡ books d
    → find sw s.wallets ≡ some sr
    → find bw s.wallets ≡ some br
    → checked_balance_subtraction sr.escrow_cents o.amount_cents ≡ ok ne
    → checked_balance_addition br.available_cents o.amount_cents ≡ ok na
    → update_wallet sw (λ r. record r { escrow_cents = ne }) s ≡ ok (u₁, t)
    → update_wallet bw (λ r. record r { available_cents = na }) t ≡ ok (u₂, v)
    → books v ≡ give_back o (books d)
returned o sw bw sr br ne na d s t v ews ewb es ers erb h₁ h₂ e₁ e₂ =
    let first : t ≡ record s { wallets = put sw (record sr { escrow_cents = ne }) s.wallets } =
      update_wallet-eq-ok sw sr s (λ r. record r { escrow_cents = ne }) ers e₁ in
    let row : WalletRow = if wallet_eq.beq sw bw then record sr { escrow_cents = ne } else br in
    let there : find bw t.wallets ≡ some row =
      ap (λ x. find bw x.wallets) first
      ∙ still_there sw bw (record sr { escrow_cents = ne }) br s erb in
    let less : ne ≡ (books d).escrow (wallet_of o.seller_id o.currency) -ℤ o.amount_cents =
      checked_balance_subtraction-eq-ok sr.escrow_cents o.amount_cents h₁
      ∙ ap (λ x. x -ℤ o.amount_cents)
          (sym (books-escrow sw sr s ers) ∙ ap (λ b. b.escrow sw) es ∙ ap (books d).escrow ews) in
    let more : na ≡ (books d).available (wallet_of o.buyer_id o.currency) +ℤ o.amount_cents =
      checked_balance_addition-eq-ok br.available_cents o.amount_cents h₂
      ∙ ap (λ x. x +ℤ o.amount_cents)
          (sym (books-available bw br s erb)
            ∙ ap (λ b. b.available bw) es
            ∙ ap (books d).available ewb) in
    ap books (update_wallet-eq-ok bw row t (λ r. record r { available_cents = na }) there e₂)
    ∙ books-put_available bw row na t there
    ∙ ap {A = Books} (λ b. record b { available = set_at bw na b.available })
        (ap books first ∙ books-put_escrow sw sr ne s ers)
    ∙ rw (es, ews, ewb, less, more)

refund_funds-books :
    (o : OrderRow) (d : Db) {u : Unit {0}} {d' : Db}
    → refund_funds o d ≡ ok (u, d')
    → books d' ≡ refund_spec o (books d)
unfolding refund_funds record_refund_ledger
refund_funds-books o d h = bind-step d _ _ h λ sw s₁ e₁ h. bind-step s₁ _ _ h λ bw s₂ e₂ h.
    wallet-step s₂ _ _ h λ sr ers h. wallet-step s₂ _ _ h λ br erb h.
      lift-step s₂ _ _ (range-step s₂ _ _ h) λ ne h₁ h. lift-step s₂ _ _ h λ na h₂ h.
        bind-step s₂ _ _ h λ _ s₃ e₃ h. bind-step s₃ _ _ h λ _ s₄ e₄ h.
          bind-step s₄ _ _ h λ _ s₅ e₅ h. bind-step s₅ _ _ h λ _ s₆ e₆ h.
            bind-step s₆ _ _ h λ _ s₇ e₇ h.
              let (ews, b₁, _) = ensure_wallet-eq-ok o.seller_id o.currency d e₁ in
              let (ewb, b₂, _) = ensure_wallet-eq-ok o.buyer_id o.currency s₁ e₂ in
              let funds : books s₄ ≡ give_back o (books d) =
                returned o sw bw sr br ne na d s₂ s₃ s₄ ews ewb (b₂ ∙ b₁) ers erb h₁ h₂ e₃ e₄ in
              let logged : SameFunds s₄ s₆ =
                SameFunds-trans (insert_transaction-SameFunds s₄ _ _ _ _ _ _ e₅)
                  (insert_transaction-SameFunds s₅ _ _ _ _ _ _ e₆) in
              ap books (sym (pure-eq-ok s₇ h).1)
              ∙ books-post _ s₆ e₇
              ∙ ap
                  (post_spec
                    (order_refund_entry o.id o.seller_id o.buyer_id o.amount_cents o.currency))
                  (books-SameFunds logged ∙ funds)

module _ (c : Config) (id : ℕ) (admin : Option ℕ) (d : Db) {u : OrderRow} {d' : Db} where
  -- A committed refund takes the order's amount out of the seller's escrow, makes it available to
  -- the buyer and posts the refund entry unless its key is taken; no other balance or account
  -- changes.
  pub refund_escrow-books :
      (o : OrderRow)
      → find id d.orders ≡ some o
      → refund_escrow c id admin d ≡ ok (u, d')
      → books d' ≡ refund_spec o (books d)
  unfolding refund_escrow
  refund_escrow-books o e h = order-step d _ _ h λ o' e' h. guard-step d _ _ _ h λ _ h.
      bind-step d _ _ h λ r s₁ e₁ h. bind-step s₁ _ _ h λ _ s₂ e₂ h.
        let same : o' ≡ o = (cc) in
        ap books (sym (pure-eq-ok s₂ h).1)
        ∙ refund_funds-books o' s₁ e₂
        ∙ rw
            (same, books-SameFunds (transition_order-SameFunds c (refund_transition id admin) d e₁))
