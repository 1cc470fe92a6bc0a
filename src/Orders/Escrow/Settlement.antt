-- ===== src/Orders/Escrow/Settlement.antt =====
-- What a committed `releaseEscrow` does to the books.
use mathlib.Core.Path.{ap₂}
use skrynia.Prelude.{
  ℕ, ◌≡◌, ap, sym, ◌∙◌, ◌⊎◌, inl, inr, true, false, Option, none, some, arith, Bool-cases,
  Option-cases, if◌then◌else◌,
}
use skrynia.Prelude.Int.{ℤ, pos, ◌+ℤ◌, ◌-ℤ◌, ltb_ℤ}
use skrynia.Prelude.Table.{find, put, nat_eq}
use skrynia.Domain.Enums.{CurrencyCode, currency_eq}
use skrynia.Common.Errors.{ok}
use skrynia.Db.Keys.{WalletId, LedgerKey, wallet_eq}
use skrynia.Db.Rows.{Db, OrderRow, WalletRow}
use skrynia.Db.Tx.{◌>>=◌, pure, lift}
use skrynia.Db.Frame.{
  SameFunds, SameFunds-trans, create_order_system_message-SameFunds, add_sales-SameFunds,
  insert_transaction-SameFunds,
}
use skrynia.Db.Tables.{update_wallet, select_platform_wallet}
use skrynia.Db.Steps.{
  bind-step, guard-step, lift-step, order-step, wallet-step, pure-eq-ok, range-step,
}
use skrynia.Orders.Lifecycle.{Config}
use skrynia.Orders.Lifecycle.Effects.{transition_order-SameFunds}
use skrynia.Orders.Bookings.{escrow_release_entry, record_escrow_release_ledger}
use skrynia.Orders.Books.{Books, books, books-SameFunds, books-post, post_spec, set_at}
use skrynia.Orders.Books.Wallets.{
  ensure_wallet-eq-ok, update_wallet-eq-ok, books-put, books-escrow, books-available, books-revenue,
  update_platform_wallet-eq-ok, books-put_platform, subtract_money_cents-eq-ok,
  checked_balance_addition-eq-ok, checked_balance_subtraction-eq-ok,
}
use skrynia.Orders.Escrow.{wallet_of, checked_balance_addition, checked_balance_subtraction}
use skrynia.Orders.Escrow.Release.{
  ReleaseOptions, ReleaseSource, by_buyer, by_timer, by_dispute, by_service, release_escrow,
  release_funds, release_message, release_transition, platform_share, pay_platform, next_revenue,
}

-- The platform's revenue with a fee in it.
abbrev pub with_fee : CurrencyCode → ℤ → (CurrencyCode → ℤ) → CurrencyCode → ℤ
with_fee c fee f = if ltb_ℤ (pos 0) fee then set_at c (f c +ℤ fee) f else f

-- The amount leaves the escrow, the net goes to the seller, the fee to the platform.
abbrev pub settle : OrderRow → Books → Books
settle o m = record m {
  available =
      set_at (wallet_of o.seller_id o.currency)
        (m.available (wallet_of o.seller_id o.currency) +ℤ (o.amount_cents -ℤ o.fee_cents))
        m.available;
  escrow =
      set_at (wallet_of o.seller_id o.currency)
        (m.escrow (wallet_of o.seller_id o.currency) -ℤ o.amount_cents) m.escrow;
  revenue = with_fee o.currency o.fee_cents m.revenue;
}

abbrev pub release_spec : OrderRow → Books → Books
release_spec o m =
    post_spec
      (escrow_release_entry o.id o.seller_id o.amount_cents (o.amount_cents -ℤ o.fee_cents)
        o.fee_cents o.currency)
      (settle o m)

-- The platform's share was read: nothing for no fee, else the new revenue of a row that is there.
abbrev pub IsShare : CurrencyCode → ℤ → Option ℤ → Db → Type 0
IsShare c fee n d =
    ((ltb_ℤ (pos 0) fee ≡ false) × (n ≡ none))
    ⊎ ((ltb_ℤ (pos 0) fee ≡ true)
        × ((old : ℤ) × (find c d.platform_wallets ≡ some old) × (n ≡ some (old +ℤ fee))))

pub platform_share-eq-ok :
    (c : CurrencyCode) (fee : ℤ) (d : Db) {n : Option ℤ} {s : Db}
    → platform_share c fee d ≡ ok (n, s)
    → (s ≡ d) × IsShare c fee n d
unfolding platform_share ◌>>=◌ pure lift select_platform_wallet next_revenue
platform_share-eq-ok c fee d h = elim (Bool-cases (ltb_ℤ (pos 0) fee)) [
  | inr e ↦ ground arith
  | inl e ↦ elim (Option-cases (find c d.platform_wallets)) [
    | inl f ↦ ground arith
    | inr (old, f) ↦
        (ground arith, inr (e, (old, f, grind (arith, checked_balance_addition-eq-ok old fee))))
  ]
]

-- The write of the platform's share.
pay_platform-books :
    (c : CurrencyCode) (fee : ℤ) (n : Option ℤ) (d t : Db) {u : Unit {0}} {v : Db}
    → IsShare c fee n d
    → t.platform_wallets ≡ d.platform_wallets
    → pay_platform c n t ≡ ok (u, v)
    → books v ≡ record (books t) { revenue = with_fee c fee (books t).revenue }
unfolding pay_platform pure
pay_platform-books c fee none d t (inl (z, _)) same h = rw z (ap books (sym (pure-eq-ok t h).1))
pay_platform-books c fee (some x) d t (inl (_, e)) same h = cc
pay_platform-books c fee none d t (inr (_, (_, _, e))) same h = cc
pay_platform-books c fee (some x) d t (inr (p, (old, f, e))) same h =
    let there : find c t.platform_wallets ≡ some old = ap (find c) same ∙ f in
    let sum : x ≡ (books t).revenue c +ℤ fee = (cc (books-revenue c old x t there)) in
    rw p (
      ap books (update_platform_wallet-eq-ok c old x t there h)
      ∙ books-put_platform c old x t
      ∙ rw sum)

-- The wallet write and the platform's, between the state that the amounts were read from and the
-- one after both.
settled :
    (o : OrderRow) (w : WalletId) (row : WalletRow) (net ne na : ℤ) (n : Option ℤ) (d s t v : Db)
    {u₁ u₂ : Unit {0}}
    → w ≡ wallet_of o.seller_id o.currency
    → books s ≡ books d
    → find w s.wallets ≡ some row
    → net ≡ o.amount_cents -ℤ o.fee_cents
    → checked_balance_subtraction row.escrow_cents o.amount_cents ≡ ok ne
    → checked_balance_addition row.available_cents net ≡ ok na
    → IsShare o.currency o.fee_cents n s
    → update_wallet w (λ r. record r { escrow_cents = ne; available_cents = na }) s ≡ ok (u₁, t)
    → pay_platform o.currency n t ≡ ok (u₂, v)
    → books v ≡ settle o (books d)
settled o w row net ne na n d s t v ew es er en h₁ h₂ share e₁ e₂ =
    let change : WalletRow → WalletRow =
      λ r. record r { escrow_cents = ne; available_cents = na } in
    let written : t ≡ record s { wallets = put w (change row) s.wallets } =
      update_wallet-eq-ok w row s change er e₁ in
    let less : ne ≡ (books d).escrow (wallet_of o.seller_id o.currency) -ℤ o.amount_cents =
      checked_balance_subtraction-eq-ok row.escrow_cents o.amount_cents h₁
      ∙ ap (λ x. x -ℤ o.amount_cents)
          (sym (books-escrow w row s er) ∙ ap (λ b. b.escrow w) es ∙ ap (books d).escrow ew) in
    let more : na
        ≡ (books d).available (wallet_of o.seller_id o.currency)
          +ℤ (o.amount_cents -ℤ o.fee_cents) =
      checked_balance_addition-eq-ok row.available_cents net h₂
      ∙ ap₂ (λ x y. x +ℤ y)
          (sym (books-available w row s er)
            ∙ ap (λ b. b.available w) es
            ∙ ap (books d).available ew)
          en in
    pay_platform-books o.currency o.fee_cents n s t share (ap (λ x. x.platform_wallets) written) e₂
    ∙ ap {A = Books} (λ b. record b { revenue = with_fee o.currency o.fee_cents b.revenue })
        (ap books written ∙ books-put w (change row) s)
    ∙ rw (es, ew, less, more)

release_ledger-books :
    (order seller : ℕ) (amount fee : ℤ) (c : CurrencyCode) (d : Db) {k : Option LedgerKey} {d' : Db}
    → record_escrow_release_ledger order seller amount fee c d ≡ ok (k, d')
    → books d'
      ≡ post_spec (escrow_release_entry order seller amount (amount -ℤ fee) fee c) (books d)
unfolding record_escrow_release_ledger
release_ledger-books order seller amount fee c d h = lift-step d _ _ h λ net en h.
    rw (← subtract_money_cents-eq-ok amount fee en)
      (books-post (escrow_release_entry order seller amount net fee c) d h)

release_funds-books :
    (o : OrderRow) (d : Db) {u : Unit {0}} {d' : Db}
    → release_funds o d ≡ ok (u, d')
    → books d' ≡ release_spec o (books d)
unfolding release_funds
release_funds-books o d h = bind-step d _ _ h λ w s₁ e₁ h. wallet-step s₁ _ _ h λ row er h.
    guard-step s₁ _ _ _ (range-step s₁ _ _ (range-step s₁ _ _ h)) λ _ h.
      lift-step s₁ _ _ h λ net en h. lift-step s₁ _ _ h λ ne e₂ h. lift-step s₁ _ _ h λ na e₃ h.
        bind-step s₁ _ _ h λ n s₂ e₄ h. bind-step s₂ _ _ h λ _ s₃ e₅ h.
          bind-step s₃ _ _ h λ _ s₄ e₆ h. bind-step s₄ _ _ h λ _ s₅ e₇ h.
            bind-step s₅ _ _ h λ _ s₆ e₈ h. bind-step s₆ _ _ h λ _ s₇ e₉ h.
              let (ew, es, _) = ensure_wallet-eq-ok o.seller_id o.currency d e₁ in
              let (same, share) = platform_share-eq-ok o.currency o.fee_cents s₁ e₄ in
              let funds : books s₄ ≡ settle o (books d) =
                settled o w row net ne na n d s₁ s₃ s₄ ew es er
                  (subtract_money_cents-eq-ok o.amount_cents o.fee_cents en) e₂ e₃ share
                  (rw same at e₅) e₆ in
              let logged : SameFunds s₄ s₆ =
                SameFunds-trans (insert_transaction-SameFunds s₄ _ _ _ _ _ _ e₇)
                  (insert_transaction-SameFunds s₅ _ _ _ _ _ _ e₈) in
              books-SameFunds (add_sales-SameFunds s₇ _ _ h)
              ∙ release_ledger-books o.id o.seller_id o.amount_cents o.fee_cents o.currency s₆ e₉
              ∙ ap
                  (post_spec (
                    escrow_release_entry o.id o.seller_id o.amount_cents
                      (o.amount_cents -ℤ o.fee_cents) o.fee_cents o.currency))
                  (books-SameFunds logged ∙ funds)

pub release_message-SameFunds :
    (source : ReleaseSource) (id : ℕ) (d : Db) {m : Option ℕ} {d' : Db}
    → release_message source id d ≡ ok (m, d')
    → SameFunds d d'
unfolding release_message pure
release_message-SameFunds by_buyer id d h = create_order_system_message-SameFunds d id h
release_message-SameFunds by_timer id d h = create_order_system_message-SameFunds d id h
release_message-SameFunds by_dispute id d h = ground arith
release_message-SameFunds by_service id d h = ground arith

module _ (c : Config) (id : ℕ) (i : ReleaseOptions) (d : Db) {u : OrderRow} {d' : Db} where
  -- A committed release takes the order's amount out of the seller's escrow, gives the seller the
  -- amount less the order's fee, gives the platform a fee above zero, and posts the release entry
  -- unless its key is taken; no other balance or account changes.
  pub release_escrow-books :
      (o : OrderRow)
      → find id d.orders ≡ some o
      → release_escrow c id i d ≡ ok (u, d')
      → books d' ≡ release_spec o (books d)
  unfolding release_escrow
  release_escrow-books o e h = order-step d _ _ h λ o' e' h. guard-step d _ _ _ h λ _ h.
      bind-step d _ _ h λ m s₁ e₁ h. bind-step s₁ _ _ h λ r s₂ e₂ h. bind-step s₂ _ _ h λ _ s₃ e₃ h.
        let same : o' ≡ o = (cc) in
        let quiet : SameFunds d s₂ =
          SameFunds-trans (release_message-SameFunds i.source id d e₁)
            (transition_order-SameFunds c (release_transition i id o' m) s₁ e₂) in
        ap books (sym (pure-eq-ok s₃ h).1)
        ∙ release_funds-books o' s₂ e₃
        ∙ rw (same, books-SameFunds quiet)
