-- ===== src/Orders/Escrow/Shortfall.antt =====
-- A release in a currency for which `platform_wallets` has no row. The migrations seed UAH and USD;
-- a product may have another currency.
use skrynia.Prelude.{ℕ, ◌≡◌, ap, sym, ◌∙◌, true, Option, some, none, inl, inr}
use skrynia.Prelude.Int.{ℤ, pos, ltb_ℤ}
use skrynia.Prelude.Table.{find, nat_eq}
use skrynia.Domain.Enums.{CurrencyCode, currency_eq}
use skrynia.Common.Errors.{ok}
use skrynia.Db.Rows.{Db, OrderRow}
use skrynia.Db.Frame.{SameFunds, SameFunds-trans}
use skrynia.Db.Steps.{bind-step, guard-step, lift-step, order-step, wallet-step, range-step}
use skrynia.Orders.Lifecycle.{Config}
use skrynia.Orders.Lifecycle.Effects.{transition_order-SameFunds}
use skrynia.Orders.Books.Wallets.{ensure_wallet-eq-ok}
use skrynia.Orders.Escrow.Release.{
  ReleaseOptions, release_escrow, release_funds, release_transition,
}
use skrynia.Orders.Escrow.Settlement.{platform_share-eq-ok, IsShare, release_message-SameFunds}

no-IsShare :
    (c : CurrencyCode) (fee : ℤ) (n : Option ℤ) (d : Db)
    → ltb_ℤ (pos 0) fee ≡ true
    → find c d.platform_wallets ≡ none
    → ¬ IsShare c fee n d
no-IsShare c fee n d positive missing (inl (zero, _)) = cc
no-IsShare c fee n d positive missing (inr (_, (old, found, _))) = cc

release_funds-shortfall :
    (o : OrderRow) (d : Db) {u : Unit {0}} {d' : Db}
    → ltb_ℤ (pos 0) o.fee_cents ≡ true
    → find o.currency d.platform_wallets ≡ none
    → ¬ (release_funds o d ≡ ok (u, d'))
unfolding release_funds
release_funds-shortfall o d positive missing h = bind-step d _ _ h λ w s₁ e₁ h.
    wallet-step s₁ _ _ h λ row er h.
      guard-step s₁ _ _ _ (range-step s₁ _ _ (range-step s₁ _ _ h)) λ _ h.
        lift-step s₁ _ _ h λ net en h. lift-step s₁ _ _ h λ ne e₂ h. lift-step s₁ _ _ h λ na e₃ h.
          bind-step s₁ _ _ h λ n s₂ e₄ _.
            let (_, _, frame) = ensure_wallet-eq-ok o.seller_id o.currency d e₁ in
            let (_, share) = platform_share-eq-ok o.currency o.fee_cents s₁ e₄ in
            no-IsShare o.currency o.fee_cents n s₁ positive
              (ap (λ x. find o.currency x.platform_wallets) frame ∙ missing) share

-- An order with a fee above zero, in a currency for which the platform has no wallet, is never
-- released: no call of `releaseEscrow` for it commits.
pub release_escrow-shortfall :
    (c : Config) (id : ℕ) (i : ReleaseOptions) (d : Db) (o : OrderRow)
    → find id d.orders ≡ some o
    → ltb_ℤ (pos 0) o.fee_cents ≡ true
    → find o.currency d.platform_wallets ≡ none
    → (u : OrderRow) (d' : Db) → ¬ (release_escrow c id i d ≡ ok (u, d'))
unfolding release_escrow
release_escrow-shortfall c id i d o e positive missing u d' h = order-step d _ _ h λ o' e' h.
    guard-step d _ _ _ h λ _ h. bind-step d _ _ h λ m s₁ e₁ h. bind-step s₁ _ _ h λ r s₂ e₂ h.
      bind-step s₂ _ _ h λ _ s₃ e₃ _.
        let same : o ≡ o' = (cc) in
        let quiet : SameFunds d s₂ =
          SameFunds-trans (release_message-SameFunds i.source id d e₁)
            (transition_order-SameFunds c (release_transition i id o' m) s₁ e₂) in
        release_funds-shortfall o' s₂ (ap (λ x. ltb_ℤ (pos 0) x.fee_cents) (sym same) ∙ positive)
          (ap (find o'.currency) quiet.platform_wallets
            ∙ ap (λ x. find x.currency d.platform_wallets) (sym same)
            ∙ missing)
          e₃
