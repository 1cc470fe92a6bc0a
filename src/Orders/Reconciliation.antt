-- ===== src/Orders/Reconciliation.antt =====
-- When the wallets and the ledger agree: the comparison of
-- backend/src/modules/admin/reconciliation.service.ts, wallet by wallet, as a property of the books.
pub mod Operations
use mathlib.Core.Path.{ap₂}
use skrynia.Prelude.{
  sym, Bool-cases, inl, inr, ℕ, String, ◌≡◌, ap, ◌∙◌, ◌==◌, ◌&&◌, refl, Bool, true, false, Option,
  none, some, arith, if◌then◌else◌,
}
use skrynia.Prelude.Int.{ℤ, pos, ◌+ℤ◌, ◌-ℤ◌, ◌≤ℤ◌, int_laws, ltb_ℤ}
use skrynia.Prelude.Table.{Eq, find, nat_eq}
use skrynia.Domain.Enums.{CurrencyCode, currency_eq, same_currency, same_currency_iff}
use skrynia.Common.Errors.{ok}
use skrynia.Db.Keys.{
  WalletId, wallet_eq, AccountCode, same_account, user_payable, seller_escrow, platform_revenue,
  same_wallet_iff, payment_capture_key, escrow_release_key, refund_key,
}
use skrynia.Db.Rows.{
  Db, AccountType, liability, revenue, OrderRow, PaymentProviderName, OrderTransitionActor,
}
use skrynia.Orders.Lifecycle.{Config}
use skrynia.Orders.Bookings.{
  payment_capture_entry, positive_line, escrow_release_entry, order_refund_entry,
}
use skrynia.Orders.Books.{Books, books, post_spec, set_at}
use skrynia.Orders.Accounting.{credit_line}
use skrynia.Orders.Accounting.Balance.{effect, effect-append}
use skrynia.Orders.Escrow.{wallet_of}
use skrynia.Orders.Escrow.Capture.{capture_spec}
use skrynia.Orders.Escrow.Settlement.{release_spec, with_fee}
use skrynia.Orders.Escrow.Restitution.{refund_spec}

-- Every wallet holds what the ledger owes its user, and the platform what it has earned.
pub record IsReconciled (m : Books) : Type 0 where
  pub available : (w : WalletId) → m.available w ≡ m.account (user_payable w.currency w.user_id)
  pub escrow : (w : WalletId) → m.escrow w ≡ m.account (seller_escrow w.currency w.user_id)
  pub revenue : (c : CurrencyCode) → m.revenue c ≡ m.account (platform_revenue c)

-- A credit line adds its amount to its account, also where it is left out for an amount of zero.
positive_line-effect :
    (a b : AccountCode) (t : AccountType) (u : Option ℕ) (v : ℤ)
    → effect a (positive_line v (credit_line b t u v))
      ≡ (if ltb_ℤ (pos 0) v then (if same_account b a then v else pos 0) else pos 0)
unfolding positive_line
positive_line-effect a b t u v = grind int_laws

release_entry-effect :
    (a : AccountCode) (order seller : ℕ) (amount net fee : ℤ) (c : CurrencyCode)
    → effect a (escrow_release_entry order seller amount net fee c).lines
      ≡ (if same_account (seller_escrow c seller) a then pos 0 -ℤ amount else pos 0)
        +ℤ ((if ltb_ℤ (pos 0) net
              then (if same_account (user_payable c seller) a then net else pos 0)
              else pos 0)
            +ℤ (if ltb_ℤ (pos 0) fee
                then (if same_account (platform_revenue c) a then fee else pos 0)
                else pos 0))
unfolding escrow_release_entry
release_entry-effect a order seller amount net fee c = grind (
  int_laws,
  effect-append a
      (positive_line net (credit_line (user_payable c seller) liability (some seller) net))
      (positive_line fee (credit_line (platform_revenue c) revenue none fee)),
  positive_line-effect a (user_payable c seller) liability (some seller) net,
  positive_line-effect a (platform_revenue c) revenue none fee,
)

-- The sum of the three lines of a release where at most one of them is about the account.
net_part :
    (x : Bool) (net fee : ℤ)
    → pos 0 ≤ℤ net
    → pos 0
        +ℤ ((if ltb_ℤ (pos 0) net then (if x then net else pos 0) else pos 0)
            +ℤ (if ltb_ℤ (pos 0) fee then pos 0 else pos 0))
      ≡ (if x then net else pos 0)
net_part x net fee h = grind int_laws

amount_part :
    (x : Bool) (amount net fee : ℤ)
    → (if x then pos 0 -ℤ amount else pos 0)
        +ℤ ((if ltb_ℤ (pos 0) net then pos 0 else pos 0)
            +ℤ (if ltb_ℤ (pos 0) fee then pos 0 else pos 0))
      ≡ (if x then pos 0 -ℤ amount else pos 0)
amount_part x amount net fee = grind int_laws

swapped : (x y : Bool) → (x && y) ≡ (y && x)
swapped true true = refl
swapped true false = refl
swapped false true = refl
swapped false false = refl

-- What a release adds to the accounts that stand for a wallet and for the platform.
module _ (order seller : ℕ) (amount net fee : ℤ) (c : CurrencyCode) where
  release-payable :
      (w : WalletId)
      → pos 0 ≤ℤ net
      → effect
          (user_payable w.currency w.user_id)
          (escrow_release_entry order seller amount net fee c).lines
        ≡ (if wallet_eq.beq (wallet_of seller c) w then net else pos 0)
  release-payable w h =
      release_entry-effect (user_payable w.currency w.user_id) order seller amount net fee c
      ∙ net_part (same_account (user_payable c seller) (user_payable w.currency w.user_id)) net fee
          h
      ∙ ap (λ x. if x then net else pos 0)
          (swapped (same_currency c w.currency) (seller == w.user_id))

  release-escrow :
      (w : WalletId)
      → effect
          (seller_escrow w.currency w.user_id)
          (escrow_release_entry order seller amount net fee c).lines
        ≡ (if wallet_eq.beq (wallet_of seller c) w then pos 0 -ℤ amount else pos 0)
  release-escrow w =
      release_entry-effect (seller_escrow w.currency w.user_id) order seller amount net fee c
      ∙ amount_part (same_account (seller_escrow c seller) (seller_escrow w.currency w.user_id))
          amount net fee
      ∙ ap (λ x. if x then pos 0 -ℤ amount else pos 0)
          (swapped (same_currency c w.currency) (seller == w.user_id))

  release-revenue :
      (r : CurrencyCode)
      → effect (platform_revenue r) (escrow_release_entry order seller amount net fee c).lines
        ≡ (if ltb_ℤ (pos 0) fee then (if currency_eq.beq c r then fee else pos 0) else pos 0)
  release-revenue r =
      grind (int_laws, release_entry-effect (platform_revenue r) order seller amount net fee c)

-- Adding to a function at one argument adds there, and nothing elsewhere.
set_at-plus :
    {K : Type 0} ⦃e : Eq K⦄ (k : K) (v delta : ℤ) (f : K → ℤ) (j : K)
    → v ≡ delta +ℤ f k
    → set_at k v f j ≡ (if e.beq k j then delta else pos 0) +ℤ f j
set_at-plus ⦃e⦄ k v delta f j h = elim (Bool-cases (e.beq k j)) [
  | inl t ↦ rw (t, h, (e.beq_iff k j).0 t) refl
  | inr t ↦ rw t (grind int_laws)
]

with_fee-at :
    (c : CurrencyCode) (fee : ℤ) (f : CurrencyCode → ℤ) (r : CurrencyCode)
    → with_fee c fee f r
      ≡ (if ltb_ℤ (pos 0) fee then (if currency_eq.beq c r then fee else pos 0) else pos 0) +ℤ f r
with_fee-at c fee f r = elim (Bool-cases (ltb_ℤ (pos 0) fee)) [
  | inl e ↦ rw e (set_at-plus c (f c +ℤ fee) fee f r (grind int_laws))
  | inr e ↦ rw e (grind int_laws)
]

module _ (o : OrderRow) (m : Books) (h : IsReconciled m) where
  pub capture-IsReconciled :
      m.posted (payment_capture_key o.id) ≡ false → IsReconciled (capture_spec o m)
  unfolding payment_capture_entry
  capture-IsReconciled free = rw free (record {
    available = λ w. grind (int_laws, h.available w);
    escrow =
        λ w. grind (int_laws, h.escrow w, same_wallet_iff (wallet_of o.seller_id o.currency) w);
    revenue = λ c. grind (int_laws, h.revenue c);
  })

  pub refund-IsReconciled : m.posted (refund_key o.id) ≡ false → IsReconciled (refund_spec o m)
  unfolding order_refund_entry
  refund-IsReconciled free = rw free (record {
    available =
        λ w. grind (int_laws, h.available w, same_wallet_iff (wallet_of o.buyer_id o.currency) w);
    escrow =
        λ w. grind (int_laws, h.escrow w, same_wallet_iff (wallet_of o.seller_id o.currency) w);
    revenue = λ c. grind (int_laws, h.revenue c);
  })

  pub release-IsReconciled :
      m.posted (escrow_release_key o.id) ≡ false
      → o.fee_cents ≤ℤ o.amount_cents
      → IsReconciled (release_spec o m)
  unfolding escrow_release_entry
  release-IsReconciled free fits =
      let net : ℤ = o.amount_cents -ℤ o.fee_cents in
      rw free (record {
        available = λ w.
            set_at-plus (wallet_of o.seller_id o.currency) _ net m.available w (grind int_laws)
            ∙ ap₂ (λ x y. x +ℤ y)
                (sym (
                  release-payable o.id o.seller_id o.amount_cents net o.fee_cents o.currency w
                    (grind int_laws)))
                (h.available w);
        escrow = λ w.
            set_at-plus (wallet_of o.seller_id o.currency) _ (pos 0 -ℤ o.amount_cents) m.escrow w
              (grind int_laws)
            ∙ ap₂ (λ x y. x +ℤ y)
                (sym (release-escrow o.id o.seller_id o.amount_cents net o.fee_cents o.currency w))
                (h.escrow w);
        revenue = λ c.
            with_fee-at o.currency o.fee_cents m.revenue c
            ∙ ap₂ (λ x y. x +ℤ y)
                (sym (release-revenue o.id o.seller_id o.amount_cents net o.fee_cents o.currency c))
                (h.revenue c);
      })
