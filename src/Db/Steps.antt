-- ===== src/Db/Steps.antt =====
-- A committed transaction taken apart step by step: each rule hands what the first step gave to the
-- rest of a proof. The states are variables, so the facts about them rewrite freely.
use skrynia.Prelude.{ℕ, ◌≡◌, refl, Bool, false, Option, some, arith, Option-cases, inl, inr}
use skrynia.Prelude.Table.{find, nat_eq, find-put_self}
use skrynia.Prelude.Int.{ℤ}
use skrynia.Domain.Enums.{CurrencyCode, currency_eq}
use skrynia.Domain.Money.{assert_postgres_bigint_range}
use skrynia.Common.Errors.{Error, Result, ok, err}
use skrynia.Db.Keys.{WalletId, wallet_eq}
use skrynia.Db.Rows.{Db, OrderRow, WalletRow, ProductRow, TopupRow, PayoutRow}
use skrynia.Db.Tx.{Tx, ◌>>=◌, ◌>>◌, throw_if, lift, gets, reads, pure, >>=-eq-ok}
use skrynia.Db.Tables.{
  select_order, select_wallet, select_product, select_platform_wallet, select_topup, select_payout,
  update_topup, update_payout,
}

module _ {B : Type 0} (d : Db) {b : B} {d' : Db} where
  guard_facts :
      (c : Bool) (e : Error) (m : Tx B)
      → (throw_if c e >> m) d ≡ ok (b, d')
      → (c ≡ false) × (m d ≡ ok (b, d'))
  unfolding ◌>>=◌ throw_if
  guard_facts c e m h = ground arith

  order_facts :
      (id : ℕ) (f : OrderRow → Tx B)
      → (select_order id >>= f) d ≡ ok (b, d')
      → (o : OrderRow) × (find id d.orders ≡ some o) × (f o d ≡ ok (b, d'))
  unfolding ◌>>=◌ select_order
  order_facts id f h = elim (Option-cases (find id d.orders)) [
    | inl e ↦ ground arith
    | inr (o, e) ↦ (o, e, ground arith)
  ]

  wallet_facts :
      (w : WalletId) (f : WalletRow → Tx B)
      → (select_wallet w >>= f) d ≡ ok (b, d')
      → (o : WalletRow) × (find w d.wallets ≡ some o) × (f o d ≡ ok (b, d'))
  unfolding ◌>>=◌ select_wallet
  wallet_facts id f h = elim (Option-cases (find id d.wallets)) [
    | inl e ↦ ground arith
    | inr (o, e) ↦ (o, e, ground arith)
  ]

  topup_facts :
      (id : ℕ) (f : TopupRow → Tx B)
      → (select_topup id >>= f) d ≡ ok (b, d')
      → (t : TopupRow) × (find id d.topups ≡ some t) × (f t d ≡ ok (b, d'))
  unfolding ◌>>=◌ select_topup
  topup_facts id f h = elim (Option-cases (find id d.topups)) [
    | inl e ↦ ground arith
    | inr (t, e) ↦ (t, e, ground arith)
  ]

  payout_facts :
      (id : ℕ) (f : PayoutRow → Tx B)
      → (select_payout id >>= f) d ≡ ok (b, d')
      → (p : PayoutRow) × (find id d.payouts ≡ some p) × (f p d ≡ ok (b, d'))
  unfolding ◌>>=◌ select_payout
  payout_facts id f h = elim (Option-cases (find id d.payouts)) [
    | inl e ↦ ground arith
    | inr (p, e) ↦ (p, e, ground arith)
  ]

module _ {ℓ} {P : Type ℓ} {B : Type 0} (d : Db) {b : B} {d' : Db} where
  pub bind-step :
      {A : Type 0} (m : Tx A) (f : A → Tx B)
      → (m >>= f) d ≡ ok (b, d')
      → ((a : A) (s : Db) → m d ≡ ok (a, s) → f a s ≡ ok (b, d') → P)
      → P
  bind-step m f h k = let (a, s, e, r) = >>=-eq-ok m f d h in k a s e r

  pub guard-step :
      (c : Bool) (e : Error) (m : Tx B)
      → (throw_if c e >> m) d ≡ ok (b, d')
      → (c ≡ false → m d ≡ ok (b, d') → P)
      → P
  guard-step c e m h k = let (g, r) = guard_facts d c e m h in k g r

  pub lift-step :
      {A : Type 0} (r : Result A) (f : A → Tx B)
      → (lift r >>= f) d ≡ ok (b, d')
      → ((a : A) → r ≡ ok a → f a d ≡ ok (b, d') → P)
      → P
  unfolding ◌>>=◌ lift
  lift-step (ok a) f h k = k a refl h
  lift-step (err e) f h k = cc

  pub reads-step :
      {A : Type 0} (g : Db → Result A) (f : A → Tx B)
      → (reads g >>= f) d ≡ ok (b, d')
      → ((a : A) → g d ≡ ok a → f a d ≡ ok (b, d') → P)
      → P
  unfolding ◌>>=◌ reads
  reads-step g f h k = lift-step (g d) f h k

  pub order-step :
      (id : ℕ) (f : OrderRow → Tx B)
      → (select_order id >>= f) d ≡ ok (b, d')
      → ((o : OrderRow) → find id d.orders ≡ some o → f o d ≡ ok (b, d') → P)
      → P
  order-step id f h k = let (o, e, r) = order_facts d id f h in k o e r

  pub wallet-step :
      (w : WalletId) (f : WalletRow → Tx B)
      → (select_wallet w >>= f) d ≡ ok (b, d')
      → ((r : WalletRow) → find w d.wallets ≡ some r → f r d ≡ ok (b, d') → P)
      → P
  wallet-step w f h k = let (o, e, r) = wallet_facts d w f h in k o e r

  pub topup-step :
      (id : ℕ) (f : TopupRow → Tx B)
      → (select_topup id >>= f) d ≡ ok (b, d')
      → ((t : TopupRow) → find id d.topups ≡ some t → f t d ≡ ok (b, d') → P)
      → P
  topup-step id f h k = let (t, e, r) = topup_facts d id f h in k t e r

  pub payout-step :
      (id : ℕ) (f : PayoutRow → Tx B)
      → (select_payout id >>= f) d ≡ ok (b, d')
      → ((p : PayoutRow) → find id d.payouts ≡ some p → f p d ≡ ok (b, d') → P)
      → P
  payout-step id f h k = let (p, e, r) = payout_facts d id f h in k p e r

module _ {B : Type 0} (d : Db) {b : B} {d' : Db} where
  pub product-step :
      (id : ℕ) (f : Option ProductRow → Tx B)
      → (select_product id >>= f) d ≡ ok (b, d')
      → f (find id d.products) d ≡ ok (b, d')
  unfolding ◌>>=◌ select_product
  product-step id f h = h

  pub gets-step :
      {A : Type 0} (g : Db → A) (f : A → Tx B)
      → (gets g >>= f) d ≡ ok (b, d')
      → f (g d) d ≡ ok (b, d')
  unfolding ◌>>=◌ gets
  gets-step g f h = h

  pub platform-step :
      (c : CurrencyCode) (f : Option ℤ → Tx B)
      → (select_platform_wallet c >>= f) d ≡ ok (b, d')
      → f (find c d.platform_wallets) d ≡ ok (b, d')
  unfolding ◌>>=◌ select_platform_wallet
  platform-step c f h = h

  pub pure-eq-ok : {a : B} → pure a d ≡ ok (b, d') → (a ≡ b) × (d ≡ d')
  unfolding pure
  pure-eq-ok h = ground arith

module _ {B : Type 0} (d : Db) {b : B} {d' : Db} where
  -- A checked value is the value.
  pub range-step :
      (v : ℤ) (f : ℤ → Tx B)
      → (lift (assert_postgres_bigint_range v) >>= f) d ≡ ok (b, d')
      → f v d ≡ ok (b, d')
  unfolding ◌>>=◌ lift assert_postgres_bigint_range
  range-step v f h = ground arith

module _ (d : Db) (id : ℕ) {d' : Db} where
  -- A written payout or top-up, found again.
  pub update_payout-found :
      (f : PayoutRow → PayoutRow) {r : PayoutRow}
      → update_payout id f d ≡ ok (r, d')
      → (p : PayoutRow) × (find id d.payouts ≡ some p)
        × (r ≡ f p)
        × (find id d'.payouts ≡ some r)
        × (d' ≡ record d { payouts = d'.payouts })
  unfolding update_payout
  update_payout-found f h = elim (Option-cases (find id d.payouts)) [
    | inl e ↦ ground arith
    | inr (p, e) ↦
        (p, e, ground arith, ground (arith, find-put_self id (f p) d.payouts), ground arith)
  ]

  pub update_topup-found :
      (t : TopupRow) {r : TopupRow}
      → update_topup id t d ≡ ok (r, d')
      → (r ≡ t) × (find id d'.topups ≡ some r)
  unfolding update_topup
  update_topup-found t h = (ground arith, ground (arith, find-put_self id t d.topups))
