-- ===== src/Orders/Books/Wallets.antt =====
-- What the writes of wallets do to the abstract books.
use mathlib.Core.Path.{fun_ext}
use skrynia.Prelude.{
  ℕ, ◌≡◌, refl, ap, sym, ◌∙◌, none, some, arith, Bool-cases, Option-cases, inl, inr,
}
use skrynia.Prelude.Int.{ℤ, pos, ◌+ℤ◌, ◌-ℤ◌}
use skrynia.Prelude.Table.{Eq, find, put, find-put}
use skrynia.Domain.Enums.{CurrencyCode, currency_eq}
use skrynia.Domain.Money.{assert_postgres_bigint_range, add_money_cents, subtract_money_cents}
use skrynia.Common.Errors.{ok}
use skrynia.Db.Keys.{WalletId, wallet_eq}
use skrynia.Db.Rows.{Db, WalletRow}
use skrynia.Db.Tables.{update_wallet, update_platform_wallet}
use skrynia.Orders.Books.{Books-ext, books, set_at}
use skrynia.Orders.Escrow.{
  ensure_wallet, wallet_of, checked_balance_addition, checked_balance_subtraction,
}

module _ {ℓ κ} {K : Type ℓ} {V : Type κ} ⦃e : Eq K⦄ where
  -- Writing what is there changes nothing.
  pub set_at_self : (k : K) (v : V) (f : K → V) → f k ≡ v → set_at k v f ≡ f
  set_at_self k v f h = fun_ext λ j. elim (Bool-cases (e.beq k j)) [
    | inl y ↦ rw y (sym h ∙ ap f ((e.beq_iff k j).0 y))
    | inr n ↦ rw n
  ]

-- Creating a wallet with nothing in it leaves the books alone.
module _ (user : ℕ) (c : CurrencyCode) (d : Db) where
  abbrev created : Db
  created = record d {
    wallets =
        put (wallet_of user c) (record { available_cents = pos 0; escrow_cents = pos 0 }) d.wallets;
  }

  books-created : find (wallet_of user c) d.wallets ≡ none → books created ≡ books d
  unfolding books
  books-created free =
      Books-ext _ _
        (fun_ext λ w. ground (
          arith,
          find-put (wallet_of user c) w (record { available_cents = pos 0; escrow_cents = pos 0 })
              d.wallets,
          wallet_eq.beq_iff (wallet_of user c) w,
        ))
        (fun_ext λ w. ground (
          arith,
          find-put (wallet_of user c) w (record { available_cents = pos 0; escrow_cents = pos 0 })
              d.wallets,
          wallet_eq.beq_iff (wallet_of user c) w,
        ))
        refl refl refl

  pub ensure_wallet-eq-ok :
      {w : WalletId} {s : Db}
      → ensure_wallet user c d ≡ ok (w, s)
      → (w ≡ wallet_of user c) × (books s ≡ books d) × (s ≡ record d { wallets = s.wallets })
  unfolding ensure_wallet
  ensure_wallet-eq-ok h = elim (Option-cases (find (wallet_of user c) d.wallets)) [
    | inl e ↦ ground (arith, books-created e)
    | inr (r, e) ↦ ground arith
  ]

module _ (w : WalletId) (row : WalletRow) (d : Db) where
  -- A written row, seen from the books.
  pub books-put : books (record d { wallets = put w row d.wallets }) ≡ record (books d) {
    available = set_at w row.available_cents (books d).available;
    escrow = set_at w row.escrow_cents (books d).escrow;
  }
  unfolding books
  books-put =
      Books-ext _ _ (fun_ext λ v. ground (arith, find-put w v row d.wallets))
        (fun_ext λ v. ground (arith, find-put w v row d.wallets)) refl refl refl

  pub update_wallet-eq-ok :
      (change : WalletRow → WalletRow) {u : Unit {0}} {s : Db}
      → find w d.wallets ≡ some row
      → update_wallet w change d ≡ ok (u, s)
      → s ≡ record d { wallets = put w (change row) d.wallets }
  unfolding update_wallet
  update_wallet-eq-ok change e h = ground arith

  pub books-available : find w d.wallets ≡ some row → (books d).available w ≡ row.available_cents
  unfolding books
  books-available e = rw e

  pub books-escrow : find w d.wallets ≡ some row → (books d).escrow w ≡ row.escrow_cents
  unfolding books
  books-escrow e = rw e

module _ (w : WalletId) (row : WalletRow) (v : ℤ) (d : Db) where
  -- Writing one column of a row that is there.
  pub books-put_escrow :
      find w d.wallets ≡ some row
      → books (record d { wallets = put w (record row { escrow_cents = v }) d.wallets })
        ≡ record (books d) { escrow = set_at w v (books d).escrow }
  books-put_escrow e =
      books-put w (record row { escrow_cents = v }) d
      ∙ ap (λ f. record (books d) { available = f; escrow = set_at w v (books d).escrow })
          (set_at_self w row.available_cents (books d).available (books-available w row d e))

  pub books-put_available :
      find w d.wallets ≡ some row
      → books (record d { wallets = put w (record row { available_cents = v }) d.wallets })
        ≡ record (books d) { available = set_at w v (books d).available }
  books-put_available e =
      books-put w (record row { available_cents = v }) d
      ∙ ap (λ f. record (books d) { available = set_at w v (books d).available; escrow = f })
          (set_at_self w row.escrow_cents (books d).escrow (books-escrow w row d e))

module _ (c : CurrencyCode) (old v : ℤ) (d : Db) where
  pub books-revenue : find c d.platform_wallets ≡ some old → (books d).revenue c ≡ old
  unfolding books
  books-revenue e = rw e

  -- The platform's wallet, where it has a row.
  pub update_platform_wallet-eq-ok :
      {u : Unit {0}} {s : Db}
      → find c d.platform_wallets ≡ some old
      → update_platform_wallet c v d ≡ ok (u, s)
      → s ≡ record d { platform_wallets = put c v d.platform_wallets }
  unfolding update_platform_wallet
  update_platform_wallet-eq-ok e h = ground arith

  pub books-put_platform :
      books (record d { platform_wallets = put c v d.platform_wallets })
      ≡ record (books d) { revenue = set_at c v (books d).revenue }
  unfolding books
  books-put_platform =
      Books-ext _ _ refl refl (fun_ext λ x. ground (arith, find-put c x v d.platform_wallets)) refl
        refl

-- The checked operations are exact where they return.
module _ (a b : ℤ) {v : ℤ} where
  pub add_money_cents-eq-ok : add_money_cents a b ≡ ok v → v ≡ a +ℤ b
  unfolding add_money_cents
  add_money_cents-eq-ok h = ground arith

  pub subtract_money_cents-eq-ok : subtract_money_cents a b ≡ ok v → v ≡ a -ℤ b
  unfolding subtract_money_cents
  subtract_money_cents-eq-ok h = ground arith

  pub checked_balance_addition-eq-ok : checked_balance_addition a b ≡ ok v → v ≡ a +ℤ b
  unfolding checked_balance_addition add_money_cents
  checked_balance_addition-eq-ok h = ground arith

  pub checked_balance_subtraction-eq-ok : checked_balance_subtraction a b ≡ ok v → v ≡ a -ℤ b
  unfolding checked_balance_subtraction subtract_money_cents
  checked_balance_subtraction-eq-ok h = ground arith

pub assert_postgres_bigint_range-eq-ok :
    (a : ℤ) {v : ℤ} → assert_postgres_bigint_range a ≡ ok v → v ≡ a
unfolding assert_postgres_bigint_range
assert_postgres_bigint_range-eq-ok a h = ground arith
