-- ===== src/Wallet/Agreement.antt =====
-- The operations of backend/src/modules/users/wallet.service.ts, against the comparison of wallets
-- and ledger.
use skrynia.Prelude.{ℕ, String, ◌≡◌, false, some, inl, inr}
use skrynia.Prelude.Int.{ℤ, int_laws}
use skrynia.Prelude.Table.{find, nat_eq}
use skrynia.Domain.Enums.{CurrencyCode}
use skrynia.Common.Errors.{ok}
use skrynia.Db.Keys.{
  same_wallet_iff, wallet_topup_key, wallet_withdrawal_key, withdrawal_reversal_key,
}
use skrynia.Db.Rows.{Db, TopupRow, PayoutRow}
use skrynia.Orders.Bookings.{wallet_topup_entry, wallet_withdrawal_entry, withdrawal_reversal_entry}
use skrynia.Orders.Books.{Books, books}
use skrynia.Orders.Escrow.{wallet_of}
use skrynia.Orders.Reconciliation.{IsReconciled}
use skrynia.Wallet.{complete_wallet_topup, request_withdrawal}
use skrynia.Wallet.Payouts.{reject_payout}
use skrynia.Wallet.Balances.{
  topup_spec, withdrawal_spec, rejection_spec, reject_payout-books, request_withdrawal-books,
}
use skrynia.Wallet.Topups.{complete_wallet_topup-books}

module _ (m : Books) (agree : IsReconciled m) where
  pub topup-IsReconciled :
      (id : ℕ) (t : TopupRow)
      → m.posted (wallet_topup_key id) ≡ false
      → IsReconciled (topup_spec id t m)
  unfolding wallet_topup_entry
  topup-IsReconciled id t free = rw free (record {
    available = λ w.
        grind (int_laws, agree.available w, same_wallet_iff (wallet_of t.user_id t.currency) w);
    escrow = λ w. grind (int_laws, agree.escrow w);
    revenue = λ c. grind (int_laws, agree.revenue c);
  })

  withdrawal-IsReconciled :
      (transaction user : ℕ) (v : ℤ) (c : CurrencyCode)
      → m.posted (wallet_withdrawal_key transaction) ≡ false
      → IsReconciled (withdrawal_spec transaction user v c m)
  unfolding wallet_withdrawal_entry
  withdrawal-IsReconciled transaction user v c free = rw free (record {
    available = λ w. grind (int_laws, agree.available w, same_wallet_iff (wallet_of user c) w);
    escrow = λ w. grind (int_laws, agree.escrow w);
    revenue = λ c. grind (int_laws, agree.revenue c);
  })

  rejection-IsReconciled :
      (p : PayoutRow)
      → m.posted (withdrawal_reversal_key p.transaction_id) ≡ false
      → IsReconciled (rejection_spec p m)
  unfolding withdrawal_reversal_entry
  rejection-IsReconciled p free = rw free (record {
    available = λ w.
        grind (int_laws, agree.available w, same_wallet_iff (wallet_of p.user_id p.currency) w);
    escrow = λ w. grind (int_laws, agree.escrow w);
    revenue = λ c. grind (int_laws, agree.revenue c);
  })

module _ (d : Db) (agree : IsReconciled (books d)) {d' : Db} where
  -- A committed completion of a top-up whose entry was not posted before keeps wallets and ledger
  -- in agreement.
  complete_wallet_topup-IsReconciled :
      (id : ℕ) (provider reference : String) (t : TopupRow) {r : TopupRow}
      → find id d.topups ≡ some t
      → (books d).posted (wallet_topup_key id) ≡ false
      → complete_wallet_topup id provider reference d ≡ ok (r, d')
      → IsReconciled (books d')
  complete_wallet_topup-IsReconciled id provider reference t found free h =
      elim (complete_wallet_topup-books id provider reference d t found h) [
        | inl (_, b, _) ↦ rw b (topup-IsReconciled (books d) agree id t free)
        | inr (_, _, same) ↦ rw same agree
      ]

  -- A committed withdrawal whose entry was not posted before keeps wallets and ledger in agreement.
  pub request_withdrawal-IsReconciled :
      (user : ℕ) (v : ℤ) (c : CurrencyCode) (destination : String) {n : ℕ}
      → (books d).posted (wallet_withdrawal_key d.next_id) ≡ false
      → request_withdrawal user v c destination d ≡ ok (n, d')
      → IsReconciled (books d')
  request_withdrawal-IsReconciled user v c destination free h =
      let (_, _, b) = request_withdrawal-books user v c destination d h in
      rw b (withdrawal-IsReconciled (books d) agree d.next_id user v c free)

  -- A committed rejection of a payout whose reversal was not posted before keeps wallets and ledger
  -- in agreement.
  pub reject_payout-IsReconciled :
      (id admin : ℕ) (reason : String) (p : PayoutRow) {r : PayoutRow}
      → find id d.payouts ≡ some p
      → (books d).posted (withdrawal_reversal_key p.transaction_id) ≡ false
      → reject_payout id admin reason d ≡ ok (r, d')
      → IsReconciled (books d')
  reject_payout-IsReconciled id admin reason p found free h =
      rw (reject_payout-books id admin reason p d found h)
        (rejection-IsReconciled (books d) agree p free)
