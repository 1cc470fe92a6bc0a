-- ===== src/Marketplace/Agreement.antt =====
-- The operations of backend/src/modules/users/wallet.service.ts keep everything sound.
use skrynia.Prelude.{ℕ, String, ◌≡◌, refl, ap, sym, ◌∙◌, inl, inr, true, some, arith, Bool-cases}
use skrynia.Prelude.Int.{ℤ}
use skrynia.Prelude.Table.{find, nat_eq}
use skrynia.Domain.Enums.{CurrencyCode}
use skrynia.Common.Errors.{ok}
use skrynia.Db.Keys.{wallet_topup_key, wallet_withdrawal_key, withdrawal_reversal_key}
use skrynia.Db.Rows.{Db, TopupRow, PayoutRow}
use skrynia.Db.Frame.{update_payout-SameFunds}
use skrynia.Db.Steps.{topup-step, pure-eq-ok}
use skrynia.Orders.Bookings.{wallet_topup_entry, wallet_withdrawal_entry, withdrawal_reversal_entry}
use skrynia.Orders.Books.{books, books-SameFunds}
use skrynia.Wallet.{
  credit_topup, complete_wallet_topup, request_withdrawal, create_wallet_topup, is_pending_topup,
}
use skrynia.Wallet.Payouts.{reject_payout, finish_payout}
use skrynia.Wallet.Balances.{
  credit_topup-books, deposit, withdraw, request_withdrawal-books, reject_payout-books,
}
use skrynia.Orders.Escrow.{wallet_of}
use skrynia.Wallet.Agreement.{
  topup-IsReconciled, request_withdrawal-IsReconciled, reject_payout-IsReconciled,
}
use skrynia.Marketplace.Openings.{IsSound, IsOpen, posted-open}
use skrynia.Marketplace.Requests.{Filing, Filing-IsSound}
use skrynia.Marketplace.Wallets.{
  credit_topup-files, reject_payout-files, create_wallet_topup-files, finish_payout-files,
  request_withdrawal-files,
}

-- What moves no money.
quiet-IsSound : {m : ℕ} {d d' : Db} → Filing m d d' → books d' ≡ books d → IsSound d → IsSound d'
quiet-IsSound r e s = Filing-IsSound r s (rw e (s.agree)) (λ k _. ap (λ b. b.posted k) e)

module _ (d : Db) (s : IsSound d) {d' : Db} where
  credit_topup-IsSound :
      (id : ℕ) (t : TopupRow) (provider reference : String) {r : TopupRow}
      → find id d.topups ≡ some t
      → is_pending_topup t.status ≡ true
      → credit_topup id t provider reference d ≡ ok (r, d')
      → IsSound d'
  unfolding wallet_topup_entry
  credit_topup-IsSound id t provider reference f w h =
      let (files, settled) = credit_topup-files d id t provider reference h f in
      let b = credit_topup-books id t provider reference d h in
      let closed : ¬ IsOpen d' (wallet_topup_key id) = λ o. elim o [
        | inl u ↦ let before = s.used_topup id t f in omega (arith, files.grown)
        | inr (x, g, p) ↦ absurd (let done = settled x g in cc)
      ] in
      Filing-IsSound files s
        (rw b (topup-IsReconciled (books d) s.agree id t (s.unposted _ (inr (t, f, w)))))
        (posted-open (wallet_topup_entry id t.user_id t.amount_cents t.currency)
          (deposit (wallet_of t.user_id t.currency) t.amount_cents (books d)) d' b closed)

  pub complete_wallet_topup-IsSound :
      (id : ℕ) (provider reference : String) {r : TopupRow}
      → complete_wallet_topup id provider reference d ≡ ok (r, d')
      → IsSound d'
  unfolding complete_wallet_topup
  complete_wallet_topup-IsSound id provider reference h = topup-step d _ _ h λ t f h.
      elim (Bool-cases (is_pending_topup t.status)) [
        | inl p ↦ credit_topup-IsSound id t provider reference f p (rw p at h)
        | inr p ↦ rw (← (pure-eq-ok d (rw p at h)).1) s
      ]

  pub request_withdrawal-IsSound :
      (user : ℕ) (v : ℤ) (c : CurrencyCode) (destination : String) {n : ℕ}
      → request_withdrawal user v c destination d ≡ ok (n, d')
      → IsSound d'
  unfolding wallet_withdrawal_entry
  request_withdrawal-IsSound user v c destination h =
      let (m, files, later) = request_withdrawal-files d user v c destination h in
      let (_, _, b) = request_withdrawal-books user v c destination d h in
      Filing-IsSound files s
        (request_withdrawal-IsReconciled d s.agree user v c destination
          (s.unposted (wallet_withdrawal_key d.next_id) (omega arith)) h)
        (posted-open (wallet_withdrawal_entry d.next_id user v c)
          (withdraw (wallet_of user c) v (books d)) d' b (λ u. omega arith))

  pub reject_payout-IsSound :
      (id admin : ℕ) (reason : String) {r : PayoutRow}
      → reject_payout id admin reason d ≡ ok (r, d')
      → IsSound d'
  unfolding withdrawal_reversal_entry
  reject_payout-IsSound id admin reason h =
      let (p, f, w, files, settled) = reject_payout-files d id admin reason h in
      let b = reject_payout-books id admin reason p d f h in
      let closed : ¬ IsOpen d' (withdrawal_reversal_key p.transaction_id) = λ o. elim o [
        | inl u ↦ let before = s.used_payout id p f in omega (arith, files.grown)
        | inr (i, q, g, pending, e) ↦ elim (files.payouts i q g) [
          | inl (x, fx, same, _) ↦
              let one : i ≡ id = s.alone i id x p fx f (sym same ∙ e) in
              absurd (let done = settled q (ap (λ j. find j d'.payouts) (sym one) ∙ g) in cc)
          | inr (_, u, _) ↦ let before = s.used_payout id p f in omega arith
        ]
      ] in
      Filing-IsSound files s
        (reject_payout-IsReconciled d s.agree id admin reason p f
          (s.unposted _ (inr (id, p, f, w, refl))) h)
        (posted-open
          (withdrawal_reversal_entry p.transaction_id p.user_id p.amount_cents p.currency)
          (deposit (wallet_of p.user_id p.currency) p.amount_cents (books d)) d' b closed)

  pub finish_payout-IsSound :
      (id admin : ℕ) (reference : String) {r : PayoutRow}
      → finish_payout id admin reference d ≡ ok (r, d')
      → IsSound d'
  unfolding finish_payout
  finish_payout-IsSound id admin reference h =
      quiet-IsSound (finish_payout-files d id admin reference h)
        (books-SameFunds (update_payout-SameFunds d id _ h)) s

  -- A new top-up.
  pub create_wallet_topup-IsSound :
      (user : ℕ) (v : ℤ) (c : CurrencyCode) {n : ℕ}
      → create_wallet_topup user v c d ≡ (ok n, d')
      → IsSound d'
  create_wallet_topup-IsSound user v c h =
      let (files, funds) = create_wallet_topup-files d user v c h in
      quiet-IsSound files (books-SameFunds funds) s
