-- ===== src/Wallet/Balances.antt =====
-- What the committed operations of backend/src/modules/users/wallet.service.ts do to the books.
use skrynia.Prelude.{ℕ, String, ◌≡◌, ap, sym, ◌∙◌, some, arith}
use skrynia.Prelude.Int.{ℤ, pos, ◌+ℤ◌, ◌-ℤ◌, int_laws, ◌≤ℤ◌, ◌<ℤ◌}
use skrynia.Prelude.Table.{find, put, nat_eq}
use skrynia.Domain.Enums.{CurrencyCode}
use skrynia.Domain.Money.{add_money_cents, subtract_money_cents}
use skrynia.Common.Errors.{ok}
use skrynia.Db.Keys.{WalletId, wallet_eq}
use skrynia.Db.Rows.{Db, WalletRow, TopupRow, PayoutRow}
use skrynia.Db.Frame.{
  insert_transaction-SameFunds, update_topup-SameFunds, update_payout-SameFunds,
  insert_payout-SameFunds, inserted_id,
}
use skrynia.Db.Tables.{update_wallet}
use skrynia.Db.Steps.{bind-step, guard-step, lift-step, wallet-step, range-step, payout-step}
use skrynia.Orders.Bookings.{
  wallet_topup_entry, wallet_withdrawal_entry, withdrawal_reversal_entry,
  record_wallet_topup_ledger, record_wallet_withdrawal_ledger,
  record_wallet_withdrawal_reversal_ledger,
}
use skrynia.Orders.Books.{Books, books, books-SameFunds, books-post, post_spec, set_at}
use skrynia.Orders.Books.Wallets.{
  ensure_wallet-eq-ok, update_wallet-eq-ok, books-put_available, books-available,
}
use skrynia.Orders.Escrow.{wallet_of}
use skrynia.Wallet.{
  checked_wallet_addition, checked_wallet_subtraction, credit_topup, request_withdrawal,
}
use skrynia.Wallet.Payouts.{reject_payout}

-- An amount is added to the available balance of a wallet.
abbrev pub deposit : WalletId → ℤ → Books → Books
deposit w v m = record m { available = set_at w (m.available w +ℤ v) m.available }

abbrev pub withdraw : WalletId → ℤ → Books → Books
withdraw w v m = record m { available = set_at w (m.available w -ℤ v) m.available }

abbrev pub topup_spec : ℕ → TopupRow → Books → Books
topup_spec id t m =
    post_spec (wallet_topup_entry id t.user_id t.amount_cents t.currency)
      (deposit (wallet_of t.user_id t.currency) t.amount_cents m)

abbrev pub withdrawal_spec : ℕ → ℕ → ℤ → CurrencyCode → Books → Books
withdrawal_spec transaction user v c m =
    post_spec (wallet_withdrawal_entry transaction user v c) (withdraw (wallet_of user c) v m)

abbrev pub rejection_spec : PayoutRow → Books → Books
rejection_spec p m =
    post_spec (withdrawal_reversal_entry p.transaction_id p.user_id p.amount_cents p.currency)
      (deposit (wallet_of p.user_id p.currency) p.amount_cents m)

module _ (a b : ℤ) {v : ℤ} where
  checked_wallet_addition-eq-ok : checked_wallet_addition a b ≡ ok v → v ≡ a +ℤ b
  unfolding checked_wallet_addition add_money_cents
  checked_wallet_addition-eq-ok h = ground arith

  checked_wallet_subtraction-eq-ok : checked_wallet_subtraction a b ≡ ok v → v ≡ a -ℤ b
  unfolding checked_wallet_subtraction subtract_money_cents
  checked_wallet_subtraction-eq-ok h = ground arith

-- Writing the new available balance of the wallet that was read.
written :
    (user : ℕ) (c : CurrencyCode) (w : WalletId) (row : WalletRow) (next : ℤ) (d s t : Db)
    {u : Unit {0}}
    → w ≡ wallet_of user c
    → books s ≡ books d
    → find w s.wallets ≡ some row
    → update_wallet w (λ r. record r { available_cents = next }) s ≡ ok (u, t)
    → (books t
        ≡ record (books d) { available = set_at (wallet_of user c) next (books d).available })
      × ((books d).available (wallet_of user c) ≡ row.available_cents)
      × (t ≡ record s { wallets = t.wallets })
written user c w row next d s t ew es er e =
    let change : t
        ≡ record s { wallets = put w (record row { available_cents = next }) s.wallets } =
      update_wallet-eq-ok w row s (λ r. record r { available_cents = next }) er e in
    (
      ap books change ∙ books-put_available w row next s er ∙ rw (es, ew),
      sym (ap (books d).available ew)
          ∙ sym (ap (λ b. b.available w) es)
          ∙ books-available w row s er,
      (cc),
    )

pub credit_topup-books :
    (id : ℕ) (t : TopupRow) (provider reference : String) (d : Db) {r : TopupRow} {d' : Db}
    → credit_topup id t provider reference d ≡ ok (r, d')
    → books d' ≡ topup_spec id t (books d)
unfolding credit_topup record_wallet_topup_ledger
credit_topup-books id t provider reference d h = bind-step d _ _ h λ w s₁ e₁ h.
    wallet-step s₁ _ _ h λ row er h. lift-step s₁ _ _ (range-step s₁ _ _ h) λ next en h.
      bind-step s₁ _ _ h λ _ s₂ e₂ h. bind-step s₂ _ _ h λ _ s₃ e₃ h.
        bind-step s₃ _ _ h λ _ s₄ e₄ h.
          let (ew, es, _) = ensure_wallet-eq-ok t.user_id t.currency d e₁ in
          let (change, old, _) = written t.user_id t.currency w row next d s₁ s₂ ew es er e₂ in
          let sum : next ≡ (books d).available (wallet_of t.user_id t.currency) +ℤ t.amount_cents =
            checked_wallet_addition-eq-ok row.available_cents t.amount_cents en
            ∙ ap (λ x. x +ℤ t.amount_cents) (sym old) in
          let funds : books s₃ ≡ deposit (wallet_of t.user_id t.currency) t.amount_cents (books d) =
            books-SameFunds (insert_transaction-SameFunds s₂ _ _ _ _ _ _ e₃) ∙ change ∙ rw sum in
          books-SameFunds (update_topup-SameFunds s₄ _ _ h)
          ∙ books-post _ s₃ e₄
          ∙ ap (post_spec (wallet_topup_entry id t.user_id t.amount_cents t.currency)) funds

-- A committed rejection makes the amount of the payout available to its user again, and posts the
-- reversal entry unless its key is taken; no other balance or account changes.
pub reject_payout-books :
    (id admin : ℕ) (reason : String) (p : PayoutRow) (d : Db) {r : PayoutRow} {d' : Db}
    → find id d.payouts ≡ some p
    → reject_payout id admin reason d ≡ ok (r, d')
    → books d' ≡ rejection_spec p (books d)
unfolding reject_payout record_wallet_withdrawal_reversal_ledger
reject_payout-books id admin reason p d found h = payout-step d _ _ h λ p' ep h.
    guard-step d _ _ _ h λ _ h. bind-step d _ _ h λ w s₁ e₁ h. wallet-step s₁ _ _ h λ row er h.
      lift-step s₁ _ _ (range-step s₁ _ _ h) λ next en h. bind-step s₁ _ _ h λ _ s₂ e₂ h.
        bind-step s₂ _ _ h λ _ s₃ e₃ h. bind-step s₃ _ _ h λ _ s₄ e₄ h.
          let same : p' ≡ p = (cc) in
          let (ew, es, _) = ensure_wallet-eq-ok p'.user_id p'.currency d e₁ in
          let (change, old, _) = written p'.user_id p'.currency w row next d s₁ s₂ ew es er e₂ in
          let sum : next
              ≡ (books d).available (wallet_of p'.user_id p'.currency) +ℤ p'.amount_cents =
            checked_wallet_addition-eq-ok row.available_cents p'.amount_cents en
            ∙ ap (λ x. x +ℤ p'.amount_cents) (sym old) in
          let funds : books s₃
              ≡ deposit (wallet_of p'.user_id p'.currency) p'.amount_cents (books d) =
            books-SameFunds (insert_transaction-SameFunds s₂ _ _ _ _ _ _ e₃) ∙ change ∙ rw sum in
          books-SameFunds (update_payout-SameFunds s₄ _ _ h)
          ∙ books-post _ s₃ e₄
          ∙ ap
              (post_spec (
                withdrawal_reversal_entry p'.transaction_id p'.user_id p'.amount_cents p'.currency))
              funds
          ∙ ap (λ x. rejection_spec x (books d)) same

module _ (user : ℕ) (amount : ℤ) (c : CurrencyCode) (destination : String) (d : Db) {n : ℕ}
    {d' : Db} where
  -- A committed withdrawal takes a positive amount that was available out of the user's balance,
  -- and posts the withdrawal entry unless its key is taken; no other balance or account changes.
  pub request_withdrawal-books :
      request_withdrawal user amount c destination d ≡ ok (n, d')
      → (pos 0 <ℤ amount)
        × (amount ≤ℤ (books d).available (wallet_of user c))
        × (books d' ≡ withdrawal_spec d.next_id user amount c (books d))
  unfolding request_withdrawal record_wallet_withdrawal_ledger
  request_withdrawal-books h = guard-step d _ _ _ (range-step d _ _ h) λ positive h.
      bind-step d _ _ h λ w s₁ e₁ h. wallet-step s₁ _ _ h λ row er h.
        guard-step s₁ _ _ _ h λ enough h. lift-step s₁ _ _ h λ next en h.
          bind-step s₁ _ _ h λ _ s₂ e₂ h. bind-step s₂ _ _ h λ tx s₃ e₃ h.
            bind-step s₃ _ _ h λ _ s₄ e₄ h.
              let (ew, es, frame) = ensure_wallet-eq-ok user c d e₁ in
              let (change, old, frame₂) = written user c w row next d s₁ s₂ ew es er e₂ in
              let difference : next ≡ (books d).available (wallet_of user c) -ℤ amount =
                checked_wallet_subtraction-eq-ok row.available_cents amount en
                ∙ ap (λ x. x -ℤ amount) (sym old) in
              let fresh : tx ≡ d.next_id =
                inserted_id s₂ _ _ _ _ _ _ e₃
                ∙ ap (λ x. x.next_id) frame₂
                ∙ ap (λ x. x.next_id) frame in
              let funds : books s₃ ≡ withdraw (wallet_of user c) amount (books d) =
                books-SameFunds (insert_transaction-SameFunds s₂ _ _ _ _ _ _ e₃)
                ∙ change
                ∙ rw difference in
              (
                grind int_laws,
                rw old (grind int_laws),
                books-SameFunds (insert_payout-SameFunds s₄ _ h)
                    ∙ books-post _ s₃ e₄
                    ∙ rw fresh
                        (ap (post_spec (wallet_withdrawal_entry d.next_id user amount c)) funds),
              )
