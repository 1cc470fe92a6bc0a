-- ===== src/Marketplace/Wallets.antt =====
-- The operations of backend/src/modules/users/wallet.service.ts on the files of top-ups and payouts.
use skrynia.Prelude.{
  ℕ, suc, String, ◌<◌, ◌≡◌, refl, ap, sym, ◌∙◌, inl, inr, some, true, false, arith,
}
use skrynia.Prelude.Int.{ℤ}
use skrynia.Prelude.Table.{find, put, nat_eq, find-put_self}
use skrynia.Domain.Enums.{CurrencyCode}
use skrynia.Common.Errors.{ok}
use skrynia.Db.Rows.{Db, TopupRow, PayoutRow, completed_topup}
use skrynia.Db.Tx.{in_tx-eq-ok}
use skrynia.Db.Frame.{SameFunds}
use skrynia.Db.Tables.{update_payout}
use skrynia.Db.Files.{SameFiles, SameFiles-refl, update_wallet-Filed, insert_transaction-Filed}
use skrynia.Db.Steps.{
  bind-step, guard-step, lift-step, wallet-step, range-step, payout-step, update_payout-found,
}
use skrynia.Orders.Escrow.Files.{ensure_wallet-Filed, post_ledger_entry-Filed}
use skrynia.Orders.Bookings.{
  record_wallet_topup_ledger, record_wallet_withdrawal_ledger,
  record_wallet_withdrawal_reversal_ledger,
}
use skrynia.Wallet.{create_wallet_topup, credit_topup, request_withdrawal}
use skrynia.Wallet.Payouts.{reject_payout, finish_payout, is_pending_payout}
use skrynia.Marketplace.Writes.{
  update_topup-eq-ok, update_payout-eq-ok, insert_payout-eq-ok, insert_topup-eq-ok, inserted_next,
  put-cases, put-OldTopup, put-OldPayout,
}
use skrynia.Marketplace.Requests.{Filing}

-- What the operations do to the files.
module _ (d : Db) where
  -- The last write of a payout that is settled, after what leaves the files alone.
  settled_payout :
      (id : ℕ) (p : PayoutRow) (change : PayoutRow → PayoutRow) (s : Db) {r : PayoutRow} {d' : Db}
      → SameFiles d s
      → find id d.payouts ≡ some p
      → (change p).transaction_id ≡ p.transaction_id
      → is_pending_payout (change p).status ≡ false
      → update_payout id change s ≡ ok (r, d')
      → Filing d.next_id d d'
        × ((x : PayoutRow) → find id d'.payouts ≡ some x → is_pending_payout x.status ≡ false)
  settled_payout id p change s {d' = d'} same f own settled h =
      let e : d' ≡ record s { payouts = put id (change p) s.payouts } =
        update_payout-eq-ok s id change p (ap (find id) same.payouts ∙ f) h in
      let w : d'.payouts ≡ put id (change p) d.payouts =
        ap (λ y. y.payouts) e ∙ ap (put id (change p)) same.payouts in
      (
        record {
          orders = λ n o g. inl (ap (find n) (sym (ap (λ y. y.orders) e ∙ same.orders)) ∙ g);
          topups =
              λ n t g. inl (t, ap (find n) (sym (ap (λ y. y.topups) e ∙ same.topups)) ∙ g, λ h. h);
          payouts = λ n q g. inl (put-OldPayout d d' id p (change p) f own settled w n q g);
          grown = let n = ap (λ y. y.next_id) e in omega (arith, same.grown);
        },
        λ x g.
            let one : change p ≡ x = (cc (w, find-put_self id (change p) d.payouts)) in
            ap (λ z. is_pending_payout z.status) (sym one) ∙ settled,
      )

  pub credit_topup-files :
      (id : ℕ) (t : TopupRow) (provider reference : String) {r : TopupRow} {d' : Db}
      → credit_topup id t provider reference d ≡ ok (r, d')
      → find id d.topups ≡ some t
      → Filing d.next_id d d'
        × ((x : TopupRow) → find id d'.topups ≡ some x → x.status ≡ completed_topup)
  unfolding credit_topup record_wallet_topup_ledger
  credit_topup-files id t provider reference {d' = d'} h f = bind-step d _ _ h λ w s₁ e₁ h.
      wallet-step s₁ _ _ h λ row er h. lift-step s₁ _ _ (range-step s₁ _ _ h) λ next en h.
        bind-step s₁ _ _ h λ _ s₂ e₂ h. bind-step s₂ _ _ h λ _ s₃ e₃ h.
          bind-step s₃ _ _ h λ _ s₄ e₄ h.
            let f₁ : SameFiles d s₁ = (ensure_wallet-Filed _ _).at d _ s₁ (SameFiles-refl d) e₁ in
            let f₂ : SameFiles d s₂ = (update_wallet-Filed _ _).at s₁ _ s₂ f₁ e₂ in
            let f₃ : SameFiles d s₃ = (insert_transaction-Filed _ _ _ _ _ _).at s₂ _ s₃ f₂ e₃ in
            let f₄ : SameFiles d s₄ = (post_ledger_entry-Filed _).at s₃ _ s₄ f₃ e₄ in
            let x : TopupRow = record t {
              status = completed_topup;
              payment_provider = some provider;
              payment_reference = some reference;
            } in
            let e : d' ≡ record s₄ { topups = put id x s₄.topups } = update_topup-eq-ok s₄ id x h in
            let w : d'.topups ≡ put id x d.topups =
              ap (λ y. y.topups) e ∙ ap (put id x) f₄.topups in
            (
              record {
                orders = λ n o g. inl (ap (find n) (sym (ap (λ y. y.orders) e ∙ f₄.orders)) ∙ g);
                topups = λ n t' g. inl (put-OldTopup d d' id t x f refl w n t' g);
                payouts = λ n p g.
                    inl
                      (p, ap (find n) (sym (ap (λ y. y.payouts) e ∙ f₄.payouts)) ∙ g, refl, λ h. h);
                grown = let n = ap (λ y. y.next_id) e in omega (arith, f₄.grown);
              },
              λ y g.
                  let one : x ≡ y = (cc (w, find-put_self id x d.topups)) in
                  ap (λ z. z.status) (sym one),
            )

  -- A rejected payout keeps its transaction.
  pub reject_payout-files :
      (id admin : ℕ) (reason : String) {r : PayoutRow} {d' : Db}
      → reject_payout id admin reason d ≡ ok (r, d')
      → (p : PayoutRow) × (find id d.payouts ≡ some p)
        × (is_pending_payout p.status ≡ true)
        × Filing d.next_id d d'
        × ((x : PayoutRow) → find id d'.payouts ≡ some x → is_pending_payout x.status ≡ false)
  unfolding reject_payout record_wallet_withdrawal_reversal_ledger
  reject_payout-files id admin reason {d' = d'} h = payout-step d _ _ h λ p f h.
      guard-step d _ _ _ h λ waiting h. bind-step d _ _ h λ w s₁ e₁ h.
        wallet-step s₁ _ _ h λ row er h. lift-step s₁ _ _ (range-step s₁ _ _ h) λ next en h.
          bind-step s₁ _ _ h λ _ s₂ e₂ h. bind-step s₂ _ _ h λ _ s₃ e₃ h.
            bind-step s₃ _ _ h λ _ s₄ e₄ h.
              let f₁ : SameFiles d s₁ = (ensure_wallet-Filed _ _).at d _ s₁ (SameFiles-refl d) e₁ in
              let f₂ : SameFiles d s₂ = (update_wallet-Filed _ _).at s₁ _ s₂ f₁ e₂ in
              let f₃ : SameFiles d s₃ = (insert_transaction-Filed _ _ _ _ _ _).at s₂ _ s₃ f₂ e₃ in
              let f₄ : SameFiles d s₄ = (post_ledger_entry-Filed _).at s₃ _ s₄ f₃ e₄ in
              let (settled, closed) = settled_payout id p _ s₄ f₄ f refl refl h in
              (p, f, ground arith, settled, closed)

  pub finish_payout-files :
      (id admin : ℕ) (reference : String) {r : PayoutRow} {d' : Db}
      → finish_payout id admin reference d ≡ ok (r, d')
      → Filing d.next_id d d'
  unfolding finish_payout
  finish_payout-files id admin reference h =
      let (p, f, _, _, _) = update_payout-found d id _ h in
      (settled_payout id p _ d (SameFiles-refl d) f refl refl h).0

  -- A withdrawal files a payout for its own, new transaction.
  pub request_withdrawal-files :
      (user : ℕ) (amount : ℤ) (c : CurrencyCode) (destination : String) {n : ℕ} {d' : Db}
      → request_withdrawal user amount c destination d ≡ ok (n, d')
      → (m : ℕ) × Filing m d d' × (d.next_id < d'.next_id)
  unfolding request_withdrawal record_wallet_withdrawal_ledger
  request_withdrawal-files user amount c destination {d' = d'} h =
      guard-step d _ _ _ (range-step d _ _ h) λ positive h. bind-step d _ _ h λ w s₁ e₁ h.
        wallet-step s₁ _ _ h λ row er h. guard-step s₁ _ _ _ h λ enough h.
          lift-step s₁ _ _ h λ next en h. bind-step s₁ _ _ h λ _ s₂ e₂ h.
            bind-step s₂ _ _ h λ tx s₃ e₃ h. bind-step s₃ _ _ h λ _ s₄ e₄ h.
              let f₁ : SameFiles d s₁ = (ensure_wallet-Filed _ _).at d _ s₁ (SameFiles-refl d) e₁ in
              let f₂ : SameFiles d s₂ = (update_wallet-Filed _ _).at s₁ _ s₂ f₁ e₂ in
              let f₃ : SameFiles d s₃ = (insert_transaction-Filed _ _ _ _ _ _).at s₂ _ s₃ f₂ e₃ in
              let f₄ : SameFiles d s₄ = (post_ledger_entry-Filed _).at s₃ _ s₄ f₃ e₄ in
              let later : SameFiles s₃ s₄ =
                (post_ledger_entry-Filed _).at s₃ _ s₄ (SameFiles-refl s₃) e₄ in
              let (fresh, taken) = inserted_next s₂ _ _ _ _ _ _ e₃ in
              let e = insert_payout-eq-ok s₄ _ h in
              let ids : d'.next_id ≡ suc s₄.next_id = ap (λ y. y.next_id) e in
              (
                s₄.next_id,
                record {
                  orders = λ n o g. inl (ap (find n) (sym (ap (λ y. y.orders) e ∙ f₄.orders)) ∙ g);
                  topups = λ n t g.
                      inl (t, ap (find n) (sym (ap (λ y. y.topups) e ∙ f₄.topups)) ∙ g, λ h. h);
                  payouts = λ n p g.
                      elim (put-cases s₄.next_id n _ p s₄.payouts
                        (ap (find n) (sym (ap (λ y. y.payouts) e)) ∙ g)) [
                          | inl (same, one) ↦
                              let own : tx ≡ p.transaction_id = ap (λ r. r.transaction_id) one in
                              inr (sym same, omega (arith, f₂.grown), omega (arith, later.grown))
                          | inr (_, old) ↦ inl (p, ap (find n) (sym f₄.payouts) ∙ old, refl, λ h. h)
                        ];
                  grown = omega (arith, f₄.grown);
                },
                omega (arith, f₄.grown),
              )

  -- A new top-up is filed under a new id.
  pub create_wallet_topup-files :
      (user : ℕ) (v : ℤ) (c : CurrencyCode) {n : ℕ} {d' : Db}
      → create_wallet_topup user v c d ≡ (ok n, d')
      → Filing d.next_id d d' × SameFunds d d'
  unfolding create_wallet_topup
  create_wallet_topup-files user v c {d' = d'} h = lift-step d _ _ (in_tx-eq-ok _ d h) λ amount _ h.
      let e = insert_topup-eq-ok d _ h in
      let ids : d'.next_id ≡ suc d.next_id = ap (λ y. y.next_id) e in
      (
        record {
          orders = λ n o g. inl (ap (find n) (sym (ap (λ y. y.orders) e)) ∙ g);
          topups = λ n t g.
              elim (put-cases d.next_id n _ t d.topups
                (ap (find n) (sym (ap (λ y. y.topups) e)) ∙ g)) [
                  | inl (same, _) ↦ inr (omega arith, omega arith)
                  | inr (_, old) ↦ inl (t, old, λ h. h)
                ];
          payouts = λ n p g. inl (p, ap (find n) (sym (ap (λ y. y.payouts) e)) ∙ g, refl, λ h. h);
          grown = omega arith;
        },
        record {
          wallets = ap (λ y. y.wallets) e;
          platform_wallets = ap (λ y. y.platform_wallets) e;
          ledger = ap (λ y. y.ledger) e;
        },
      )
