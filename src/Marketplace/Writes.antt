-- ===== src/Marketplace/Writes.antt =====
-- What the writes of top-ups and payouts of backend/src/modules/users/wallet.service.ts leave on file.
use skrynia.Prelude.{
  ℕ, suc, ◌≡◌, refl, ap, sym, ◌∙◌, ◌⊎◌, inl, inr, some, false, arith, ◌==◌, Bool-cases, Option,
}
use skrynia.Prelude.Tests.{==_iff}
use skrynia.Prelude.Int.{ℤ}
use skrynia.Prelude.Table.{Table, find, put, nat_eq, find-put}
use skrynia.Common.Errors.{ok}
use skrynia.Db.Keys.{WalletId}
use skrynia.Db.Rows.{Db, TopupRow, PayoutRow, TransactionType, Direction, TransactionStatus}
use skrynia.Db.Tables.{insert_transaction, update_topup, update_payout, insert_payout, insert_topup}
use skrynia.Wallet.{is_pending_topup}
use skrynia.Wallet.Payouts.{is_pending_payout}
use skrynia.Marketplace.Requests.{OldTopup, OldPayout}

-- What the writes of the two files leave.
module _ (d : Db) {s : Db} where
  pub update_topup-eq-ok :
      (id : ℕ) (t : TopupRow) {r : TopupRow}
      → update_topup id t d ≡ ok (r, s)
      → s ≡ record d { topups = put id t d.topups }
  unfolding update_topup
  update_topup-eq-ok id t h = ground arith

  pub update_payout-eq-ok :
      (id : ℕ) (f : PayoutRow → PayoutRow) (p : PayoutRow) {r : PayoutRow}
      → find id d.payouts ≡ some p
      → update_payout id f d ≡ ok (r, s)
      → s ≡ record d { payouts = put id (f p) d.payouts }
  unfolding update_payout
  update_payout-eq-ok id f p e h = ground arith

  pub insert_payout-eq-ok :
      (row : PayoutRow) {n : ℕ}
      → insert_payout row d ≡ ok (n, s)
      → s ≡ record d { next_id = suc d.next_id; payouts = put d.next_id row d.payouts }
  unfolding insert_payout
  insert_payout-eq-ok row h = ground arith

  pub insert_topup-eq-ok :
      (row : TopupRow) {n : ℕ}
      → insert_topup row d ≡ ok (n, s)
      → s ≡ record d { next_id = suc d.next_id; topups = put d.next_id row d.topups }
  unfolding insert_topup
  insert_topup-eq-ok row h = ground arith

  pub inserted_next :
      (w : WalletId) (o : Option ℕ) (t : TransactionType) (x : Direction) (a : ℤ)
      (st : TransactionStatus) {n : ℕ}
      → insert_transaction w o t x a st d ≡ ok (n, s)
      → (n ≡ d.next_id) × (s.next_id ≡ suc d.next_id)
  unfolding insert_transaction
  inserted_next w o t x a st h = (ground arith, ground arith)

-- A row of a table after one row was written.
pub put-cases :
    {V : Type 0} (id n : ℕ) (x y : V) (t : Table ℕ V)
    → find n (put id x t) ≡ some y
    → ((id ≡ n) × (x ≡ y)) ⊎ (((id == n) ≡ false) × (find n t ≡ some y))
put-cases id n x y t h = elim (Bool-cases (id == n)) [
  | inl same ↦ inl ((==_iff id n).0 same, ground (arith, find-put id n x t))
  | inr other ↦ inr (other, ground (arith, find-put id n x t))
]

-- A settled row was written over one that was there: every row is an old one.
module _ (d d' : Db) (id : ℕ) where
  pub put-OldTopup :
      (t x : TopupRow)
      → find id d.topups ≡ some t
      → is_pending_topup x.status ≡ false
      → d'.topups ≡ put id x d.topups
      → (n : ℕ) (t' : TopupRow) → find n d'.topups ≡ some t'
      → OldTopup d n t'
  put-OldTopup t x f settled w n t' g =
      elim (put-cases id n x t' d.topups (ap (find n) (sym w) ∙ g)) [
        | inl (same, one) ↦ (t, ap (λ k. find k d.topups) (sym same) ∙ f, λ p. absurd (cc))
        | inr (_, old) ↦ (t', old, λ p. p)
      ]

  pub put-OldPayout :
      (p x : PayoutRow)
      → find id d.payouts ≡ some p
      → x.transaction_id ≡ p.transaction_id
      → is_pending_payout x.status ≡ false
      → d'.payouts ≡ put id x d.payouts
      → (n : ℕ) (p' : PayoutRow) → find n d'.payouts ≡ some p'
      → OldPayout d n p'
  put-OldPayout p x f own settled w n p' g =
      elim (put-cases id n x p' d.payouts (ap (find n) (sym w) ∙ g)) [
        | inl (same, one) ↦ (
          p,
          ap (λ k. find k d.payouts) (sym same) ∙ f,
          ap (λ r. r.transaction_id) (sym one) ∙ own,
          λ h. absurd (cc),
        )
        | inr (_, old) ↦ (p', old, refl, λ h. h)
      ]
