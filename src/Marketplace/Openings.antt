-- ===== src/Marketplace/Openings.antt =====
-- Which ledger keys the rows on file leave open: those that an operation may still post. The
-- services take no key from the ledger, so the rows have to say it.
use skrynia.Prelude.{ℕ, ◌<◌, ◌≤◌, ◌≡◌, ap, ◌∙◌, ◌⊎◌, true, false, some, inl, inr, Bool-cases}
use skrynia.Prelude.Table.{find, nat_eq}
use skrynia.Domain.Enums.{OrderStatus, pending, completed, refunded}
use skrynia.Db.Keys.{
  LedgerKey, key_eq, same_key, same_key_iff, payment_capture_key, escrow_release_key, refund_key,
  wallet_topup_key, wallet_withdrawal_key, withdrawal_reversal_key, manual_adjustment_key,
}
use skrynia.Db.Rows.{Db, OrderRow, TopupRow, PayoutRow}
use skrynia.Orders.Accounting.{LedgerEntryInput}
use skrynia.Orders.Books.{Books, books, post_spec}
use skrynia.Orders.Lifecycle.History.{IsKeyed}
use skrynia.Orders.Reconciliation.{IsReconciled}
use skrynia.Wallet.{is_pending_topup}
use skrynia.Wallet.Payouts.{is_pending_payout}

-- An id that no row was given yet.
abbrev pub IsUnused : Db → ℕ → Type 0
IsUnused d n = d.next_id ≤ n

-- An order is on file with a status that meets `P`.
abbrev pub HasOrder : Db → ℕ → (OrderStatus → Type 0) → Type 0
HasOrder d n P = (o : OrderRow) × (find n d.orders ≡ some o) × P o.status

abbrev pub HasTopup : Db → ℕ → Type 0
HasTopup d n = (t : TopupRow) × (find n d.topups ≡ some t) × (is_pending_topup t.status ≡ true)

-- A pending payout of the transaction is on file.
abbrev pub HasPayout : Db → ℕ → Type 0
HasPayout d n =
    (id : ℕ) × (p : PayoutRow) × (find id d.payouts ≡ some p)
    × (is_pending_payout p.status ≡ true)
    × (p.transaction_id ≡ n)

abbrev pub IsOpen : Db → LedgerKey → Type 0
IsOpen d (payment_capture_key n) = IsUnused d n ⊎ HasOrder d n (λ s. s ≡ pending)
IsOpen d (escrow_release_key n) = IsUnused d n ⊎ HasOrder d n (λ s. ¬ (s ≡ completed))
IsOpen d (refund_key n) = IsUnused d n ⊎ HasOrder d n (λ s. ¬ (s ≡ refunded))
IsOpen d (wallet_topup_key n) = IsUnused d n ⊎ HasTopup d n
IsOpen d (wallet_withdrawal_key n) = IsUnused d n
IsOpen d (withdrawal_reversal_key n) = IsUnused d n ⊎ HasPayout d n
IsOpen d (manual_adjustment_key n) = IsUnused d n

-- Wallets and ledger agree, and the rows on file tell which entries are posted: no open key is.
pub record IsSound (d : Db) : Type 0 where
  pub agree : IsReconciled (books d)
  pub unposted : (k : LedgerKey) → IsOpen d k → (books d).posted k ≡ false
  pub keyed : IsKeyed d
  -- A payout has its transaction to itself.
  pub alone :
      (m n : ℕ) (p q : PayoutRow)
      → find m d.payouts ≡ some p
      → find n d.payouts ≡ some q
      → p.transaction_id ≡ q.transaction_id
      → m ≡ n
  pub used_order : (n : ℕ) (o : OrderRow) → find n d.orders ≡ some o → n < d.next_id
  pub used_topup : (n : ℕ) (t : TopupRow) → find n d.topups ≡ some t → n < d.next_id
  pub used_payout :
      (n : ℕ) (p : PayoutRow) → find n d.payouts ≡ some p → p.transaction_id < d.next_id

-- Posting an entry changes nothing for the keys that are open afterwards, where its own is not.
pub posted-open :
    (i : LedgerEntryInput) (m : Books) (d' : Db)
    → books d' ≡ post_spec i m
    → ¬ IsOpen d' i.idempotency_key
    → (k : LedgerKey) → IsOpen d' k
    → (books d').posted k ≡ m.posted k
posted-open i m d' e closed k open_k = elim (Bool-cases (m.posted i.idempotency_key)) [
  | inl taken ↦ ap (λ b. b.posted k) (rw taken at e)
  | inr free ↦ elim (Bool-cases (same_key i.idempotency_key k)) [
    | inl y ↦
        let same : i.idempotency_key ≡ k = (same_key_iff i.idempotency_key k).0 y in
        absurd (closed (rw same open_k))
    | inr n ↦ ap (λ b. b.posted k) (rw free at e) ∙ rw n
  ]
]
