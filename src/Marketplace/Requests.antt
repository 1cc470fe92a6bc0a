-- ===== src/Marketplace/Requests.antt =====
-- Operations that file an order, or file or settle a top-up or a payout: which keys stay open, and
-- when wallets and ledger still agree.
use skrynia.Prelude.{ℕ, ◌≤◌, ◌<◌, ◌≡◌, refl, ap, sym, ◌∙◌, ◌⊎◌, inl, inr, some, true, arith}
use skrynia.Prelude.Table.{find, nat_eq}
use skrynia.Db.Keys.{
  LedgerKey, payment_capture_key, escrow_release_key, refund_key, wallet_topup_key,
  wallet_withdrawal_key, withdrawal_reversal_key, manual_adjustment_key,
}
use skrynia.Db.Rows.{Db, OrderRow, TopupRow, PayoutRow}
use skrynia.Db.Files.{SameFiles}
use skrynia.Orders.Books.{books}
use skrynia.Orders.Reconciliation.{IsReconciled}
use skrynia.Wallet.{is_pending_topup}
use skrynia.Wallet.Payouts.{is_pending_payout}
use skrynia.Marketplace.Openings.{IsSound, IsOpen, IsUnused}

-- A row of the new file was there, and was pending if it is, or it is new.
abbrev pub OldTopup : Db → ℕ → TopupRow → Type 0
OldTopup d n t' =
    (t : TopupRow) × (find n d.topups ≡ some t)
    × (is_pending_topup t'.status ≡ true → is_pending_topup t.status ≡ true)

abbrev pub OldPayout : Db → ℕ → PayoutRow → Type 0
OldPayout d n p' =
    (p : PayoutRow) × (find n d.payouts ≡ some p)
    × (p'.transaction_id ≡ p.transaction_id)
    × (is_pending_payout p'.status ≡ true → is_pending_payout p.status ≡ true)

-- At most the payout `m` is new, with a transaction of its own.
pub record Filing (m : ℕ) (d d' : Db) : Type 0 where
  pub orders :
      (n : ℕ) (o : OrderRow)
      → find n d'.orders ≡ some o
      → (find n d.orders ≡ some o) ⊎ ((o.id ≡ n) × IsUnused d n × (n < d'.next_id))
  pub topups :
      (n : ℕ) (t' : TopupRow)
      → find n d'.topups ≡ some t'
      → OldTopup d n t' ⊎ (IsUnused d n × (n < d'.next_id))
  pub payouts :
      (n : ℕ) (p' : PayoutRow)
      → find n d'.payouts ≡ some p'
      → OldPayout d n p'
        ⊎ ((n ≡ m) × IsUnused d p'.transaction_id × (p'.transaction_id < d'.next_id))
  pub grown : d.next_id ≤ d'.next_id

-- Leaving the files alone is such an operation.
pub SameFiles-Filing : {d d' : Db} → SameFiles d d' → Filing d.next_id d d'
SameFiles-Filing s = record {
  orders = λ n o f. inl (ap (find n) (sym s.orders) ∙ f);
  topups = λ n t f. inl (t, ap (find n) (sym s.topups) ∙ f, λ h. h);
  payouts = λ n p f. inl (p, ap (find n) (sym s.payouts) ∙ f, refl, λ h. h);
  grown = s.grown;
}

module _ {m : ℕ} {d d' : Db} (r : Filing m d d') where
  -- A key that is open afterwards was open before.
  Filing-IsOpen : (k : LedgerKey) → IsOpen d' k → IsOpen d k
  Filing-IsOpen (payment_capture_key n) (inl u) = inl (omega (arith, r.grown))
  Filing-IsOpen (payment_capture_key n) (inr (o, f, s)) = elim (r.orders n o f) [
    | inl g ↦ inr (o, g, s)
    | inr (_, u, _) ↦ inl u
  ]
  Filing-IsOpen (escrow_release_key n) (inl u) = inl (omega (arith, r.grown))
  Filing-IsOpen (escrow_release_key n) (inr (o, f, s)) = elim (r.orders n o f) [
    | inl g ↦ inr (o, g, s)
    | inr (_, u, _) ↦ inl u
  ]
  Filing-IsOpen (refund_key n) (inl u) = inl (omega (arith, r.grown))
  Filing-IsOpen (refund_key n) (inr (o, f, s)) = elim (r.orders n o f) [
    | inl g ↦ inr (o, g, s)
    | inr (_, u, _) ↦ inl u
  ]
  Filing-IsOpen (wallet_topup_key n) (inl u) = inl (omega (arith, r.grown))
  Filing-IsOpen (wallet_topup_key n) (inr (t', f, w)) = elim (r.topups n t' f) [
    | inl (t, g, back) ↦ inr (t, g, back w)
    | inr (u, _) ↦ inl u
  ]
  Filing-IsOpen (wallet_withdrawal_key n) u = omega (arith, r.grown)
  Filing-IsOpen (withdrawal_reversal_key n) (inl u) = inl (omega (arith, r.grown))
  Filing-IsOpen (withdrawal_reversal_key n) (inr (i, p', f, w, e)) = elim (r.payouts i p' f) [
    | inl (p, g, same, back) ↦ inr (i, p, g, back w, sym same ∙ e)
    | inr (_, u, _) ↦ inl (omega arith)
  ]
  Filing-IsOpen (manual_adjustment_key n) u = omega (arith, r.grown)

  -- Two payouts of one transaction are one.
  Filing-alone :
      IsSound d
      → (i j : ℕ) (p q : PayoutRow) → find i d'.payouts ≡ some p
      → find j d'.payouts ≡ some q
      → p.transaction_id ≡ q.transaction_id
      → i ≡ j
  Filing-alone s i j p q f g e = elim (r.payouts i p f) [
    | inl (x, fx, sx, _) ↦ elim (r.payouts j q g) [
      | inl (y, fy, sy, _) ↦ s.alone i j x y fx fy (sym sx ∙ e ∙ sy)
      | inr (_, u, _) ↦ absurd (let old = s.used_payout i x fx in omega arith)
    ]
    | inr (em, u, _) ↦ elim (r.payouts j q g) [
      | inl (y, fy, sy, _) ↦ absurd (let old = s.used_payout j y fy in omega arith)
      | inr (en, _, _) ↦ em ∙ sym en
    ]
  ]

  -- So the operation keeps everything sound that leaves wallets and ledger in agreement, and posts
  -- no key that is still open.
  pub Filing-IsSound :
      IsSound d
      → IsReconciled (books d')
      → ((k : LedgerKey) → IsOpen d' k → (books d').posted k ≡ (books d).posted k)
      → IsSound d'
  Filing-IsSound s agree posted = record {
    agree = agree;
    unposted = λ k o. posted k o ∙ s.unposted k (Filing-IsOpen k o);
    keyed = λ i o f. elim (r.orders i o f) [ inl g ↦ s.keyed i o g | inr (e, _, _) ↦ e ];
    alone = Filing-alone s;
    used_order = λ n o f. elim (r.orders n o f) [
      | inl g ↦ let before = s.used_order n o g in omega (arith, r.grown)
      | inr (_, _, l) ↦ l
    ];
    used_topup = λ n t' f. elim (r.topups n t' f) [
      | inl (t, g, _) ↦ let before = s.used_topup n t g in omega (arith, r.grown)
      | inr (_, l) ↦ l
    ];
    used_payout = λ n p' f. elim (r.payouts n p' f) [
      | inl (p, g, same, _) ↦ let before = s.used_payout n p g in omega (arith, r.grown)
      | inr (_, _, l) ↦ l
    ];
  }
