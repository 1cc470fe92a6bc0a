-- ===== src/Marketplace/Moves.antt =====
-- Operations that move one order along the order graph and leave the other files alone: which keys
-- stay open, and when wallets and ledger still agree.
use skrynia.Prelude.{
  ℕ, ◌≤◌, ◌≡◌, refl, ◌≢◌, ap, sym, ◌∙◌, ◌⊎◌, inl, inr, some, false, ◌==◌, Bool-cases, arith,
}
use skrynia.Prelude.Tests.{==_iff}
use skrynia.Prelude.Table.{find, nat_eq}
use skrynia.Domain.Enums.{OrderStatus, pending, completed, refunded}
use skrynia.Db.Keys.{
  LedgerKey, payment_capture_key, escrow_release_key, refund_key, wallet_topup_key,
  wallet_withdrawal_key, withdrawal_reversal_key, manual_adjustment_key,
}
use skrynia.Db.Rows.{Db, OrderRow}
use skrynia.Orders.Books.{books}
use skrynia.Orders.Lifecycle.History.{IsKeyed}
use skrynia.Orders.Reconciliation.{IsReconciled}
use skrynia.Orders.Transitions.Graph.{◌⟶◌, IsTerminal-edge, pending-not-after}
use skrynia.Marketplace.Openings.{IsSound, IsOpen, IsUnused, HasOrder}

-- The order `id` comes to the status `t`, along an edge or by staying there.
pub record Moved (id : ℕ) (t : OrderStatus) (d d' : Db) : Type 0 where
  pub before : HasOrder d id (λ s. (s ≡ t) ⊎ (s ⟶ t))
  pub after : HasOrder d' id (λ s. s ≡ t)
  pub others : (j : ℕ) → (id == j) ≡ false → find j d'.orders ≡ find j d.orders
  pub keyed : IsKeyed d → IsKeyed d'
  pub topups : d'.topups ≡ d.topups
  pub payouts : d'.payouts ≡ d.payouts
  pub grown : d.next_id ≤ d'.next_id

module _ {id : ℕ} {t : OrderStatus} {d d' : Db} (m : Moved id t d d') where
  -- Where an order that is on file afterwards came from.
  Moved-back :
      (n : ℕ) (o' : OrderRow)
      → find n d'.orders ≡ some o'
      → HasOrder d n (λ s. (s ≡ o'.status) ⊎ (s ⟶ o'.status))
  Moved-back n o' f = elim (Bool-cases (id == n)) [
    | inr other ↦ (o', sym (m.others n other) ∙ f, inl refl)
    | inl same ↦
        let e : id ≡ n = (==_iff id n).0 same in
        let (o, fo, s) = m.before in
        let (r, fr, sr) = m.after in
        let one : r ≡ o' = (cc) in
        let status : o'.status ≡ t = ap (λ x. x.status) (sym one) ∙ sr in
        (o, rw (← e) fo, rw status s)
  ]

  -- A key that is open afterwards was open before.
  Moved-IsOpen : (k : LedgerKey) → IsOpen d' k → IsOpen d k
  Moved-IsOpen (payment_capture_key n) (inl u) = inl (omega (arith, m.grown))
  Moved-IsOpen (payment_capture_key n) (inr (o', f, s')) =
      let (o, fo, s) = Moved-back n o' f in
      inr (o, fo, elim s [ inl same ↦ same ∙ s' | inr step ↦ absurd (pending-not-after step s') ])
  Moved-IsOpen (escrow_release_key n) (inl u) = inl (omega (arith, m.grown))
  Moved-IsOpen (escrow_release_key n) (inr (o', f, s')) =
      let (o, fo, s) = Moved-back n o' f in
      inr (
        o,
        fo,
        λ h. elim s [ inl same ↦ s' (sym same ∙ h) | inr step ↦ IsTerminal-edge step (inl h) ],
      )
  Moved-IsOpen (refund_key n) (inl u) = inl (omega (arith, m.grown))
  Moved-IsOpen (refund_key n) (inr (o', f, s')) =
      let (o, fo, s) = Moved-back n o' f in
      inr (
        o,
        fo,
        λ h. elim s [
          | inl same ↦ s' (sym same ∙ h)
          | inr step ↦ IsTerminal-edge step (inr (inl h))
        ],
      )
  Moved-IsOpen (wallet_topup_key n) (inl u) = inl (omega (arith, m.grown))
  Moved-IsOpen (wallet_topup_key n) (inr (x, f, p)) = inr (x, rw (← m.topups) f, p)
  Moved-IsOpen (wallet_withdrawal_key n) u = omega (arith, m.grown)
  Moved-IsOpen (withdrawal_reversal_key n) (inl u) = inl (omega (arith, m.grown))
  Moved-IsOpen (withdrawal_reversal_key n) (inr (i, p, f, w, e)) =
      inr (i, p, rw (← m.payouts) f, w, e)
  Moved-IsOpen (manual_adjustment_key n) u = omega (arith, m.grown)

  -- So the operation keeps everything sound that leaves wallets and ledger in agreement, and posts
  -- no key that is still open.
  pub Moved-IsSound :
      IsSound d
      → IsReconciled (books d')
      → ((k : LedgerKey) → IsOpen d' k → (books d').posted k ≡ (books d).posted k)
      → IsSound d'
  Moved-IsSound s agree posted = record {
    agree = agree;
    unposted = λ k o. posted k o ∙ s.unposted k (Moved-IsOpen k o);
    keyed = m.keyed s.keyed;
    alone = λ i j p q f g. s.alone i j p q (rw (← m.payouts) f) (rw (← m.payouts) g);
    used_order = λ n o f.
        let (x, fx, _) = Moved-back n o f in
        let before = s.used_order n x fx in omega (arith, m.grown);
    used_topup =
        λ n t f. let before = s.used_topup n t (rw (← m.topups) f) in omega (arith, m.grown);
    used_payout =
        λ n p f. let before = s.used_payout n p (rw (← m.payouts) f) in omega (arith, m.grown);
  }

  Moved-used : IsSound d → ¬ IsUnused d' id
  Moved-used s u =
      let (o, f, _) = m.before in let before = s.used_order id o f in omega (arith, m.grown)

  Moved-after : (o : OrderRow) → find id d'.orders ≡ some o → o.status ≡ t
  Moved-after o f =
      let (r, fr, sr) = m.after in let one : r ≡ o = (cc) in ap (λ x. x.status) (sym one) ∙ sr

  -- An order is not open for the entry of the status that it has come to.
  pub Moved-paid : IsSound d → t ≢ pending → ¬ IsOpen d' (payment_capture_key id)
  Moved-paid s e (inl u) = Moved-used s u
  Moved-paid s e (inr (o, f, n)) = e (sym (Moved-after o f) ∙ n)

  pub Moved-released : IsSound d → t ≡ completed → ¬ IsOpen d' (escrow_release_key id)
  Moved-released s e (inl u) = Moved-used s u
  Moved-released s e (inr (o, f, n)) = n (Moved-after o f ∙ e)

  pub Moved-refunded : IsSound d → t ≡ refunded → ¬ IsOpen d' (refund_key id)
  Moved-refunded s e (inl u) = Moved-used s u
  Moved-refunded s e (inr (o, f, n)) = n (Moved-after o f ∙ e)
