-- ===== src/Disputes/Money.antt =====
-- What a resolution does to the books: the escrow of its decision, or nothing.
use skrynia.Prelude.{ℕ, ◌≡◌, refl, ap, ◌∙◌, Option, some, true, false, arith, inl, inr, ◌⊎◌}
use skrynia.Prelude.Table.{find, nat_eq}
use skrynia.Domain.Enums.{
  DisputeDecision, refund, release, DisputeStatus, resolved, resolving, open_dispute,
  resolution_failed,
}
use skrynia.Common.Errors.{ok}
use skrynia.Db.Rows.{Db, DisputeRow, OrderRow, OrderEvent, OutboxRow}
use skrynia.Db.Tables.{
  fresh_id, update_dispute, record_order_event, create_order_system_message, enqueue_domain_event,
}
use skrynia.Db.Keeps.{Keeps, Keeps-reading, keeps_rules}
use skrynia.Orders.Books.{Books, books, books-SameFunds}
use skrynia.Orders.Lifecycle.{Config}
use skrynia.Orders.Escrow.Settlement.{release_spec, release_escrow-books}
use skrynia.Orders.Escrow.Restitution.{refund_spec, refund_escrow-books}
use skrynia.Disputes.{
  ResolutionRow, ResolutionInput, select_resolution, assert_decision, assert_operation,
}
use skrynia.Disputes.Claim.{
  ResolutionClaim, claim_open, claim_again, claim_resolving, claim_by_status, claim_resolution,
}
use skrynia.Disputes.Finalize.{settle_dispute, finalize_if_applied}
use skrynia.Disputes.Resolve.{DisputeResolutionResult, execute_escrow, resolve_dispute_resolution}
use skrynia.Disputes.Claimed.{claim_resolution-eq-ok}
use skrynia.Disputes.Outcomes.{resolve-IsEnd, IsMoved}

-- The balances, the ledger and the orders are those of `o`.
record SameMoney (o d : Db) : Type 0 where
  wallets : d.wallets ≡ o.wallets
  platform_wallets : d.platform_wallets ≡ o.platform_wallets
  ledger : d.ledger ≡ o.ledger
  orders : d.orders ≡ o.orders

module _ (o : Db) where
  abbrev Money : Db → Type 0
  Money = SameMoney o

SameMoney-refl : (d : Db) → SameMoney d d
SameMoney-refl d = record { wallets = refl; platform_wallets = refl; ledger = refl; orders = refl }

books-SameMoney : {o d : Db} → SameMoney o d → books d ≡ books o
books-SameMoney k =
    books-SameFunds
      (record { wallets = k.wallets; platform_wallets = k.platform_wallets; ledger = k.ledger })

module _ {o : Db} where
  fresh_id-Money : Keeps (Money o) fresh_id
  unfolding fresh_id
  fresh_id-Money = record { at = λ d a d' h e. ground arith }

  update_dispute-Money : (n : ℕ) (r : DisputeRow) → Keeps (Money o) (update_dispute n r)
  unfolding update_dispute
  update_dispute-Money n r = record { at = λ d a d' h e. ground arith }

  record_order_event-Money : (x : OrderEvent) → Keeps (Money o) (record_order_event x)
  unfolding record_order_event
  record_order_event-Money x = record { at = λ d a d' h e. ground arith }

  create_order_system_message-Money : (n : ℕ) → Keeps (Money o) (create_order_system_message n)
  unfolding create_order_system_message
  create_order_system_message-Money n = record { at = λ d a d' h e. ground arith }

  enqueue_domain_event-Money : (x : OutboxRow) → Keeps (Money o) (enqueue_domain_event x)
  unfolding enqueue_domain_event
  enqueue_domain_event-Money x = record { at = λ d a d' h e. ground arith }

  select_resolution-Money : (n : ℕ) → Keeps (Money o) (select_resolution n)
  unfolding select_resolution
  select_resolution-Money n = Keeps-reading _

  assert_decision-Money :
      (r : ResolutionRow) (x : DisputeDecision) → Keeps (Money o) (assert_decision r x)
  unfolding assert_decision
  assert_decision-Money r x = search keeps_rules

  assert_operation-Money :
      (r : ResolutionRow) (x : Option ℕ) → Keeps (Money o) (assert_operation r x)
  unfolding assert_operation
  assert_operation-Money r x = search keeps_rules

ruleset money_rules = (
  keeps_rules, fresh_id-Money, update_dispute-Money, record_order_event-Money,
  create_order_system_message-Money, enqueue_domain_event-Money, select_resolution-Money,
  assert_decision-Money, assert_operation-Money,
)

module _ {o : Db} (i : ResolutionInput) where
  claim_open-Money : (r : ResolutionRow) → Keeps (Money o) (claim_open i r)
  unfolding claim_open
  claim_open-Money r = search money_rules depth 12

  claim_again-Money : (r : ResolutionRow) → Keeps (Money o) (claim_again i r)
  unfolding claim_again
  claim_again-Money r = search money_rules depth 12

  claim_resolving-Money : (r : ResolutionRow) → Keeps (Money o) (claim_resolving i r)
  unfolding claim_resolving
  claim_resolving-Money r = search (money_rules, claim_again-Money) depth 12

  claim_by_status-Money :
      (s : DisputeStatus) (r : ResolutionRow) → Keeps (Money o) (claim_by_status s i r)
  unfolding claim_by_status
  claim_by_status-Money resolved r = search money_rules
  claim_by_status-Money open_dispute r = claim_open-Money r
  claim_by_status-Money resolution_failed r = claim_again-Money r
  claim_by_status-Money resolving r = claim_resolving-Money r

  claim_resolution-Money : Keeps (Money o) (claim_resolution i)
  unfolding claim_resolution
  claim_resolution-Money = search (money_rules, claim_by_status-Money) depth 12

module _ {o : Db} (id operation : ℕ) where
  settle_dispute-Money : (r : ResolutionRow) → Keeps (Money o) (settle_dispute id operation r)
  unfolding settle_dispute
  settle_dispute-Money r = search money_rules depth 20

  finalize_if_applied-Money :
      (x : DisputeDecision) → Keeps (Money o) (finalize_if_applied id x operation)
  unfolding finalize_if_applied
  finalize_if_applied-Money x = search (money_rules, settle_dispute-Money) depth 12

-- What the escrow of a decision promises about the books.
abbrev pub decision_spec : DisputeDecision → OrderRow → Books → Books
decision_spec refund = refund_spec
decision_spec release = release_spec

execute_escrow-books :
    (c : Config) (x : DisputeDecision) (id admin : ℕ) (o : OrderRow) (d : Db) {u : OrderRow}
    {d' : Db}
    → find id d.orders ≡ some o
    → execute_escrow c x id admin d ≡ ok (u, d')
    → books d' ≡ decision_spec x o (books d)
unfolding execute_escrow
execute_escrow-books c refund id admin o d e h = refund_escrow-books c id (some admin) d o e h
execute_escrow-books c release id admin o d e h = release_escrow-books c id _ d o e h

-- The books before and after what a resolution moved.
abbrev pub IsBooked : DisputeDecision → OrderRow → DisputeResolutionResult → Db → Db → Type 0
IsBooked x o r d d' =
    ((r.escrow_executed ≡ false) × (books d' ≡ books d))
    ⊎ ((r.escrow_executed ≡ true) × (books d' ≡ decision_spec x o (books d)))

moved-IsBooked :
    (c : Config) (i : ResolutionInput) (claim : ResolutionClaim) (r : DisputeResolutionResult)
    (o : OrderRow) (s t : Db)
    → find claim.row.dispute.order_id s.orders ≡ some o
    → IsMoved c i claim r s t
    → IsBooked i.decision o r s t
moved-IsBooked c i claim r o s t e (inl (idle, same)) = inl (idle, ap books same)
moved-IsBooked c i claim r o s t e (inr (ran, (u, h))) =
    inr (ran, execute_escrow-books c i.decision _ _ o s e h)

-- A resolution that returns has found the dispute and its order. If it reports that it ran the
-- escrow, the books are those that the refund or the release of that order, as decided, promises;
-- if not, they are as before.
pub resolve_dispute-books :
    (c : Config) (i : ResolutionInput) (d : Db) {r : DisputeResolutionResult} {d' : Db}
    → resolve_dispute_resolution c i d ≡ (ok r, d')
    → (row : DisputeRow) × (o : OrderRow) × (find i.dispute_id d.disputes ≡ some row)
      × (find row.order_id d.orders ≡ some o)
      × IsBooked i.decision o r d d'
resolve_dispute-books c i d {r} {d'} h =
    let (claim, s, e, end) = resolve-IsEnd c i d h in
    let (row, (there, (o, ordered, _)), _, _, kind) = claim_resolution-eq-ok i d e in
    let k : SameMoney d s = (claim_resolution-Money i).at d claim s (SameMoney-refl d) e in
    (
      row.dispute,
      o,
      there,
      ordered,
      elim end [
        | inl (already, _, _, idle, kept) ↦ elim kind [
          | inr (fresh, _) ↦ cc
          | inl (_, _, _, quiet) ↦ inl (idle, ap books (kept ∙ quiet))
        ]
        | inr (fresh, (t, operation, moved, f)) ↦ elim kind [
          | inl (already, _, _, _) ↦ cc
          | inr (_, same) ↦
              let after : SameMoney t d' =
                (finalize_if_applied-Money i.dispute_id operation i.decision).at t _ d'
                  (SameMoney-refl t) f in
              let found : find claim.row.dispute.order_id s.orders ≡ some o =
                ap (λ n. find n s.orders) same
                ∙ ap (find row.dispute.order_id) k.orders
                ∙ ordered in
              elim (moved-IsBooked c i claim r o s t found moved) [
                | inl (idle, b) ↦ inl (idle, books-SameMoney after ∙ b ∙ books-SameMoney k)
                | inr (ran, b) ↦ inr (
                  ran,
                  books-SameMoney after ∙ b ∙ ap (decision_spec i.decision o) (books-SameMoney k),
                )
              ]
        ]
      ],
    )
