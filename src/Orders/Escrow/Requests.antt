-- ===== src/Orders/Escrow/Requests.antt =====
-- The operations of backend/src/modules/orders/ledger.service.ts leave disputes, top-ups and payouts
-- alone.
use skrynia.Prelude.{ℕ, Option, none, some, arith}
use skrynia.Prelude.Int.{ℤ}
use skrynia.Domain.Enums.{CurrencyCode}
use skrynia.Common.Errors.{Result}
use skrynia.Db.Keys.{LedgerKey}
use skrynia.Db.Rows.{Db, OrderRow, Ledger}
use skrynia.Db.Keeps.{Keeps}
use skrynia.Db.Requests.{Rest, rest_rules}
use skrynia.Orders.Accounting.{LedgerEntryInput, on_ledger, post_ledger_entry}
use skrynia.Orders.Bookings.{record_escrow_release_ledger, record_refund_ledger}
use skrynia.Orders.Lifecycle.{Config, apply_transition, checked_transition, transition_order}
use skrynia.Orders.Policy.{TransitionOrderInput}
use skrynia.Orders.Escrow.{ensure_wallet}
use skrynia.Orders.Escrow.Release.{
  ReleaseOptions, ReleaseSource, by_buyer, by_timer, by_dispute, by_service, release_message,
  platform_share, pay_platform, release_funds, release_escrow,
}
use skrynia.Orders.Escrow.Refund.{refund_funds, refund_escrow}

module _ {o : Db} where
  on_ledger-Rest : (f : Ledger → Result (Option LedgerKey × Ledger)) → Keeps (Rest o) (on_ledger f)
  unfolding on_ledger
  on_ledger-Rest f = record { at = λ d a d' h e. ground arith }

  post_ledger_entry-Rest : (i : LedgerEntryInput) → Keeps (Rest o) (post_ledger_entry i)
  unfolding post_ledger_entry
  post_ledger_entry-Rest i = search (rest_rules, on_ledger-Rest)

  ensure_wallet-Rest : (u : ℕ) (c : CurrencyCode) → Keeps (Rest o) (ensure_wallet u c)
  unfolding ensure_wallet
  ensure_wallet-Rest u c = record { at = λ d a d' h e. ground arith }

  apply_transition-Rest :
      (c : Config) (x : OrderRow) (i : TransitionOrderInput)
      → Keeps (Rest o) (apply_transition c x i)
  unfolding apply_transition
  apply_transition-Rest c x i = search rest_rules depth 20

  checked_transition-Rest :
      (c : Config) (x : OrderRow) (i : TransitionOrderInput)
      → Keeps (Rest o) (checked_transition c x i)
  unfolding checked_transition
  checked_transition-Rest c x i = search (rest_rules, apply_transition-Rest)

  pub transition_order-Rest :
      (c : Config) (i : TransitionOrderInput) → Keeps (Rest o) (transition_order c i)
  unfolding transition_order
  transition_order-Rest c i = search (rest_rules, checked_transition-Rest)

  release_message-Rest : (s : ReleaseSource) (n : ℕ) → Keeps (Rest o) (release_message s n)
  unfolding release_message
  release_message-Rest by_buyer n = search rest_rules
  release_message-Rest by_timer n = search rest_rules
  release_message-Rest by_dispute n = search rest_rules
  release_message-Rest by_service n = search rest_rules

  platform_share-Rest : (c : CurrencyCode) (fee : ℤ) → Keeps (Rest o) (platform_share c fee)
  unfolding platform_share
  platform_share-Rest c fee = search rest_rules

  pay_platform-Rest : (c : CurrencyCode) (n : Option ℤ) → Keeps (Rest o) (pay_platform c n)
  unfolding pay_platform
  pay_platform-Rest c none = search rest_rules
  pay_platform-Rest c (some n) = search rest_rules

  release_funds-Rest : (x : OrderRow) → Keeps (Rest o) (release_funds x)
  unfolding release_funds record_escrow_release_ledger
  release_funds-Rest x =
      search
        (
          rest_rules, ensure_wallet-Rest, platform_share-Rest, pay_platform-Rest,
          post_ledger_entry-Rest,
        )
        depth 40

  pub release_escrow-Rest :
      (c : Config) (n : ℕ) (i : ReleaseOptions) → Keeps (Rest o) (release_escrow c n i)
  unfolding release_escrow
  release_escrow-Rest c n i =
      search (rest_rules, release_message-Rest, transition_order-Rest, release_funds-Rest) depth 20

  refund_funds-Rest : (x : OrderRow) → Keeps (Rest o) (refund_funds x)
  unfolding refund_funds record_refund_ledger
  refund_funds-Rest x = search (rest_rules, ensure_wallet-Rest, post_ledger_entry-Rest) depth 40

  pub refund_escrow-Rest :
      (c : Config) (n : ℕ) (admin : Option ℕ) → Keeps (Rest o) (refund_escrow c n admin)
  unfolding refund_escrow
  refund_escrow-Rest c n admin =
      search (rest_rules, transition_order-Rest, refund_funds-Rest) depth 20
