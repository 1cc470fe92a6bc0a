-- ===== src/Orders/Escrow/Files.antt =====
-- The money of the operations of backend/src/modules/orders/ledger.service.ts leaves orders, top-ups
-- and payouts alone.
use skrynia.Prelude.{ℕ, Option, none, some, arith}
use skrynia.Prelude.Int.{ℤ}
use skrynia.Domain.Enums.{CurrencyCode}
use skrynia.Common.Errors.{Result}
use skrynia.Db.Keys.{LedgerKey}
use skrynia.Db.Rows.{Db, OrderRow, Ledger}
use skrynia.Db.Keeps.{Keeps}
use skrynia.Db.Files.{Filed, filed_rules}
use skrynia.Orders.Accounting.{LedgerEntryInput, on_ledger, post_ledger_entry}
use skrynia.Orders.Bookings.{record_escrow_release_ledger, record_refund_ledger}
use skrynia.Orders.Escrow.{ensure_wallet}
use skrynia.Orders.Escrow.Release.{
  ReleaseSource, by_buyer, by_timer, by_dispute, by_service, release_message, platform_share,
  pay_platform, release_funds,
}
use skrynia.Orders.Escrow.Refund.{refund_funds}

module _ {o : Db} where
  on_ledger-Filed :
      (f : Ledger → Result (Option LedgerKey × Ledger)) → Keeps (Filed o) (on_ledger f)
  unfolding on_ledger
  on_ledger-Filed f = record { at = λ d a d' h e. ground arith }

  pub post_ledger_entry-Filed : (i : LedgerEntryInput) → Keeps (Filed o) (post_ledger_entry i)
  unfolding post_ledger_entry
  post_ledger_entry-Filed i = search (filed_rules, on_ledger-Filed)

  pub ensure_wallet-Filed : (u : ℕ) (c : CurrencyCode) → Keeps (Filed o) (ensure_wallet u c)
  unfolding ensure_wallet
  ensure_wallet-Filed u c = record { at = λ d a d' h e. ground arith }

  pub release_message-Filed : (s : ReleaseSource) (n : ℕ) → Keeps (Filed o) (release_message s n)
  unfolding release_message
  release_message-Filed by_buyer n = search filed_rules
  release_message-Filed by_timer n = search filed_rules
  release_message-Filed by_dispute n = search filed_rules
  release_message-Filed by_service n = search filed_rules

  platform_share-Filed : (c : CurrencyCode) (fee : ℤ) → Keeps (Filed o) (platform_share c fee)
  unfolding platform_share
  platform_share-Filed c fee = search filed_rules

  pay_platform-Filed : (c : CurrencyCode) (n : Option ℤ) → Keeps (Filed o) (pay_platform c n)
  unfolding pay_platform
  pay_platform-Filed c none = search filed_rules
  pay_platform-Filed c (some n) = search filed_rules

  pub release_funds-Filed : (x : OrderRow) → Keeps (Filed o) (release_funds x)
  unfolding release_funds record_escrow_release_ledger
  release_funds-Filed x =
      search
        (
          filed_rules, ensure_wallet-Filed, platform_share-Filed, pay_platform-Filed,
          post_ledger_entry-Filed,
        )
        depth 40

  pub refund_funds-Filed : (x : OrderRow) → Keeps (Filed o) (refund_funds x)
  unfolding refund_funds record_refund_ledger
  refund_funds-Filed x = search (filed_rules, ensure_wallet-Filed, post_ledger_entry-Filed) depth 40
