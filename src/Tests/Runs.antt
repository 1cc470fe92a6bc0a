-- ===== src/Tests/Runs.antt =====
-- That the fixture runs of orders commit, and the rows that they leave.
use skrynia.Prelude.{◌≡◌, refl, true, some, none, arith}
use skrynia.Prelude.Table.{nat_eq}
use skrynia.Domain.Enums.{currency_eq, uah, eur}
use skrynia.Db.Keys.{wallet_eq, key_eq}
use skrynia.Orders.Books.{books}
use skrynia.Orders.Lifecycle.History.{IsKeyed}
use skrynia.Orders.Reconciliation.{IsReconciled}
use skrynia.Prelude.Table.{find}
use skrynia.Tests.Fixtures.{
  is_ok, two_orders, canceled_run, posting_run, start, start_of, an_order, delivered_out, paid_run,
  delivered_run, released_run, refunded_run,
}
use skrynia.Tests.Services.{services}

pub paid_ok : is_ok paid_run ≡ true
unfolding services
paid_ok = refl

pub delivered_ok : is_ok delivered_run ≡ true
unfolding services
delivered_ok = refl

pub canceled_ok : is_ok canceled_run ≡ true
unfolding services
canceled_ok = refl

pub released_ok : is_ok released_run ≡ true
unfolding services
released_ok = refl

pub refunded_ok : is_ok refunded_run ≡ true
unfolding services
refunded_ok = refl

pub order_filed : find 1 start.orders ≡ some (an_order uah)
unfolding find
order_filed = refl

pub foreign_order_filed : find 1 (start_of eur).orders ≡ some (an_order eur)
unfolding find
foreign_order_filed = refl

pub foreign_wallet_missing : find eur (start_of eur).platform_wallets ≡ none
unfolding find
foreign_wallet_missing = refl

pub delivered_filed : find 1 delivered_out.1.orders ≡ some delivered_out.0
unfolding services
delivered_filed = refl

pub start_agrees : IsReconciled (books start)
unfolding books find
start_agrees = record { available = λ w. refl; escrow = λ w. refl; revenue = λ c. ground arith }

pub two_orders-IsKeyed : IsKeyed two_orders
unfolding find
two_orders-IsKeyed id o h = ground arith

pub second_filed : find 2 two_orders.orders ≡ some (record (an_order uah) { id = 2 })
unfolding find
second_filed = refl

pub posting_ok : is_ok posting_run ≡ true
unfolding services
posting_ok = refl
