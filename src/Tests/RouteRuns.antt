-- ===== src/Tests/RouteRuns.antt =====
-- That the fixture runs of the routes commit, and what they start from.
use skrynia.Prelude.{◌≡◌, refl, true, arith}
use skrynia.Prelude.Table.{nat_eq}
use skrynia.Domain.Enums.{currency_eq}
use skrynia.Db.Keys.{wallet_eq, key_eq}
use skrynia.Orders.Books.{books}
use skrynia.Orders.Lifecycle.History.{IsKeyed}
use skrynia.Prelude.Table.{find}
use skrynia.Orders.Routes.{confirmable}
use skrynia.Marketplace.Openings.{IsSound}
use skrynia.Prelude.Order.{IsUnique}
use skrynia.Common.Errors.{ok}
use skrynia.Tests.Fixtures.{
  is_ok, start, paid_out, delivered_out, created_run, handed_run, reviewed_run,
}
use skrynia.Tests.Runs.{start_agrees}
use skrynia.Tests.Services.{services}

pub created_ok : is_ok created_run ≡ true
unfolding services
created_ok = refl

pub handed_ok : is_ok handed_run ≡ true
unfolding services
handed_ok = refl

pub reviewed_ok : is_ok reviewed_run ≡ true
unfolding services
reviewed_ok = refl

pub delivery_confirmable : confirmable 1 10 delivered_out.1 ≡ ok tt
unfolding services
delivery_confirmable = refl

pub start-IsKeyed : IsKeyed start
unfolding find
start-IsKeyed id o h = ground arith

pub start-IsUnique : IsUnique start.orders
unfolding find
start-IsUnique = (refl, tt)

pub paid-IsKeyed : IsKeyed paid_out.1
unfolding services
paid-IsKeyed id o h = ground arith

pub start-IsSound : IsSound start
unfolding find books
start-IsSound = record {
  agree = start_agrees;
  unposted = λ k o. refl;
  keyed = start-IsKeyed;
  alone = λ m n p q f g e. absurd (cc);
  used_order = λ n o f. ground arith;
  used_topup = λ n t f. ground arith;
  used_payout = λ n p f. absurd (cc);
}
