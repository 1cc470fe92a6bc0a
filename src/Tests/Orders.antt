-- ===== src/Tests/Orders.antt =====
-- The theorems on orders and escrow at the fixture order.
use skrynia.Prelude.{◌≡◌, refl, none}
use skrynia.Prelude.Table.{nat_eq}
use skrynia.Domain.Enums.{uah, eur}
use skrynia.Common.Errors.{ok}
use skrynia.Db.Rows.{mock}
use skrynia.Orders.Books.{books}
use skrynia.Orders.Escrow.Capture.{capture_spec, lock_escrow-books}
use skrynia.Orders.Escrow.Release.{release_escrow}
use skrynia.Orders.Escrow.Settlement.{release_spec, release_escrow-books}
use skrynia.Orders.Escrow.Restitution.{refund_spec, refund_escrow-books}
use skrynia.Orders.Escrow.Shortfall.{release_escrow-shortfall}
use skrynia.Tests.Fixtures.{
  committed, config, provider, start, start_of, an_order, paid_run, paid_out, delivered_run,
  delivered_out, by_the_buyer, released_run, released_out, refunded_run, refunded_out,
}
use skrynia.Tests.Runs.{
  paid_ok, delivered_ok, released_ok, refunded_ok, order_filed, delivered_filed,
  foreign_order_filed, foreign_wallet_missing,
}

paid : paid_run ≡ ok paid_out
paid = committed (an_order uah, start) paid_run paid_ok

handed_over : delivered_run ≡ ok delivered_out
handed_over = committed paid_out delivered_run delivered_ok

released : released_run ≡ ok released_out
released = committed delivered_out released_run released_ok

refunded : refunded_run ≡ ok refunded_out
refunded = committed delivered_out refunded_run refunded_ok

lock_escrow-books_example : books paid_out.1 ≡ capture_spec (an_order uah) (books start)
lock_escrow-books_example =
    lock_escrow-books config provider 1 10 mock none none start (an_order uah) order_filed paid

release_escrow-books_example :
    books released_out.1 ≡ release_spec delivered_out.0 (books delivered_out.1)
release_escrow-books_example =
    release_escrow-books config 1 by_the_buyer delivered_out.1 delivered_out.0 delivered_filed
      released

refund_escrow-books_example :
    books refunded_out.1 ≡ refund_spec delivered_out.0 (books delivered_out.1)
refund_escrow-books_example =
    refund_escrow-books config 1 none delivered_out.1 delivered_out.0 delivered_filed refunded

release_escrow-shortfall_example :
    ¬ (release_escrow config 1 by_the_buyer (start_of eur) ≡ ok (an_order eur, start_of eur))
release_escrow-shortfall_example =
    release_escrow-shortfall config 1 by_the_buyer (start_of eur) (an_order eur) foreign_order_filed
      refl foreign_wallet_missing (an_order eur) (start_of eur)
