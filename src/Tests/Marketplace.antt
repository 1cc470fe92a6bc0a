-- ===== src/Tests/Marketplace.antt =====
-- The theorems on the routes, the sweep and the runs of the marketplace, at the fixture orders.
use skrynia.Prelude.{ℕ, String, ◌+◌, ◌*◌, ◌≤◌, ◌≡◌, ◌⊎◌, refl, none, some, false, Option, arith}
use skrynia.Prelude.Table.{find, nat_eq}
use skrynia.Domain.Enums.{uah, delivered, completed, paid, in_progress}
use skrynia.Common.Errors.{ok, err, api}
use skrynia.Db.Rows.{Db, OrderRow, ProductRow, mock}
use skrynia.Db.Tx.{in_tx, in_tx-ok}
use skrynia.Db.Frame.{SameFunds}
use skrynia.Orders.Books.{books}
use skrynia.Orders.Escrow.Release.{release_options}
use skrynia.Orders.Escrow.Settlement.{release_spec}
use skrynia.Orders.Routes.{confirm_order, review_order}
use skrynia.Orders.Routes.Placing.{IsPlaced, create_order-IsPlaced}
use skrynia.Orders.Routes.Fulfilling.{deliver_order-delivers, confirm_order-pays}
use skrynia.Orders.Routes.Reviews.{IsReviewed, IsSame, review_order-once}
use skrynia.Orders.AutoRelease.{run_auto_release_sweep, release_each, due_orders}
use skrynia.Prelude.Order.{IsUnique, filter, sort_by, insert_by, take}
use skrynia.Orders.Lifecycle.History.{IsKeyed}
use skrynia.Tests.Services.{services}
use skrynia.Marketplace.Openings.{IsSound}
use skrynia.Marketplace.Runs.{Steps, stop, next, pays, delivers, Steps-IsSound}
use skrynia.Marketplace.Sweep.{run_auto_release_sweep-due}
use skrynia.Tests.Fixtures.{
  committed, config, provider, start, an_order, paid_run, paid_out, delivered_out, released_run,
  released_out, created_run, created_out, handed_run, handed_out, reviewed_run, reviewed_out,
  no_review,
}
use skrynia.Tests.Runs.{paid_ok, released_ok}
use skrynia.Tests.RouteRuns.{
  created_ok, handed_ok, reviewed_ok, delivery_confirmable, paid-IsKeyed, start-IsSound,
}

paid_for : paid_run ≡ ok paid_out
paid_for = committed (an_order uah, start) paid_run paid_ok

handed : handed_run ≡ ok handed_out
handed = committed paid_out handed_run handed_ok

created : created_run ≡ ok created_out
created = committed ((an_order uah, 0), start) created_run created_ok

released : released_run ≡ ok released_out
released = committed delivered_out released_run released_ok

reviewed : reviewed_run ≡ ok reviewed_out
reviewed = committed ((no_review, false), start) reviewed_run reviewed_ok

paid_and_delivered : Steps config start handed_out.1
paid_and_delivered =
    next (pays provider 1 10 mock none none paid_for) (next (delivers 1 20 "the key" handed) stop)

Steps-IsSound_example : IsSound handed_out.1
Steps-IsSound_example = Steps-IsSound paid_and_delivered start-IsSound

create_order-IsPlaced_example :
    (p : ProductRow) × (find 5 start.products ≡ some p)
    × IsPlaced 10 5 2 p created_out.0.0 start created_out.1
create_order-IsPlaced_example = create_order-IsPlaced 10 5 2 start created

deliver_order-delivers_example :
    (o : OrderRow) × (find 1 paid_out.1.orders ≡ some o)
    × (o.seller_id ≡ 20)
    × ((o.status ≡ paid) ⊎ (o.status ≡ in_progress))
    × (handed_out.0 ≡ record o {
      status = delivered;
      delivery_note = some "the key";
      delivered_at = some paid_out.1.now;
      auto_release_at = some (paid_out.1.now + config.auto_release_hours * 3_600_000);
      updated_at = paid_out.1.now;
    })
    × (find 1 handed_out.1.orders ≡ some handed_out.0)
    × SameFunds paid_out.1 handed_out.1
deliver_order-delivers_example =
    deliver_order-delivers config 1 20 paid_out.1 paid-IsKeyed "the key" handed

confirmation : confirm_order config 1 10 delivered_out.1 ≡ (ok released_out.0, released_out.1)
unfolding confirm_order release_options
confirmation = rw delivery_confirmable (in_tx-ok _ delivered_out.1 released)

confirm_order-pays_example :
    (o : OrderRow) × (find 1 delivered_out.1.orders ≡ some o)
    × (o.buyer_id ≡ 10)
    × (o.status ≡ delivered)
    × (books released_out.1 ≡ release_spec o (books delivered_out.1))
confirm_order-pays_example = confirm_order-pays config 1 10 delivered_out.1 confirmation

review_order-once_example :
    (o : OrderRow) × (find 1 released_out.1.orders ≡ some o)
    × (o.buyer_id ≡ 10)
    × IsReviewed 1 o 5 (some "fast") reviewed_out.0 released_out.1 reviewed_out.1
    × ((rating : ℕ) (comment : Option String)
        → (IsSame reviewed_out.0.0 rating comment
            × (review_order 1 10 rating comment reviewed_out.1
                ≡ ok ((reviewed_out.0.0, false), reviewed_out.1)))
          ⊎ ((¬ IsSame reviewed_out.0.0 rating comment)
              × (review_order 1 10 rating comment reviewed_out.1
                  ≡ err (
                      api (record {
                        status = 409;
                        message = "This order already has a different review";
                        code = "review_already_exists";
                      })))))
review_order-once_example = review_order-once 1 10 5 (some "fast") released_out.1 reviewed

abbrev overdue : Db
overdue = record delivered_out.1 { now = 900_000_000 }

overdue-IsKeyed : IsKeyed overdue
unfolding services
overdue-IsKeyed id o h = ground arith

overdue-IsUnique : IsUnique overdue.orders
unfolding services
overdue-IsUnique = (refl, tt)

overdue_filed : find 1 overdue.orders ≡ some delivered_out.0
unfolding services
overdue_filed = refl

abbrev swept_order : OrderRow
swept_order = record delivered_out.0 {
  status = completed;
  completed_at = some 900_000_000;
  updated_at = 900_000_000;
}

-- The delivered order, when its time has come: the sweep completes it.
swept : find 1 (run_auto_release_sweep config overdue).orders ≡ some swept_order
unfolding services run_auto_release_sweep release_each due_orders filter sort_by insert_by take
    in_tx release_options
swept = refl

run_auto_release_sweep-due_example :
    (y : OrderRow) × (find 1 (run_auto_release_sweep config overdue).orders ≡ some y)
    × ((y ≡ delivered_out.0)
        ⊎ ((delivered_out.0.status ≡ delivered)
            × ((at : ℕ) × (delivered_out.0.auto_release_at ≡ some at) × (at ≤ overdue.now))
            × (y.status ≡ completed)))
run_auto_release_sweep-due_example =
    run_auto_release_sweep-due config overdue 1 delivered_out.0 overdue-IsKeyed overdue-IsUnique
      overdue_filed
