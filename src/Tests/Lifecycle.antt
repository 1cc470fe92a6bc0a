-- ===== src/Tests/Lifecycle.antt =====
-- The theorems on the order graph, on transitions and on the ledger, at the fixture orders.
use skrynia.Prelude.{ℕ, ◌≡◌, refl, ◌⊎◌, ◌↔◌, none, some, true, ◌&&◌, suc, ◌≤◌, ◌<◌, ◌*◌, arith}
use skrynia.Prelude.Int.{pos}
use skrynia.Prelude.Table.{find, nat_eq}
use skrynia.Domain.Enums.{pending, delivered, uah}
use skrynia.Domain.Money.{platform_fee_cents}
use skrynia.Domain.Money.Bounds.{platform_fee_cents-floor}
use skrynia.Common.Errors.{ok}
use skrynia.Db.Rows.{OrderRow, seller, seller_delivered}
use skrynia.Orders.Accounting.Balance.{trial_balance}
use skrynia.Orders.Accounting.Balance.Posting.{post_ledger_entry-trial_balance}
use skrynia.Orders.Lifecycle.Repeats.{IsRecorded}
use skrynia.Orders.Lifecycle.Legality.{transition_order-legal, IsWritten}
use skrynia.Orders.Lifecycle.History.{Runs, stop, next, Runs-follow}
use skrynia.Orders.Policy.{permission, role_of, policy_to, policy_roles, has_role}
use skrynia.Orders.Policy.Authority.{IsGenuine, permission_iff}
use skrynia.Orders.Transitions.{has_status}
use skrynia.Orders.Transitions.Graph.{◌⟶◌, ◌⟶*◌}
use skrynia.Orders.Lifecycle.{expects, advanced, transition_order}
use skrynia.Orders.Lifecycle.Success.{transition_order-commits}
use skrynia.Orders.Policy.{event_descriptor, event_key_of}
use skrynia.Orders.Transitions.Graph.{cancel}
use skrynia.Db.Rows.{Db, canceled_event, test_payment_failed}
use skrynia.Domain.Enums.{canceled}
use skrynia.Db.Keys.{order_canceled}
use skrynia.Tests.Fixtures.{
  committed, config, start, an_order, paid_out, delivery, delivered_run, delivered_out, two_orders,
  cancellation, canceled_run, canceled_out, balanced_entry, posting_run, posting_out,
}
use skrynia.Tests.Runs.{delivered_ok, canceled_ok, posting_ok, two_orders-IsKeyed, second_filed}

handed_over : delivered_run ≡ ok delivered_out
handed_over = committed paid_out delivered_run delivered_ok

called_off : canceled_run ≡ ok canceled_out
called_off = committed (an_order uah, two_orders) canceled_run canceled_ok

entered : posting_run ≡ ok posting_out
entered = committed (none, start) posting_run posting_ok

one_step : Runs config two_orders canceled_out.1
one_step = next cancellation canceled_out.0 called_off stop

transition_order-legal_example :
    (o : OrderRow) × (find 1 paid_out.1.orders ≡ some o)
    × (((o.status ≡ delivered)
          × IsRecorded delivery o paid_out.1.order_events
          × (delivered_out.0 ≡ o)
          × (delivered_out.1 ≡ paid_out.1))
        ⊎ ((o.status ⟶ delivered)
            × (permission o delivery.actor seller_delivered delivered (role_of paid_out.1 (some 20))
                ≡ ok tt)
            × (delivered_out.0.status ≡ delivered)
            × IsWritten config delivery o delivered_out.0 paid_out.1 delivered_out.1))
transition_order-legal_example = transition_order-legal config delivery paid_out.1 handed_over

Runs-follow_example :
    (y : OrderRow) × (find 2 canceled_out.1.orders ≡ some y) × (pending ⟶* y.status)
Runs-follow_example =
    Runs-follow config one_step two_orders-IsKeyed 2 (record (an_order uah) { id = 2 }) second_filed

permission_iff_example :
    (permission
        (an_order uah)
        (record { id = some 20; role = seller })
        seller_delivered
        delivered
        none
      ≡ ok tt)
    ↔ ((has_status delivered (policy_to seller_delivered)
            && has_role seller (policy_roles seller_delivered)
          ≡ true)
        × IsGenuine (an_order uah) (some 20) seller none)
permission_iff_example =
    permission_iff (an_order uah) (some 20) none seller seller_delivered delivered

post_ledger_entry-trial_balance_example :
    trial_balance posting_out.1.ledger.lines ≡ trial_balance start.ledger.lines
post_ledger_entry-trial_balance_example =
    post_ledger_entry-trial_balance balanced_entry start entered

platform_fee_cents-floor_example :
    (fee : ℕ) × (platform_fee_cents (pos 1999) (pos 500) ≡ ok (pos fee))
    × (fee ≤ 1999)
    × (fee * 10_000 ≤ 1999 * 500)
    × (1999 * 500 < suc fee * 10_000)
platform_fee_cents-floor_example = platform_fee_cents-floor 1999 500 (omega arith) (omega arith)

failure_described : event_descriptor cancellation ≡ ok (canceled_event, none)
unfolding event_descriptor
failure_described = refl

failure_keyed : event_key_of test_payment_failed 2 none ≡ ok (order_canceled 2)
unfolding event_key_of
failure_keyed = refl

failure_expected : expects cancellation.expected_from pending ≡ true
unfolding expects
failure_expected = refl

failure_allowed :
    permission
      (record (an_order uah) { id = 2 })
      cancellation.actor
      test_payment_failed
      canceled
      (role_of two_orders (some 10))
    ≡ ok tt
unfolding permission policy_to policy_roles find
failure_allowed = refl

transition_order-commits_example :
    (d' : Db) × (transition_order config cancellation two_orders
      ≡ ok (advanced config (record (an_order uah) { id = 2 }) canceled 100, d'))
transition_order-commits_example =
    transition_order-commits config cancellation two_orders (record (an_order uah) { id = 2 })
      (canceled_event, none) (order_canceled 2) failure_described failure_keyed second_filed refl
      failure_expected cancel failure_allowed
