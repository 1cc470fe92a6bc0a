-- ===== src/Orders/AutoRelease.antt =====
-- backend/src/modules/orders/auto-release.job.ts: the sweep that releases delivered orders whose time
-- has come. The timer that calls it, its guard against a second sweep in the same process and the
-- log are left out.
use skrynia.Prelude.{ℕ, List, [], ◌∷◌, Bool, false, ◌&&◌, Option, none, some, ltb, leb}
use skrynia.Prelude.Table.{◌=?◌}
use skrynia.Prelude.Order.{filter, sort_by, take}
use skrynia.Domain.Enums.{status_eq, delivered}
use skrynia.Db.Rows.{Db, OrderRow}
use skrynia.Db.Tx.{in_tx}
use skrynia.Orders.Lifecycle.{Config}
use skrynia.Orders.Escrow.Release.{by_timer, release_options, release_escrow}

-- `status = 'delivered' and auto_release_at is not null and auto_release_at <= now()`.
abbrev pub has_passed : ℕ → Option ℕ → Bool
has_passed now none = false
has_passed now (some at) = leb at now

abbrev pub is_due : ℕ → OrderRow → Bool
is_due now o = (o.status =? delivered) && has_passed now o.auto_release_at

-- `order by auto_release_at asc`; a missing time does not occur among the due ones.
abbrev pub release_time : Option ℕ → ℕ
release_time none = 0
release_time (some at) = at

abbrev pub is_earlier : ℕ × OrderRow → ℕ × OrderRow → Bool
is_earlier (i, a) (j, b) = ltb (release_time a.auto_release_at) (release_time b.auto_release_at)

-- The query of the sweep: at most 25 orders.
unfoldable pub due_orders : Db → List (ℕ × OrderRow)
due_orders d = take 25 (sort_by is_earlier (filter (λ (id, o). is_due d.now o) d.orders))

-- One release after another, each in a transaction of its own; an error is logged, and the sweep
-- goes on.
unfoldable pub release_each : Config → List (ℕ × OrderRow) → Db → Db
release_each c [] d = d
release_each c ((id, o) ∷ os) d =
    release_each c os
      ((in_tx (release_escrow c id (release_options (some by_timer) none none)) d).1)

-- `runAutoReleaseSweep`, when nothing runs between its transactions.
unfoldable pub run_auto_release_sweep : Config → Db → Db
run_auto_release_sweep c d = release_each c (due_orders d) d
