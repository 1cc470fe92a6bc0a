-- ===== src/Marketplace/Sweep.antt =====
-- The sweep of backend/src/modules/orders/auto-release.job.ts: which orders it may touch.
use skrynia.Prelude.{
  ℕ, ◌≤◌, Option, ◌≡◌, refl, ap, sym, ◌∙◌, ◌⊎◌, inl, inr, List, [], ◌∷◌, Bool, true, any, some,
  none, ◌==◌, Bool-cases, arith,
}
use skrynia.Prelude.Tests.{==_iff}
use skrynia.Prelude.Table.{find, nat_eq}
use skrynia.Prelude.Order.{IsUnique, has_key, any-filter, any-sort_by, any-take, filter, sort_by}
use skrynia.Domain.Enums.{completed, delivered, same_status_iff}
use skrynia.Db.Rows.{Db, OrderRow}
use skrynia.Db.Tx.{in_tx, in_tx-cases}
use skrynia.Orders.Lifecycle.{Config}
use skrynia.Orders.Lifecycle.History.{IsKeyed}
use skrynia.Orders.Escrow.Release.{ReleaseOptions, by_timer, release_options, release_escrow}
use skrynia.Orders.AutoRelease.{
  release_each, run_auto_release_sweep, due_orders, is_due, is_earlier, has_passed,
}
use skrynia.Marketplace.Escrow.{release_escrow-Moved}

-- An order is as it was, or it is completed and `may` holds.
abbrev IsKept : Bool → ℕ → OrderRow → Db → Type 0
IsKept may id x d =
    (y : OrderRow) × (find id d.orders ≡ some y)
    × ((y ≡ x) ⊎ ((may ≡ true) × (y.status ≡ completed)))

abbrev timed : ReleaseOptions
timed = release_options (some by_timer) none none

has_passed-time :
    (now : ℕ) (m : Option ℕ) → has_passed now m ≡ true → (at : ℕ) × (m ≡ some at) × (at ≤ now)
has_passed-time now none h = absurd (cc)
has_passed-time now (some at) h = (at, refl, ground arith)

is_due-delivered : (now : ℕ) (x : OrderRow) → is_due now x ≡ true → x.status ≡ delivered
is_due-delivered now x h = ground (arith, same_status_iff x.status delivered)

is_due-passed :
    (now : ℕ) (x : OrderRow)
    → is_due now x ≡ true
    → (at : ℕ) × (x.auto_release_at ≡ some at) × (at ≤ now)
is_due-passed now x h = has_passed-time now x.auto_release_at (ground arith)

-- Only due orders are listed.
is_due-listed :
    (d : Db) (id : ℕ) (x : OrderRow)
    → IsUnique d.orders
    → find id d.orders ≡ some x
    → any (has_key id) (due_orders d) ≡ true
    → is_due d.now x ≡ true
unfolding due_orders
is_due-listed d id x u f h =
    let due : ℕ × OrderRow → Bool = λ e. is_due d.now (e.1) in
    sym (any-filter due id d.orders u ∙ rw f refl)
    ∙ sym (any-sort_by (has_key id) is_earlier (filter due d.orders))
    ∙ any-take (has_key id) 25 (sort_by is_earlier (filter due d.orders)) h

module _ (c : Config) where
  -- One release, committed or rolled back.
  release-IsKept :
      (j id : ℕ) (x : OrderRow) (d : Db)
      → IsKeyed d
      → find id d.orders ≡ some x
      → IsKeyed ((in_tx (release_escrow c j timed) d).1)
        × IsKept (j == id) id x ((in_tx (release_escrow c j timed) d).1)
  release-IsKept j id x d k f = elim (in_tx-cases (release_escrow c j timed) d) [
    | inr (_, _, run) ↦ rw run (k, (x, f, inl refl))
    | inl (r, s, e, run) ↦
        let (_, _, _, m) = release_escrow-Moved c j d timed k e in
        rw run (
          m.keyed k,
          elim (Bool-cases (j == id)) [
            | inl same ↦
                let (y, fy, status) = m.after in
                (y, ap (λ i. find i s.orders) (sym ((==_iff j id).0 same)) ∙ fy, inr (same, status))
            | inr other ↦ (x, m.others id other ∙ f, inl refl)
          ],
        )
  ]

  release_each-IsKept :
      (os : List (ℕ × OrderRow)) (id : ℕ) (x : OrderRow) (d : Db)
      → IsKeyed d
      → find id d.orders ≡ some x
      → IsKept (any (has_key id) os) id x (release_each c os d)
  unfolding release_each
  release_each-IsKept [] id x d k f = (x, f, inl refl)
  release_each-IsKept ((j, o) ∷ os) id x d k f =
      let (k', (y, fy, first)) = release-IsKept j id x d k f in
      let (z, fz, rest) = release_each-IsKept os id y _ k' fy in
      (
        z,
        fz,
        elim rest [
          | inr (later, status) ↦ inr (ground arith, status)
          | inl same ↦ elim first [
            | inl kept ↦ inl (same ∙ kept)
            | inr (now, status) ↦ inr (ground arith, ap (λ r. r.status) same ∙ status)
          ]
        ],
      )

  -- The sweep leaves every order as it was, but those that were delivered and whose time had come,
  -- which it may have completed.
  pub run_auto_release_sweep-due :
      (d : Db) (id : ℕ) (x : OrderRow)
      → IsKeyed d
      → IsUnique d.orders
      → find id d.orders ≡ some x
      → (y : OrderRow) × (find id (run_auto_release_sweep c d).orders ≡ some y)
        × ((y ≡ x)
            ⊎ ((x.status ≡ delivered)
                × ((at : ℕ) × (x.auto_release_at ≡ some at) × (at ≤ d.now))
                × (y.status ≡ completed)))
  unfolding run_auto_release_sweep due_orders
  run_auto_release_sweep-due d id x k u f =
      let (y, fy, kept) = release_each-IsKept (due_orders d) id x d k f in
      (
        y,
        fy,
        elim kept [
          | inl same ↦ inl same
          | inr (due, status) ↦
              let listed = is_due-listed d id x u f due in
              inr (is_due-delivered d.now x listed, is_due-passed d.now x listed, status)
        ],
      )
