-- ===== src/Orders/Lifecycle/History.antt =====
-- Histories of an order: any sequence of committed calls of `transitionOrder`
-- (backend/src/modules/orders/order-transition.service.ts), by whomever and for whatever orders.
use skrynia.Prelude.{
  ◌==◌, if◌then◌else◌, ℕ, ◌≡◌, refl, ap, sym, ◌∙◌, inl, inr, arith, some, Bool-cases,
}
use skrynia.Prelude.Tests.{==_iff}
use skrynia.Prelude.Table.{find, put, nat_eq, find-put}
use skrynia.Domain.Enums.{OrderStatus}
use skrynia.Common.Errors.{ok}
use skrynia.Db.Rows.{Db, OrderRow}
use skrynia.Orders.Transitions.Graph.{◌⟶◌, ◌⟶*◌, here, along, IsTerminal, terminal_absorbs}
use skrynia.Orders.Policy.{TransitionOrderInput}
use skrynia.Orders.Lifecycle.{Config, transition_order, advanced}
use skrynia.Orders.Lifecycle.Legality.{transition_order-legal}

-- A sequence of committed transitions.
pub data Runs (c : Config) : Db → Db → Type 0 where
  stop : {d : Db} → Runs c d d
  next :
      {d e f : Db} (i : TransitionOrderInput) (r : OrderRow)
      → transition_order c i d ≡ ok (r, e)
      → Runs c e f
      → Runs c d f

-- Every order is filed under its id.
abbrev pub IsKeyed : Db → Type 0
IsKeyed d = (id : ℕ) (o : OrderRow) → find id d.orders ≡ some o → o.id ≡ id

join : {s t u : OrderStatus} → s ⟶* t → t ⟶* u → s ⟶* u
join here r = r
join (along e q) r = along e (join q r)

-- The row of an order after one row was written.
pub found_after :
    (d e : Db) (k id : ℕ) (r : OrderRow)
    → e.orders ≡ put k r d.orders
    → find id e.orders ≡ (if k == id then some r else find id d.orders)
found_after d e k id r w = ap (find id) w ∙ find-put k id r d.orders

-- A written row that keeps its id keeps every order filed under its id.
pub put-IsKeyed :
    (d e : Db) (o r : OrderRow)
    → r.id ≡ o.id
    → e.orders ≡ put o.id r d.orders
    → IsKeyed d
    → IsKeyed e
put-IsKeyed d e o r same w k id x f = ground (arith, found_after d e o.id id r w, k id x)

-- An order that is written along an edge, or is another one.
put-follows :
    (d e : Db) (o r : OrderRow) (id : ℕ) (x : OrderRow)
    → find o.id d.orders ≡ some o
    → o.status ⟶ r.status
    → e.orders ≡ put o.id r d.orders
    → find id d.orders ≡ some x
    → (y : OrderRow) × (find id e.orders ≡ some y) × (x.status ⟶* y.status)
put-follows d e o r id x fo step w fx = elim (Bool-cases (o.id == id)) [
  | inl y ↦
      let same : o.id ≡ id = (==_iff o.id id).0 y in
      let one : o ≡ x = (cc (sym fo ∙ ap (λ j. find j d.orders) same ∙ fx)) in
      (r, found_after d e o.id id r w ∙ rw y refl, rw (← one) (along step here))
  | inr n ↦ (x, found_after d e o.id id r w ∙ rw n fx, here)
]

module _ (c : Config) where
  -- One committed transition.
  transition_order-follows :
      (i : TransitionOrderInput) (d : Db) {r : OrderRow} {e : Db}
      → IsKeyed d
      → transition_order c i d ≡ ok (r, e)
      → IsKeyed e
        × ((id : ℕ) (x : OrderRow)
            → find id d.orders ≡ some x
            → (y : OrderRow) × (find id e.orders ≡ some y) × (x.status ⟶* y.status))
  unfolding advanced
  transition_order-follows i d {r} {e} k h =
      let (o, found, cases) = transition_order-legal c i d h in
      elim cases [
        | inl (_, _, _, same) ↦ rw same (k, λ id x f. (x, f, here))
        | inr (step, _, status, (_, _, _, _, made, w, _, _)) ↦
            let kept : r.id ≡ o.id = ap (λ x. x.id) made in
            let there : find o.id d.orders ≡ some o =
              ap (λ j. find j d.orders) (k i.order_id o found) ∙ found in
            (
              put-IsKeyed d e o r kept w k,
              λ id x f. put-follows d e o r id x there (rw status step) w f,
            )
      ]

  -- Through any sequence of committed transitions, every order stays on file, and its status moves
  -- along the edges of the order graph only.
  pub Runs-follow :
      {d e : Db}
      → Runs c d e
      → IsKeyed d
      → (id : ℕ) (o : OrderRow) → find id d.orders ≡ some o
      → (y : OrderRow) × (find id e.orders ≡ some y) × (o.status ⟶* y.status)
  Runs-follow stop k id o f = (o, f, here)
  Runs-follow (next {d = d} i r h rest) k id o f =
      let (k', follows) = transition_order-follows i d k h in
      let (x, fx, q) = follows id o f in
      let (y, fy, q') = Runs-follow rest k' id x fx in (y, fy, join q q')

  -- An order that is completed, refunded or canceled has that status after any sequence of
  -- committed transitions.
  settled_for_good :
      {d e : Db}
      → Runs c d e
      → IsKeyed d
      → (id : ℕ) (o : OrderRow) → find id d.orders ≡ some o
      → IsTerminal o.status
      → (y : OrderRow) × (find id e.orders ≡ some y) × (y.status ≡ o.status)
  settled_for_good runs k id o f t =
      let (y, fy, q) = Runs-follow runs k id o f in (y, fy, sym (terminal_absorbs q t))
