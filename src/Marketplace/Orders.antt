-- ===== src/Marketplace/Orders.antt =====
-- `transitionOrder` of backend/src/modules/orders/order-transition.service.ts, and what may stand round
-- it in a transaction, as moves of one order.
use skrynia.Prelude.{ℕ, ◌≡◌, refl, ap, sym, ◌∙◌, inl, inr, arith, some}
use skrynia.Prelude.Table.{find, put, nat_eq, find-put_self}
use skrynia.Domain.Enums.{OrderStatus}
use skrynia.Common.Errors.{ok}
use skrynia.Db.Rows.{Db, OrderRow}
use skrynia.Db.Files.{SameFiles}
use skrynia.Db.Requests.{SameRequests, SameRequests-refl}
use skrynia.Orders.Policy.{TransitionOrderInput}
use skrynia.Orders.Lifecycle.{Config, transition_order, advanced}
use skrynia.Orders.Lifecycle.Effects.{transition_order-ids, transition_order-SameFunds}
use skrynia.Orders.Lifecycle.Legality.{transition_order-legal}
use skrynia.Orders.Lifecycle.History.{IsKeyed, put-IsKeyed, found_after}
use skrynia.Orders.Escrow.Requests.{transition_order-Rest}
use skrynia.Orders.Books.{books, books-SameFunds}
use skrynia.Marketplace.Openings.{IsSound}
use skrynia.Marketplace.Moves.{Moved, Moved-IsSound}

-- What stands before or after a move leaves the files alone.
pub Moved-between :
    {id : ℕ} {t : OrderStatus} {a b c d : Db}
    → SameFiles a b
    → Moved id t b c
    → SameFiles c d
    → Moved id t a d
Moved-between {id} p m q = record {
  before = let (o, f, s) = m.before in (o, ap (find id) (sym p.orders) ∙ f, s);
  after = let (o, f, s) = m.after in (o, ap (find id) q.orders ∙ f, s);
  others = λ j n. ap (find j) q.orders ∙ m.others j n ∙ ap (find j) p.orders;
  keyed = λ k i o f.
      m.keyed (λ j x g. k j x (ap (find j) (sym p.orders) ∙ g)) i o
        (ap (find i) (sym q.orders) ∙ f);
  topups = q.topups ∙ m.topups ∙ p.topups;
  payouts = q.payouts ∙ m.payouts ∙ p.payouts;
  grown = omega (arith, p.grown, m.grown, q.grown);
}

-- So does a write of the order itself that keeps its id and its status.
pub Moved-put :
    {id : ℕ} {t : OrderStatus} {a b c : Db} (o x : OrderRow)
    → find id a.orders ≡ some o
    → o.id ≡ id
    → x.id ≡ o.id
    → x.status ≡ o.status
    → b ≡ record a { orders = put o.id x a.orders }
    → Moved id t b c
    → Moved id t a c
Moved-put {id} {a = a} {b = b} o x f keyed same status w m =
    let written : b.orders ≡ put o.id x a.orders = ap (λ d. d.orders) w in
    record {
      before =
          let (y, g, s) = m.before in
          let here : find id b.orders ≡ some x =
            ap (find id) (written ∙ ap (λ k. put k x a.orders) keyed)
            ∙ find-put_self id x a.orders in
          let one : y ≡ x = (cc) in (o, f, rw (← status, ← one) s);
      after = m.after;
      others = λ j n. m.others j n ∙ found_after a b o.id j x written ∙ rw (keyed, n) refl;
      keyed = λ k. m.keyed (put-IsKeyed a b o x same written k);
      topups = m.topups ∙ ap (λ d. d.topups) w;
      payouts = m.payouts ∙ ap (λ d. d.payouts) w;
      grown = let g = m.grown in let e = ap (λ d. d.next_id) w in omega arith;
    }

module _ (c : Config) (i : TransitionOrderInput) (d : Db) {r : OrderRow} {e : Db} where
  -- A committed transition moves its order to its target.
  pub transition_order-Moved :
      IsKeyed d → transition_order c i d ≡ ok (r, e) → Moved i.order_id i.to d e
  unfolding advanced
  transition_order-Moved k h =
      let (o, f, cases) = transition_order-legal c i d h in
      let rest : SameRequests d e = (transition_order-Rest c i).at d r e (SameRequests-refl d) h in
      let ids : e.next_id ≡ d.next_id = transition_order-ids c i d h in
      elim cases [
        | inl (status, _, _, same) ↦ record {
          before = (o, f, inl status);
          after = (o, ap (λ x. find i.order_id x.orders) same ∙ f, status);
          others = λ j n. ap (λ x. find j x.orders) same;
          keyed = λ k j x g. k j x (ap (λ x. find j x.orders) (sym same) ∙ g);
          topups = rest.topups;
          payouts = rest.payouts;
          grown = omega arith;
        }
        | inr (step, _, status, (_, _, _, _, made, w, _, _)) ↦
            let own : o.id ≡ i.order_id = k i.order_id o f in
            record {
              before = (o, f, inr step);
              after = (
                r,
                ap (find i.order_id) w ∙ rw own (find-put_self i.order_id r d.orders),
                status,
              );
              others = λ j n. found_after d e o.id j r w ∙ rw (own, n) refl;
              keyed = λ k. put-IsKeyed d e o r (ap (λ x. x.id) made) w k;
              topups = rest.topups;
              payouts = rest.payouts;
              grown = omega arith;
            }
      ]

  -- It moves no money.
  pub transition_order-IsSound : transition_order c i d ≡ ok (r, e) → IsSound d → IsSound e
  transition_order-IsSound h s =
      let quiet : books e ≡ books d = books-SameFunds (transition_order-SameFunds c i d h) in
      Moved-IsSound (transition_order-Moved s.keyed h) s (rw quiet (s.agree))
        (λ k _. ap (λ b. b.posted k) quiet)
