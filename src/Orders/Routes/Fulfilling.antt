-- ===== src/Orders/Routes/Fulfilling.antt =====
-- The handlers of backend/src/modules/orders/orders.routes.ts by which the seller starts and delivers
-- an order and the buyer confirms it: whose requests commit, and what they leave.
use skrynia.Prelude.{
  ℕ, ◌+◌, ◌*◌, String, ◌≡◌, refl, ap, sym, ◌∙◌, ◌⊎◌, inl, inr, true, false, Option, none, some,
  ◌==◌, arith, Bool, [], ◌∷◌, not, ◌||◌, Option-cases,
}
use skrynia.Prelude.Tests.{==_iff}
use skrynia.Prelude.Table.{find, put, nat_eq, find-put_self}
use skrynia.Domain.Enums.{OrderStatus, paid, in_progress, delivered, status_eq, same_status_iff}
use skrynia.Common.Errors.{Result, ok, err}
use skrynia.Db.Rows.{Db, OrderRow}
use skrynia.Db.Tx.{Action, in_tx-eq-ok}
use skrynia.Db.Tables.{create_order_system_message}
use skrynia.Db.Frame.{
  SameFunds, SameFunds-trans, update_order-SameFunds, create_order_system_message-SameFunds,
}
use skrynia.Db.Files.{SameFiles, SameFiles-refl, create_order_system_message-Filed}
use skrynia.Db.Steps.{bind-step, guard-step, order-step}
use skrynia.Orders.Transitions.Graph.{
  ◌⟶◌, can_transition_order_iff, start, pay_instant, deliver_paid, deliver_started,
}
use skrynia.Orders.Policy.{TransitionOrderInput}
use skrynia.Orders.Lifecycle.{Config, advanced, transition_order, expects}
use skrynia.Orders.Lifecycle.Effects.{
  transition_order-SameFunds, transition_order-eq-ok, checked_transition-eq-ok,
}
use skrynia.Orders.Lifecycle.Legality.{transition_order-legal, update_order-eq-ok, repeat-status}
use skrynia.Orders.Lifecycle.History.{IsKeyed}
use skrynia.Orders.Books.{books}
use skrynia.Orders.Escrow.Settlement.{release_escrow-books, release_spec}
use skrynia.Orders.Escrow.Release.{by_buyer, release_options, release_escrow}
use skrynia.Orders.Routes.{
  start_order, start_transition, deliver_order, deliver_transition, confirm_order, confirmable,
  after_read,
}

guard-holds : (a b : Bool) → (not a || not b) ≡ false → (a ≡ true) × (b ≡ true)
guard-holds a b h = (ground arith, ground arith)

message-now :
    (id : ℕ) (d : Db) {m : Option ℕ} {s : Db}
    → create_order_system_message id d ≡ ok (m, s)
    → s.now ≡ d.now
unfolding create_order_system_message
message-now id d h = ground arith

-- A transition of an order that is not in its target status writes the advanced row.
transition_order-writes :
    (c : Config) (i : TransitionOrderInput) (o : OrderRow) (d : Db) {r : OrderRow} {d' : Db}
    → find i.order_id d.orders ≡ some o
    → o.id ≡ i.order_id
    → ¬ (o.status ≡ i.to)
    → transition_order c i d ≡ ok (r, d')
    → (r ≡ advanced c o i.to d.now) × (find i.order_id d'.orders ≡ some r)
transition_order-writes c i o d {r} {d'} f own n h =
    let (x, fx, cases) = transition_order-legal c i d h in
    let one : x ≡ o = (cc) in
    elim cases [
      | inl (status, _, _, _) ↦ absurd (n (ap (λ y. y.status) (sym one) ∙ status))
      | inr (_, _, _, (_, _, _, _, made, w, _, _)) ↦ (
        made ∙ ap (λ y. advanced c y i.to d.now) one,
        ap (find i.order_id)
              (w ∙ ap (λ y. put y.id r d.orders) one ∙ ap (λ k. put k r d.orders) own)
            ∙ find-put_self i.order_id r d.orders,
      )
    ]

started-from : {s : OrderStatus} → s ⟶ in_progress → s ≡ paid
started-from start = refl

-- It started from a status that its caller expects.
transition_order-expected :
    (c : Config) (i : TransitionOrderInput) (o : OrderRow) (d : Db) {r : OrderRow} {d' : Db}
    → find i.order_id d.orders ≡ some o
    → ¬ (o.status ≡ i.to)
    → transition_order c i d ≡ ok (r, d')
    → expects i.expected_from o.status ≡ true
transition_order-expected c i o d f n h =
    let (x, fx, cases) = transition_order-eq-ok c i d h in
    let one : x ≡ o = (cc) in
    elim cases [
      | inl (_, _, repeat) ↦
          absurd (n (ap (λ y. y.status) (sym one) ∙ repeat-status c i x d.order_events repeat))
      | inr checked ↦
          ap (λ y. expects i.expected_from y.status) (sym one)
          ∙ (checked_transition-eq-ok c x i d checked).0
    ]

not-delivered : {s : OrderStatus} → s ⟶ delivered → ¬ (s ≡ delivered)
not-delivered pay_instant h = ground arith
not-delivered deliver_paid h = ground arith
not-delivered deliver_started h = ground arith

delivers-from :
    (s : OrderStatus)
    → expects (some (paid ∷ in_progress ∷ [])) s ≡ true
    → (s ≡ paid) ⊎ (s ≡ in_progress)
unfolding expects
delivers-from s h = ground (arith, same_status_iff s paid, same_status_iff s in_progress)

delivered_row :
    (c : Config) (o : OrderRow) (note : String) (now : ℕ)
    → (o.status ≡ paid) ⊎ (o.status ≡ in_progress)
    → advanced c (record o { delivery_note = some note }) delivered now ≡ record o {
      status = delivered;
      delivery_note = some note;
      delivered_at = some now;
      auto_release_at = some (now + c.auto_release_hours * 3_600_000);
      updated_at = now;
    }
unfolding advanced
delivered_row c o note now (inl was) = rw was refl
delivered_row c o note now (inr was) = rw was refl

module _ (c : Config) (id user : ℕ) (d : Db) {r : OrderRow} {d' : Db} (keyed : IsKeyed d) where
  -- A committed start was made by the seller of a paid order, which is then in progress; no money
  -- moves.
  pub start_order-starts :
      start_order c id user d ≡ ok (r, d')
      → (o : OrderRow) × (find id d.orders ≡ some o)
        × (o.seller_id ≡ user)
        × (o.status ≡ paid)
        × (r ≡ advanced c o in_progress d.now)
        × (find id d'.orders ≡ some r)
        × SameFunds d d'
  unfolding start_order start_transition
  start_order-starts h = order-step d _ _ h λ o f h. guard-step d _ _ _ h λ may h.
      bind-step d _ _ h λ m s e h.
        let (own, can) = guard-holds (o.seller_id == user) _ may in
        let was : o.status ≡ paid =
          started-from ((can_transition_order_iff o.status in_progress).0 can) in
        let quiet : SameFiles d s =
          (create_order_system_message-Filed id).at d m s (SameFiles-refl d) e in
        let (made, there) =
          transition_order-writes c (start_transition id user m) o s (ap (find id) quiet.orders ∙ f)
            (keyed id o f) (λ h. ground arith) h in
        (
          o,
          f,
          (==_iff o.seller_id user).0 own,
          was,
          made ∙ ap (advanced c o in_progress) (message-now id d e),
          there,
          SameFunds-trans (create_order_system_message-SameFunds d id e)
              (transition_order-SameFunds c _ s h),
        )

  -- Where every order is filed under its id, a committed delivery was made by the seller of an order that was paid or in progress. The order
  -- is then delivered, from this moment and with the note, and its release falls due after the hours
  -- that are set; the rest of its row stays, and no money moves.
  pub deliver_order-delivers :
      (note : String)
      → deliver_order c id user note d ≡ ok (r, d')
      → (o : OrderRow) × (find id d.orders ≡ some o)
        × (o.seller_id ≡ user)
        × ((o.status ≡ paid) ⊎ (o.status ≡ in_progress))
        × (r ≡ record o {
          status = delivered;
          delivery_note = some note;
          delivered_at = some d.now;
          auto_release_at = some (d.now + c.auto_release_hours * 3_600_000);
          updated_at = d.now;
        })
        × (find id d'.orders ≡ some r)
        × SameFunds d d'
  unfolding deliver_order deliver_transition
  deliver_order-delivers note h = order-step d _ _ h λ o f h. guard-step d _ _ _ h λ may h.
      bind-step d _ _ h λ _ s₁ e₁ h. bind-step s₁ _ _ h λ m s₂ e₂ h.
        let (own, can) = guard-holds (o.seller_id == user) _ may in
        let x : OrderRow = record o { delivery_note = some note } in
        let other : ¬ (o.status ≡ delivered) =
          not-delivered ((can_transition_order_iff o.status delivered).0 can) in
        let w : s₁ ≡ record d { orders = put o.id x d.orders } = update_order-eq-ok d x e₁ in
        let quiet : SameFiles s₁ s₂ =
          (create_order_system_message-Filed id).at s₁ m s₂ (SameFiles-refl s₁) e₂ in
        let there : find id s₂.orders ≡ some x =
          ap (find id)
            (quiet.orders ∙ ap (λ y. y.orders) w ∙ ap (λ k. put k x d.orders) (keyed id o f))
          ∙ find-put_self id x d.orders in
        let now : s₂.now ≡ d.now = message-now id s₁ e₂ ∙ ap (λ y. y.now) w in
        let i : TransitionOrderInput = deliver_transition id user m in
        let was = delivers-from o.status (transition_order-expected c i x s₂ there other h) in
        let (made, filed) = transition_order-writes c i x s₂ there (keyed id o f) other h in
        (
          o,
          f,
          (==_iff o.seller_id user).0 own,
          was,
          made ∙ ap (advanced c x delivered) now ∙ delivered_row c o note d.now was,
          filed,
          SameFunds-trans (update_order-SameFunds d x e₁) (
              SameFunds-trans (create_order_system_message-SameFunds s₁ id e₂)
                (transition_order-SameFunds c _ s₂ h)),
        )

confirmable-eq-ok :
    (id user : ℕ) (d : Db) {u : Unit {0}}
    → confirmable id user d ≡ ok u
    → (o : OrderRow) × (find id d.orders ≡ some o) × (o.buyer_id ≡ user) × (o.status ≡ delivered)
unfolding confirmable
confirmable-eq-ok id user d h = elim (Option-cases (find id d.orders)) [
  | inl e ↦ ground arith
  | inr (o, e) ↦ (o, e, ground arith, ground (arith, same_status_iff o.status delivered))
]

after_read-eq-ok :
    {A : Type 0} (q : Result (Unit {0})) (m : Action A) (d : Db) {a : A} {d' : Db}
    → after_read q m d ≡ (ok a, d')
    → (q ≡ ok tt) × (m d ≡ (ok a, d'))
after_read-eq-ok (ok tt) m d h = (refl, h)
after_read-eq-ok (err e) m d h = absurd (cc)

pub confirmed :
    (c : Config) (id user : ℕ) (d : Db) {r : OrderRow} {d' : Db}
    → confirm_order c id user d ≡ (ok r, d')
    → (confirmable id user d ≡ ok tt)
      × (release_escrow c id (release_options (some by_buyer) none (some user)) d ≡ ok (r, d'))
unfolding confirm_order
confirmed c id user d h =
    let (read, run) = after_read-eq-ok (confirmable id user d) _ d h in (read, in_tx-eq-ok _ d run)

-- A confirmation that returns was made by the buyer of a delivered order, and has paid the seller and
-- the platform as a release does.
pub confirm_order-pays :
    (c : Config) (id user : ℕ) (d : Db) {r : OrderRow} {d' : Db}
    → confirm_order c id user d ≡ (ok r, d')
    → (o : OrderRow) × (find id d.orders ≡ some o)
      × (o.buyer_id ≡ user)
      × (o.status ≡ delivered)
      × (books d' ≡ release_spec o (books d))
confirm_order-pays c id user d h =
    let (read, run) = confirmed c id user d h in
    let (o, f, own, status) = confirmable-eq-ok id user d read in
    (o, f, own, status, release_escrow-books c id _ d o f run)
