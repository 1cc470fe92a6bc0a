-- ===== src/Marketplace/Routes.antt =====
-- The handlers of backend/src/modules/orders/orders.routes.ts and the sweep of
-- backend/src/modules/orders/auto-release.job.ts keep everything sound.
use mathlib.Core.Path.{subst}
use skrynia.Prelude.{ℕ, String, ◌≡◌, refl, ap, sym, ◌∙◌, inl, inr, List, [], ◌∷◌, some, none, arith}
use skrynia.Prelude.Table.{find, put, nat_eq}
use skrynia.Domain.Enums.{in_progress, delivered}
use skrynia.Common.Errors.{ok}
use skrynia.Db.Rows.{Db, OrderRow}
use skrynia.Db.Tx.{in_tx-cases}
use skrynia.Db.Frame.{SameFunds}
use skrynia.Db.Files.{SameFiles, SameFiles-refl, create_order_system_message-Filed}
use skrynia.Db.Steps.{bind-step, guard-step, order-step}
use skrynia.Orders.Lifecycle.{Config}
use skrynia.Orders.Lifecycle.Legality.{update_order-eq-ok}
use skrynia.Orders.Lifecycle.History.{IsKeyed, put-IsKeyed}
use skrynia.Orders.Books.{books, books-SameFunds}
use skrynia.Orders.Escrow.Release.{by_timer, release_options, release_escrow}
use skrynia.Orders.Routes.{
  create_order, start_order, start_transition, deliver_order, deliver_transition, confirm_order,
}
use skrynia.Orders.Routes.Placing.{create_order-IsPlaced}
use skrynia.Orders.Routes.Fulfilling.{start_order-starts, deliver_order-delivers, confirmed}
use skrynia.Orders.AutoRelease.{release_each, run_auto_release_sweep, due_orders}
use skrynia.Marketplace.Openings.{IsSound}
use skrynia.Marketplace.Moves.{Moved, Moved-IsSound}
use skrynia.Marketplace.Orders.{Moved-between, Moved-put, transition_order-Moved}
use skrynia.Marketplace.Requests.{Filing, Filing-IsSound}
use skrynia.Marketplace.Writes.{put-cases}
use skrynia.Marketplace.Escrow.{release_escrow-IsSound}

-- What moves no money.
module _ {d d' : Db} (funds : SameFunds d d') (s : IsSound d) where
  pub Filing-quiet : {m : ℕ} → Filing m d d' → IsSound d'
  Filing-quiet r =
      let e : books d' ≡ books d = books-SameFunds funds in
      Filing-IsSound r s (rw e (s.agree)) (λ k _. ap (λ b. b.posted k) e)

  Moved-quiet : {id : ℕ} {t : _} → Moved id t d d' → IsSound d'
  Moved-quiet m =
      let e : books d' ≡ books d = books-SameFunds funds in
      Moved-IsSound m s (rw e (s.agree)) (λ k _. ap (λ b. b.posted k) e)

module _ (c : Config) (id user : ℕ) (d : Db) {r : OrderRow} {d' : Db} where
  start_order-Moved : IsKeyed d → start_order c id user d ≡ ok (r, d') → Moved id in_progress d d'
  unfolding start_order start_transition
  start_order-Moved k h = order-step d _ _ h λ o f h. guard-step d _ _ _ h λ may h.
      bind-step d _ _ h λ m s e h.
        let quiet : SameFiles d s =
          (create_order_system_message-Filed id).at d m s (SameFiles-refl d) e in
        let keyed : IsKeyed s = λ j x g. k j x (ap (find j) (sym quiet.orders) ∙ g) in
        Moved-between quiet (transition_order-Moved c (start_transition id user m) s keyed h)
          (SameFiles-refl d')

  deliver_order-Moved :
      (note : String)
      → IsKeyed d
      → deliver_order c id user note d ≡ ok (r, d')
      → Moved id delivered d d'
  unfolding deliver_order deliver_transition
  deliver_order-Moved note k h = order-step d _ _ h λ o f h. guard-step d _ _ _ h λ may h.
      bind-step d _ _ h λ _ s₁ e₁ h. bind-step s₁ _ _ h λ m s₂ e₂ h.
        let x : OrderRow = record o { delivery_note = some note } in
        let w : s₁ ≡ record d { orders = put o.id x d.orders } = update_order-eq-ok d x e₁ in
        let quiet : SameFiles s₁ s₂ =
          (create_order_system_message-Filed id).at s₁ m s₂ (SameFiles-refl s₁) e₂ in
        let keyed₁ : IsKeyed s₁ = put-IsKeyed d s₁ o x refl (ap (λ y. y.orders) w) k in
        let keyed : IsKeyed s₂ = λ j x g. keyed₁ j x (ap (find j) (sym quiet.orders) ∙ g) in
        Moved-put o x f (k id o f) refl refl w (
          Moved-between quiet (transition_order-Moved c (deliver_transition id user m) s₂ keyed h)
            (SameFiles-refl d'))

module _ (d : Db) (s : IsSound d) {d' : Db} where
  pub create_order-IsSound :
      (user product quantity : ℕ) {r : OrderRow × ℕ}
      → create_order user product quantity d ≡ ok (r, d')
      → IsSound d'
  create_order-IsSound user product quantity {r} h =
      let (p, _, placed) = create_order-IsPlaced user product quantity d h in
      let (topups, payouts, later) = placed.files in
      Filing-quiet placed.funds s {m = d.next_id} (record {
        orders = λ n o f.
            elim (put-cases d.next_id n (r.0) o d.orders (ap (find n) (sym placed.orders) ∙ f)) [
              | inl (same, one) ↦ inr (
                sym (ap (λ x. x.id) one) ∙ ap (λ x. x.id) placed.row ∙ same,
                omega arith,
                omega arith,
              )
              | inr (_, old) ↦ inl old
            ];
        topups = λ n t f. inl (t, ap (find n) (sym topups) ∙ f, λ h. h);
        payouts = λ n q f. inl (q, ap (find n) (sym payouts) ∙ f, refl, λ h. h);
        grown = omega arith;
      })

  pub start_order-IsSound :
      (c : Config) (id user : ℕ) {r : OrderRow} → start_order c id user d ≡ ok (r, d') → IsSound d'
  start_order-IsSound c id user h =
      let (_, _, _, _, _, _, funds) = start_order-starts c id user d s.keyed h in
      Moved-quiet funds s (start_order-Moved c id user d s.keyed h)

  pub deliver_order-IsSound :
      (c : Config) (id user : ℕ) (note : String) {r : OrderRow}
      → deliver_order c id user note d ≡ ok (r, d')
      → IsSound d'
  deliver_order-IsSound c id user note h =
      let (_, _, _, _, _, _, funds) = deliver_order-delivers c id user d s.keyed note h in
      Moved-quiet funds s (deliver_order-Moved c id user d note s.keyed h)

  pub confirm_order-IsSound :
      (c : Config) (id user : ℕ) {r : OrderRow}
      → confirm_order c id user d ≡ (ok r, d')
      → IsSound d'
  confirm_order-IsSound c id user h =
      release_escrow-IsSound c id d _ ((confirmed c id user d h).1) s

-- A release that throws leaves the database as it was, and the sweep goes on.
release_each-IsSound :
    (c : Config) (os : List (ℕ × OrderRow)) (d : Db) → IsSound d → IsSound (release_each c os d)
unfolding release_each
release_each-IsSound c [] d s = s
release_each-IsSound c ((id, o) ∷ os) d s =
    release_each-IsSound c os _
      (elim (in_tx-cases (release_escrow c id (release_options (some by_timer) none none)) d) [
        | inl (r, t, e, run) ↦
            subst IsSound (sym (ap (λ x. x.1) run)) (release_escrow-IsSound c id d _ e s)
        | inr (_, _, run) ↦ subst IsSound (sym (ap (λ x. x.1) run)) s
      ])

pub run_auto_release_sweep-IsSound :
    (c : Config) (d : Db) → IsSound d → IsSound (run_auto_release_sweep c d)
unfolding run_auto_release_sweep
run_auto_release_sweep-IsSound c d s = release_each-IsSound c (due_orders d) d s
