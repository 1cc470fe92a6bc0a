-- ===== src/Orders/Routes/Placing.antt =====
-- `POST /orders` of backend/src/modules/orders/orders.routes.ts: what a committed order is.
use mathlib.Core.Path.{subst}
use skrynia.Prelude.{
  ℕ, zero, suc, ◌*◌, ◌-◌, ◌≤◌, ◌≡◌, ◌≢◌, refl, ap, sym, ◌∙◌, true, false, Option, none, some, any,
  ◌==◌, arith, List,
}
use skrynia.Prelude.Int.{ℤ, pos, negsuc, ◌<ℤ◌, ◌≤ℤ◌, int_laws}
use skrynia.Prelude.Table.{find, put, nat_eq}
use skrynia.Domain.Enums.{ProductStatus, pending, active, paused, blocked, deleted}
use skrynia.Domain.Money.{postgres_bigint_max, assert_postgres_bigint_range}
use skrynia.Common.Errors.{ok}
use skrynia.Db.Rows.{Db, OrderRow, ProductRow}
use skrynia.Db.Tables.{insert_order}
use skrynia.Db.Steps.{
  bind-step, guard-step, lift-step, reads-step, gets-step, product-step, range-step, pure-eq-ok,
}
use skrynia.Db.Frame.{
  SameFunds, SameFunds-trans, insert_order-SameFunds, open_conversation-SameFunds,
  create_system_message-SameFunds, record_order_event-SameFunds, enqueue_domain_event-SameFunds,
}
use skrynia.Db.Files.{SameFiles, SameFiles-refl, filed_rules}
use skrynia.Db.Keeps.{Keeps}
use skrynia.Db.Files.{Filed}
use skrynia.Orders.Escrow.{is_active}
use skrynia.Orders.Routes.{
  create_order, announce_order, sellable_product, order_amount, new_order, times_quantity,
}

is_active_eq : (s : ProductStatus) → is_active s ≡ true → s ≡ active
is_active_eq active h = refl
is_active_eq paused h = cc
is_active_eq blocked h = cc
is_active_eq deleted h = cc

-- What lets a product be sold.
sellable_product-eq-ok :
    (banned : List ℕ) (found : Option ProductRow) {p : ProductRow}
    → sellable_product banned found ≡ ok p
    → (found ≡ some p) × (p.status ≡ active) × (any (λ u. u == p.seller_id) banned ≡ false)
unfolding sellable_product
sellable_product-eq-ok banned none h = ground arith
sellable_product-eq-ok banned (some p) h = ground (arith, is_active_eq p.status)

order_amount-eq-ok :
    (price : ℤ) (quantity : ℕ) {v : ℤ}
    → order_amount price quantity ≡ ok v
    → (v ≡ times_quantity price quantity) × (v ≤ℤ postgres_bigint_max)
unfolding order_amount assert_postgres_bigint_range
order_amount-eq-ok price quantity h = (ground arith, grind int_laws)

-- A new row, filed under a new id.
insert_order-eq-ok :
    (o : OrderRow) (d : Db) {r : OrderRow} {s : Db}
    → insert_order o d ≡ ok (r, s)
    → (r ≡ record o { id = d.next_id })
      × (pos 0 <ℤ o.amount_cents)
      × (s ≡ record d { next_id = suc d.next_id; orders = put d.next_id r d.orders })
unfolding insert_order
insert_order-eq-ok o d h = (ground arith, grind int_laws, ground arith)

announce_order-Filed :
    {s : Db} (user : ℕ) (o : OrderRow) (now : ℕ) → Keeps (Filed s) (announce_order user o now)
unfolding announce_order
announce_order-Filed user o now = search filed_rules depth 20

announce_order-SameFunds :
    (user : ℕ) (o : OrderRow) (now : ℕ) (d : Db) {r : OrderRow × ℕ} {d' : Db}
    → announce_order user o now d ≡ ok (r, d')
    → SameFunds d d' × (r.0 ≡ o)
unfolding announce_order
announce_order-SameFunds user o now d h = guard-step d _ _ _ h λ _ h.
    bind-step d _ _ h λ conversation s₁ e₁ h. bind-step s₁ _ _ h λ message s₂ e₂ h.
      bind-step s₂ _ _ h λ _ s₃ e₃ h. bind-step s₃ _ _ h λ _ s₄ e₄ h.
        let (kept, here) = pure-eq-ok s₄ h in
        (
          rw (← here) (
              SameFunds-trans (open_conversation-SameFunds d _ e₁) (
                SameFunds-trans (create_system_message-SameFunds s₁ e₂) (
                  SameFunds-trans (record_order_event-SameFunds s₂ _ e₃)
                    (enqueue_domain_event-SameFunds s₃ _ e₄)))),
          ap (λ x. x.0) (sym kept),
        )

-- An amount above zero comes from a price that is not below it.
positive_price :
    (price : ℤ) (quantity : ℕ) (v : ℤ)
    → v ≡ times_quantity price quantity
    → pos 0 <ℤ v
    → (n : ℕ) × (price ≡ pos n) × (v ≡ pos (n * quantity))
positive_price (pos n) quantity v e h = (n, refl, e)
positive_price (negsuc n) zero v e h =
    let k : pos 0 <ℤ pos 0 = subst (λ x. pos 0 <ℤ x) e h in absurd (ground arith)
positive_price (negsuc n) (suc q) v e h =
    let k : pos 0 <ℤ negsuc (suc n * suc q - 1) = subst (λ x. pos 0 <ℤ x) e h in
    absurd (ground arith)

-- The order that a request of `user` for `quantity` pieces of the product `p` files.
pub record IsPlaced (user product quantity : ℕ) (p : ProductRow) (o : OrderRow) (d d' : Db)
    : Type 0 where
  pub on_sale : (p.status ≡ active) × (any (λ u. u == p.seller_id) d.banned ≡ false)
  pub other : p.seller_id ≢ user
  pub enough : quantity ≤ p.stock
  pub amount :
      (o.amount_cents ≡ times_quantity p.price_cents quantity)
      × (pos 0 <ℤ o.amount_cents)
      × (o.amount_cents ≤ℤ postgres_bigint_max)
  pub price : (n : ℕ) × (p.price_cents ≡ pos n) × (o.amount_cents ≡ pos (n * quantity))
  pub row : o ≡ record {
    id = d.next_id;
    buyer_id = user;
    seller_id = p.seller_id;
    product_id = product;
    quantity = quantity;
    amount_cents = o.amount_cents;
    fee_cents = pos 0;
    currency = p.currency;
    status = pending;
    payment_provider = none;
    payment_reference = none;
    delivery_note = none;
    auto_release_at = none;
    paid_at = none;
    delivered_at = none;
    completed_at = none;
    updated_at = d.now;
  }
  pub orders : d'.orders ≡ put d.next_id o d.orders
  pub files : (d'.topups ≡ d.topups) × (d'.payouts ≡ d.payouts) × (suc d.next_id ≤ d'.next_id)
  pub funds : SameFunds d d'

module _ (user product quantity : ℕ) (d : Db) {r : OrderRow × ℕ} {d' : Db} where
  -- A committed order is of an active product of another user, who is not banned and has that many
  -- in stock, for the product's price times the quantity, above zero and within the range of the
  -- column. It is filed as pending, with no fee and unpaid, under a new id; no other order changes, and no money moves.
  pub create_order-IsPlaced :
      create_order user product quantity d ≡ ok (r, d')
      → (p : ProductRow) × (find product d.products ≡ some p)
        × IsPlaced user product quantity p r.0 d d'
  unfolding create_order new_order
  create_order-IsPlaced h = reads-step d _ _ (product-step d _ _ h) λ p allowed h.
      guard-step d _ _ _ h λ other h. guard-step d _ _ _ h λ enough h.
        lift-step d _ _ (range-step d _ _ h) λ amount ea h.
          bind-step d _ _ (gets-step d _ _ h) λ o s₁ e₁ h.
            let (found, sold, free) = sellable_product-eq-ok d.banned _ allowed in
            let (exact, bounded) = order_amount-eq-ok p.price_cents quantity ea in
            let (made, positive, filed) = insert_order-eq-ok _ d e₁ in
            let (funds, kept) = announce_order-SameFunds user o d.now s₁ h in
            let later : SameFiles s₁ d' =
              (announce_order-Filed user o d.now).at s₁ r d' (SameFiles-refl s₁) h in
            let same : o.amount_cents ≡ amount = ap (λ x. x.amount_cents) made in
            let ids : s₁.next_id ≡ suc d.next_id = ap (λ x. x.next_id) filed in
            (
              p,
              found,
              rw kept (record {
                on_sale = (sold, free);
                other = λ e. ground arith;
                enough = ground arith;
                amount = (same ∙ exact, rw same positive, rw same bounded);
                price =
                    positive_price p.price_cents quantity o.amount_cents (same ∙ exact)
                      (rw same positive);
                row =
                    made
                    ∙ ap
                        (λ a. record (new_order user product p quantity a d.now) { id = d.next_id })
                        (sym same);
                orders = later.orders ∙ ap (λ x. x.orders) filed;
                files = (
                  later.topups ∙ ap (λ x. x.topups) filed,
                  later.payouts ∙ ap (λ x. x.payouts) filed,
                  omega (arith, later.grown),
                );
                funds = SameFunds-trans (insert_order-SameFunds d _ e₁) funds;
              }),
            )
