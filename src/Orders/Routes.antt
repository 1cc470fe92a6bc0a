-- ===== src/Orders/Routes.antt =====
-- backend/src/modules/orders/orders.routes.ts: the handlers that write, as transactions on inputs that
-- the schemas have parsed. Authentication, caches, the replay of a request by its key and the
-- mapping of rows to responses are left out.
pub mod Placing
pub mod Fulfilling
pub mod Reviews
use text.Mathlib.Text.{◌==◌ as str_eq}
use skrynia.Prelude.{
  ℕ, zero, ◌-◌, ◌*◌, String, List, [], ◌∷◌, Bool, true, false, not, ◌&&◌, ◌||◌, any, Option, none,
  some, ◌==◌, ltb, if◌then◌else◌, suc,
}
use skrynia.Prelude.Int.{ℤ, pos, negsuc, ltb_ℤ}
use skrynia.Prelude.Table.{◌=?◌, find, nat_eq}
use skrynia.Domain.Enums.{status_eq, pending, paid, in_progress, delivered, completed}
use skrynia.Domain.Money.{assert_postgres_bigint_range, postgres_bigint_max}
use skrynia.Common.Errors.{Error, Result, ok, err, api, bad_request, forbidden, not_found}
use skrynia.Db.Keys.{order_created, review_created}
use skrynia.Db.Rows.{
  Db, OrderRow, ProductRow, ReviewRow, OrderEventType, created_event, review_event, seller,
  seller_started, seller_delivered, OrderTransitionActor,
}
use skrynia.Db.Tx.{Tx, Action, ◌>>=◌, ◌>>◌, pure, throw_if, lift, gets, reads, in_tx}
use skrynia.Db.Tables.{
  select_order, select_product, insert_order, open_conversation, create_system_message,
  create_order_system_message, record_order_event, enqueue_domain_event, update_order,
  insert_review,
}
use skrynia.Orders.Transitions.{can_transition_order}
use skrynia.Orders.Policy.{TransitionOrderInput, new_event}
use skrynia.Orders.Lifecycle.{Config, transition_order}
use skrynia.Orders.Escrow.{is_active, message_ids}
use skrynia.Orders.Escrow.Release.{by_buyer, release_options, release_escrow}

-- `!product || product.status !== "active" || product.is_banned`, the join with the seller in it.
unfoldable pub sellable_product : List ℕ → Option ProductRow → Result ProductRow
sellable_product banned none = err (not_found "Product is unavailable")
sellable_product banned (some p) =
    if is_active p.status && not (any (λ u. u == p.seller_id) banned)
    then ok p
    else err (not_found "Product is unavailable")

-- `parseMoneyCents(…) * BigInt(quantity)`.
abbrev pub times_quantity : ℤ → ℕ → ℤ
times_quantity (pos n) q = pos (n * q)
times_quantity (negsuc n) zero = pos 0
times_quantity (negsuc n) (suc q) = negsuc (suc n * suc q - 1)

-- The amount of an order.
unfoldable pub order_amount : ℤ → ℕ → Result ℤ
order_amount price quantity =
    if ltb_ℤ postgres_bigint_max (times_quantity price quantity)
    then err (bad_request "Order amount is too large")
    else assert_postgres_bigint_range (times_quantity price quantity)

-- The row that `POST /orders` inserts, by the defaults of the table.
unfoldable pub new_order : ℕ → ℕ → ProductRow → ℕ → ℤ → ℕ → OrderRow
new_order buyer product p quantity amount now = record {
  id = 0;
  buyer_id = buyer;
  seller_id = p.seller_id;
  product_id = product;
  quantity = quantity;
  amount_cents = amount;
  fee_cents = pos 0;
  currency = p.currency;
  status = pending;
  payment_provider = none;
  payment_reference = none;
  delivery_note = none;
  auto_release_at = none;
  paid_at = none;
  delivered_at = none;
  completed_at = none;
  updated_at = now;
}

-- A timeline row that no transition wrote.
abbrev pub plain_event : ℕ → ℕ → OrderEventType → Tx (Unit {0})
plain_event order user type =
    record_order_event (record {
      order_id = order;
      actor_id = some user;
      type = type;
      body = none;
      transition = none;
    })

-- What `POST /orders` writes after the order.
unfoldable pub announce_order : ℕ → OrderRow → ℕ → Tx (OrderRow × ℕ)
announce_order user o now = do
  throw_if (user == o.seller_id) (bad_request "You cannot message yourself")
  conversation ← open_conversation o.id
  message ← create_system_message
  plain_event o.id user created_event
  enqueue_domain_event (new_event (order_created o.id) o.id (message ∷ []) now)
  pure (o, conversation)

-- `execute` of `POST /orders`.
unfoldable pub create_order : ℕ → ℕ → ℕ → Tx (OrderRow × ℕ)
create_order user product quantity = do
  found ← select_product product
  p ← reads (λ d. sellable_product d.banned found)
  throw_if (p.seller_id == user) (bad_request "You cannot buy your own listing")
  throw_if (ltb p.stock quantity) (bad_request "Not enough stock")
  price ← lift (assert_postgres_bigint_range p.price_cents)
  amount ← lift (order_amount price quantity)
  now ← gets (λ d. d.now)
  o ← insert_order (new_order user product p quantity amount now)
  announce_order user o now

abbrev pub selling : ℕ → OrderTransitionActor
selling user = record { id = some user; role = seller }

unfoldable pub start_transition : ℕ → ℕ → Option ℕ → TransitionOrderInput
start_transition id user message = record {
  order_id = id;
  to = in_progress;
  actor = selling user;
  reason = seller_started;
  expected_from = some (paid ∷ []);
  dispute_reason = none;
  dispute_id = none;
  system_message_ids = message_ids message;
}

-- `POST /orders/:id/start`.
unfoldable pub start_order : Config → ℕ → ℕ → Tx OrderRow
start_order c id user = do
  o ← select_order id
  throw_if (not (o.seller_id == user) || not (can_transition_order o.status in_progress))
      (bad_request "Only the seller can start a paid order")
  message ← create_order_system_message id
  transition_order c (start_transition id user message)

unfoldable pub deliver_transition : ℕ → ℕ → Option ℕ → TransitionOrderInput
deliver_transition id user message = record {
  order_id = id;
  to = delivered;
  actor = selling user;
  reason = seller_delivered;
  expected_from = some (paid ∷ in_progress ∷ []);
  dispute_reason = none;
  dispute_id = none;
  system_message_ids = message_ids message;
}

-- `POST /orders/:id/deliver`.
unfoldable pub deliver_order : Config → ℕ → ℕ → String → Tx OrderRow
deliver_order c id user note = do
  o ← select_order id
  throw_if (not (o.seller_id == user) || not (can_transition_order o.status delivered))
      (bad_request "Only the seller can deliver an active escrowed order")
  update_order (record o { delivery_note = some note })
  message ← create_order_system_message id
  transition_order c (deliver_transition id user message)

-- A transaction after a read that may throw.
abbrev pub after_read : {A : Type 0} → Result (Unit {0}) → Action A → Action A
after_read (ok u) m d = m d
after_read (err e) m d = (err e, d)

-- The read of `POST /orders/:id/confirm`, outside the transaction of the release.
unfoldable pub confirmable : ℕ → ℕ → Db → Result (Unit {0})
confirmable id user d = allowed (find id d.orders)
  where
    allowed : Option OrderRow → Result (Unit {0})
    allowed none = err (not_found "Order not found")
    allowed (some o) =
        if not (o.buyer_id == user)
        then err (forbidden "Only the buyer can confirm delivery")
        else if not (o.status =? delivered)
        then err (bad_request "Only delivered orders can be confirmed")
        else ok tt

-- `POST /orders/:id/confirm`, when nothing runs between its read and the release.
unfoldable pub confirm_order : Config → ℕ → ℕ → Action OrderRow
confirm_order c id user d =
    after_read (confirmable id user d)
      (in_tx (release_escrow c id (release_options (some by_buyer) none (some user)))) d

-- `sameRequest` of `POST /orders/:id/review`.
abbrev pub same_comment : Option String → Option String → Bool
same_comment none none = true
same_comment (some a) (some b) = str_eq a b
same_comment _ _ = false

unfoldable pub is_same_review : ReviewRow → ℕ → Option String → Bool
is_same_review r rating comment = (r.rating == rating) && same_comment r.comment comment

pub review_conflict : Error
review_conflict = api (record {
  status = 409;
  message = "This order already has a different review";
  code = "review_already_exists";
})

-- A first review, and the reply to a repeated one.
unfoldable pub write_review : ℕ → OrderRow → ℕ → ℕ → Option String → Tx (ReviewRow × Bool)
write_review id o user rating comment = do
  throw_if (not (o.status =? completed))
      (bad_request "Reviews are allowed only after completed orders")
  now ← gets (λ d. d.now)
  r ← insert_review id (record {
    id = 0;
    seller_id = o.seller_id;
    buyer_id = o.buyer_id;
    rating = rating;
    comment = comment;
  })
  plain_event id user review_event
  enqueue_domain_event (new_event (review_created r.id) id [] now)
  pure (r, true)

unfoldable pub repeat_review : ReviewRow → ℕ → Option String → Tx (ReviewRow × Bool)
repeat_review r rating comment = do
  throw_if (not (is_same_review r rating comment)) review_conflict
  pure (r, false)

unfoldable pub by_existing :
    Option ReviewRow → ℕ → OrderRow → ℕ → ℕ → Option String → Tx (ReviewRow × Bool)
by_existing none id o user rating comment = write_review id o user rating comment
by_existing (some r) id o user rating comment = repeat_review r rating comment

-- `POST /orders/:id/review`.
unfoldable pub review_order : ℕ → ℕ → ℕ → Option String → Tx (ReviewRow × Bool)
review_order id user rating comment = do
  o ← select_order id
  throw_if (not (o.buyer_id == user)) (forbidden "Only the buyer can review this order")
  existing ← gets (λ d. find id d.reviews)
  by_existing existing id o user rating comment
