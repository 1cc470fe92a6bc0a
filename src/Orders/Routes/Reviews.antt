-- ===== src/Orders/Routes/Reviews.antt =====
-- `POST /orders/:id/review` of backend/src/modules/orders/orders.routes.ts: an order is reviewed once.
use mathlib.Core.Path.{subst}
use text.Mathlib.TextEquality.{eq_iff}
use skrynia.Prelude.{
  ℕ, String, ◌≡◌, refl, ap, sym, ◌∙◌, ◌⊎◌, inl, inr, true, false, Bool, Option, none, some, ◌==◌,
  arith, if◌then◌else◌, Option-cases, Bool-cases, not,
}
use skrynia.Prelude.Table.{find, nat_eq, find-put_self}
use skrynia.Domain.Enums.{completed, same_status_iff}
use skrynia.Common.Errors.{ok, err, api}
use skrynia.Db.Rows.{Db, OrderRow, ReviewRow, OrderEvent, OutboxRow}
use skrynia.Db.Tx.{◌>>=◌, throw_if, gets, pure}
use skrynia.Db.Tables.{select_order, insert_review, record_order_event, enqueue_domain_event}
use skrynia.Db.Steps.{bind-step, guard-step, gets-step, order-step, pure-eq-ok}
use skrynia.Orders.Routes.{
  review_order, by_existing, write_review, repeat_review, same_comment, is_same_review,
  review_conflict,
}

-- The row of a first review.
insert_review-eq-ok :
    (id : ℕ) (x : ReviewRow) (d : Db) {r : ReviewRow} {s : Db}
    → insert_review id x d ≡ ok (r, s)
    → (r ≡ record x { id = d.next_id })
      × (s.orders ≡ d.orders)
      × (find id s.reviews ≡ some r)
      × (find id d.reviews ≡ none)
unfolding insert_review
insert_review-eq-ok id x d h = elim (Option-cases (find id d.reviews)) [
  | inl e ↦ (
    ground arith,
    ground arith,
    ground (arith, find-put_self id (record x { id = d.next_id }) d.reviews),
    e,
  )
  | inr (old, e) ↦ ground arith
]

module _ (d : Db) {s : Db} where
  event-kept :
      (e : OrderEvent) {u : Unit {0}}
      → record_order_event e d ≡ ok (u, s)
      → (s.orders ≡ d.orders) × (s.reviews ≡ d.reviews)
  unfolding record_order_event
  event-kept e h = (ground arith, ground arith)

  enqueued-kept :
      (e : OutboxRow) {r : OutboxRow}
      → enqueue_domain_event e d ≡ ok (r, s)
      → (s.orders ≡ d.orders) × (s.reviews ≡ d.reviews)
  unfolding enqueue_domain_event
  enqueued-kept e h = (ground arith, ground arith)

-- The reply where the order has a review.
review_again :
    (id : ℕ) (o : OrderRow) (user rating : ℕ) (comment : Option String) (x : ReviewRow) (d : Db)
    → find id d.orders ≡ some o
    → not (o.buyer_id == user) ≡ false
    → find id d.reviews ≡ some x
    → review_order id user rating comment d
      ≡ (if is_same_review x rating comment then ok ((x, false), d) else err review_conflict)
unfolding review_order by_existing repeat_review select_order ◌>>=◌ throw_if gets pure
review_again id o user rating comment x d f own there =
    elim (Bool-cases (is_same_review x rating comment)) [
      | inl y ↦ rw (f, own, there, y) refl
      | inr n ↦ rw (f, own, there, n) refl
    ]

-- A review says the same.
abbrev pub IsSame : ReviewRow → ℕ → Option String → Type 0
IsSame x rating comment = (x.rating ≡ rating) × (x.comment ≡ comment)

same_comment_iff : (a b : Option String) → same_comment a b ≡ true → a ≡ b
same_comment_iff none none h = refl
same_comment_iff none (some b) h = absurd (cc)
same_comment_iff (some a) none h = absurd (cc)
same_comment_iff (some a) (some b) h = ap some ((eq_iff a b).0 h)

same_comment_refl : (a : Option String) → same_comment a a ≡ true
same_comment_refl none = refl
same_comment_refl (some a) = (eq_iff a a).1 refl

is_same_review-IsSame :
    (x : ReviewRow) (rating : ℕ) (comment : Option String)
    → is_same_review x rating comment ≡ true
    → IsSame x rating comment
unfolding is_same_review
is_same_review-IsSame x rating comment h =
    (ground arith, same_comment_iff x.comment comment (ground arith))

IsSame-is_same_review :
    (x : ReviewRow) (rating : ℕ) (comment : Option String)
    → IsSame x rating comment
    → is_same_review x rating comment ≡ true
unfolding is_same_review
IsSame-is_same_review x rating comment (stars, words) =
    rw (stars, words) (ground (arith, same_comment_refl comment))

-- What the review of a request leaves: the row, new or old, says what the request said, and the order
-- is as it was.
abbrev pub IsReviewed : ℕ → OrderRow → ℕ → Option String → ReviewRow × Bool → Db → Db → Type 0
IsReviewed id o rating comment r d d' =
    (find id d'.reviews ≡ some r.0)
    × (d'.orders ≡ d.orders)
    × (((r.1 ≡ true)
          × (find id d.reviews ≡ none)
          × (o.status ≡ completed)
          × (r.0.buyer_id ≡ o.buyer_id)
          × (r.0.seller_id ≡ o.seller_id))
        ⊎ ((r.1 ≡ false) × (d' ≡ d)))
    × IsSame r.0 rating comment

module _ (id : ℕ) (o : OrderRow) (user rating : ℕ) (comment : Option String) (d : Db)
    {r : ReviewRow × Bool} {d' : Db} where
  write_review-IsReviewed :
      write_review id o user rating comment d ≡ ok (r, d') → IsReviewed id o rating comment r d d'
  unfolding write_review
  write_review-IsReviewed h = guard-step d _ _ _ h λ done h.
      bind-step d _ _ (gets-step d _ _ h) λ row s₁ e₁ h. bind-step s₁ _ _ h λ _ s₂ e₂ h.
        bind-step s₂ _ _ h λ _ s₃ e₃ h.
          let (row_made, kept, there, first) = insert_review-eq-ok id _ d e₁ in
          let (result, here) = pure-eq-ok s₃ h in
          let (orders₂, reviews₂) = event-kept s₁ _ e₂ in
          let (orders₃, reviews₃) = enqueued-kept s₂ _ e₃ in
          let (result, here) = pure-eq-ok s₃ h in
          (
            ap (λ x. find id x.reviews) (sym here)
                ∙ ap (find id) (reviews₃ ∙ reviews₂)
                ∙ there
                ∙ ap (λ x. some (x.0)) result,
            ap (λ x. x.orders) (sym here) ∙ orders₃ ∙ orders₂ ∙ kept,
            inl (
              ap (λ x. x.1) (sym result),
              first,
              ground (arith, same_status_iff o.status completed),
              ap (λ x. x.0.buyer_id) (sym result) ∙ ap (λ x. x.buyer_id) row_made,
              ap (λ x. x.0.seller_id) (sym result) ∙ ap (λ x. x.seller_id) row_made,
            ),
            (
              ap (λ x. x.0.rating) (sym result) ∙ ap (λ x. x.rating) row_made,
              ap (λ x. x.0.comment) (sym result) ∙ ap (λ x. x.comment) row_made,
            ),
          )

  by_existing-IsReviewed :
      (existing : Option ReviewRow)
      → find id d.reviews ≡ existing
      → by_existing existing id o user rating comment d ≡ ok (r, d')
      → IsReviewed id o rating comment r d d'
  unfolding by_existing repeat_review
  by_existing-IsReviewed none e h = write_review-IsReviewed h
  by_existing-IsReviewed (some x) e h = guard-step d _ _ _ h λ accepted h.
      let (result, here) = pure-eq-ok d h in
      (
        ap (λ y. find id y.reviews) (sym here) ∙ e ∙ ap (λ y. some (y.0)) result,
        ap (λ y. y.orders) (sym here),
        inr (ap (λ y. y.1) (sym result), sym here),
        subst (λ y. IsSame y.0 rating comment) result
            (is_same_review-IsSame x rating comment (ground arith)),
      )

-- A review that commits is of an order of the user, which it leaves as it is, and the review of the
-- order then says what the user said. It is the first one, and the order is completed, or it was there
-- and nothing changes. After it every review of the order by the user returns the same row and changes
-- nothing where its rating and comment are the same, and is refused as a conflict where they are not.
pub review_order-once :
    (id user rating : ℕ) (comment : Option String) (d : Db) {r : ReviewRow × Bool} {d' : Db}
    → review_order id user rating comment d ≡ ok (r, d')
    → (o : OrderRow) × (find id d.orders ≡ some o)
      × (o.buyer_id ≡ user)
      × IsReviewed id o rating comment r d d'
      × ((rating' : ℕ) (comment' : Option String)
          → (IsSame (r.0) rating' comment'
              × (review_order id user rating' comment' d' ≡ ok ((r.0, false), d')))
            ⊎ ((¬ IsSame (r.0) rating' comment')
                × (review_order id user rating' comment' d'
                    ≡ err (
                        api (record {
                          status = 409;
                          message = "This order already has a different review";
                          code = "review_already_exists";
                        })))))
unfolding review_order review_conflict
review_order-once id user rating comment d {r} {d'} h = order-step d _ _ h λ o f h.
    guard-step d _ _ _ h λ own h.
      let reviewed : IsReviewed id o rating comment r d d' =
        by_existing-IsReviewed id o user rating comment d (find id d.reviews) refl
          (gets-step d _ _ h) in
      let (there, orders, _, _) = reviewed in
      (
        o,
        f,
        ground arith,
        reviewed,
        λ rating' comment'.
            let reply =
              review_again id o user rating' comment' (r.0) d' (ap (find id) orders ∙ f) own
                there in
            elim (Bool-cases (is_same_review (r.0) rating' comment')) [
              | inl y ↦ inl (is_same_review-IsSame (r.0) rating' comment' y, reply ∙ rw y refl)
              | inr n ↦ inr (
                λ same. let y = IsSame-is_same_review (r.0) rating' comment' same in absurd (cc),
                reply ∙ rw n refl,
              )
            ],
      )
