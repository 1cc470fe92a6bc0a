-- ===== src/Db/Tables.antt =====
-- Reads and writes of the tables with the constraints that the migrations put on them: a write that
-- breaks a CHECK raises a database error, which ends the transaction.
use skrynia.Prelude.{
  is_some, ◌&&◌, ℕ, suc, ◌+◌, ◌-◌, Bool, true, false, not, ◌||◌, Option, none, some, ◌∷◌, ltb,
  if◌then◌else◌,
}
use skrynia.Prelude.Int.{ℤ, pos, ltb_ℤ}
use skrynia.Prelude.Table.{find, put, nat_eq}
use skrynia.Domain.Enums.{
  CurrencyCode, currency_eq, DisputeStatus, DisputeDecision, same_decision, open_dispute, resolving,
  resolution_failed, resolved,
}
use skrynia.Common.Errors.{
  Error, Result, ok, err, pg, check_violation, unique_violation, plain, not_found,
}
use skrynia.Db.Keys.{WalletId, wallet_eq, event_key_eq}
use skrynia.Db.Rows.{
  WalletRow, OrderRow, ProductRow, TransactionRow, TransactionType, TransactionStatus, Direction,
  manual_adjustment, OrderEvent, OutboxRow, TopupRow, PayoutRow, DisputeRow, ReviewRow,
}
use skrynia.Db.Tx.{Tx}

-- `result.rows[0]`, where the code needs a row.
abbrev pub row_or {ℓ} : {A : Type ℓ} → Option A → Error → Result A
row_or none e = err e
row_or (some a) e = ok a

abbrev pub reading : {A : Type 0} → Result A → Tx A
reading (ok a) d = ok (a, d)
reading (err e) d = err e

-- `gen_random_uuid()` and `nanoid()`: an id that no row has.
unfoldable pub fresh_id : Tx ℕ
fresh_id d = ok (d.next_id, record d { next_id = suc d.next_id })

-- `select … from wallets where id = $1 for update`.
unfoldable pub select_wallet : WalletId → Tx WalletRow
select_wallet w d = reading (row_or (find w d.wallets) (plain "wallet row is missing")) d

-- A wallet row meets its checks: no balance is negative.
abbrev pub wallet_fits : WalletRow → Bool
wallet_fits row = not (ltb_ℤ row.available_cents (pos 0) || ltb_ℤ row.escrow_cents (pos 0))

-- `update wallets set … where id = $1`, by what it makes of the row; no row, no write.
unfoldable pub update_wallet : WalletId → (WalletRow → WalletRow) → Tx (Unit {0})
update_wallet w change d = elim (find w d.wallets) [
  | none ↦ ok (tt, d)
  | some row ↦
      if wallet_fits (change row)
      then ok (tt, record d { wallets = put w (change row) d.wallets })
      else err (pg check_violation)
]

-- `select revenue_cents from platform_wallets where currency = $1 for update`.
unfoldable pub select_platform_wallet : CurrencyCode → Tx (Option ℤ)
select_platform_wallet c d = ok (find c d.platform_wallets, d)

-- `update platform_wallets set revenue_cents = $1 where currency = $2`.
unfoldable pub update_platform_wallet : CurrencyCode → ℤ → Tx (Unit {0})
update_platform_wallet c revenue d = elim (find c d.platform_wallets) [
  | none ↦ ok (tt, d)
  | some old ↦
      if ltb_ℤ revenue (pos 0)
      then err (pg check_violation)
      else ok (tt, record d { platform_wallets = put c revenue d.platform_wallets })
]

-- The types that the check on `transactions.type` lists; no migration widens it.
unfoldable pub is_allowed_type : TransactionType → Bool
is_allowed_type manual_adjustment = false
is_allowed_type _ = true

-- `insert into transactions(…) returning id`.
unfoldable pub insert_transaction :
    WalletId → Option ℕ → TransactionType → Direction → ℤ → TransactionStatus → Tx ℕ
unfolding is_allowed_type
insert_transaction w order type direction amount status d =
    if ltb_ℤ amount (pos 0) || not (is_allowed_type type)
    then err (pg check_violation)
    else ok (d.next_id, record d { next_id = suc d.next_id; transactions = row ∷ d.transactions })
  where
    row : TransactionRow
    row = record {
      id = d.next_id;
      wallet_id = w;
      order_id = order;
      type = type;
      direction = direction;
      amount_cents = amount;
      status = status;
    }

-- `selectOrderForUpdate` of backend/src/modules/orders/order-transition.service.ts.
unfoldable pub select_order : ℕ → Tx OrderRow
select_order id d = reading (row_or (find id d.orders) (not_found "Order not found")) d

-- `update orders set … where id = $1`, for a row that was read.
unfoldable pub update_order : OrderRow → Tx (Unit {0})
update_order o d = ok (tt, record d { orders = put o.id o d.orders })

-- `insert into orders(…) returning …`, of a new row, with its checks.
unfoldable pub insert_order : OrderRow → Tx OrderRow
insert_order o d =
    let row = record o { id = d.next_id } in
    if ltb 0 o.quantity && ltb_ℤ (pos 0) o.amount_cents && not (ltb_ℤ o.fee_cents (pos 0))
    then ok (row, record d { next_id = suc d.next_id; orders = put d.next_id row d.orders })
    else err (pg check_violation)

-- `insert into conversations(…) on conflict do nothing`, for an order, or the row that is there.
unfoldable pub open_conversation : ℕ → Tx ℕ
open_conversation order d = elim (find order d.conversations) [
  | some c ↦ ok (c, d)
  | none ↦ ok (
    d.next_id,
    record d { next_id = suc d.next_id; conversations = put order d.next_id d.conversations },
  )
]

-- `createSystemMessage`: a message in a conversation.
unfoldable pub create_system_message : Tx ℕ
create_system_message d =
    ok (d.next_id, record d { next_id = suc d.next_id; messages = d.next_id ∷ d.messages })

-- `insert into reviews(…) returning …`, of a new row, with the check on `rating`; a second row for
-- an order breaks the unique column.
unfoldable pub insert_review : ℕ → ReviewRow → Tx ReviewRow
insert_review order r d =
    let row = record r { id = d.next_id } in
    elim (find order d.reviews) [
      | some old ↦ err (pg unique_violation)
      | none ↦
          if ltb 0 r.rating && ltb r.rating 6
          then ok (row, record d { next_id = suc d.next_id; reviews = put order row d.reviews })
          else err (pg check_violation)
    ]

-- `select … from products where id = $1 for update`.
unfoldable pub select_product : ℕ → Tx (Option ProductRow)
select_product id d = ok (find id d.products, d)

-- `update products set stock = stock - $2`, with the check `stock >= 0`.
unfoldable pub take_stock : ℕ → ℕ → Tx (Unit {0})
take_stock id quantity d = elim (find id d.products) [
  | none ↦ ok (tt, d)
  | some p ↦
      if ltb p.stock quantity
      then err (pg check_violation)
      else ok
          (tt, record d { products = put id (record p { stock = p.stock - quantity }) d.products })
]

-- `update products set sales_count = sales_count + $2`.
unfoldable pub add_sales : ℕ → ℕ → Tx (Unit {0})
add_sales id quantity d = elim (find id d.products) [
  | none ↦ ok (tt, d)
  | some p ↦ ok (
    tt,
    record d { products = put id (record p { sales_count = p.sales_count + quantity }) d.products },
  )
]

-- `recordOrderEvent` of backend/src/modules/orders/order-events.service.ts: one timeline row.
unfoldable pub record_order_event : OrderEvent → Tx (Unit {0})
record_order_event e d = ok (tt, record d { order_events = e ∷ d.order_events })

-- `createOrderSystemMessage` of backend/src/modules/chat/system-messages.service.ts: a message in
-- the order's conversation, or nothing where the order has none.
unfoldable pub create_order_system_message : ℕ → Tx (Option ℕ)
create_order_system_message order d = elim (find order d.conversations) [
  | none ↦ ok (none, d)
  | some c ↦
      ok (some d.next_id, record d { next_id = suc d.next_id; messages = d.next_id ∷ d.messages })
]

-- `enqueueDomainEvent` of backend/src/modules/outbox/outbox.service.ts: `on conflict (event_key)
-- do nothing`, so that an event is queued once.
unfoldable pub enqueue_domain_event : OutboxRow → Tx OutboxRow
enqueue_domain_event e d = elim (find e.event_key d.outbox) [
  | none ↦ ok (e, record d { outbox = put e.event_key e d.outbox })
  | some old ↦ ok (old, d)
]

-- `select … from wallet_topups where id = $1 for update`, and from `payouts`.
unfoldable pub select_topup : ℕ → Tx TopupRow
select_topup id d = reading (row_or (find id d.topups) (not_found "Wallet topup not found")) d

unfoldable pub select_payout : ℕ → Tx PayoutRow
select_payout id d = reading (row_or (find id d.payouts) (not_found "Payout not found")) d

-- `update wallet_topups …` and `update payouts … where id = $1 returning …`, for a row that is there.
unfoldable pub update_topup : ℕ → TopupRow → Tx TopupRow
update_topup id row d = ok (row, record d { topups = put id row d.topups })

unfoldable pub update_payout : ℕ → (PayoutRow → PayoutRow) → Tx PayoutRow
update_payout id change d = elim (find id d.payouts) [
  | none ↦ err (plain "payout row is missing")
  | some row ↦ ok (change row, record d { payouts = put id (change row) d.payouts })
]

-- `insert into payouts(…) returning …`, with the check `amount_cents >= 0`.
unfoldable pub insert_payout : PayoutRow → Tx ℕ
insert_payout row d =
    if ltb_ℤ row.amount_cents (pos 0)
    then err (pg check_violation)
    else ok (d.next_id, record d { next_id = suc d.next_id; payouts = put d.next_id row d.payouts })

-- `insert into wallet_topups(…) returning …`, with the check `amount_cents > 0`.
unfoldable pub insert_topup : TopupRow → Tx ℕ
insert_topup row d =
    if ltb_ℤ (pos 0) row.amount_cents
    then ok (d.next_id, record d { next_id = suc d.next_id; topups = put d.next_id row d.topups })
    else err (pg check_violation)

-- `disputes_resolution_state_check`: what a dispute that was claimed must hold.
abbrev pub is_claimed : DisputeRow → Bool
is_claimed row =
    is_some row.resolution_decision
    && is_some row.resolution_operation_id
    && is_some row.resolving_started_at
    && ltb 0 row.resolution_attempts

abbrev pub same_resolution : Option DisputeDecision → Option DisputeDecision → Bool
same_resolution (some a) (some b) = same_decision a b
same_resolution _ _ = false

abbrev pub status_fits : DisputeStatus → DisputeRow → Bool
status_fits open_dispute row = true
status_fits resolving row = is_claimed row
status_fits resolution_failed row = is_claimed row
status_fits resolved row =
    is_claimed row
    && same_resolution row.resolution row.resolution_decision
    && is_some row.resolved_at

abbrev pub dispute_fits : DisputeRow → Bool
dispute_fits row = status_fits row.status row

-- `update disputes … where id = $1`, for a row that was read.
unfoldable pub update_dispute : ℕ → DisputeRow → Tx DisputeRow
update_dispute id row d =
    if dispute_fits row
    then ok (row, record d { disputes = put id row d.disputes })
    else err (pg check_violation)
