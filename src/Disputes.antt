-- ===== src/Disputes.antt =====
-- backend/src/modules/disputes/dispute-resolution.service.ts: an administrator's decision on a
-- disputed order. What its transactions share. Cache invalidation and the log are left out.
pub mod Claim
pub mod Finalize
pub mod Resolve
pub mod Lawful
pub mod Effects
pub mod Claimed
pub mod Outcomes
pub mod Money
pub mod Applied
pub mod Recovery
pub mod Stale
pub mod Stalled
use skrynia.Prelude.{
  ℕ, String, ◌+◌, Bool, true, false, not, ◌&&◌, ◌||◌, Option, none, some, ◌==◌, leb, is_some,
  if◌then◌else◌,
}
use skrynia.Prelude.Table.{◌=?◌, find, nat_eq}
use skrynia.Domain.Enums.{
  OrderStatus, completed, refunded, disputed, status_eq, DisputeStatus, DisputeDecision, refund,
  release, decision_eq, same_decision,
}
use skrynia.Common.Errors.{Error, Result, ok, err, conflict, not_found}
use skrynia.Db.Rows.{Db, DisputeRow, OrderRow}
use skrynia.Db.Tx.{Tx, throw_if, ◌>>=◌, ◌>>◌, pure}
use skrynia.Db.Tables.{row_or, reading}

-- `STALE_RESOLUTION_MS`.
abbrev pub stale_resolution_ms : ℕ
stale_resolution_ms = 900_000

-- `ResolutionRow`: a dispute with the columns of its order.
pub record ResolutionRow : Type 0 where
  pub dispute : DisputeRow
  pub order_status : OrderStatus
  pub buyer_id : ℕ
  pub seller_id : ℕ

-- The input of a resolution.
pub record ResolutionInput : Type 0 where
  pub dispute_id : ℕ
  pub decision : DisputeDecision
  pub admin_id : ℕ
  pub admin_note : String
  pub expected_operation_id : Option ℕ
  pub allow_stale : Bool

-- `terminalDecision`.
unfoldable pub terminal_decision : OrderStatus → Option DisputeDecision
terminal_decision refunded = some refund
terminal_decision completed = some release
terminal_decision _ = none

-- `terminalDecision(order_status) === decision`.
abbrev pub is_decision : Option DisputeDecision → DisputeDecision → Bool
is_decision none y = false
is_decision (some x) y = same_decision x y

-- `assertDecisionMatches`: whether it lets through.
abbrev pub decision_matches : Option DisputeDecision → DisputeDecision → Bool
decision_matches none y = true
decision_matches (some x) y = same_decision x y

-- `assertOperationMatches`: whether it lets through.
abbrev pub operation_matches : Option ℕ → Option ℕ → Bool
operation_matches persisted none = true
operation_matches none (some expected) = false
operation_matches (some n) (some expected) = n == expected

-- The row of `selectResolutionForUpdate`: the join leaves no row where the order is missing.
abbrev pub joined : Option DisputeRow → Db → Option ResolutionRow
joined none d = none
joined (some row) d = with_order (find row.order_id d.orders)
  where
    with_order : Option OrderRow → Option ResolutionRow
    with_order none = none
    with_order (some o) = some (record {
      dispute = row;
      order_status = o.status;
      buyer_id = o.buyer_id;
      seller_id = o.seller_id;
    })

-- `selectResolutionForUpdate`.
unfoldable pub select_resolution : ℕ → Tx ResolutionRow
select_resolution id d =
    reading (row_or (joined (find id d.disputes) d) (not_found "Dispute not found")) d

-- `assertOrderCanContinue`: whether it lets through.
unfoldable pub order_can_continue : OrderStatus → DisputeDecision → Bool
unfolding terminal_decision
order_can_continue status decision =
    decision_matches (terminal_decision status) decision
    && (is_some (terminal_decision status) || (status =? disputed))

-- The message of `assertOrderCanContinue`.
abbrev pub order_refusal : OrderStatus → DisputeDecision → String
order_refusal status decision =
    if decision_matches (terminal_decision status) decision
    then "Order cannot be resolved from status"
    else "Order already has the opposite resolution"

-- The assertions on the dispute of a row that was read.
unfoldable pub assert_decision : ResolutionRow → DisputeDecision → Tx (Unit {0})
assert_decision row decision =
    throw_if (not (decision_matches row.dispute.resolution_decision decision))
      (conflict "Dispute resolution is already claimed for")

unfoldable pub assert_operation : ResolutionRow → Option ℕ → Tx (Unit {0})
assert_operation row expected =
    throw_if (not (operation_matches row.dispute.resolution_operation_id expected))
      (conflict "Dispute resolution operation changed")
