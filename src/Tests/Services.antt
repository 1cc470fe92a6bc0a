-- ===== src/Tests/Services.antt =====
-- What the fixture runs compute with: one name for the unfolding lines of their tests.
use skrynia.Prelude.Int.{ -ℤ◌, ◌+ℤ◌, ◌-ℤ◌}
use skrynia.Domain.Money.{
  add_money_cents, assert_postgres_bigint_range, is_in_range, platform_fee_cents,
  subtract_money_cents,
}
use skrynia.Db.Tables.{
  add_sales, create_order_system_message, create_system_message, enqueue_domain_event, insert_order,
  insert_payout, insert_review, insert_transaction, is_allowed_type, open_conversation,
  record_order_event, select_order, select_payout, select_platform_wallet, select_product,
  select_topup, select_wallet, take_stock, update_order, update_payout, update_platform_wallet,
  update_topup, update_wallet,
}
use skrynia.Orders.Lifecycle.{
  advanced, apply_transition, checked_transition, expects, is_idempotent_repeat, transition_order,
}
use skrynia.Orders.Routes.{
  announce_order, by_existing, confirmable, create_order, deliver_order, deliver_transition,
  is_same_review, new_order, order_amount, repeat_review, review_order, sellable_product,
  write_review,
}
use skrynia.Orders.Escrow.{
  available_product, checked_balance_addition, checked_balance_subtraction, ensure_wallet, fee_for,
  is_instant,
}
use skrynia.Wallet.Payouts.{begin_payout, payout_reference, reject_payout}
use skrynia.Orders.Transitions.{can_transition_order, order_transitions}
use skrynia.Orders.Escrow.Lock.{
  capture_transition, finish_lock, lock_escrow, paid_order, paying_actor,
}
use skrynia.Wallet.{
  checked_wallet_addition, checked_wallet_subtraction, complete_wallet_topup, credit_topup,
  request_withdrawal,
}
use skrynia.Orders.Accounting.{
  ensure_ledger_account, insert_lines, is_balanced, on_ledger, post_ledger_entry, total,
  write_entry,
}
use skrynia.Orders.Bookings.{
  escrow_release_entry, order_refund_entry, payment_capture_entry, positive_line,
  record_escrow_release_ledger, record_payment_capture_ledger, record_refund_ledger,
  record_wallet_topup_ledger, record_wallet_withdrawal_ledger,
  record_wallet_withdrawal_reversal_ledger, wallet_topup_entry, wallet_withdrawal_entry,
  withdrawal_reversal_entry,
}
use skrynia.Orders.Policy.{
  event_descriptor, event_key_of, new_event, permission, policy_roles, policy_to,
  transition_actor_id,
}
use skrynia.Prelude.Table.{find, put}
use skrynia.Db.Tx.{gets, lift, pure, reads, throw_if, ◌>>=◌}
use skrynia.Orders.Escrow.Release.{
  next_revenue, pay_platform, platform_share, release_actor, release_escrow, release_expected,
  release_funds, release_message, release_reason, release_transition,
}
use skrynia.Orders.Escrow.Refund.{
  refund_actor, refund_escrow, refund_expected, refund_funds, refund_reason, refund_transition,
}

-- Every operation of the fixture runs and all that it calls.
unfoldable pub services : Unit {0}
unfolding -ℤ◌ add_money_cents add_sales advanced announce_order apply_transition
    assert_postgres_bigint_range available_product begin_payout by_existing can_transition_order
    capture_transition checked_balance_addition checked_balance_subtraction checked_transition
    checked_wallet_addition checked_wallet_subtraction complete_wallet_topup confirmable
    create_order create_order_system_message create_system_message credit_topup deliver_order
    deliver_transition enqueue_domain_event ensure_ledger_account ensure_wallet escrow_release_entry
    event_descriptor event_key_of expects fee_for find finish_lock gets insert_lines insert_order
    insert_payout insert_review insert_transaction is_allowed_type is_balanced is_idempotent_repeat
    is_in_range is_instant is_same_review lift lock_escrow new_event new_order next_revenue
    on_ledger open_conversation order_amount order_refund_entry order_transitions paid_order
    pay_platform paying_actor payment_capture_entry payout_reference permission platform_fee_cents
    platform_share policy_roles policy_to positive_line post_ledger_entry pure put reads
    record_escrow_release_ledger record_order_event record_payment_capture_ledger
    record_refund_ledger record_wallet_topup_ledger record_wallet_withdrawal_ledger
    record_wallet_withdrawal_reversal_ledger refund_actor refund_escrow refund_expected refund_funds
    refund_reason refund_transition reject_payout release_actor release_escrow release_expected
    release_funds release_message release_reason release_transition repeat_review request_withdrawal
    review_order select_order select_payout select_platform_wallet select_product select_topup
    select_wallet sellable_product subtract_money_cents take_stock throw_if total
    transition_actor_id transition_order update_order update_payout update_platform_wallet
    update_topup update_wallet wallet_topup_entry wallet_withdrawal_entry withdrawal_reversal_entry
    write_entry write_review ◌+ℤ◌ ◌-ℤ◌ ◌>>=◌
services = tt
