-- ===== src/Tests/Disputes.antt =====
-- The theorems on the resolution of disputes, at the fixture order in dispute: one dispute that is
-- open, and one that an attempt had claimed when its order was refunded.
use skrynia.Prelude.{[], ◌∷◌, true, false, none, some, ◌≡◌, refl, arith}
use skrynia.Prelude.Table.{find, put, nat_eq}
use skrynia.Domain.Enums.{disputed, refunded, open_dispute, resolving, resolved, refund}
use skrynia.Common.Errors.{Result, ok}
use skrynia.Db.Rows.{Db, DisputeRow, OrderRow}
use skrynia.Orders.Books.{books}
use skrynia.Disputes.{ResolutionInput, terminal_decision, is_decision}
use skrynia.Disputes.Finalize.{settled_row}
use skrynia.Disputes.Lawful.{IsLawful}
use skrynia.Disputes.Resolve.{DisputeResolutionResult, resolve_dispute_resolution}
use skrynia.Disputes.Outcomes.{resolve_dispute-settles}
use skrynia.Disputes.Money.{IsBooked, resolve_dispute-books}
use skrynia.Disputes.Stale.{recover_each}
use skrynia.Disputes.Stalled.{recover_each-resumes}
use skrynia.Disputes.Recovery.{resolve_dispute-resumes}
use skrynia.Prelude.Table.{nat_eq}
use skrynia.Domain.Enums.{currency_eq}
use skrynia.Prelude.Int.{◌+ℤ◌, ◌-ℤ◌, -ℤ◌}
use skrynia.Prelude.Table.{find, put}
use skrynia.Domain.Money.{
  assert_postgres_bigint_range, add_money_cents, subtract_money_cents, platform_fee_cents,
}
use skrynia.Db.Tx.{◌>>=◌, pure, throw_if, lift, gets, reads}
use skrynia.Db.Tables.{
  select_wallet, update_wallet, select_platform_wallet, update_platform_wallet, is_allowed_type,
  insert_transaction, select_order, update_order, select_product, take_stock, add_sales,
  record_order_event, create_order_system_message, enqueue_domain_event, select_topup, update_topup,
  select_payout, update_payout, insert_payout,
}
use skrynia.Orders.Transitions.{order_transitions, can_transition_order}
use skrynia.Orders.Policy.{
  policy_to, policy_roles, event_descriptor, event_key_of, new_event, transition_actor_id,
  permission,
}
use skrynia.Orders.Lifecycle.{
  is_idempotent_repeat, expects, advanced, apply_transition, checked_transition, transition_order,
}
use skrynia.Orders.Bookings.{
  payment_capture_entry, record_payment_capture_ledger, positive_line, escrow_release_entry,
  record_escrow_release_ledger, wallet_topup_entry, record_wallet_topup_ledger,
  wallet_withdrawal_entry, record_wallet_withdrawal_ledger, withdrawal_reversal_entry,
  record_wallet_withdrawal_reversal_ledger, order_refund_entry, record_refund_ledger,
}
use skrynia.Orders.Escrow.{
  ensure_wallet, fee_for, checked_balance_addition, checked_balance_subtraction, is_instant,
  available_product,
}
use skrynia.Orders.Escrow.Lock.{
  paying_actor, paid_order, capture_transition, finish_lock, lock_escrow,
}
use skrynia.Orders.Escrow.Refund.{
  refund_actor, refund_reason, refund_expected, refund_transition, refund_funds, refund_escrow,
}
use skrynia.Orders.Accounting.{
  total, ensure_ledger_account, insert_lines, write_entry, is_balanced, on_ledger,
  post_ledger_entry,
}
use skrynia.Db.Keys.{event_key_eq, wallet_eq, key_eq}
use skrynia.Db.Tx.{in_tx}
use skrynia.Db.Tables.{fresh_id, update_dispute}
use skrynia.Disputes.{select_resolution, assert_decision, assert_operation, order_can_continue}
use skrynia.Disputes.Claim.{
  claimed, claim_open, claim_again, claim_resolving, claim_by_status, claim_resolution, is_stale,
}
use skrynia.Disputes.Finalize.{settle_dispute, finalize_if_applied}
use skrynia.Disputes.Resolve.{
  execute_escrow, fail_resolution, after_finalize, finish_resolution, after_escrow, run_claim,
  after_claim,
}
use skrynia.Tests.Fixtures.{config, delivered_out, out, is_ok, committed}

abbrev open_row : DisputeRow
open_row = record {
  order_id = 1;
  status = open_dispute;
  resolution = none;
  resolution_decision = none;
  resolution_operation_id = none;
  resolving_started_at = none;
  resolution_attempts = 0;
  last_resolution_error = none;
  admin_id = none;
  admin_note = none;
  resolved_at = none;
}

abbrev claimed_row : DisputeRow
claimed_row = record open_row {
  status = resolving;
  resolution_decision = some refund;
  resolution_operation_id = some 77;
  resolving_started_at = some 90;
  resolution_attempts = 1;
  admin_id = some 99;
}

abbrev in_dispute : Db
in_dispute = record delivered_out.1 {
  orders = (1, record delivered_out.0 { status = disputed }) ∷ [];
  disputes = (3, open_row) ∷ [];
}

abbrev refunded_order : OrderRow
refunded_order = record delivered_out.0 { status = refunded }

abbrev interrupted : Db
interrupted = record delivered_out.1 {
  orders = (1, refunded_order) ∷ [];
  disputes = (3, claimed_row) ∷ [];
}

abbrev refunding : ResolutionInput
refunding = record {
  dispute_id = 3;
  decision = refund;
  admin_id = 99;
  admin_note = "refund";
  expected_operation_id = none;
  allow_stale = false;
}

abbrev nothing : DisputeResolutionResult
nothing = record {
  dispute = record { dispute = open_row; order_status = disputed; buyer_id = 10; seller_id = 20 };
  order = none;
  newly_resolved = false;
  escrow_executed = false;
  operation_id = 0;
}

abbrev resolution_run : Result DisputeResolutionResult × Db
resolution_run = resolve_dispute_resolution config refunding in_dispute

abbrev resolution_out : DisputeResolutionResult
resolution_out = out nothing resolution_run.0

in_dispute-IsLawful : IsLawful in_dispute
unfolding find
in_dispute-IsLawful id row h = ground arith

resolution_ok : is_ok resolution_run.0 ≡ true
unfolding ◌+ℤ◌ ◌-ℤ◌ -ℤ◌ find put assert_postgres_bigint_range add_money_cents subtract_money_cents
    platform_fee_cents ◌>>=◌ pure throw_if lift gets reads select_wallet update_wallet
    select_platform_wallet update_platform_wallet is_allowed_type insert_transaction select_order
    update_order select_product take_stock add_sales record_order_event create_order_system_message
    enqueue_domain_event select_topup update_topup select_payout update_payout insert_payout
    order_transitions can_transition_order policy_to policy_roles event_descriptor event_key_of
    new_event transition_actor_id permission is_idempotent_repeat expects advanced apply_transition
    checked_transition transition_order total ensure_ledger_account insert_lines write_entry
    is_balanced on_ledger post_ledger_entry payment_capture_entry record_payment_capture_ledger
    positive_line escrow_release_entry record_escrow_release_ledger wallet_topup_entry
    record_wallet_topup_ledger wallet_withdrawal_entry record_wallet_withdrawal_ledger
    withdrawal_reversal_entry record_wallet_withdrawal_reversal_ledger order_refund_entry
    record_refund_ledger ensure_wallet fee_for checked_balance_addition checked_balance_subtraction
    is_instant available_product paying_actor paid_order capture_transition finish_lock lock_escrow
    refund_actor refund_reason refund_expected refund_transition refund_funds refund_escrow fresh_id
    update_dispute select_resolution assert_decision assert_operation order_can_continue
    terminal_decision claimed claim_open claim_again claim_resolving claim_by_status
    claim_resolution is_stale settled_row settle_dispute finalize_if_applied execute_escrow
    fail_resolution after_finalize finish_resolution after_escrow run_claim after_claim
    resolve_dispute_resolution in_tx
resolution_ok = refl

resolves : resolution_run ≡ (ok resolution_out, resolution_run.1)
resolves = λ j. (committed nothing resolution_run.0 resolution_ok j, resolution_run.1)

resolve_dispute-settles_example :
    (find 3 resolution_run.1.disputes ≡ some resolution_out.dispute.dispute)
    × (resolution_out.dispute.dispute.status ≡ resolved)
    × (resolution_out.dispute.dispute.resolution ≡ some refund)
    × (resolution_out.newly_resolved ≡ true
        → is_decision (terminal_decision resolution_out.dispute.order_status) refund ≡ true)
resolve_dispute-settles_example =
    resolve_dispute-settles config refunding in_dispute in_dispute-IsLawful resolves

resolve_dispute-books_example :
    (row : DisputeRow) × (o : OrderRow) × (find 3 in_dispute.disputes ≡ some row)
    × (find row.order_id in_dispute.orders ≡ some o)
    × IsBooked refund o resolution_out in_dispute resolution_run.1
resolve_dispute-books_example = resolve_dispute-books config refunding in_dispute resolves

claim_there : find 3 interrupted.disputes ≡ some claimed_row
unfolding find
claim_there = refl

order_there : find 1 interrupted.orders ≡ some refunded_order
unfolding find
order_there = refl

was_refunded : terminal_decision refunded_order.status ≡ some refund
unfolding terminal_decision
was_refunded = refl

resolve_dispute-resumes_example :
    (r : DisputeResolutionResult) × (d' : Db) × (resolve_dispute_resolution config refunding
        interrupted
      ≡ (ok r, d'))
    × (r.newly_resolved ≡ true)
    × (r.escrow_executed ≡ false)
    × (find 3 d'.disputes ≡ some (settled_row claimed_row interrupted.now))
    × (books d' ≡ books interrupted)
resolve_dispute-resumes_example =
    resolve_dispute-resumes refunding interrupted claimed_row refunded_order 77 claim_there
      order_there refl refl refl refl was_refunded config refl

recover_each-resumes_example :
    (r : DisputeResolutionResult) × (s : Db) × (recover_each config (3 ∷ []) interrupted
      ≡ (r ∷ (recover_each config [] s).0, (recover_each config [] s).1))
    × (r.newly_resolved ≡ true)
    × (r.escrow_executed ≡ false)
    × (find 3 s.disputes ≡ some (settled_row claimed_row interrupted.now))
    × (books s ≡ books interrupted)
recover_each-resumes_example =
    recover_each-resumes config 3 interrupted claimed_row refunded_order 77 99 refund [] claim_there
      order_there refl refl refl refl was_refunded refl
