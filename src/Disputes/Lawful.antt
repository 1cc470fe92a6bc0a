-- ===== src/Disputes/Lawful.antt =====
-- The check that the database makes on disputes, as an invariant of the transactions of a resolution.
use skrynia.Prelude.{ℕ, ◌≡◌, ap, sym, ◌∙◌, true, Option, some, arith}
use skrynia.Prelude.Table.{find, nat_eq, find-put}
use skrynia.Domain.Enums.{
  DisputeDecision, refund, release, DisputeStatus, open_dispute, resolving, resolved,
  resolution_failed,
}
use skrynia.Db.Rows.{Db, DisputeRow, OrderEvent, OutboxRow}
use skrynia.Db.Tx.{Tx}
use skrynia.Db.Tables.{
  dispute_fits, update_dispute, fresh_id, record_order_event, create_order_system_message,
  enqueue_domain_event,
}
use skrynia.Db.Keeps.{Keeps, Keeps-reading, keeps_rules}
use skrynia.Db.Requests.{
  Rest, SameRequests-refl, fresh_id-Rest, record_order_event-Rest, create_order_system_message-Rest,
  enqueue_domain_event-Rest,
}
use skrynia.Orders.Lifecycle.{Config}
use skrynia.Orders.Escrow.Requests.{release_escrow-Rest, refund_escrow-Rest}
use skrynia.Disputes.{
  ResolutionRow, ResolutionInput, select_resolution, assert_decision, assert_operation,
}
use skrynia.Disputes.Claim.{
  claim_open, claim_again, claim_resolving, claim_by_status, claim_resolution,
}
use skrynia.Disputes.Finalize.{settle_dispute, finalize_if_applied}
use skrynia.Disputes.Resolve.{execute_escrow}

-- Every dispute meets the check.
abbrev pub IsLawful : Db → Type 0
IsLawful d = (id : ℕ) (row : DisputeRow) → find id d.disputes ≡ some row → dispute_fits row ≡ true

-- A transaction that leaves disputes alone keeps them lawful.
IsLawful-Rest : {A : Type 0} (m : Tx A) → ((o : Db) → Keeps (Rest o) m) → Keeps IsLawful m
IsLawful-Rest m k = record {
  at = λ d a d' h e id row f.
      h id row (ap (find id) (sym (((k d).at d a d' (SameRequests-refl d) e).disputes)) ∙ f);
}

update_dispute-IsLawful : (id : ℕ) (row : DisputeRow) → Keeps IsLawful (update_dispute id row)
unfolding update_dispute
update_dispute-IsLawful id row = record {
  at = λ d a d' h e k x f. ground (arith, find-put id k row d.disputes, h k x);
}

fresh_id-IsLawful : Keeps IsLawful fresh_id
fresh_id-IsLawful = IsLawful-Rest fresh_id (λ o. fresh_id-Rest)

record_order_event-IsLawful : (x : OrderEvent) → Keeps IsLawful (record_order_event x)
record_order_event-IsLawful x =
    IsLawful-Rest (record_order_event x) (λ o. record_order_event-Rest x)

create_order_system_message-IsLawful : (n : ℕ) → Keeps IsLawful (create_order_system_message n)
create_order_system_message-IsLawful n =
    IsLawful-Rest (create_order_system_message n) (λ o. create_order_system_message-Rest n)

enqueue_domain_event-IsLawful : (x : OutboxRow) → Keeps IsLawful (enqueue_domain_event x)
enqueue_domain_event-IsLawful x =
    IsLawful-Rest (enqueue_domain_event x) (λ o. enqueue_domain_event-Rest x)

select_resolution-IsLawful : (n : ℕ) → Keeps IsLawful (select_resolution n)
unfolding select_resolution
select_resolution-IsLawful n = Keeps-reading _

assert_decision-IsLawful :
    (r : ResolutionRow) (x : DisputeDecision) → Keeps IsLawful (assert_decision r x)
unfolding assert_decision
assert_decision-IsLawful r x = search keeps_rules

assert_operation-IsLawful :
    (r : ResolutionRow) (x : Option ℕ) → Keeps IsLawful (assert_operation r x)
unfolding assert_operation
assert_operation-IsLawful r x = search keeps_rules

ruleset lawful_rules = (
  keeps_rules, update_dispute-IsLawful, fresh_id-IsLawful, record_order_event-IsLawful,
  create_order_system_message-IsLawful, enqueue_domain_event-IsLawful, select_resolution-IsLawful,
  assert_decision-IsLawful, assert_operation-IsLawful,
)

module _ (i : ResolutionInput) where
  claim_open-IsLawful : (r : ResolutionRow) → Keeps IsLawful (claim_open i r)
  unfolding claim_open
  claim_open-IsLawful r = search lawful_rules depth 12

  claim_again-IsLawful : (r : ResolutionRow) → Keeps IsLawful (claim_again i r)
  unfolding claim_again
  claim_again-IsLawful r = search lawful_rules depth 12

  claim_resolving-IsLawful : (r : ResolutionRow) → Keeps IsLawful (claim_resolving i r)
  unfolding claim_resolving
  claim_resolving-IsLawful r = search (lawful_rules, claim_again-IsLawful) depth 12

  claim_by_status-IsLawful :
      (s : DisputeStatus) (r : ResolutionRow) → Keeps IsLawful (claim_by_status s i r)
  unfolding claim_by_status
  claim_by_status-IsLawful resolved r = search lawful_rules
  claim_by_status-IsLawful open_dispute r = claim_open-IsLawful r
  claim_by_status-IsLawful resolution_failed r = claim_again-IsLawful r
  claim_by_status-IsLawful resolving r = claim_resolving-IsLawful r

  pub claim_resolution-IsLawful : Keeps IsLawful (claim_resolution i)
  unfolding claim_resolution
  claim_resolution-IsLawful = search (lawful_rules, claim_by_status-IsLawful) depth 12

settle_dispute-IsLawful :
    (id operation : ℕ) (r : ResolutionRow) → Keeps IsLawful (settle_dispute id operation r)
unfolding settle_dispute
settle_dispute-IsLawful id operation r = search lawful_rules depth 20

pub finalize_if_applied-IsLawful :
    (id : ℕ) (x : DisputeDecision) (operation : ℕ)
    → Keeps IsLawful (finalize_if_applied id x operation)
unfolding finalize_if_applied
finalize_if_applied-IsLawful id x operation =
    search (lawful_rules, settle_dispute-IsLawful) depth 12

pub execute_escrow-IsLawful :
    (c : Config) (x : DisputeDecision) (order admin : ℕ)
    → Keeps IsLawful (execute_escrow c x order admin)
unfolding execute_escrow
execute_escrow-IsLawful c refund order admin =
    IsLawful-Rest (execute_escrow c refund order admin)
      (λ o. refund_escrow-Rest c order (some admin))
execute_escrow-IsLawful c release order admin =
    IsLawful-Rest (execute_escrow c release order admin) (λ o. release_escrow-Rest c order _)
