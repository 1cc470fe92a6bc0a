-- ===== src/Disputes/Stalled.antt =====
-- That the recovery of stale resolutions finishes those whose money was moved.
use skrynia.Prelude.{ℕ, ◌≡◌, ap, ◌∙◌, true, false, some, List, [], ◌∷◌, ◌++◌, arith, get_or}
use skrynia.Prelude.Table.{find, nat_eq}
use skrynia.Domain.Enums.{DisputeDecision, resolving}
use skrynia.Db.Rows.{Db, DisputeRow, OrderRow}
use skrynia.Db.Tables.{dispute_fits}
use skrynia.Orders.Books.{books}
use skrynia.Orders.Lifecycle.{Config}
use skrynia.Disputes.{ResolutionInput, terminal_decision}
use skrynia.Disputes.Finalize.{settled_row}
use skrynia.Disputes.Resolve.{DisputeResolutionResult}
use skrynia.Disputes.Recovery.{resolve_dispute-resumes}
use skrynia.Disputes.Stale.{claim_data, recover_one, recover_each, kept_result}

abbrev recovery : ℕ → DisputeRow → DisputeDecision → ℕ → ℕ → ResolutionInput
recovery id row x n admin = record {
  dispute_id = id;
  decision = x;
  admin_id = admin;
  admin_note = get_or row.admin_note "Recovered stale dispute resolution";
  expected_operation_id = some n;
  allow_stale = true;
}

module _ (c : Config) (id : ℕ) (d : Db) (row : DisputeRow) (o : OrderRow) (n admin : ℕ)
    (x : DisputeDecision) where
  claim_data-found :
      row.status ≡ resolving
      → row.resolution_decision ≡ some x
      → row.resolution_operation_id ≡ some n
      → row.admin_id ≡ some admin
      → claim_data id (some row) ≡ some (recovery id row x n admin)
  unfolding claim_data
  claim_data-found running decided chosen by_admin = simp (running, decided, chosen, by_admin)

  -- Where a dispute that the recovery comes to is claimed by an administrator, meets the database's
  -- check and has an order in the status of its decision, the recovery resolves it: its result is among
  -- those returned and newly resolved, no escrow runs, and the books are as before; then the recovery
  -- goes on.
  pub recover_each-resumes :
      (ids : List ℕ)
      → find id d.disputes ≡ some row
      → find row.order_id d.orders ≡ some o
      → row.status ≡ resolving
      → row.resolution_decision ≡ some x
      → row.resolution_operation_id ≡ some n
      → row.admin_id ≡ some admin
      → terminal_decision o.status ≡ some x
      → dispute_fits row ≡ true
      → (r : DisputeResolutionResult) × (s : Db) × (recover_each c (id ∷ ids) d
          ≡ (r ∷ (recover_each c ids s).0, (recover_each c ids s).1))
        × (r.newly_resolved ≡ true)
        × (r.escrow_executed ≡ false)
        × (find id s.disputes ≡ some (settled_row row d.now))
        × (books s ≡ books d)
  unfolding recover_each recover_one
  recover_each-resumes ids there ordered running decided chosen by_admin applied fits =
      let i = recovery id row x n admin in
      let (r, s, ran, newly, idle, settled, same) =
        resolve_dispute-resumes i d row o n there ordered running decided chosen (ground arith)
          applied c fits in
      let filed : claim_data id (find id d.disputes) ≡ some i =
        ap (claim_data id) there ∙ claim_data-found running decided chosen by_admin in
      let one : recover_one c (claim_data id (find id d.disputes)) d ≡ (r ∷ [], s) =
        ap (λ y. recover_one c y d) filed ∙ ap (λ (y, z). (kept_result y [], z)) ran in
      (
        r,
        s,
        ap (λ (y, z). (y ++ (recover_each c ids z).0, (recover_each c ids z).1)) one,
        newly,
        idle,
        settled,
        same,
      )
