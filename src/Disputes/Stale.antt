-- ===== src/Disputes/Stale.antt =====
-- `recoverStaleDisputeResolutions` of backend/src/modules/disputes/dispute-resolution.service.ts: one
-- further attempt for each dispute whose resolution has stood still. Equal times are ordered by the
-- ids. A failure is logged and passed over.
use skrynia.Prelude.{
  ℕ, ◌+◌, Bool, true, false, ◌&&◌, ◌||◌, Option, none, some, List, [], ◌∷◌, ◌++◌, map, ◌==◌, leb,
  ltb, get_or, if◌then◌else◌,
}
use skrynia.Prelude.Table.{find, nat_eq}
use skrynia.Prelude.Order.{filter, sort_by, take}
use skrynia.Domain.Enums.{DisputeDecision}
use skrynia.Common.Errors.{Result, ok, err}
use skrynia.Db.Rows.{Db, DisputeRow}
use skrynia.Orders.Lifecycle.{Config}
use skrynia.Disputes.{ResolutionInput, stale_resolution_ms}
use skrynia.Disputes.Finalize.{is_resolving}
use skrynia.Disputes.Resolve.{DisputeResolutionResult, resolve_dispute_resolution}

abbrev pub Disputed : Type 0
Disputed = ℕ × DisputeRow

-- `resolving_started_at <= now() - interval '15 minutes'`, which is not so of a null.
abbrev pub stood_still : Option ℕ → ℕ → Bool
stood_still none now = false
stood_still (some t) now = leb (t + stale_resolution_ms) now

-- `$1 is null or id = $1`.
abbrev pub is_wanted : Option ℕ → ℕ → Bool
is_wanted none id = true
is_wanted (some wanted) id = id == wanted

abbrev pub by_start : Disputed → Disputed → Bool
by_start (i, a) (j, b) =
    ltb (get_or a.resolving_started_at 0) (get_or b.resolving_started_at 0)
    || (get_or a.resolving_started_at 0 == get_or b.resolving_started_at 0) && ltb i j

-- The first query.
unfoldable pub stale_disputes : Option ℕ → Db → List ℕ
stale_disputes wanted d =
    map (λ (id, row). id)
      (take 25 (
        sort_by by_start (
          filter
            (λ (id, row).
              is_resolving row.status
              && (stood_still row.resolving_started_at d.now && is_wanted wanted id))
            d.disputes)))

-- The second query, of one dispute: its claim, where nothing of it is missing.
unfoldable pub claim_data : ℕ → Option DisputeRow → Option ResolutionInput
claim_data id none = none
claim_data id (some row) =
    if is_resolving row.status
    then filled row.resolution_decision row.resolution_operation_id row.admin_id
    else none
  where
    filled : Option DisputeDecision → Option ℕ → Option ℕ → Option ResolutionInput
    filled (some decision) (some operation) (some admin) = some (record {
      dispute_id = id;
      decision = decision;
      admin_id = admin;
      admin_note = get_or row.admin_note "Recovered stale dispute resolution";
      expected_operation_id = some operation;
      allow_stale = true;
    })
    filled _ _ _ = none

abbrev pub kept_result :
    Result DisputeResolutionResult → List DisputeResolutionResult → List DisputeResolutionResult
kept_result (ok r) results = r ∷ results
kept_result (err e) results = results

-- The attempt at one dispute.
unfoldable pub recover_one :
    Config → Option ResolutionInput → Db → List DisputeResolutionResult × Db
recover_one c none d = ([], d)
recover_one c (some i) d = let (r, s) = resolve_dispute_resolution c i d in (kept_result r [], s)

unfoldable pub recover_each : Config → List ℕ → Db → List DisputeResolutionResult × Db
recover_each c [] d = ([], d)
recover_each c (id ∷ ids) d =
    let (first, s) = recover_one c (claim_data id (find id d.disputes)) d in
    let (others, t) = recover_each c ids s in (first ++ others, t)

-- `recoverStaleDisputeResolutions`.
unfoldable pub recover_stale_dispute_resolutions :
    Config → Option ℕ → Db → List DisputeResolutionResult × Db
recover_stale_dispute_resolutions c wanted d = recover_each c (stale_disputes wanted d) d
