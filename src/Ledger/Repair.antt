-- ===== src/Ledger/Repair.antt =====
-- src/engine/execution/reconciliation_repair.py: what differs between the ledger and the gateway,
-- and what repairs it.
use proofalpha.Prelude.{
  String, Bool, true, not, List, ◌∷◌, [], ◌++◌, ◌==◌, ◌&&◌, if◌then◌else◌, contains, concat,
  is_empty, map, when, starts_with, ltb,
}
use proofalpha.Prelude.Int.{ℤ, magnitude}
use proofalpha.Prelude.Dict.{Dict, lookup, get_or}
use proofalpha.Python.Runtime.{Runtime, Value, text}
use proofalpha.Python.Convert.{Result, ok, ◌>>=◌, str}
use proofalpha.Python.Sets.{sorted_set, sorted_items}
use proofalpha.Ledger.Event.{LedgerEvent}
use proofalpha.Ledger.Projection.{fill_id_of, rebuild_state_projection}

pub record ReconciliationRepairPlan : Type 0 where
  pub status : String
  pub issues : List String
  pub repair_actions : List String

-- `detect_orphan_orders`: local ids, gateway ids
unfoldable pub absent_from : List String → List String → List String
absent_from local [] = []
absent_from local (id ∷ ids) =
    let rest = absent_from local ids in if contains id local then rest else id ∷ rest

unfoldable pub detect_orphan_orders : List String → List String → List String
unfolding absent_from
detect_orphan_orders local gateway = sorted_set (absent_from local gateway)

-- the loop of `detect_duplicate_fills`, on the ids: the set `seen`, the set `duplicates`
unfoldable pub repeated : List String → List String → List String → List String
repeated seen duplicates [] = duplicates
repeated seen duplicates (id ∷ ids) =
    repeated (if id == "" then seen else id ∷ seen)
      (if id == "" then duplicates else if contains id seen then id ∷ duplicates else duplicates)
      ids

-- `_repair_actions`, one issue
unfoldable pub repair_action : String → List String
repair_action issue =
    if starts_with issue "missing_fill:"
    then "ingest_missing_fill" ∷ []
    else if starts_with issue "duplicate_fill:"
    then "dedupe_fill" ∷ []
    else if starts_with issue "position_mismatch:"
    then "force_position_reconcile" ∷ []
    else if issue == "balance_mismatch"
    then "force_balance_reconcile" ∷ []
    else if contains issue ("stale_websocket" ∷ "clock_drift" ∷ [])
    then "pause_new_exposure" ∷ []
    else []

unfoldable pub actions_for : List String → List String
unfolding repair_action
actions_for [] = []
actions_for (issue ∷ issues) = repair_action issue ++ actions_for issues

unfoldable pub repair_actions : List String → List String
unfolding actions_for
repair_actions issues = sorted_set (actions_for issues)

unfoldable pub reconciliation_allows_new_exposure : String → String → Bool
reconciliation_allows_new_exposure status action =
    if contains action ("reduce" ∷ "close" ∷ []) then true else status == "PASS"

module _ (R : Runtime) where
  -- `str(fill.get("fill_id", ""))`
  abbrev pub gateway_fill_id : Dict (Value R.Float) → String
  gateway_fill_id fill = str R (get_or (lookup "fill_id" fill) (text ""))

  unfoldable pub detect_duplicate_fills : List (Dict (Value R.Float)) → List String
  unfolding repeated
  detect_duplicate_fills fills = sorted_set (repeated [] [] (map gateway_fill_id fills))

  -- the FILL events
  unfoldable pub fills_of : List (LedgerEvent R.Float) → List (LedgerEvent R.Float)
  fills_of [] = []
  fills_of (e ∷ es) = let rest = fills_of es in if e.event_type == "FILL" then e ∷ rest else rest

  abbrev pub local_fill_ids : List (LedgerEvent R.Float) → List String
  local_fill_ids events = map (fill_id_of R) (fills_of events)

  -- `missing_fill` issues: local ids, gateway fills
  unfoldable pub missing_fills : List String → List (Dict (Value R.Float)) → List String
  missing_fills local [] = []
  missing_fills local (fill ∷ fills) =
      when (not (gateway_fill_id fill == "") && not (contains (gateway_fill_id fill) local))
        (concat "missing_fill:" (gateway_fill_id fill))
      ++ missing_fills local fills

  -- `abs(a - b) > 1e-9`
  abbrev pub apart : R.Float → R.Float → Bool
  apart a b = R.lt (R.lit 1 9) (R.abs (R.sub a b))

  -- `position_mismatch` issues: local positions, gateway positions in sorted order
  unfoldable pub position_mismatches : Dict R.Float → Dict R.Float → List String
  position_mismatches local [] = []
  position_mismatches local ((symbol, qty) ∷ rest) =
      when (apart qty (get_or (lookup symbol local) (R.lit 0 0)))
        (concat "position_mismatch:" symbol)
      ++ position_mismatches local rest

  -- The arguments of `build_reconciliation_repair_plan` besides the events.
  pub record GatewayView : Type 0 where
    pub gateway_fills : List (Dict (Value R.Float))
    pub gateway_positions : Dict R.Float
    pub gateway_cash_balance : R.Float
    pub local_cash_balance : R.Float
    pub stale_websocket : Bool
    pub clock_drift_seconds : ℤ

  unfoldable pub issues_between :
      List (LedgerEvent R.Float) → Dict R.Float → GatewayView → List String
  issues_between events positions view =
      missing_fills (local_fill_ids events) view.gateway_fills
      ++ (map (concat "duplicate_fill:")
            (detect_duplicate_fills (map (λ e. e.payload) (fills_of events)))
          ++ (position_mismatches positions (sorted_items view.gateway_positions)
              ++ (when (apart view.gateway_cash_balance view.local_cash_balance) "balance_mismatch"
                  ++ (when view.stale_websocket "stale_websocket"
                      ++ when (ltb 5 (magnitude view.clock_drift_seconds)) "clock_drift"))))

  abbrev pub plan_of : List String → ReconciliationRepairPlan
  plan_of issues = record {
    status = if is_empty issues then "PASS" else "REPAIR_REQUIRED";
    issues = issues;
    repair_actions = repair_actions issues;
  }

  unfoldable pub build_reconciliation_repair_plan :
      List (LedgerEvent R.Float) → GatewayView → Result ReconciliationRepairPlan
  build_reconciliation_repair_plan events view = rebuild_state_projection R events >>= λ projection.
      ok (plan_of (issues_between events projection.positions view))
