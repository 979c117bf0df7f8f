-- ===== src/Ledger/Coverage.antt =====
-- Every issue has a repair, and what a reconciliation cannot see
-- (src/engine/execution/reconciliation_repair.py).
use text.Mathlib.TextPositions.{starts_with-append}
use proofalpha.Prelude.{
  String, Bool, true, false, List, ◌∷◌, [], ◌++◌, ◌||◌, ◌≡◌, refl, ◌∙◌, arith, contains, concat,
  map, All, All-append, ltb, is_empty, is_empty-append, when, starts_with, sym,
}
use proofalpha.Prelude.Int.{magnitude}
use proofalpha.Prelude.Dict.{Dict, lookup}
use proofalpha.Python.Runtime.{Runtime, Value}
use proofalpha.Python.Convert.{ok, >>=-eq-ok}
use proofalpha.Python.Sets.{sorted_items, sorted_items-All, is_empty-sorted_set}
use proofalpha.Ledger.Event.{LedgerEvent}
use proofalpha.Ledger.Projection.{rebuild_state_projection}
use proofalpha.Ledger.Repair.{
  ReconciliationRepairPlan, GatewayView, gateway_fill_id, local_fill_ids, missing_fills, apart,
  position_mismatches, issues_between, repair_action, actions_for, repair_actions,
  build_reconciliation_repair_plan,
}

-- The issue has at least one repair action.
abbrev IsRepairable : String → Type 0
IsRepairable issue = is_empty (repair_action issue) ≡ false

prefix-IsRepairable :
    (issue : String)
    → (starts_with issue "missing_fill:"
        || (starts_with issue "duplicate_fill:" || starts_with issue "position_mismatch:"))
      ≡ true
    → IsRepairable issue
unfolding repair_action
prefix-IsRepairable issue h = ground arith

missing-IsRepairable : (id : String) → IsRepairable (concat "missing_fill:" id)
missing-IsRepairable id =
    prefix-IsRepairable (concat "missing_fill:" id)
      (ground (arith, starts_with-append "missing_fill:" id))

duplicate-IsRepairable : (id : String) → IsRepairable (concat "duplicate_fill:" id)
duplicate-IsRepairable id =
    prefix-IsRepairable (concat "duplicate_fill:" id)
      (ground (arith, starts_with-append "duplicate_fill:" id))

position-IsRepairable : (symbol : String) → IsRepairable (concat "position_mismatch:" symbol)
position-IsRepairable symbol =
    prefix-IsRepairable (concat "position_mismatch:" symbol)
      (ground (arith, starts_with-append "position_mismatch:" symbol))

when-IsRepairable :
    (b : Bool) (issue : String) → IsRepairable issue → All IsRepairable (when b issue)
when-IsRepairable true issue h = (h, tt)
when-IsRepairable false issue h = tt

map-IsRepairable : (ids : List String) → All IsRepairable (map (concat "duplicate_fill:") ids)
map-IsRepairable [] = tt
map-IsRepairable (id ∷ ids) = (duplicate-IsRepairable id, map-IsRepairable ids)

balance-IsRepairable : IsRepairable "balance_mismatch"
unfolding repair_action contains
balance-IsRepairable = refl

stale-IsRepairable : IsRepairable "stale_websocket"
unfolding repair_action contains
stale-IsRepairable = refl

drift-IsRepairable : IsRepairable "clock_drift"
unfolding repair_action contains
drift-IsRepairable = refl

flags-IsRepairable :
    (balance stale drift : Bool)
    → All IsRepairable (
        when balance "balance_mismatch"
        ++ (when stale "stale_websocket" ++ when drift "clock_drift"))
flags-IsRepairable balance stale drift =
    let rest = when drift "clock_drift" in
    All-append IsRepairable (when balance "balance_mismatch") (when stale "stale_websocket" ++ rest)
      (when-IsRepairable balance "balance_mismatch" balance-IsRepairable)
      (All-append IsRepairable (when stale "stale_websocket") rest
        (when-IsRepairable stale "stale_websocket" stale-IsRepairable)
        (when-IsRepairable drift "clock_drift" drift-IsRepairable))

is_empty-actions_for :
    (issues : List String)
    → All IsRepairable issues
    → is_empty (actions_for issues) ≡ is_empty issues
unfolding actions_for
is_empty-actions_for [] h = refl
is_empty-actions_for (i ∷ is) h = rw (is_empty-append, h.0)

module _ (R : Runtime) where
  missing_fills-All :
      (local : List String) (fills : List (Dict (Value R.Float)))
      → All IsRepairable (missing_fills R local fills)
  unfolding missing_fills
  missing_fills-All local [] = tt
  missing_fills-All local (fill ∷ fills) =
      All-append IsRepairable _ (missing_fills R local fills)
        (when-IsRepairable _ _ (missing-IsRepairable (gateway_fill_id R fill)))
        (missing_fills-All local fills)

  position_mismatches-All :
      (local d : Dict R.Float) → All IsRepairable (position_mismatches R local d)
  unfolding position_mismatches
  position_mismatches-All local [] = tt
  position_mismatches-All local ((symbol, qty) ∷ d) =
      All-append IsRepairable _ (position_mismatches R local d)
        (when-IsRepairable _ _ (position-IsRepairable symbol)) (position_mismatches-All local d)

  issues-IsRepairable :
      (events : List (LedgerEvent R.Float)) (positions : Dict R.Float) (view : GatewayView R)
      → All IsRepairable (issues_between R events positions view)
  unfolding issues_between
  issues-IsRepairable events positions view =
      All-append IsRepairable _ _ (missing_fills-All (local_fill_ids R events) view.gateway_fills) (
        All-append IsRepairable _ _ (map-IsRepairable _) (
          All-append IsRepairable _ _ (position_mismatches-All positions _) (
            flags-IsRepairable (apart R view.gateway_cash_balance view.local_cash_balance)
              view.stale_websocket (ltb 5 (magnitude view.clock_drift_seconds)))))

  -- A plan has repair actions exactly when it has issues: no issue is left without an action, and
  -- no action is proposed where nothing is wrong.
  pub plan_repairs_issues :
      (events : List (LedgerEvent R.Float)) (view : GatewayView R) (plan : ReconciliationRepairPlan)
      → build_reconciliation_repair_plan R events view ≡ ok plan
      → is_empty plan.repair_actions ≡ is_empty plan.issues
  unfolding build_reconciliation_repair_plan repair_actions
  plan_repairs_issues events view plan h =
      let (projection, p, q) = >>=-eq-ok (rebuild_state_projection R events) _ (sym h) in
      let issues = issues_between R events projection.positions view in
      let repaired =
        is_empty-sorted_set (actions_for issues)
        ∙ is_empty-actions_for issues (issues-IsRepairable events projection.positions view) in
      ground arith

  same_mismatches :
      (p p' d : Dict R.Float)
      → All (λ e. lookup e.0 p ≡ lookup e.0 p') d
      → position_mismatches R p d ≡ position_mismatches R p' d
  unfolding position_mismatches
  same_mismatches p p' [] h = refl
  same_mismatches p p' ((symbol, qty) ∷ d) h = rw (h.0, same_mismatches p p' d h.1)

  -- A position that the gateway does not list is never compared: two local books that agree on
  -- the gateway's symbols lead to the same issues, whatever they hold in all others.
  pub unlisted_positions_unseen :
      (events : List (LedgerEvent R.Float)) (p p' : Dict R.Float) (view : GatewayView R)
      → All (λ e. lookup e.0 p ≡ lookup e.0 p') view.gateway_positions
      → issues_between R events p view ≡ issues_between R events p' view
  unfolding issues_between
  unlisted_positions_unseen events p p' view h = rw (
      same_mismatches p p' (sorted_items view.gateway_positions)
        ((sorted_items-All (λ e. lookup e.0 p ≡ lookup e.0 p') view.gateway_positions).1 h))
