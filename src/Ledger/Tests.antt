-- ===== src/Ledger/Tests.antt =====
-- Runs of the ledger on concrete inputs, and the theorems at inputs that meet their hypotheses.
use proofalpha.Prelude.{false, List, ◌∷◌, [], ◌++◌, ◌≡◌, ◌↔◌, refl, contains}
use proofalpha.Prelude.Int.{pos, ◌-ℤ◌, ◌+ℤ◌}
use proofalpha.Prelude.Dict.{Dict, lookup, insert}
use proofalpha.Python.Runtime.{Value, text}
use proofalpha.Python.Fixed.{fixed}
use proofalpha.Python.Convert.{Result, ok, ◌>>=◌, truth, str, to_float}
use proofalpha.Python.Sets.{sorted_set, sorted_items}
use proofalpha.Ledger.Event.{LedgerEvent, order_event, fill_event, funding_event}
use proofalpha.Ledger.Projection.{
  StateProjection, fill_id_of, new_fill, apply_fill, apply_funding, apply_event, apply_events,
  finish, rebuild_state_projection,
}
use proofalpha.Ledger.Replay.{essential, rebuild-essential}
use proofalpha.Ledger.Redelivery.{fill_ids, rebuild-redelivered}
use proofalpha.Ledger.Repair.{
  ReconciliationRepairPlan, GatewayView, plan_of, missing_fills, fills_of, position_mismatches,
  repeated, detect_duplicate_fills, issues_between, build_reconciliation_repair_plan,
}
use proofalpha.Ledger.Plan.{IsReconciled, plan_passes_iff}
use proofalpha.Ledger.Coverage.{unlisted_positions_unseen}

abbrev Event : Type 0
Event = LedgerEvent (fixed).Float

abbrev one : (fixed).Float
one = pos 1000000000

abbrev two : (fixed).Float
two = pos 2000000000

abbrev ordered : Event
unfolding order_event
ordered = order_event fixed "event-0" "BTCUSDT" "buy" two one

abbrev bought : Event
unfolding fill_event
bought = fill_event fixed "fill-1" "order-1" "BTCUSDT" "buy" two one (pos 1000000)

abbrev sold : Event
unfolding fill_event
sold = fill_event fixed "fill-2" "order-2" "BTCUSDT" "sell" one two (pos 1000000)

abbrev paid : Event
unfolding funding_event
paid = funding_event fixed "event-3" "BTCUSDT" (pos 500000000)

abbrev ledger : List Event
ledger = ordered ∷ bought ∷ sold ∷ bought ∷ paid ∷ []

abbrev read : Result (StateProjection (fixed).Float) → Result (Dict (fixed).Float × (fixed).Float)
read r = r >>= λ p. ok (p.positions, p.cash)

-- One unit is left; the repeated fill is skipped, and the cash is 0 + 0.5 of funding less the fees.
ledger_projection :
    read (rebuild_state_projection fixed ledger) ≡ ok (("BTCUSDT", one) ∷ [], pos 498000000)
unfolding rebuild_state_projection apply_events apply_event apply_fill apply_funding new_fill
    fill_id_of finish order_event fill_event funding_event truth str to_float lookup insert contains
    sorted_items ◌-ℤ◌ ◌+ℤ◌
ledger_projection = refl

rebuild-essential_example :
    rebuild_state_projection fixed ledger
    ≡ rebuild_state_projection fixed (essential fixed [] ledger)
rebuild-essential_example = rebuild-essential fixed ledger

rebuild-redelivered_example :
    rebuild_state_projection fixed (ledger ++ sold ∷ bought ∷ [])
    ≡ rebuild_state_projection fixed ledger
unfolding fill_ids fill_id_of fill_event order_event funding_event truth str lookup contains
rebuild-redelivered_example =
    rebuild-redelivered fixed ledger (sold ∷ bought ∷ []) ((refl, refl), ((refl, refl), tt))

abbrev reported : Dict (Value (fixed).Float)
reported = ("fill_id", text "fill-1") ∷ []

abbrev view : GatewayView fixed
view = record {
  gateway_fills = reported ∷ [];
  gateway_positions = [];
  gateway_cash_balance = one;
  local_cash_balance = one;
  stale_websocket = false;
  clock_drift_seconds = pos 2;
}

-- The gateway lists no position, the ledger holds two units, and the plan passes.
abbrev plan : ReconciliationRepairPlan
plan = plan_of fixed []

plan_made : build_reconciliation_repair_plan fixed (bought ∷ []) view ≡ ok plan
unfolding build_reconciliation_repair_plan issues_between missing_fills fills_of position_mismatches
    detect_duplicate_fills repeated sorted_set rebuild_state_projection apply_events apply_event
    apply_fill apply_funding new_fill fill_id_of finish fill_event truth str to_float lookup insert
    contains sorted_items ◌-ℤ◌ ◌+ℤ◌
plan_made = refl

plan_passes_iff_example :
    (projection : StateProjection (fixed).Float) × (rebuild_state_projection fixed (bought ∷ [])
      ≡ ok projection)
    × (((plan).status ≡ "PASS") ↔ IsReconciled fixed (bought ∷ []) projection.positions view)
plan_passes_iff_example = plan_passes_iff fixed (bought ∷ []) view plan plan_made

unlisted_positions_unseen_example :
    issues_between fixed (bought ∷ []) (("BTCUSDT", two) ∷ []) view
    ≡ issues_between fixed (bought ∷ []) [] view
unlisted_positions_unseen_example =
    unlisted_positions_unseen fixed (bought ∷ []) (("BTCUSDT", two) ∷ []) [] view tt
