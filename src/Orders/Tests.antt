-- ===== src/Orders/Tests.antt =====
-- Runs of the order layer on concrete inputs, and the theorems at inputs that meet their
-- hypotheses.
use proofalpha.Prelude.{
  ◌⊎◌, String, true, false, some, List, ◌∷◌, [], ◌≡◌, ◌↔◌, ◌≤◌, refl, arith, length, contains,
}
use proofalpha.Prelude.Int.{pos, ◌-ℤ◌}
use proofalpha.Prelude.Dict.{lookup, insert}
use proofalpha.Python.Fixed.{fixed, fixed-IsOrdered}
use proofalpha.Orders.State.{
  OrderLifecycleState, filled, risk_approved, translated, submitted, acked, is_terminal,
  OrderRecord, Outcome, updated, raised, terminal_order_state, apply_transition,
}
use proofalpha.Orders.Lifecycle.{
  IsHistory, Reachable, here, next, transition as by_transition, nine_events_at_most,
  terminal_within_one,
}
use proofalpha.Orders.Gates.{PassedGates, venue_needs_gates}
use proofalpha.Orders.Intent.{
  InternalOrderIntent, issues_of, risk_bound_issues, create, validate_internal_order_intent,
  deterministic_client_order_id,
}
use proofalpha.Orders.IntentLaws.{IsWellFormed, validate_iff}
use proofalpha.Orders.Manager.{
  OrderManager, new_manager, done, failed, duplicate_intent, created_record, create_order,
  order_id_for,
}
use proofalpha.Orders.Calls.{Call, move, run, order_id, client_id}
use proofalpha.Orders.Consistency.{IsConsistent, run-IsConsistent}
use proofalpha.Orders.Idempotency.{create_order_once, orders_only_advance}

abbrev order : OrderRecord
order = created_record "order-1" "intent-1"

abbrev advance : OrderRecord → OrderLifecycleState → Outcome
advance r to = apply_transition r to "test"

abbrev moved : Outcome → OrderRecord
moved (updated r) = r
moved (raised e) = order

abbrev filled_order : OrderRecord
unfolding apply_transition
filled_order = moved (
    advance
      (moved (
        advance
          (moved
            (advance (moved (advance (moved (advance order risk_approved)) translated)) submitted))
          acked))
      filled)

fill_ends : advance filled_order acked ≡ raised (terminal_order_state filled)
unfolding apply_transition
fill_ends = refl

nine_events_at_most_example :
    let s = moved (advance order risk_approved) in
    IsHistory s × (s.order_id ≡ "order-1") × (s.intent_id ≡ "intent-1") × (length s.events ≤ 9)
unfolding apply_transition
nine_events_at_most_example =
    nine_events_at_most order (moved (advance order risk_approved)) (refl, refl, refl, refl)
      (next here (by_transition risk_approved "test" refl))

terminal_within_one_example :
    (is_terminal order.lifecycle_state ≡ true)
    ⊎ ((to : OrderLifecycleState) × (reason : String) × (r' : OrderRecord) × (apply_transition order
            to reason
          ≡ updated r')
        × (is_terminal r'.lifecycle_state ≡ true))
terminal_within_one_example = terminal_within_one order

venue_needs_gates_example : PassedGates (filled_order).events
unfolding apply_transition
venue_needs_gates_example = venue_needs_gates filled_order (ground arith) refl

abbrev draft : InternalOrderIntent (fixed).Float
draft = record {
  intent_id = "";
  artifact_id = "artifact";
  portfolio_plan_id = "plan";
  symbol = "BTCUSDT";
  desired_position_delta = pos 2000000000;
  side = "buy";
  intent_type = "open";
  urgency = "normal";
  reduce_only_required = false;
  max_slippage_bps = pos 5000000000;
  max_spread_bps = pos 5000000000;
  max_participation_rate = pos 100000000;
  funding_guard_policy = "block";
  liquidation_guard_policy = "block";
  created_at = "2026-01-01T00:00:00Z";
  expires_at = "2026-01-01T01:00:00Z";
}

-- `create` upper-cases the side and fills in an id of 48 digits; the result passes validation.
create_passes :
    let i = create fixed draft in
    (i.side ≡ "BUY") × ((validate_internal_order_intent fixed i).passed ≡ true)
unfolding create validate_internal_order_intent issues_of risk_bound_issues contains ◌-ℤ◌
create_passes = (refl, refl)

abbrev intent : InternalOrderIntent (fixed).Float
intent = record draft { intent_id = "intent-1"; side = "BUY" }

-- the same intent id on another symbol
abbrev impostor : InternalOrderIntent (fixed).Float
impostor = record intent { symbol = "ETHUSDT" }

abbrev empty : OrderManager
empty = new_manager "binance_usdm"

-- the manager after `create_order(intent)`
one_order : OrderManager
one_order = (create_order fixed intent empty).1

the_id : String
the_id = order_id fixed intent empty

intent_accepted : (create_order fixed intent empty).0 ≡ done (created_record the_id "intent-1")
unfolding the_id create_order validate_internal_order_intent issues_of risk_bound_issues contains
    order_id_for deterministic_client_order_id ◌-ℤ◌
intent_accepted = refl

intent-IsWellFormed : IsWellFormed fixed intent
unfolding validate_internal_order_intent issues_of risk_bound_issues contains
intent-IsWellFormed = (validate_iff fixed fixed-IsOrdered intent).0 refl

validate_iff_example :
    ((validate_internal_order_intent fixed intent).passed ≡ true) ↔ IsWellFormed fixed intent
validate_iff_example = validate_iff fixed fixed-IsOrdered intent

abbrev calls : List (Call fixed)
calls = move "order-x" acked "lost" ∷ Call.create intent ∷ []

empty-IsConsistent : IsConsistent fixed empty
unfolding lookup
empty-IsConsistent = record {
  keyed = λ k r h. cc;
  derived = λ k r h. cc;
  traced = λ k r h. cc;
  indexed = λ k r h. cc;
}

run-IsConsistent_example : IsConsistent fixed (run fixed calls empty)
run-IsConsistent_example = run-IsConsistent fixed calls empty empty-IsConsistent

create_order_once_example :
    let m = run fixed calls (create_order fixed intent empty).1 in
    create_order fixed intent m ≡ (failed (duplicate_intent "intent-1"), m)
create_order_once_example =
    create_order_once fixed intent empty (created_record the_id "intent-1") calls intent_accepted

stored_order : lookup the_id one_order.orders ≡ some (created_record the_id "intent-1")
unfolding the_id one_order create_order validate_internal_order_intent issues_of risk_bound_issues
    contains order_id_for deterministic_client_order_id lookup insert ◌-ℤ◌
stored_order = refl

still_registered : contains (client_id fixed intent one_order) one_order.client_order_ids ≡ true
unfolding the_id one_order create_order validate_internal_order_intent issues_of risk_bound_issues
    contains order_id_for deterministic_client_order_id ◌-ℤ◌
still_registered = refl

orders_only_advance_example :
    (r' : OrderRecord) × (lookup the_id (run fixed calls one_order).orders ≡ some r')
    × Reachable (created_record the_id "intent-1") r'
orders_only_advance_example =
    orders_only_advance fixed the_id one_order calls (created_record the_id "intent-1") stored_order
      (tt, (λ e. still_registered, tt))

impostor_valid : (validate_internal_order_intent fixed impostor).passed ≡ true
unfolding validate_internal_order_intent issues_of risk_bound_issues contains
impostor_valid = refl

impostor_new : contains (client_id fixed impostor one_order) one_order.client_order_ids ≡ false
unfolding the_id one_order create_order validate_internal_order_intent issues_of risk_bound_issues
    contains order_id_for deterministic_client_order_id ◌-ℤ◌
impostor_new = refl

same_id : order_id fixed impostor one_order ≡ the_id
unfolding the_id one_order create_order validate_internal_order_intent issues_of risk_bound_issues
    contains order_id_for deterministic_client_order_id ◌-ℤ◌
same_id = refl
