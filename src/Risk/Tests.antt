-- ===== src/Risk/Tests.antt =====
-- Runs of the risk layer on concrete inputs, and the theorems at inputs that meet their hypotheses.
use proofalpha.Prelude.{
  String, true, false, List, ◌∷◌, [], ◌++◌, ◌≡◌, ◌≢◌, ◌↔◌, ◌⊎◌, refl, contains, some,
}
use proofalpha.Prelude.Int.{ℤ, pos, ◌-ℤ◌, ◌≤ℤ◌}
use proofalpha.Prelude.Dict.{lookup}
use proofalpha.Python.Fixed.{fixed}
use proofalpha.Python.Convert.{ok}
use proofalpha.Python.Clock.{parse_utc, utc_micros}
use proofalpha.Risk.State.{caution, defensive, allowed_actions_for_state}
use proofalpha.Risk.Pretrade.{PreTradeCheckContext, checks, failing, run_pretrade_checks}
use proofalpha.Risk.Clearance.{IsClear, run_pretrade_checks_iff}
use proofalpha.Risk.Executor.{evaluate, TacticInput, choose_tactic, market_tactic, ioc}
use proofalpha.Risk.Approval.{is_open_state, evaluate_iff}
use proofalpha.Risk.Guards.{FundingGuardConfig, guarded, seconds, evaluate_funding}
use proofalpha.Risk.GuardLaws.{evaluate_funding_passed}
use proofalpha.Risk.CancelReplace.{
  CancelReplaceBudget, new_manager, decision_of, hold_reasons, evaluate as evaluate_amend,
  record_amend,
}
use proofalpha.Risk.Budget.{amend, here, next, IsWithinBudget, Amends-IsWithinBudget}

abbrev context : PreTradeCheckContext
context = record {
  artifact_approved = true;
  artifact_expired = false;
  symbol_allowed = true;
  paper_mode_allowed = true;
  market_fresh = false;
  book_gap_clean = true;
  reconciliation_clean = true;
  duplicate_client_order_id = true;
  rate_limit_ok = true;
  margin_ok = true;
  venue_rules_ok = true;
  spread_depth_ok = true;
  funding_ok = true;
  liquidation_ok = true;
  portfolio_risk_ok = true;
}

two_rejections :
    (run_pretrade_checks context).rejections
    ≡ "market_data_stale" ∷ "duplicate_client_order_id" ∷ []
unfolding run_pretrade_checks checks failing
two_rejections = refl

run_pretrade_checks_iff_example :
    let result = run_pretrade_checks context in
    ((result.passed ≡ true) ↔ IsClear context)
    × ((reason : String)
        → (contains reason result.rejections ≡ true)
          ↔ (lookup reason (checks context) ≡ some false))
run_pretrade_checks_iff_example = run_pretrade_checks_iff context

abbrev stale : List String
stale = "stale" ∷ []

evaluate_iff_example :
    (((evaluate "reduce" defensive stale).approved ≡ true) ↔ (
      (stale ≡ [])
      × ((is_open_state defensive ≡ true)
          ⊎ (contains "reduce" (allowed_actions_for_state defensive) ≡ true))))
    × ((own : List String) × ((evaluate "reduce" defensive stale).reasons ≡ own ++ stale))
evaluate_iff_example = evaluate_iff "reduce" defensive stale

abbrev tactic_input : TacticInput (fixed).Float
tactic_input = record {
  side = "BUY";
  action = "open";
  spread_bps = pos 5000000000;
  depth_notional = pos 0;
  volatility_bps = pos 0;
  order_flow_imbalance = pos 0;
  funding_seconds = pos 100;
  mark_index_divergence_bps = pos 0;
  target_drift_bps = pos 200000000000;
  risk_state = caution;
  fill_probability = pos 800000000;
  adverse_selection_bps = pos 1000000000;
  open_order_count = pos 0;
}

drifted : (choose_tactic fixed tactic_input).tactic ≡ ioc
unfolding choose_tactic market_tactic
drifted = refl

abbrev funding_config : FundingGuardConfig (fixed).Float
funding_config = record {
  max_cost_bps = pos 10000000000;
  block_open_seconds_before_funding = pos 60;
}

evaluate_funding_passed_example :
    (next : ℤ) × (now : ℤ) × (parse_utc fixed "2026-01-01T08:00:00Z" ≡ ok next)
    × (parse_utc fixed "2026-01-01T07:00:00Z" ≡ ok now)
    × ((fixed).lt (pos 10000000000) (pos 3000000000) ≡ false)
    × (((◌≢◌ {A = String} "open" "open") × (◌≢◌ {A = String} "open" "increase"))
        ⊎ ((¬ (pos 0 ≤ℤ next -ℤ now)) ⊎ (¬ (next -ℤ now ≤ℤ seconds (pos 60)))))
unfolding evaluate_funding parse_utc utc_micros contains ◌-ℤ◌
evaluate_funding_passed_example =
    evaluate_funding_passed fixed funding_config "open" "2026-01-01T07:00:00Z"
      "2026-01-01T08:00:00Z" (pos 3000000000) (guarded []) refl refl

abbrev budget : CancelReplaceBudget
budget = record { max_amends = pos 2; max_cancel_replace = pos 3; maker_timeout_seconds = pos 30 }

Amends-IsWithinBudget_example :
    IsWithinBudget (record_amend "order-1" (new_manager budget))
    × ((record_amend "order-1" (new_manager budget)).budget ≡ budget)
unfolding evaluate_amend hold_reasons parse_utc utc_micros lookup ◌-ℤ◌
Amends-IsWithinBudget_example =
    Amends-IsWithinBudget fixed budget (record_amend "order-1" (new_manager budget)) (
      next here (
        amend "order-1" "2026-01-01T07:00:00Z" "2026-01-01T07:01:00Z" (pos 0) (decision_of []) refl
          refl))
