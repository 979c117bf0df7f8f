-- ===== src/Portfolio/Tests.antt =====
-- Runs of src/engine/portfolio, and the theorems about it at concrete inputs.
use proofalpha.Prelude.{String, false, some}
use proofalpha.Prelude.Int.{ℤ, pos}
use proofalpha.Portfolio.Target.{SymbolTarget}
use proofalpha.Portfolio.Rebalance.{RebalancePolicy}

abbrev target : SymbolTarget ℤ
target = record {
  symbol = "BTCUSDT";
  artifact_id = "a1";
  role = "core";
  target_weight = pos 200000000;
  target_notional = pos 1000000000000;
  max_loss_budget = pos 50000000000;
  max_slippage_bps = pos 5000000000;
  max_funding_cost_bps = pos 3000000000;
  rebalance_reason = "scheduled";
}

abbrev hourly : RebalancePolicy ℤ
hourly = record {
  interval_seconds = pos 3600;
  drift_bps = pos 30000000000;
  risk_breach = false;
  lifecycle_event = some "";
}

abbrev asked : String
asked = "close"
