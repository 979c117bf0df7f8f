-- ===== src/Optimizer/Tests.antt =====
-- Runs of src/engine/optimizer, and the theorem about it at a concrete input.
use proofalpha.Prelude.Int.{ℤ, pos}
use proofalpha.Optimizer.Budgets.{OverfitBudget, OverfitUse}

abbrev budget : OverfitBudget ℤ
budget = record {
  max_trials = pos 100;
  max_strategy_variants = pos 10;
  max_parameter_reuse = pos 5;
  max_failed_gate_retries = pos 2;
  pbo_ceiling = pos 200000000;
  multiple_testing_penalty_policy = "deflated_sharpe";
}

abbrev spent : OverfitUse ℤ
spent = record {
  trials = pos 100;
  strategy_variants = pos 3;
  parameter_reuse = pos 0;
  failed_gate_retries = pos 1;
  pbo = pos 150000000;
}
