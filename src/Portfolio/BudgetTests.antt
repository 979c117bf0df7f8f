-- ===== src/Portfolio/BudgetTests.antt =====
-- A run of src/engine/portfolio/risk_budget.py, and the theorem about it.
use proofalpha.Prelude.Dict.{insert, lookup}
use proofalpha.Python.Sets.{sorted_items}
use proofalpha.Prelude.{ℕ, String, true, false, List, ◌∷◌, [], ◌≡◌, ◌↔◌, refl, ◌*◌, All}
use proofalpha.Prelude.Int.{ℤ, pos, ◌+ℤ◌}
use proofalpha.Python.Fixed.{fixed}
use proofalpha.Portfolio.Target.{SymbolTarget, number_fields}
use proofalpha.Portfolio.RiskBudget.{
  PortfolioRiskBudget, budget_fields, evaluate_portfolio_risk_budget, weigh_all, non_finite_names,
  cluster_rejections,
}
use proofalpha.Portfolio.RiskLimits.{AreFinite, IsTargetWithin, beta_total}
use proofalpha.Portfolio.BudgetPassed.{AreClustersWithin, evaluate_portfolio_risk_budget_iff}

abbrev pub percent : ℕ → ℤ
percent n = pos (n * 10000000)

abbrev pub target : String → ℕ → SymbolTarget ℤ
target symbol weight = record {
  symbol = symbol;
  artifact_id = "a1";
  role = "core";
  target_weight = percent weight;
  target_notional = percent 1000;
  max_loss_budget = percent 10;
  max_slippage_bps = percent 500;
  max_funding_cost_bps = percent 200;
  rebalance_reason = "scheduled";
}

abbrev targets : List (SymbolTarget ℤ)
targets = target "ETHUSDT" 30 ∷ target "SOLUSDT" 20 ∷ []

abbrev risk_budget : PortfolioRiskBudget ℤ
risk_budget = record {
  max_symbol_weight = percent 30;
  max_cluster_weight = percent 50;
  max_btc_beta = percent 60;
  max_eth_beta = percent 60;
  max_funding_cost_bps = percent 300;
  max_turnover_weight = percent 10;
  cluster_by_symbol = ("ETHUSDT", "majors") ∷ ("SOLUSDT", "majors") ∷ [];
  beta_by_symbol = ("SOLUSDT", ("BTC", percent 120) ∷ []) ∷ [];
  turnover_weight = percent 5;
}

evaluate_portfolio_risk_budget_iff_example :
    ((evaluate_portfolio_risk_budget fixed targets risk_budget).passed ≡ true) ↔ (
      AreFinite fixed (budget_fields fixed risk_budget)
      × All (IsTargetWithin fixed risk_budget) targets
      × AreClustersWithin fixed risk_budget targets
      × (fixed.lt risk_budget.max_btc_beta
            (beta_total fixed risk_budget "BTC" (fixed.lit 0 0) targets)
          ≡ false)
      × (fixed.lt risk_budget.max_eth_beta
            (beta_total fixed risk_budget "ETH" (fixed.lit 0 0) targets)
          ≡ false)
      × (fixed.lt risk_budget.max_turnover_weight risk_budget.turnover_weight ≡ false))
evaluate_portfolio_risk_budget_iff_example =
    evaluate_portfolio_risk_budget_iff fixed targets risk_budget

budget_used : (evaluate_portfolio_risk_budget fixed targets risk_budget).passed ≡ true
unfolding evaluate_portfolio_risk_budget weigh_all non_finite_names number_fields cluster_rejections
    sorted_items insert lookup ◌+ℤ◌
budget_used = refl
