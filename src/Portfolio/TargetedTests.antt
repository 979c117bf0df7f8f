-- ===== src/Portfolio/TargetedTests.antt =====
-- A run of src/engine/portfolio/target_portfolio.py, and the theorem about it.
use proofalpha.Prelude.{String, true, false, List, ◌∷◌, [], ◌≡◌, ◌↔◌, refl, map, All}
use proofalpha.Prelude.Int.{ℤ}
use proofalpha.Python.Fixed.{fixed}
use proofalpha.Python.Convert.{ok, err, value_error}
use proofalpha.Portfolio.Target.{SymbolTarget}
use proofalpha.Portfolio.PlanTables.{PortfolioAllocation}
use proofalpha.Portfolio.TargetPortfolio.{
  TargetSettings, settings_fields, target_portfolio, build_target_portfolio,
}
use proofalpha.Portfolio.RiskLimits.{AreFinite}
use proofalpha.Portfolio.Targeted.{IsAllocatable, all_targets, build_target_portfolio_iff}
use proofalpha.Portfolio.BudgetTests.{percent}

abbrev settings : TargetSettings ℤ
settings = record {
  universe_id = "u1";
  artifact_set_id = "s1";
  btc_beta_target = percent 0;
  eth_beta_target = percent 0;
  max_symbol_weight = percent 100;
  max_cluster_weight = percent 100;
  max_slippage_bps = percent 2500;
  max_funding_cost_bps = percent 1000;
  rebalance_reason = "scheduled";
}

abbrev allocation : List String → PortfolioAllocation ℤ
allocation symbols = record {
  artifact_id = "a1";
  strategy_id = "momentum";
  symbols = symbols;
  portfolio_role = "core";
  notional = percent 40000;
  expected_return_bps = percent 1200;
  max_drawdown = percent 10;
}

abbrev allocations : List (PortfolioAllocation ℤ)
allocations = allocation ("BTCUSDT" ∷ "ETHUSDT" ∷ []) ∷ []

build_target_portfolio_iff_example :
    (build_target_portfolio fixed settings (percent 100000) allocations
      ≡ ok (
          target_portfolio fixed settings
            (percent 100000)
            (all_targets fixed settings (percent 100000) allocations)))
    ↔ ((fixed.is_finite (percent 100000) ≡ true)
        × (fixed.le (percent 100000) (fixed.lit 0 0) ≡ false)
        × AreFinite fixed (settings_fields fixed settings)
        × All (IsAllocatable fixed) allocations
        × (target_portfolio fixed settings
              (percent 100000)
              (all_targets fixed settings (percent 100000) allocations)
            ≡ target_portfolio fixed settings
                (percent 100000)
                (all_targets fixed settings (percent 100000) allocations)))
build_target_portfolio_iff_example =
    build_target_portfolio_iff fixed settings (percent 100000) allocations (
      target_portfolio fixed settings (percent 100000)
        (all_targets fixed settings (percent 100000) allocations))

no_capital :
    build_target_portfolio fixed settings (percent 0) allocations
    ≡ err (value_error "capital_base_must_be_positive")
unfolding build_target_portfolio
no_capital = refl

shares :
    map
      (λ (t : SymbolTarget ℤ). t.target_weight)
      (all_targets fixed settings (percent 100000) allocations)
    ≡ percent 20 ∷ percent 20 ∷ []
unfolding all_targets
shares = refl
