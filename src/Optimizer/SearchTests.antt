-- ===== src/Optimizer/SearchTests.antt =====
-- Runs of the search (src/engine/optimizer/grid.py, phases.py) on small inputs, and the theorems about
-- it at them.
use proofalpha.Prelude.{
  ℕ, String, true, none, some, List, ◌∷◌, [], ◌==◌, ◌≡◌, ◌↔◌, refl, if◌then◌else◌,
}
use proofalpha.Prelude.Int.{ℤ, pos, ◌+ℤ◌}
use proofalpha.Prelude.Dict.{Dict}
use proofalpha.Python.Runtime.{Value, int}
use proofalpha.Python.Convert.{Result, Ensures, ok}
use proofalpha.Python.Fixed.{fixed, fixed-IsOrdered}
use proofalpha.Optimizer.Ranges.{
  ParameterRange, range_values, values_loop, shown, is_excluded, excluded_floats,
}
use proofalpha.Optimizer.Ticks.{Ends, range_values-Ends}
use proofalpha.Optimizer.Grid.{expand_parameter_grid, ordered_values, grid_of, count_loop}
use proofalpha.Optimizer.Combinations.{IsGrid, expand_parameter_grid_total}
use proofalpha.Optimizer.Models.{
  LayerFamily, LayerSpec, StrategyGraph, BacktestResult, BootstrapReport, CandidateEvaluation,
  with_layer,
}
use proofalpha.Optimizer.Phases.{
  run_directional_phase, directional_with_records, sequential_with_records, best_loop, is_better,
}
use proofalpha.Optimizer.Pipeline.{Candidates, run_pipeline, searched, phases}
use proofalpha.Optimizer.Growth.{IsGrown, IsWeak, Passes, offered_layers, run_pipeline-IsGrown}
use proofalpha.Optimizer.Best.{IsBestOf, directional_with_records-IsBestOf}

-- 1, 1.5, 2, without 1.5
abbrev halves : ParameterRange ℤ
halves = record {
  minimum = pos 1000000000;
  maximum = pos 2000000000;
  step = pos 500000000;
  excluded_values = Value.float (pos 1500000000) ∷ [];
}

halves_run : range_values fixed halves ≡ some (ok (int (pos 1) ∷ int (pos 2) ∷ []))
unfolding range_values values_loop ◌+ℤ◌ shown is_excluded excluded_floats
halves_run = refl

range_values-Ends_example : Ends fixed halves (range_values fixed halves)
range_values-Ends_example = range_values-Ends fixed halves

abbrev ranges : Dict (ParameterRange ℤ)
ranges = ("fast", halves) ∷ ("slow", halves) ∷ []

grid_run :
    expand_parameter_grid fixed ranges (pos 4)
    ≡ some (
        ok (
          ((("fast", int (pos 1)) ∷ ("slow", int (pos 1)) ∷ [])
              ∷ (("fast", int (pos 1)) ∷ ("slow", int (pos 2)) ∷ [])
              ∷ (("fast", int (pos 2)) ∷ ("slow", int (pos 1)) ∷ [])
              ∷ (("fast", int (pos 2)) ∷ ("slow", int (pos 2)) ∷ [])
              ∷ []),
          4,
        ))
unfolding expand_parameter_grid ordered_values range_values values_loop ◌+ℤ◌ grid_of count_loop
    shown is_excluded excluded_floats
grid_run = refl

expand_parameter_grid_total_example :
    (r : Result (List (Dict (Value ℤ)) × ℕ)) × (expand_parameter_grid fixed ranges (pos 4) ≡ some r)
    × Ensures (IsGrid fixed ranges (pos 4)) r
expand_parameter_grid_total_example = expand_parameter_grid_total fixed ranges (pos 4)

abbrev backtest : ℤ → BacktestResult ℤ
backtest sharpe = record {
  trade_count = pos 40;
  win_rate = pos 550000000;
  gross_pnl = pos 0;
  net_pnl = pos 0;
  fee_spend = pos 0;
  funding_spend = pos 0;
  sharpe = sharpe;
  sortino = sharpe;
  max_drawdown = pos 0;
  equity_curve = [];
  liquidation_events = [];
  execution_pressure_summary = [];
}

abbrev bootstrap : BootstrapReport ℤ
bootstrap = record {
  sample_count = pos 100;
  median_net_profit = pos 0;
  median_max_drawdown = pos 0;
  worst_case_net_profit = pos 0;
  worst_case_drawdown = pos 0;
  pass_rate = pos 900000000;
  bootstrap_method = "moving_block";
  block_size = none;
  bootstrap_microstructure_overlay = [];
  bootstrap_regime_summary = [];
}

abbrev evaluated : String → String → ℤ → CandidateEvaluation ℤ
evaluated name decision sharpe = record {
  layer_name = name;
  decision = record { decision = decision; reasons = [] };
  train_result = backtest sharpe;
  oos_result = backtest sharpe;
  bootstrap_report = bootstrap;
  selected_parameters = [];
  permutation_count = pos 1;
  search_summary = [];
  candidate_trials = [];
}

-- "volume" is refused; "trend" has a greater Sharpe ratio than the other layers.
abbrev evaluator : StrategyGraph ℤ → LayerSpec ℤ → CandidateEvaluation ℤ
evaluator s layer =
    evaluated layer.name (if layer.name == "volume" then "reject" else "accept")
      (if layer.name == "trend" then pos 1200000000 else pos 800000000)

abbrev layer_of : String → LayerFamily → LayerSpec ℤ
layer_of name family = record {
  name = name;
  family = family;
  parameters = [];
  precedence = pos 0;
  eligibility_rules = [];
}

abbrev backbone_only : StrategyGraph ℤ
backbone_only = record { backbone = "breakout"; layers = []; risk_guards = [] }

abbrev directional : List (LayerSpec ℤ)
directional =
    layer_of "momentum" LayerFamily.directional_filter
    ∷ layer_of "trend" LayerFamily.directional_filter
    ∷ []

abbrev candidates : Candidates fixed
candidates = record {
  directional_layers = directional;
  known_good_filters = layer_of "volume" LayerFamily.known_good_flat_filter ∷ [];
  custom_filters = [];
  exit_layers = layer_of "time_stop" LayerFamily.exit ∷ [];
}

pipeline_run :
    (run_pipeline fixed evaluator backbone_only candidates none).final_strategy.layers
    ≡ layer_of "trend" LayerFamily.directional_filter ∷ layer_of "time_stop" LayerFamily.exit ∷ []
unfolding run_pipeline searched phases sequential_with_records with_layer directional_with_records
    best_loop is_better
pipeline_run = refl

run_pipeline-IsGrown_example :
    let r = run_pipeline fixed evaluator backbone_only candidates none in
    IsGrown fixed evaluator
      (offered_layers fixed evaluator candidates)
      backbone_only
      r.final_strategy
    × (IsWeak fixed evaluator backbone_only → r.final_strategy ≡ backbone_only)
    × (((r.status == "promoted") ≡ true) ↔ (
        ¬ IsWeak fixed evaluator backbone_only
        × Passes fixed evaluator none r.final_strategy r.phase_records))
run_pipeline-IsGrown_example = run_pipeline-IsGrown fixed evaluator backbone_only candidates none

directional_with_records-IsBestOf_example :
    let s = (directional_with_records fixed evaluator backbone_only directional []).0 in
    IsBestOf fixed evaluator fixed-IsOrdered backbone_only directional s
    × (run_directional_phase fixed evaluator backbone_only directional ≡ s)
directional_with_records-IsBestOf_example =
    directional_with_records-IsBestOf fixed evaluator fixed-IsOrdered backbone_only directional []
