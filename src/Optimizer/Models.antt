-- ===== src/Optimizer/Models.antt =====
-- src/engine/config/models.py: the records that the search works on.
use proofalpha.Prelude.{String, Bool, Option, none, List, ◌∷◌, [], ◌++◌}
use proofalpha.Prelude.Int.{ℤ, pos}
use proofalpha.Prelude.Dict.{Dict}
use proofalpha.Python.Runtime.{Value}
use proofalpha.Optimizer.Ranges.{ParameterRange}

pub data LayerFamily : Type 0 where
  backbone directional_filter known_good_flat_filter custom_flat_filter exit risk_guard :
      LayerFamily

pub record PromotionDecision : Type 0 where
  pub decision : String
  pub reasons : List String

pub record ValidationStageResult (Float : Type 0) : Type 0 where
  pub stage_name : String
  pub passed : Bool
  pub reasons : List String
  pub metrics : Dict (Value Float)

module _ (Float : Type 0) where
  pub record LayerSpec : Type 0 where
    pub name : String
    pub family : LayerFamily
    pub parameters : Dict (ParameterRange Float)
    pub precedence : ℤ
    pub eligibility_rules : Dict (Value Float)

  pub record StrategyGraph : Type 0 where
    pub backbone : String
    pub layers : List LayerSpec
    pub risk_guards : List LayerSpec

  pub record BacktestResult : Type 0 where
    pub trade_count : ℤ
    pub win_rate : Float
    pub gross_pnl : Float
    pub net_pnl : Float
    pub fee_spend : Float
    pub funding_spend : Float
    pub sharpe : Float
    pub sortino : Float
    pub max_drawdown : Float
    pub equity_curve : List Float
    pub liquidation_events : List String
    pub execution_pressure_summary : Dict (Value Float)

  pub record BootstrapReport : Type 0 where
    pub sample_count : ℤ
    pub median_net_profit : Float
    pub median_max_drawdown : Float
    pub worst_case_net_profit : Float
    pub worst_case_drawdown : Float
    pub pass_rate : Float
    pub bootstrap_method : String
    pub block_size : Option ℤ
    pub bootstrap_microstructure_overlay : Dict (Value Float)
    pub bootstrap_regime_summary : Dict (Value Float)

  pub record ValidationProtocol : Type 0 where
    pub status : String
    pub stage_results : List (ValidationStageResult Float)
    pub probabilistic_sharpe_ratio : Option Float
    pub deflated_sharpe_ratio : Option Float
    pub pbo_score : Option Float
    pub spa_pvalue : Option Float
    pub in_sample_permutation_pvalue : Option Float
    pub walk_forward_permutation_pvalue : Option Float
    pub in_sample_summary : Dict (Value Float)
    pub selection_oos_summary : Dict (Value Float)
    pub holdout_summary : Dict (Value Float)
    pub cpcv_config : Dict (Value Float)
    pub purge_bars : Option ℤ
    pub embargo_bars : Option ℤ
    pub n_blocks : Option ℤ
    pub n_test_blocks : Option ℤ
    pub min_backtest_length : Option ℤ
    pub min_trade_count : Option ℤ
    pub validation_trial_count : ℤ
    pub validation_gate_results : Dict Bool
    pub validation_gate_details : List (Dict (Value Float))
    pub promotion_decision : PromotionDecision

  pub record CandidateEvaluation : Type 0 where
    pub layer_name : String
    pub decision : PromotionDecision
    pub train_result : BacktestResult
    pub oos_result : BacktestResult
    pub bootstrap_report : BootstrapReport
    pub selected_parameters : Dict (Value Float)
    pub permutation_count : ℤ
    pub search_summary : List (Dict (Value Float))
    pub candidate_trials : List (Dict (Value Float))

  pub record PhaseRecord : Type 0 where
    pub phase_name : String
    pub layer_name : String
    pub decision : String
    pub accepted : Bool
    pub oos_sharpe : Option Float
    pub selected_parameters : Dict (Value Float)
    pub permutation_count : ℤ
    pub search_summary : List (Dict (Value Float))
    pub candidate_trials : List (Dict (Value Float))

  pub record OvernightRunReport : Type 0 where
    pub status : String
    pub final_strategy : StrategyGraph
    pub phase_records : List PhaseRecord
    pub holdout_decision : Option PromotionDecision
    pub final_evaluation : Option CandidateEvaluation
    pub validation_protocol : Option ValidationProtocol

  -- `StrategyGraph.with_layer`
  unfoldable pub with_layer : StrategyGraph → LayerSpec → StrategyGraph
  with_layer s layer = record s { layers = s.layers ++ (layer ∷ []) }

  -- `legacy_validation_protocol` (src/engine/validation/protocol.py)
  unfoldable pub legacy_validation_protocol : PromotionDecision → ValidationProtocol
  legacy_validation_protocol decision = record {
    status = "legacy_validation_missing";
    stage_results = [];
    probabilistic_sharpe_ratio = none;
    deflated_sharpe_ratio = none;
    pbo_score = none;
    spa_pvalue = none;
    in_sample_permutation_pvalue = none;
    walk_forward_permutation_pvalue = none;
    in_sample_summary = [];
    selection_oos_summary = [];
    holdout_summary = [];
    cpcv_config = [];
    purge_bars = none;
    embargo_bars = none;
    n_blocks = none;
    n_test_blocks = none;
    min_backtest_length = none;
    min_trade_count = none;
    validation_trial_count = pos 1;
    validation_gate_results = [];
    validation_gate_details = [];
    promotion_decision = decision;
  }
