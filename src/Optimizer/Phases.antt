-- ===== src/Optimizer/Phases.antt =====
-- src/engine/optimizer/phases.py: `OvernightRunner`. The evaluator and the validation executor, which
-- the runner is given, are functions of the model.
use proofalpha.Prelude.{
  String, Bool, true, false, not, Option, none, some, List, ◌∷◌, [], ◌++◌, map, ◌==◌, if◌then◌else◌,
  is_empty,
}
use proofalpha.Prelude.Int.{pos}
use proofalpha.Python.Runtime.{Runtime}
use proofalpha.Optimizer.Models.{
  LayerFamily, LayerSpec, StrategyGraph, ValidationProtocol, CandidateEvaluation, PhaseRecord,
  with_layer,
}

module _ (R : Runtime) where
  abbrev pub Evaluator : Type 0
  Evaluator = StrategyGraph R.Float → LayerSpec R.Float → CandidateEvaluation R.Float

  abbrev pub ValidationExecutor : Type 0
  ValidationExecutor =
      StrategyGraph R.Float → List (PhaseRecord R.Float) → ValidationProtocol R.Float

  -- `evaluation.decision.decision == "accept"`
  abbrev pub is_accepted : CandidateEvaluation R.Float → Bool
  is_accepted e = e.decision.decision == "accept"

  -- `best_layer` and `best_sharpe`, which are set together
  abbrev pub Best : Type 0
  Best = Option (LayerSpec R.Float × R.Float)

  -- `best_sharpe is None or evaluation.oos_result.sharpe > best_sharpe`
  unfoldable pub is_better : Best → R.Float → Bool
  is_better none sharpe = true
  is_better (some (layer, best_sharpe)) sharpe = R.lt best_sharpe sharpe

  -- The loop of the directional phase.
  unfoldable pub best_loop :
      Evaluator → StrategyGraph R.Float → Best → List (LayerSpec R.Float) → Best
  best_loop evaluator incumbent best [] = best
  best_loop evaluator incumbent best (layer ∷ rest) =
      let evaluation = evaluator incumbent layer in
      let next =
        if not (is_accepted evaluation)
        then best
        else (if is_better best evaluation.oos_result.sharpe
            then some (layer, evaluation.oos_result.sharpe)
            else best) in
      best_loop evaluator incumbent next rest

  abbrev pub with_best : StrategyGraph R.Float → Best → StrategyGraph R.Float
  with_best incumbent none = incumbent
  with_best incumbent (some (layer, sharpe)) = with_layer R.Float incumbent layer

  -- `OvernightRunner.run_directional_phase`
  unfoldable pub run_directional_phase :
      Evaluator → StrategyGraph R.Float → List (LayerSpec R.Float) → StrategyGraph R.Float
  run_directional_phase evaluator incumbent layers =
      with_best incumbent (best_loop evaluator incumbent none layers)

  -- `OvernightRunner.run_sequential_phase`
  unfoldable pub run_sequential_phase :
      Evaluator → StrategyGraph R.Float → List (LayerSpec R.Float) → StrategyGraph R.Float
  run_sequential_phase evaluator current [] = current
  run_sequential_phase evaluator current (layer ∷ rest) =
      let next =
        if is_accepted (evaluator current layer)
        then with_layer R.Float current layer
        else current in
      run_sequential_phase evaluator next rest

  -- a `PhaseRecord` of an evaluation
  unfoldable pub phase_record :
      String → String → String → Bool → CandidateEvaluation R.Float → PhaseRecord R.Float
  phase_record phase_name layer_name decision accepted evaluation = record {
    phase_name = phase_name;
    layer_name = layer_name;
    decision = decision;
    accepted = accepted;
    oos_sharpe = some evaluation.oos_result.sharpe;
    selected_parameters = evaluation.selected_parameters;
    permutation_count = evaluation.permutation_count;
    search_summary = evaluation.search_summary;
    candidate_trials = evaluation.candidate_trials;
  }

  -- `best_layer is not None and layer.name == best_layer.name`
  unfoldable pub is_named : Best → LayerSpec R.Float → Bool
  is_named none layer = false
  is_named (some (best_layer, sharpe)) layer = layer.name == best_layer.name

  -- `_run_directional_phase_with_records`: the strategy, and the records after it
  unfoldable pub directional_with_records :
      Evaluator
      → StrategyGraph R.Float
      → List (LayerSpec R.Float)
      → List (PhaseRecord R.Float)
      → StrategyGraph R.Float × List (PhaseRecord R.Float)
  directional_with_records evaluator incumbent layers phase_records =
      let best = best_loop evaluator incumbent none layers in
      let recorded = λ (layer : LayerSpec R.Float).
        let evaluation = evaluator incumbent layer in
        phase_record "phase-2" layer.name evaluation.decision.decision (is_named best layer)
          evaluation in
      (with_best incumbent best, phase_records ++ map recorded layers)

  -- `_run_sequential_phase_with_records`
  unfoldable pub sequential_with_records :
      Evaluator
      → StrategyGraph R.Float
      → List (LayerSpec R.Float)
      → String
      → List (PhaseRecord R.Float)
      → StrategyGraph R.Float × List (PhaseRecord R.Float)
  sequential_with_records evaluator current [] phase_name phase_records = (current, phase_records)
  sequential_with_records evaluator current (layer ∷ rest) phase_name phase_records =
      let evaluation = evaluator current layer in
      let accepted = is_accepted evaluation in
      sequential_with_records evaluator
        (if accepted then with_layer R.Float current layer else current) rest phase_name
        (phase_records
          ++ (phase_record phase_name layer.name evaluation.decision.decision accepted evaluation
              ∷ []))

  abbrev pub backbone_spec : StrategyGraph R.Float → LayerSpec R.Float
  backbone_spec s = record {
    name = s.backbone;
    family = LayerFamily.backbone;
    parameters = [];
    precedence = pos 0;
    eligibility_rules = [];
  }

  -- `strategy.layers[-1]`, or the given layer
  abbrev pub last_or : LayerSpec R.Float → List (LayerSpec R.Float) → LayerSpec R.Float
  last_or layer [] = layer
  last_or layer (next ∷ rest) = last_or next rest

  -- `_evaluate_current_strategy`
  unfoldable pub evaluate_current_strategy :
      Evaluator → StrategyGraph R.Float → CandidateEvaluation R.Float
  evaluate_current_strategy evaluator s = evaluator s (last_or (backbone_spec s) s.layers)

  -- `if current.layers: final_evaluation = self._evaluate_current_strategy(current)`
  abbrev pub reevaluated :
      Evaluator → StrategyGraph R.Float → CandidateEvaluation R.Float → CandidateEvaluation R.Float
  reevaluated evaluator s final_evaluation =
      if is_empty s.layers then final_evaluation else evaluate_current_strategy evaluator s
