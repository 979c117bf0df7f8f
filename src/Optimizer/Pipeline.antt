-- ===== src/Optimizer/Pipeline.antt =====
-- src/engine/optimizer/phases.py: `OvernightRunner.run_pipeline`.
use proofalpha.Prelude.{String, false, not, Option, none, some, List, ◌∷◌, [], ◌==◌, if◌then◌else◌}
use proofalpha.Python.Runtime.{Runtime}
use proofalpha.Optimizer.Models.{
  LayerSpec, StrategyGraph, PromotionDecision, ValidationProtocol, CandidateEvaluation, PhaseRecord,
  OvernightRunReport, legacy_validation_protocol,
}
use proofalpha.Optimizer.Phases.{
  Evaluator, ValidationExecutor, phase_record, directional_with_records, sequential_with_records,
  backbone_spec, reevaluated,
}

module _ (R : Runtime) where
  -- the four lists of layers that `run_pipeline` is given
  pub record Candidates : Type 0 where
    pub directional_layers : List (LayerSpec R.Float)
    pub known_good_filters : List (LayerSpec R.Float)
    pub custom_filters : List (LayerSpec R.Float)
    pub exit_layers : List (LayerSpec R.Float)

  abbrev pub Phase : Type 0
  Phase = StrategyGraph R.Float × List (PhaseRecord R.Float)

  -- The phases 2 to 5, with the records of all.
  unfoldable pub phases : Evaluator R → Candidates → Phase → Phase × Phase × Phase × Phase
  phases evaluator c (incumbent, first) =
      let (s2, r2) = directional_with_records R evaluator incumbent c.directional_layers first in
      let (s3, r3) = sequential_with_records R evaluator s2 c.known_good_filters "phase-3" r2 in
      let (s4, r4) = sequential_with_records R evaluator s3 c.custom_filters "phase-4" r3 in
      let (s5, r5) = sequential_with_records R evaluator s4 c.exit_layers "phase-5" r4 in
      ((s2, r2), (s3, r3), (s4, r4), (s5, r5))

  -- `validation_protocol`, once the phases are over
  unfoldable pub validated :
      Option (ValidationExecutor R)
      → StrategyGraph R.Float
      → List (PhaseRecord R.Float)
      → ValidationProtocol R.Float
  validated none current phase_records =
      legacy_validation_protocol R.Float (record { decision = "accept"; reasons = [] })
  validated (some validation_executor) current phase_records =
      validation_executor current phase_records

  -- `status`: without an executor it stays "promoted"
  unfoldable pub run_status : Option (ValidationExecutor R) → PromotionDecision → String
  run_status none decision = "promoted"
  run_status (some validation_executor) d =
      if not (d.decision == "accept") then "blocked" else "promoted"

  unfoldable pub aborted :
      StrategyGraph R.Float → CandidateEvaluation R.Float → OvernightRunReport R.Float
  aborted incumbent evaluation = record {
    status = "aborted";
    final_strategy = incumbent;
    phase_records = phase_record R "phase-1" incumbent.backbone "abort" false evaluation ∷ [];
    holdout_decision = none;
    final_evaluation = some evaluation;
    validation_protocol = none;
  }

  unfoldable pub searched :
      Evaluator R
      → StrategyGraph R.Float
      → Candidates
      → Option (ValidationExecutor R)
      → CandidateEvaluation R.Float
      → OvernightRunReport R.Float
  searched evaluator incumbent c validation_executor evaluation =
      let first =
        phase_record R "phase-1" incumbent.backbone evaluation.decision.decision false evaluation in
      let (p2, p3, p4, p5) = phases evaluator c (incumbent, first ∷ []) in
      let protocol = validated validation_executor p5.0 p5.1 in
      record {
        status = run_status validation_executor protocol.promotion_decision;
        final_strategy = p5.0;
        phase_records = p5.1;
        holdout_decision = some protocol.promotion_decision;
        final_evaluation = some (
            reevaluated R evaluator p5.0 (
              reevaluated R evaluator p4.0
                (reevaluated R evaluator p3.0 (reevaluated R evaluator p2.0 evaluation))));
        validation_protocol = some protocol;
      }

  -- `OvernightRunner.run_pipeline`
  unfoldable pub run_pipeline :
      Evaluator R
      → StrategyGraph R.Float
      → Candidates
      → Option (ValidationExecutor R)
      → OvernightRunReport R.Float
  run_pipeline evaluator incumbent c validation_executor =
      let evaluation = evaluator incumbent (backbone_spec R incumbent) in
      if R.lt evaluation.oos_result.sharpe (R.lit 5 2)
      then aborted incumbent evaluation
      else searched evaluator incumbent c validation_executor evaluation
