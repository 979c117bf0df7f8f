-- ===== src/Optimizer/Growth.antt =====
-- What a run of the search may do to a strategy (src/engine/optimizer/phases.py).
use mathlib.Core.List.{Memᴰ}
use mathlib.Core.List.Memᴰ
use proofalpha.Prelude.{
  String, true, Option, none, some, List, ◌∷◌, [], ◌++◌, ◌==◌, ◌≡◌, ◌↔◌, inl, inr, refl, Bool-cases,
}
use proofalpha.Python.Runtime.{Runtime}
use proofalpha.Optimizer.Models.{LayerSpec, StrategyGraph, PhaseRecord, with_layer}
use proofalpha.Optimizer.Phases.{
  Evaluator, ValidationExecutor, Best, is_accepted, is_better, best_loop, with_best,
  directional_with_records, sequential_with_records, backbone_spec,
}
use proofalpha.Optimizer.Pipeline.{
  Candidates, phases, validated, run_status, aborted, searched, run_pipeline,
}

module _ (R : Runtime) (evaluator : Evaluator R) where
  -- The strategies that come from the incumbent by adding offered layers, one at a time, each of
  -- which the evaluator accepted at the strategy that it was added to.
  pub data IsGrown (offered : List (LayerSpec R.Float)) (incumbent : StrategyGraph R.Float)
      : StrategyGraph R.Float → Type 0 where
    start : IsGrown offered incumbent incumbent
    added :
        (s : StrategyGraph R.Float) (layer : LayerSpec R.Float)
        → IsGrown offered incumbent s
        → Memᴰ layer offered
        → is_accepted R (evaluator s layer) ≡ true
        → IsGrown offered incumbent (with_layer R.Float s layer)

  abbrev pub Offers : List (LayerSpec R.Float) → List (LayerSpec R.Float) → Type 0
  Offers offered layers = (layer : LayerSpec R.Float) → Memᴰ layer layers → Memᴰ layer offered

  module _ (offered : List (LayerSpec R.Float)) (incumbent : StrategyGraph R.Float) where
    sequential_grown :
        (layers : List (LayerSpec R.Float)) (s : StrategyGraph R.Float) (phase_name : String)
        (phase_records : List (PhaseRecord R.Float))
        → Offers offered layers
        → IsGrown offered incumbent s
        → IsGrown offered incumbent
            (sequential_with_records R evaluator s layers phase_name phase_records).0
    unfolding sequential_with_records
    sequential_grown [] s phase_name phase_records o g = g
    sequential_grown (layer ∷ rest) s phase_name phase_records o g =
        elim (Bool-cases (is_accepted R (evaluator s layer))) [
          | inl good ↦
              rw (sequential_with_records, good)
                (sequential_grown rest (with_layer R.Float s layer) phase_name _
                  (λ l m. o l (Memᴰ.tail m)) (added s layer g (o layer (Memᴰ.head refl)) good))
          | inr bad ↦
              rw (sequential_with_records, bad)
                (sequential_grown rest s phase_name _ (λ l m. o l (Memᴰ.tail m)) g)
        ]

    -- A layer that the directional phase holds as its best was offered and accepted, and is held with
    -- its own Sharpe ratio.
    abbrev pub IsChoice : Best R → Type 0
    IsChoice none = Unit
    IsChoice (some (layer, sharpe)) =
        Memᴰ layer offered
        × (is_accepted R (evaluator incumbent layer) ≡ true)
        × (sharpe ≡ (evaluator incumbent layer).oos_result.sharpe)

    pub best_loop-IsChoice :
        (layers : List (LayerSpec R.Float)) (best : Best R)
        → Offers offered layers
        → IsChoice best
        → IsChoice (best_loop R evaluator incumbent best layers)
    unfolding best_loop
    best_loop-IsChoice [] best o i = i
    best_loop-IsChoice (layer ∷ rest) best o i =
        let evaluation = evaluator incumbent layer in
        let below : Offers offered rest = λ l m. o l (Memᴰ.tail m) in
        elim (Bool-cases (is_accepted R evaluation)) [
          | inr bad ↦ rw bad (best_loop-IsChoice rest best below i)
          | inl good ↦ elim (Bool-cases (is_better R best evaluation.oos_result.sharpe)) [
            | inr worse ↦ rw (good, worse) (best_loop-IsChoice rest best below i)
            | inl better ↦
                rw (good, better)
                  (best_loop-IsChoice rest (some (layer, evaluation.oos_result.sharpe)) below
                    (o layer (Memᴰ.head refl), good, refl))
          ]
        ]

    with_best_grown :
        (best : Best R) → IsChoice best → IsGrown offered incumbent (with_best R incumbent best)
    with_best_grown none i = start
    with_best_grown (some (layer, sharpe)) (m, a, e) = added incumbent layer start m a

  -- all layers that `run_pipeline` is given
  abbrev pub offered_layers : Candidates R → List (LayerSpec R.Float)
  offered_layers c =
      c.directional_layers ++ (c.known_good_filters ++ (c.custom_filters ++ c.exit_layers))

  phases_grown :
      (c : Candidates R) (incumbent : StrategyGraph R.Float) (first : List (PhaseRecord R.Float))
      → IsGrown (offered_layers c) incumbent (phases R evaluator c (incumbent, first)).3.0
  unfolding phases directional_with_records
  phases_grown c incumbent first =
      let all = offered_layers c in
      let fours = c.custom_filters ++ c.exit_layers in
      let directional =
        best_loop-IsChoice all incumbent c.directional_layers none
          (λ l m. Memᴰ.append_left (c.known_good_filters ++ fours) m) tt in
      sequential_grown all incumbent c.exit_layers _ "phase-5" _
        (λ l m.
          Memᴰ.append_right c.directional_layers
            (Memᴰ.append_right c.known_good_filters (Memᴰ.append_right c.custom_filters m)))
        (sequential_grown all incumbent c.custom_filters _ "phase-4" _
          (λ l m.
            Memᴰ.append_right c.directional_layers
              (Memᴰ.append_right c.known_good_filters (Memᴰ.append_left c.exit_layers m)))
          (sequential_grown all incumbent c.known_good_filters _ "phase-3" _
            (λ l m. Memᴰ.append_right c.directional_layers (Memᴰ.append_left fours m))
            (with_best_grown all incumbent _ directional)))

  -- The out-of-sample Sharpe ratio of the backbone is below 0.05.
  abbrev pub IsWeak : StrategyGraph R.Float → Type 0
  IsWeak incumbent =
      R.lt (evaluator incumbent (backbone_spec R incumbent)).oos_result.sharpe (R.lit 5 2) ≡ true

  -- The verdict on a final strategy: accepted when no executor is given.
  abbrev pub Passes :
      Option (ValidationExecutor R) → StrategyGraph R.Float → List (PhaseRecord R.Float) → Type 0
  Passes none s records = Unit
  Passes (some executor) s records =
      ((executor s records).promotion_decision.decision == "accept") ≡ true

  run_status_iff :
      (executor : Option (ValidationExecutor R)) (s : StrategyGraph R.Float)
      (records : List (PhaseRecord R.Float))
      → ((run_status R executor (validated R executor s records).promotion_decision == "promoted")
          ≡ true)
        ↔ Passes executor s records
  unfolding run_status validated
  run_status_iff none s records = (λ h. tt, λ h. refl)
  run_status_iff (some executor) s records =
      elim (Bool-cases ((executor s records).promotion_decision.decision == "accept")) [
        | inl good ↦ rw good (λ h. refl, λ h. refl)
        | inr bad ↦ rw bad (λ h. cc, λ h. cc)
      ]

  -- A run changes a strategy only by layers that it was offered, each accepted by the evaluator at
  -- the strategy it was added to. It leaves a strategy with a weak backbone as it was, and it reports
  -- "promoted" exactly when the backbone is not weak and the validation executor, if there is one,
  -- accepts the final strategy with the records of the run.
  pub run_pipeline-IsGrown :
      (incumbent : StrategyGraph R.Float) (c : Candidates R)
      (executor : Option (ValidationExecutor R))
      → let r = run_pipeline R evaluator incumbent c executor in
        IsGrown (offered_layers c) incumbent r.final_strategy
        × (IsWeak incumbent → r.final_strategy ≡ incumbent)
        × (((r.status == "promoted") ≡ true)
            ↔ (¬ IsWeak incumbent × Passes executor r.final_strategy r.phase_records))
  unfolding run_pipeline aborted searched
  run_pipeline-IsGrown incumbent c executor =
      let evaluation = evaluator incumbent (backbone_spec R incumbent) in
      elim (Bool-cases (R.lt evaluation.oos_result.sharpe (R.lit 5 2))) [
        | inl weak ↦ rw weak (start, λ h. refl, (λ h. cc, λ h. absurd (h.0 refl)))
        | inr strong ↦ rw strong (
          phases_grown c incumbent _,
          λ h. cc,
          (
            λ h. (λ e. cc, (run_status_iff executor _ _).0 h),
            λ h. (run_status_iff executor _ _).1 h.1,
          ),
        )
      ]
