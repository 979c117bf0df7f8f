-- ===== src/Optimizer/Budgets.antt =====
-- src/engine/optimizer/experiment_budget.py, stop_policy.py and overfit_budget.py.
use proofalpha.Prelude.{
  String, Bool, false, not, List, ◌∷◌, [], ◌++◌, ◌&&◌, ◌||◌, if◌then◌else◌, is_empty, when, concat,
}
use proofalpha.Prelude.Int.{ℤ, pos, ltb_ℤ, leb_ℤ}
use proofalpha.Python.Runtime.{Runtime}

pub record ExperimentBudget : Type 0 where
  pub max_runs : ℤ
  pub max_wall_clock_seconds : ℤ

unfoldable pub within_budget : ExperimentBudget → ℤ → ℤ → Bool
within_budget b runs elapsed_seconds =
    if ltb_ℤ b.max_runs (pos 0) || ltb_ℤ b.max_wall_clock_seconds (pos 0)
    then false
    else (if ltb_ℤ runs (pos 0) || ltb_ℤ elapsed_seconds (pos 0)
        then false
        else leb_ℤ runs b.max_runs && leb_ℤ elapsed_seconds b.max_wall_clock_seconds)

-- `StopPolicy.should_stop`, of `max_repeated_failures`
unfoldable pub should_stop : ℤ → ℤ → Bool
should_stop max_repeated_failures repeated_failures = leb_ℤ max_repeated_failures repeated_failures

pub record OverfitBudget (Float : Type 0) : Type 0 where
  pub max_trials : ℤ
  pub max_strategy_variants : ℤ
  pub max_parameter_reuse : ℤ
  pub max_failed_gate_retries : ℤ
  pub pbo_ceiling : Float
  pub multiple_testing_penalty_policy : String

-- The keyword arguments of `evaluate`.
pub record OverfitUse (Float : Type 0) : Type 0 where
  pub trials : ℤ
  pub strategy_variants : ℤ
  pub parameter_reuse : ℤ
  pub failed_gate_retries : ℤ
  pub pbo : Float

pub record OverfitBudgetResult : Type 0 where
  pub passed : Bool
  pub reasons : List String

-- the two loops over counts and their names
unfoldable pub negative_reasons : List (String × ℤ) → List String
negative_reasons [] = []
negative_reasons ((name, value) ∷ rest) =
    when (ltb_ℤ value (pos 0)) (concat "negative_" name) ++ negative_reasons rest

module _ (R : Runtime) where
  abbrev pub counts : OverfitUse R.Float → List (String × ℤ)
  counts u =
      ("trials", u.trials)
      ∷ ("strategy_variants", u.strategy_variants)
      ∷ ("parameter_reuse", u.parameter_reuse)
      ∷ ("failed_gate_retries", u.failed_gate_retries)
      ∷ []

  abbrev pub limits : OverfitBudget R.Float → List (String × ℤ)
  limits b =
      ("max_trials", b.max_trials)
      ∷ ("max_strategy_variants", b.max_strategy_variants)
      ∷ ("max_parameter_reuse", b.max_parameter_reuse)
      ∷ ("max_failed_gate_retries", b.max_failed_gate_retries)
      ∷ []

  unfoldable pub overfit_reasons : OverfitBudget R.Float → OverfitUse R.Float → List String
  overfit_reasons b u =
      negative_reasons (counts u)
      ++ (when (not (R.is_finite u.pbo)) "non_finite_pbo"
          ++ (when (not (R.is_finite b.pbo_ceiling)) "non_finite_pbo_ceiling"
              ++ (negative_reasons (limits b)
                  ++ (when (ltb_ℤ b.max_trials u.trials) "max_trials_exceeded"
                      ++ (when (ltb_ℤ b.max_strategy_variants u.strategy_variants)
                            "max_strategy_variants_exceeded"
                          ++ (when (ltb_ℤ b.max_parameter_reuse u.parameter_reuse)
                                "max_parameter_reuse_exceeded"
                              ++ (when (ltb_ℤ b.max_failed_gate_retries u.failed_gate_retries)
                                    "max_failed_gate_retries_exceeded"
                                  ++ when
                                      (R.is_finite u.pbo
                                        && (R.is_finite b.pbo_ceiling && R.lt b.pbo_ceiling u.pbo))
                                      "pbo_ceiling_exceeded")))))))

  -- `OverfitBudget.evaluate`
  unfoldable pub evaluate : OverfitBudget R.Float → OverfitUse R.Float → OverfitBudgetResult
  evaluate b u = record { passed = is_empty (overfit_reasons b u); reasons = overfit_reasons b u }
