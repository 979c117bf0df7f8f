-- ===== src/Governance/Policy.antt =====
-- src/engine/governance/lifecycle.py: `evaluate_lifecycle_policy` and the decision it makes.
use proofalpha.Prelude.{
  String, Bool, true, false, not, Option, none, some, List, ◌∷◌, [], ◌++◌, ◌&&◌, when,
}
use proofalpha.Prelude.Dict.{lookup, get_or}
use proofalpha.Prelude.Int.{ℤ, pos, ltb_ℤ, leb_ℤ}
use proofalpha.Python.Runtime.{Runtime}
use proofalpha.Governance.Runbooks.{
  LifecycleState, paused, retired, Automation, manual_review, AlertRunbook, entry,
  default_alert_runbooks,
}

pub record ArtifactHealthSnapshot (Float : Type 0) : Type 0 where
  pub artifact_id : String
  pub lifecycle_state : LifecycleState
  pub liquidation_events : ℤ
  pub checksum_valid : Bool
  pub venue_rules_match : Bool
  pub trailing_30d_live_sharpe : Option Float
  pub live_sample_count : ℤ
  pub realized_slippage_over_modeled_5d : Option Float
  pub fill_rejection_cluster : Bool
  pub pause_count_90d : ℤ
  pub holdout_assumptions_invalidated : Bool
  pub drawdown_limit_breached : Bool
  pub capacity_drift_breached : Bool
  pub validation_expired : Bool
  pub scenario_pack_changed : Bool
  pub venue_api_rules_changed : Bool
  pub data_quality_degraded : Bool

pub record LifecycleDecision : Type 0 where
  pub artifact_id : String
  pub source_state : LifecycleState
  pub target_state : LifecycleState
  pub revalidation_required : Bool
  pub primary_reason : String
  pub reasons : List String
  pub runbook_code : String
  pub default_automation : Automation
  pub severity : String

-- `DEFAULT_ALERT_RUNBOOKS["revalidation_required"]`, the default of `_decision`
abbrev pub fallback_runbook : AlertRunbook
fallback_runbook =
    (entry "revalidation_required" "warning" "Manual review and validation rerun required."
      manual_review ("operator" ∷ "review_notes" ∷ [])).1

-- `"pause_to_paper" if target_state == "paused" else primary_reason`
abbrev pub runbook_code_for : LifecycleState → String → String
runbook_code_for paused primary_reason = "pause_to_paper"
runbook_code_for _ primary_reason = primary_reason

module _ (R : Runtime) where
  unfoldable pub decision :
      ArtifactHealthSnapshot R.Float
      → LifecycleState
      → Bool
      → String
      → List String
      → LifecycleDecision
  decision snapshot target_state revalidation_required primary_reason reasons =
      let runbook =
        get_or (lookup (runbook_code_for target_state primary_reason) default_alert_runbooks)
          fallback_runbook in
      record {
        artifact_id = snapshot.artifact_id;
        source_state = snapshot.lifecycle_state;
        target_state = target_state;
        revalidation_required = revalidation_required;
        primary_reason = primary_reason;
        reasons = reasons;
        runbook_code = runbook.alert_code;
        default_automation = runbook.default_automation;
        severity = runbook.severity;
      }

  unfoldable pub retire_reasons : ArtifactHealthSnapshot R.Float → List String
  retire_reasons s =
      when (ltb_ℤ (pos 0) s.liquidation_events) "liquidation"
      ++ (when (not s.checksum_valid) "artifact_checksum_mismatch"
          ++ (when (not s.venue_rules_match) "venue_rule_mismatch"
              ++ (when (leb_ℤ (pos 2) s.pause_count_90d) "two_pauses_within_90d"
                  ++ when s.holdout_assumptions_invalidated "holdout_assumptions_invalidated")))

  -- `x is not None and x < -0.5`, `x is not None and x > 2.0`
  unfoldable pub is_sharpe_low : Option R.Float → Bool
  is_sharpe_low none = false
  is_sharpe_low (some x) = R.lt x (R.neg (R.lit 5 1))

  unfoldable pub is_slippage_high : Option R.Float → Bool
  is_slippage_high none = false
  is_slippage_high (some x) = R.lt (R.lit 20 1) x

  unfoldable pub pause_reasons : ArtifactHealthSnapshot R.Float → List String
  pause_reasons s =
      when (is_sharpe_low s.trailing_30d_live_sharpe && leb_ℤ (pos 30) s.live_sample_count)
        "trailing_30d_live_sharpe_below_floor"
      ++ (when (is_slippage_high s.realized_slippage_over_modeled_5d)
            "realized_slippage_gt_2x_modeled_5d"
          ++ (when s.fill_rejection_cluster "fill_rejection_cluster"
              ++ (when s.drawdown_limit_breached "drawdown_limit_breached"
                  ++ (when s.capacity_drift_breached "capacity_drift_breached"
                      ++ when s.data_quality_degraded "data_quality_degraded"))))

  unfoldable pub revalidation_reasons : ArtifactHealthSnapshot R.Float → List String
  revalidation_reasons s =
      when s.validation_expired "validation_expired"
      ++ (when s.scenario_pack_changed "scenario_pack_changed"
          ++ when s.venue_api_rules_changed "venue_api_rules_changed")

  -- from the three lists of reasons on: each is looked at only if those before it are empty
  unfoldable pub decide :
      ArtifactHealthSnapshot R.Float → List String → List String → List String → LifecycleDecision
  decide s (r ∷ rs) pauses revalidations = decision s retired false r (r ∷ rs)
  decide s [] (p ∷ ps) revalidations = decision s paused false p (p ∷ ps)
  decide s [] [] (v ∷ vs) = decision s s.lifecycle_state true "revalidation_required" (v ∷ vs)
  decide s [] [] [] = decision s s.lifecycle_state false "none" []

  unfoldable pub evaluate_lifecycle_policy : ArtifactHealthSnapshot R.Float → LifecycleDecision
  evaluate_lifecycle_policy s =
      decide s (retire_reasons s) (pause_reasons s) (revalidation_reasons s)
