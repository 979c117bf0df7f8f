-- ===== src/Governance/Tests.antt =====
-- Runs of src/engine/governance/lifecycle.py, and the theorems about it at concrete inputs.
use proofalpha.Prelude.{true, false, none, some, ◌∷◌, [], ◌≡◌, ◌↔◌, ◌⊎◌, refl, concat}
use proofalpha.Prelude.Dict.{Dict, lookup}
use proofalpha.Prelude.Int.{ℤ, pos, ◌-ℤ◌}
use proofalpha.Python.Runtime.{Value, text}
use proofalpha.Python.Fixed.{fixed}
use proofalpha.Governance.Runbooks.{
  pause, is_missing, missing_evidence, validate_alert_closeout, pilot_live, paused, retired,
  default_alert_runbooks,
}
use proofalpha.Governance.Revalidation.{RuleVersions}
use proofalpha.Governance.Policy.{
  ArtifactHealthSnapshot, LifecycleDecision, decide, decision, retire_reasons, pause_reasons,
  is_sharpe_low, is_slippage_high, evaluate_lifecycle_policy,
}
use proofalpha.Governance.Targets.{IsUnfit, IsUnwell, IsOutdated, evaluate_lifecycle_policy_iff}
use proofalpha.Governance.Alerts.{FollowsRunbook, evaluate_lifecycle_policy-FollowsRunbook}
use proofalpha.Governance.Journal.{
  RiskEvent, LifecycleEvent, Artifact, Applied, has_key, rows_at, MemoryDb, rows_without,
  apply_lifecycle_decision,
}
use proofalpha.Governance.Status.{Ties, lifecycle_status}
use proofalpha.Governance.Closeout.{IsApplied, IsClosed}
use proofalpha.Governance.Carried.{Carries, apply_lifecycle_decision_cases}
use proofalpha.Governance.ReadBack.{
  deployments_of, events_of, read_status, lifecycle_status-apply_lifecycle_decision,
}

abbrev versions : RuleVersions
versions = record {
  artifact_scenario_pack_version = "pack-1";
  active_scenario_pack_version = "pack-1";
  artifact_exchange_rules_version = "rules-1";
  active_exchange_rules_version = "rules-2";
}

-- a pilot with a breached drawdown limit
abbrev health : ArtifactHealthSnapshot ℤ
health = record {
  artifact_id = "a1";
  lifecycle_state = pilot_live;
  liquidation_events = pos 0;
  checksum_valid = true;
  venue_rules_match = true;
  trailing_30d_live_sharpe = some (pos 1000000000);
  live_sample_count = pos 40;
  realized_slippage_over_modeled_5d = none;
  fill_rejection_cluster = false;
  pause_count_90d = pos 1;
  holdout_assumptions_invalidated = false;
  drawdown_limit_breached = true;
  capacity_drift_breached = false;
  validation_expired = true;
  scenario_pack_changed = false;
  venue_api_rules_changed = false;
  data_quality_degraded = false;
}

evaluate_lifecycle_policy_iff_example :
    (((evaluate_lifecycle_policy fixed health).target_state ≡ retired)
      ↔ (IsUnfit fixed health ⊎ ((¬ IsUnwell fixed health) × (pilot_live ≡ retired))))
    × ((((evaluate_lifecycle_policy fixed health).target_state ≡ paused)
          ↔ ((¬ IsUnfit fixed health) × (IsUnwell fixed health ⊎ (pilot_live ≡ paused))))
        × (((evaluate_lifecycle_policy fixed health).revalidation_required ≡ true)
            ↔ ((¬ IsUnfit fixed health) × (¬ IsUnwell fixed health) × IsOutdated fixed health)))
evaluate_lifecycle_policy_iff_example = evaluate_lifecycle_policy_iff fixed health

evaluate_lifecycle_policy-FollowsRunbook_example :
    FollowsRunbook (evaluate_lifecycle_policy fixed health)
evaluate_lifecycle_policy-FollowsRunbook_example =
    evaluate_lifecycle_policy-FollowsRunbook fixed health

abbrev verdict : LifecycleDecision
verdict = record {
  artifact_id = "a1";
  source_state = pilot_live;
  target_state = paused;
  revalidation_required = false;
  primary_reason = "drawdown_limit_breached";
  reasons = "drawdown_limit_breached" ∷ [];
  runbook_code = "pause_to_paper";
  default_automation = pause;
  severity = "warning";
}

abbrev evidence : Dict (Value ℤ)
evidence =
    ("operator", text "ops") ∷ ("metric_window", text "30d") ∷ ("review_notes", text "ok") ∷ []

abbrev registered : Artifact
registered = record { artifact_id = "a1"; rollout_stage = some "pilot_live"; approved = true }

abbrev db : MemoryDb ℤ
db = record {
  artifacts = registered ∷ [];
  deployments = [];
  risk_events = [];
  lifecycle_journal = [];
}

abbrev first_kept : Ties ℤ
first_kept = record { deployment = λ a b. false; event = λ a b. false }

abbrev after : MemoryDb ℤ
after =
    (apply_lifecycle_decision verdict evidence default_alert_runbooks "2026-05-01" "aa" "bb" db).0

abbrev reply : Applied
reply =
    (apply_lifecycle_decision verdict evidence default_alert_runbooks "2026-05-01" "aa" "bb" db).1

verdict_made : evaluate_lifecycle_policy fixed health ≡ verdict
unfolding evaluate_lifecycle_policy decide decision retire_reasons pause_reasons is_sharpe_low
    is_slippage_high default_alert_runbooks lookup ◌-ℤ◌
verdict_made = refl

verdict-IsApplied :
    IsApplied
      (apply_lifecycle_decision verdict evidence default_alert_runbooks "2026-05-01" "aa" "bb" db).1
unfolding apply_lifecycle_decision validate_alert_closeout missing_evidence is_missing has_key
    default_alert_runbooks lookup
verdict-IsApplied = refl

apply_lifecycle_decision_cases_example :
    (IsApplied reply ↔ (
      IsClosed "pause_to_paper" evidence default_alert_runbooks
      × ((has_key
              (λ (r : RiskEvent ℤ). r.risk_event_id)
              (concat "risk:" (concat "a1" (concat ":" "bb")))
              []
            ≡ false)
          × (has_key
                (λ (r : LifecycleEvent ℤ). r.lifecycle_event_id)
                (concat "lifecycle:" (concat "a1" (concat ":" "aa")))
                []
              ≡ false))))
    × ((¬ IsApplied reply) → after ≡ db)
    × (IsApplied reply
        → Carries verdict evidence "2026-05-01"
            (concat "lifecycle:" (concat "a1" (concat ":" "aa")))
            (concat "risk:" (concat "a1" (concat ":" "bb")))
            db
            after)
apply_lifecycle_decision_cases_example =
    apply_lifecycle_decision_cases verdict evidence default_alert_runbooks "2026-05-01" "aa" "bb" db

lifecycle_status-apply_lifecycle_decision_example :
    lifecycle_status first_kept after "a1" ≡ read_status registered verdict "2026-05-01"
unfolding rows_at rows_without deployments_of events_of
lifecycle_status-apply_lifecycle_decision_example =
    lifecycle_status-apply_lifecycle_decision first_kept verdict evidence default_alert_runbooks
      "2026-05-01" "aa" "bb" db registered refl tt tt verdict-IsApplied
