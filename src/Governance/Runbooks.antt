-- ===== src/Governance/Runbooks.antt =====
-- src/engine/governance/lifecycle.py: the states of an artifact, the automations, and the table of
-- runbooks with the evidence that closes an alert.
use proofalpha.Prelude.{
  String, Bool, Option, none, some, List, ◌∷◌, [], ◌==◌, ◌++◌, concat, is_empty, when, true, false,
}
use proofalpha.Prelude.Dict.{Dict, lookup}
use proofalpha.Python.Runtime.{Value, null, text}

pub data LifecycleState : Type 0 where
  research_candidate validated_candidate paper pilot_live scaled_live paused retired :
      LifecycleState

pub data Automation : Type 0 where
  ignore pause cancel flatten rollback rotate_key restart manual_review : Automation

-- the literals
unfoldable pub state_text : LifecycleState → String
state_text research_candidate = "research_candidate"
state_text validated_candidate = "validated_candidate"
state_text paper = "paper"
state_text pilot_live = "pilot_live"
state_text scaled_live = "scaled_live"
state_text paused = "paused"
state_text retired = "retired"

unfoldable pub automation_text : Automation → String
automation_text ignore = "ignore"
automation_text pause = "pause"
automation_text cancel = "cancel"
automation_text flatten = "flatten"
automation_text rollback = "rollback"
automation_text rotate_key = "rotate_key"
automation_text restart = "restart"
automation_text manual_review = "manual_review"

pub record AlertRunbook : Type 0 where
  pub alert_code : String
  pub severity : String
  pub owner_action : String
  pub default_automation : Automation
  pub required_evidence : List String

abbrev pub entry : String → String → String → Automation → List String → String × AlertRunbook
entry code severity action automation evidence = (
  code,
  record {
    alert_code = code;
    severity = severity;
    owner_action = action;
    default_automation = automation;
    required_evidence = evidence;
  },
)

abbrev reviewed : List String
reviewed = "operator" ∷ "metric_window" ∷ "review_notes" ∷ []

unfoldable pub default_alert_runbooks : Dict AlertRunbook
default_alert_runbooks =
    entry "none" "info" "No action." ignore ("operator" ∷ [])
    ∷ entry "liquidation" "critical" "Retire artifact and rollback deployment." rollback reviewed
    ∷ entry "artifact_checksum_mismatch" "critical" "Retire artifact and block execution." rollback
        ("operator" ∷ "artifact_sha256" ∷ "review_notes" ∷ [])
    ∷ entry "venue_rule_mismatch" "critical" "Retire artifact until venue rules are revalidated."
        rollback ("operator" ∷ "exchange_rules_version" ∷ "review_notes" ∷ [])
    ∷ entry "trailing_30d_live_sharpe_below_floor" "warning" "Pause to paper and require review."
        pause reviewed
    ∷ entry "realized_slippage_gt_2x_modeled_5d" "warning" "Pause to paper and recalibrate costs."
        pause reviewed
    ∷ entry "pause_to_paper" "warning" "Pause to paper and record closeout evidence." pause reviewed
    ∷ entry "fill_rejection_cluster" "warning" "Pause and inspect order rejection cluster." pause
        reviewed
    ∷ entry "drawdown_limit_breached" "critical" "Flatten exposure and pause artifact." flatten
        reviewed
    ∷ entry "capacity_drift_breached" "warning" "Pause artifact and rerun capacity calibration."
        pause reviewed
    ∷ entry "data_quality_degraded" "warning" "Pause artifact until data quality recovers." pause
        reviewed
    ∷ entry "two_pauses_within_90d" "critical" "Retire unstable artifact." rollback reviewed
    ∷ entry "holdout_assumptions_invalidated" "critical"
        "Retire artifact and block promotion lineage." rollback ("operator" ∷ "review_notes" ∷ [])
    ∷ entry "revalidation_required" "warning" "Manual review and validation rerun required."
        manual_review ("operator" ∷ "review_notes" ∷ [])
    ∷ entry "venue_outage" "critical" "Cancel open orders during venue outage." cancel reviewed
    ∷ entry "secret_rotation_due" "warning" "Rotate execution keys." rotate_key
        ("operator" ∷ "review_notes" ∷ [])
    ∷ entry "executor_restart_required" "warning" "Restart executor after health failure." restart
        ("operator" ∷ "review_notes" ∷ [])
    ∷ []

pub record EvidenceValidation : Type 0 where
  pub passed : Bool
  pub reasons : List String

-- `evidence.get(field) in (None, "")`
unfoldable pub is_missing : {Float : Type 0} → Option (Value Float) → Bool
is_missing none = true
is_missing (some null) = true
is_missing (some (text s)) = s == ""
is_missing (some _) = false

unfoldable pub missing_evidence : {Float : Type 0} → List String → Dict (Value Float) → List String
missing_evidence [] evidence = []
missing_evidence (field ∷ fields) evidence =
    when (is_missing (lookup field evidence)) (concat "missing_closeout_evidence:" field)
    ++ missing_evidence fields evidence

unfoldable pub validate_alert_closeout :
    {Float : Type 0} → String → Dict (Value Float) → Dict AlertRunbook → EvidenceValidation
validate_alert_closeout runbook_code evidence runbooks = elim (lookup runbook_code runbooks) [
  | none ↦ record { passed = false; reasons = concat "unknown_runbook:" runbook_code ∷ [] }
  | some runbook ↦
      let missing = missing_evidence runbook.required_evidence evidence in
      record { passed = is_empty missing; reasons = missing }
]
