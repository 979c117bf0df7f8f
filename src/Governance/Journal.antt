-- ===== src/Governance/Journal.antt =====
-- src/engine/governance/lifecycle.py: `apply_lifecycle_decision` on the four tables of the memory
-- database that it changes (their columns are those of
-- src/engine/memory/store.py). A JSON column holds the data that `json.dumps` is applied to.
use proofalpha.Prelude.{
  String, Bool, true, false, not, Option, some, List, ◌∷◌, [], ◌++◌, ◌==◌, concat, if◌then◌else◌,
}
use proofalpha.Prelude.Dict.{Dict}
use proofalpha.Python.Runtime.{Value}
use proofalpha.Governance.Runbooks.{
  LifecycleState, paused, retired, AlertRunbook, state_text, automation_text,
  validate_alert_closeout,
}
use proofalpha.Governance.Policy.{LifecycleDecision}
unfoldable pub use proofalpha.Prelude.Rows.{rows_at, rows_without, has_key}

pub record Artifact : Type 0 where
  pub artifact_id : String
  pub rollout_stage : Option String
  pub approved : Bool

pub record Deployment (Float : Type 0) : Type 0 where
  pub deployment_id : String
  pub artifact_id : String
  pub rollout_stage : String
  pub status : Option String
  pub started_at_utc : Option String
  pub payload_json : LifecycleDecision × Dict (Value Float)

pub record RiskEvent (Float : Type 0) : Type 0 where
  pub risk_event_id : String
  pub ts_utc : String
  pub reason_code : String
  pub severity : String
  pub action : String
  pub metadata_json : String × Dict (Value Float)

pub record LifecycleEvent (Float : Type 0) : Type 0 where
  pub lifecycle_event_id : String
  pub artifact_id : String
  pub source_state : String
  pub target_state : String
  pub revalidation_required : Bool
  pub reason_code : String
  pub runbook_code : String
  pub automation : String
  pub severity : String
  pub ts_utc : String
  pub evidence_json : Dict (Value Float)

pub record MemoryDb (Float : Type 0) : Type 0 where
  pub artifacts : List Artifact
  pub deployments : List (Deployment Float)
  pub risk_events : List (RiskEvent Float)
  pub lifecycle_journal : List (LifecycleEvent Float)

pub record LifecycleApplyResult : Type 0 where
  pub applied : Bool
  pub lifecycle_event_id : String
  pub reasons : List String

-- `LifecycleApplyResult`, or the IntegrityError of an identifier that is in its table already
pub data Applied : Type 0 where
  returned : LifecycleApplyResult → Applied
  integrity_error : Applied

-- `UPDATE artifacts SET rollout_stage = ? WHERE artifact_id = ?`
unfoldable pub set_rollout_stage : String → String → List Artifact → List Artifact
set_rollout_stage stage id [] = []
set_rollout_stage stage id (a ∷ rest) =
    (if a.artifact_id == id then record a { rollout_stage = some stage } else a)
    ∷ set_rollout_stage stage id rest

-- `target_state in {"paused", "retired"}`
abbrev pub moves_artifact : LifecycleState → Bool
moves_artifact paused = true
moves_artifact retired = true
moves_artifact _ = false

unfoldable pub update_artifacts : LifecycleDecision → List Artifact → List Artifact
update_artifacts d rows =
    if moves_artifact d.target_state
    then set_rollout_stage (state_text d.target_state) d.artifact_id rows
    else rows

module _ {Float : Type 0} where
  unfoldable pub deployment_row : LifecycleDecision → Dict (Value Float) → String → Deployment Float
  deployment_row d evidence now = record {
    deployment_id = concat "deployment:" (concat d.artifact_id ":lifecycle");
    artifact_id = d.artifact_id;
    rollout_stage = state_text d.target_state;
    status =
        some
          (if d.revalidation_required then "revalidation_required" else state_text d.target_state);
    started_at_utc = some now;
    payload_json = (d, evidence);
  }

  unfoldable pub risk_event_row :
      LifecycleDecision → Dict (Value Float) → String → String → String → RiskEvent Float
  risk_event_row d evidence now risk_event_id lifecycle_event_id = record {
    risk_event_id = risk_event_id;
    ts_utc = now;
    reason_code = d.primary_reason;
    severity = d.severity;
    action = automation_text d.default_automation;
    metadata_json = (lifecycle_event_id, evidence);
  }

  unfoldable pub journal_row :
      LifecycleDecision → Dict (Value Float) → String → String → LifecycleEvent Float
  journal_row d evidence now lifecycle_event_id = record {
    lifecycle_event_id = lifecycle_event_id;
    artifact_id = d.artifact_id;
    source_state = state_text d.source_state;
    target_state = state_text d.target_state;
    revalidation_required = d.revalidation_required;
    reason_code = d.primary_reason;
    runbook_code = d.runbook_code;
    automation = automation_text d.default_automation;
    severity = d.severity;
    ts_utc = now;
    evidence_json = evidence;
  }

  -- what is committed: the four statements
  unfoldable pub committed :
      LifecycleDecision
      → Dict (Value Float)
      → String
      → String
      → String
      → MemoryDb Float
      → MemoryDb Float
  committed d evidence now risk_event_id lifecycle_event_id db =
      let deployment = deployment_row d evidence now in
      record {
        artifacts = update_artifacts d db.artifacts;
        deployments =
            rows_without (λ (r : Deployment Float). r.deployment_id) deployment.deployment_id
              db.deployments
            ++ (deployment ∷ []);
        risk_events =
            db.risk_events ++ (risk_event_row d evidence now risk_event_id lifecycle_event_id ∷ []);
        lifecycle_journal =
            db.lifecycle_journal ++ (journal_row d evidence now lifecycle_event_id ∷ []);
      }

  -- `apply_lifecycle_decision`; `now` is `_now_utc()`, `event_hex` and `risk_hex` the two values of
  -- `uuid4().hex[:12]`. An exception leaves the transaction uncommitted.
  unfoldable pub apply_lifecycle_decision :
      LifecycleDecision
      → Dict (Value Float)
      → Dict AlertRunbook
      → String
      → String
      → String
      → MemoryDb Float
      → MemoryDb Float × Applied
  apply_lifecycle_decision d evidence runbooks now event_hex risk_hex db =
      let validation = validate_alert_closeout d.runbook_code evidence runbooks in
      let lifecycle_event_id = concat "lifecycle:" (concat d.artifact_id (concat ":" event_hex)) in
      let risk_event_id = concat "risk:" (concat d.artifact_id (concat ":" risk_hex)) in
      if not validation.passed
      then (
        db,
        returned (record {
          applied = false;
          lifecycle_event_id = lifecycle_event_id;
          reasons = validation.reasons;
        }),
      )
      else (if has_key (λ (r : RiskEvent Float). r.risk_event_id) risk_event_id db.risk_events
          then (db, integrity_error)
          else (if has_key (λ (r : LifecycleEvent Float). r.lifecycle_event_id) lifecycle_event_id
                db.lifecycle_journal
              then (db, integrity_error)
              else (
                committed d evidence now risk_event_id lifecycle_event_id db,
                returned (record {
                  applied = true;
                  lifecycle_event_id = lifecycle_event_id;
                  reasons = [];
                }),
              )))
