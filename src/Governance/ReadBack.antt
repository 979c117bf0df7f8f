-- ===== src/Governance/ReadBack.antt =====
-- `lifecycle_status` after `apply_lifecycle_decision` (src/engine/governance/lifecycle.py).
use mathlib.Core.Option
use proofalpha.Prelude.{
  String, true, false, Option, none, some, List, ◌∷◌, [], ◌==◌, ◌≡◌, refl, ap, ◌∙◌, concat,
  if◌then◌else◌, All, Bool-cases, inl, inr,
}
use proofalpha.Prelude.Dict.{Dict}
use proofalpha.Python.Runtime.{Value}
use proofalpha.Governance.Runbooks.{AlertRunbook, state_text, automation_text}
use proofalpha.Governance.Policy.{LifecycleDecision}
use proofalpha.Governance.Journal.{
  Artifact, Deployment, LifecycleEvent, MemoryDb, rows_at, rows_without, set_rollout_stage,
  moves_artifact, update_artifacts, deployment_row, journal_row, committed,
  apply_lifecycle_decision,
}
use proofalpha.Governance.Status.{
  assembled, newest, first, LifecycleStatus, Ties, summary, lifecycle_status,
}
use proofalpha.Governance.Newest.{IsOlder, newest_last, rows_at-append}
use proofalpha.Governance.Closeout.{IsApplied, apply_branches}

-- the first artifact of an identifier, after an UPDATE of its stage
first-set_rollout_stage :
    (stage id : String) (rows : List Artifact)
    → first (rows_at (λ (a : Artifact). a.artifact_id) id (set_rollout_stage stage id rows))
      ≡ Option.map
          (λ (a : Artifact). record a { rollout_stage = some stage })
          (first (rows_at (λ (a : Artifact). a.artifact_id) id rows))
unfolding rows_at set_rollout_stage
first-set_rollout_stage stage id [] = refl
first-set_rollout_stage stage id (a ∷ rest) = elim (Bool-cases (a.artifact_id == id)) [
  | inl e ↦ rw e (rw e refl)
  | inr e ↦ rw e (rw e (first-set_rollout_stage stage id rest))
]

-- the first row of an artifact
abbrev pub artifact_of : String → List Artifact → Option Artifact
artifact_of id rows = first (rows_at (λ (a : Artifact). a.artifact_id) id rows)

abbrev restaged : LifecycleDecision → Artifact → Artifact
restaged d a =
    if moves_artifact d.target_state
    then record a { rollout_stage = some (state_text d.target_state) }
    else a

map-restaged_kept :
    (d : LifecycleDecision) (o : Option Artifact)
    → moves_artifact d.target_state ≡ false
    → o ≡ Option.map (restaged d) o
map-restaged_kept d none h = refl
map-restaged_kept d (some a) h = rw h refl

map-restaged_moved :
    (d : LifecycleDecision) (o : Option Artifact)
    → moves_artifact d.target_state ≡ true
    → Option.map (λ (a : Artifact). record a { rollout_stage = some (state_text d.target_state) }) o
      ≡ Option.map (restaged d) o
map-restaged_moved d none h = refl
map-restaged_moved d (some a) h = rw h refl

artifact_of-update_artifacts :
    (d : LifecycleDecision) (rows : List Artifact)
    → artifact_of d.artifact_id (update_artifacts d rows)
      ≡ Option.map (restaged d) (artifact_of d.artifact_id rows)
unfolding update_artifacts
artifact_of-update_artifacts d rows = elim (Bool-cases (moves_artifact d.target_state)) [
  | inl e ↦ rw e (
      first-set_rollout_stage (state_text d.target_state) d.artifact_id rows
      ∙ map-restaged_moved d _ e)
  | inr e ↦ rw e (map-restaged_kept d _ e)
]

module _ {Float : Type 0} where
  unfoldable pub deployments_of : String → MemoryDb Float → List (Deployment Float)
  deployments_of id db =
      rows_at (λ (r : Deployment Float). r.artifact_id) id
        (rows_without (λ (r : Deployment Float). r.deployment_id)
          (concat "deployment:" (concat id ":lifecycle")) db.deployments)

  unfoldable pub events_of : String → MemoryDb Float → List (LifecycleEvent Float)
  events_of id db = rows_at (λ (r : LifecycleEvent Float). r.artifact_id) id db.lifecycle_journal

  deployment_read :
      (ties : Ties Float) (d : LifecycleDecision) (evidence : Dict (Value Float))
      (now risk event : String) (db : MemoryDb Float)
      → All
          (IsOlder (λ (r : Deployment Float). r.started_at_utc) now)
          (deployments_of d.artifact_id db)
      → newest ties.deployment
          (λ r. r.started_at_utc)
          (rows_at
            (λ (r : Deployment Float). r.artifact_id)
            d.artifact_id
            (committed d evidence now risk event db).deployments)
        ≡ some (deployment_row d evidence now)
  unfolding committed deployments_of deployment_row
  deployment_read ties d evidence now risk event db h =
      rw
        (rows_at-append (λ (r : Deployment Float). r.artifact_id) d.artifact_id
          (rows_without (λ (r : Deployment Float). r.deployment_id)
            (concat "deployment:" (concat d.artifact_id ":lifecycle")) db.deployments)
          (deployment_row d evidence now) refl)
        (newest_last ties.deployment (λ r. r.started_at_utc) now _ (deployment_row d evidence now)
          refl h)

  event_read :
      (ties : Ties Float) (d : LifecycleDecision) (evidence : Dict (Value Float))
      (now risk event : String) (db : MemoryDb Float)
      → All (IsOlder (λ (r : LifecycleEvent Float). some r.ts_utc) now) (events_of d.artifact_id db)
      → newest ties.event
          (λ r. some r.ts_utc)
          (rows_at
            (λ (r : LifecycleEvent Float). r.artifact_id)
            d.artifact_id
            (committed d evidence now risk event db).lifecycle_journal)
        ≡ some (journal_row d evidence now event)
  unfolding committed events_of journal_row
  event_read ties d evidence now risk event db h =
      rw
        (rows_at-append (λ (r : LifecycleEvent Float). r.artifact_id) d.artifact_id
          db.lifecycle_journal (journal_row d evidence now event) refl)
        (newest_last ties.event (λ r. some r.ts_utc) now _ (journal_row d evidence now event) refl
          h)

-- the status of an artifact whose newest decision is `d`
abbrev pub read_status : Artifact → LifecycleDecision → String → LifecycleStatus
read_status a d now = record {
  artifact_id = d.artifact_id;
  rollout_stage =
      if moves_artifact d.target_state then some (state_text d.target_state) else a.rollout_stage;
  approved = a.approved;
  deployment_status =
      some (if d.revalidation_required then "revalidation_required" else state_text d.target_state);
  deployment_rollout_stage = some (state_text d.target_state);
  latest_lifecycle_event = some (record {
    target_state = state_text d.target_state;
    revalidation_required = d.revalidation_required;
    reason_code = d.primary_reason;
    runbook_code = d.runbook_code;
    automation = automation_text d.default_automation;
    severity = d.severity;
    ts_utc = now;
  });
}

module _ {Float : Type 0} where
  assembled-restaged :
      (a : Artifact) (d : LifecycleDecision) (evidence : Dict (Value Float)) (now event : String)
      → assembled d.artifact_id
          (some (restaged d a))
          (some (deployment_row d evidence now))
          (some (journal_row d evidence now event))
        ≡ read_status a d now
  unfolding assembled deployment_row journal_row summary
  assembled-restaged a d evidence now event = elim (Bool-cases (moves_artifact d.target_state)) [
    | inl e ↦ rw e refl
    | inr e ↦ rw e refl
  ]

  status-committed :
      (ties : Ties Float) (d : LifecycleDecision) (evidence : Dict (Value Float))
      (now risk event : String) (db : MemoryDb Float) (a : Artifact)
      → artifact_of d.artifact_id db.artifacts ≡ some a
      → All
          (IsOlder (λ (r : Deployment Float). r.started_at_utc) now)
          (deployments_of d.artifact_id db)
      → All (IsOlder (λ (r : LifecycleEvent Float). some r.ts_utc) now) (events_of d.artifact_id db)
      → lifecycle_status ties (committed d evidence now risk event db) d.artifact_id
        ≡ read_status a d now
  unfolding lifecycle_status committed
  status-committed ties d evidence now risk event db a found old_deployments old_events =
      let deployed = deployment_read ties d evidence now risk event db old_deployments in
      let journaled = event_read ties d evidence now risk event db old_events in
      let staged =
        artifact_of-update_artifacts d db.artifacts ∙ ap (Option.map (restaged d)) found in
      rw (staged, deployed, journaled) (assembled-restaged a d evidence now event)

  -- An applied decision is what `lifecycle_status` reads back for its artifact, if the artifact is
  -- registered and its other deployments and its earlier events are older: the stage, the deployment's
  -- status and the latest event are those of the decision, and the approval is as it was.
  pub lifecycle_status-apply_lifecycle_decision :
      (ties : Ties Float) (d : LifecycleDecision) (evidence : Dict (Value Float))
      (runbooks : Dict AlertRunbook) (now event_hex risk_hex : String) (db : MemoryDb Float)
      (a : Artifact)
      → artifact_of d.artifact_id db.artifacts ≡ some a
      → All
          (IsOlder (λ (r : Deployment Float). r.started_at_utc) now)
          (deployments_of d.artifact_id db)
      → All (IsOlder (λ (r : LifecycleEvent Float). some r.ts_utc) now) (events_of d.artifact_id db)
      → IsApplied (apply_lifecycle_decision d evidence runbooks now event_hex risk_hex db).1
      → lifecycle_status ties
          (apply_lifecycle_decision d evidence runbooks now event_hex risk_hex db).0
          d.artifact_id
        ≡ read_status a d now
  lifecycle_status-apply_lifecycle_decision ties d evidence runbooks now event_hex risk_hex db a
        found old_deployments old_events applied =
      elim (apply_branches d evidence runbooks now event_hex risk_hex db) [
        | inl (same, refused) ↦ absurd (refused applied)
        | inr (passed, done, (event, risk, e)) ↦
            rw e (
              status-committed ties d evidence now risk event db a found old_deployments old_events)
      ]
