-- ===== src/Governance/Status.antt =====
-- src/engine/governance/lifecycle.py: `lifecycle_status`, which reads back the newest deployment and
-- the newest decision of an artifact.
use Prim.Native.Nat.{Ordering}
use Prim.Native.String.{compare}
use mathlib.Core.Option
use proofalpha.Prelude.{String, Bool, false, Option, none, some, List, ◌∷◌, [], if◌then◌else◌}
use proofalpha.Governance.Journal.{Artifact, Deployment, LifecycleEvent, MemoryDb, rows_at}

-- The row that `ORDER BY key DESC LIMIT 1` returns: one of the greatest key, where NULL is the least.
-- SQLite leaves the order of equal keys open: `later` is the choice it makes.
abbrev pub newer : {A : Type 0} → Ordering → Bool → A → A → A
newer Ordering.lt later a b = b
newer Ordering.gt later a b = a
newer Ordering.eq later a b = if later then b else a

abbrev pub compare_null : Option String → Option String → Ordering
compare_null none none = Ordering.eq
compare_null none (some t) = Ordering.lt
compare_null (some s) none = Ordering.gt
compare_null (some s) (some t) = compare s t

unfoldable pub newest_of : {A : Type 0} → (A → A → Bool) → (A → Option String) → A → List A → A
newest_of later key a [] = a
newest_of later key a (b ∷ rest) =
    newest_of later key (newer (compare_null (key a) (key b)) (later a b) a b) rest

unfoldable pub newest : {A : Type 0} → (A → A → Bool) → (A → Option String) → List A → Option A
newest later key [] = none
newest later key (a ∷ rest) = some (newest_of later key a rest)

abbrev pub first : {A : Type 0} → List A → Option A
first [] = none
first (a ∷ rest) = some a

-- the columns that the query reads
pub record EventSummary : Type 0 where
  pub target_state : String
  pub revalidation_required : Bool
  pub reason_code : String
  pub runbook_code : String
  pub automation : String
  pub severity : String
  pub ts_utc : String

pub record LifecycleStatus : Type 0 where
  pub artifact_id : String
  pub rollout_stage : Option String
  pub approved : Bool
  pub deployment_status : Option String
  pub deployment_rollout_stage : Option String
  pub latest_lifecycle_event : Option EventSummary

-- the choices that SQLite makes between rows of the same time
pub record Ties (Float : Type 0) : Type 0 where
  pub deployment : Deployment Float → Deployment Float → Bool
  pub event : LifecycleEvent Float → LifecycleEvent Float → Bool

module _ {Float : Type 0} where
  unfoldable pub summary : LifecycleEvent Float → EventSummary
  summary e = record {
    target_state = e.target_state;
    revalidation_required = e.revalidation_required;
    reason_code = e.reason_code;
    runbook_code = e.runbook_code;
    automation = e.automation;
    severity = e.severity;
    ts_utc = e.ts_utc;
  }

  -- the dict that `lifecycle_status` returns, from the three rows that it read
  unfoldable pub assembled :
      String
      → Option Artifact
      → Option (Deployment Float)
      → Option (LifecycleEvent Float)
      → LifecycleStatus
  assembled id artifact deployment journal = record {
    artifact_id = id;
    rollout_stage = elim artifact [ none ↦ none | some a ↦ a.rollout_stage ];
    approved = elim artifact [ none ↦ false | some a ↦ a.approved ];
    deployment_status = elim deployment [ none ↦ none | some d ↦ d.status ];
    deployment_rollout_stage = Option.map (λ d. d.rollout_stage) deployment;
    latest_lifecycle_event = Option.map summary journal;
  }

  unfoldable pub lifecycle_status : Ties Float → MemoryDb Float → String → LifecycleStatus
  lifecycle_status ties db id =
      assembled id (first (rows_at (λ (a : Artifact). a.artifact_id) id db.artifacts))
        (newest ties.deployment (λ d. d.started_at_utc)
          (rows_at (λ (d : Deployment Float). d.artifact_id) id db.deployments))
        (newest ties.event (λ e. some e.ts_utc)
          (rows_at (λ (e : LifecycleEvent Float). e.artifact_id) id db.lifecycle_journal))
