-- ===== src/Portfolio/OverrideTables.antt =====
-- src/engine/portfolio/allocator.py: the actions, the requests and the rows of human overrides. A JSON
-- column holds the data that `json.dumps` is applied to.
use proofalpha.Prelude.{String, Bool, Option, List, ◌∷◌, []}
use proofalpha.Prelude.Dict.{Dict}
use proofalpha.Python.Runtime.{Value}
use proofalpha.Governance.Journal.{Artifact}
use proofalpha.Store.Events.{ExecutionEvent}

abbrev pub override_actions : List String
override_actions =
    "pause_artifact" ∷ "resume_artifact" ∷ "cancel_all" ∷ "flatten_all" ∷ "kill_switch"
    ∷ "rollback_artifact" ∷ "view_journal" ∷ "force_reconcile" ∷ []

abbrev pub destructive_overrides : List String
destructive_overrides = "cancel_all" ∷ "flatten_all" ∷ "kill_switch" ∷ "rollback_artifact" ∷ []

-- the actions that name an artifact
abbrev pub artifact_overrides : List String
artifact_overrides =
    "pause_artifact" ∷ "resume_artifact" ∷ "rollback_artifact" ∷ "force_reconcile" ∷ []

pub record HumanOverrideRequest (Float : Type 0) : Type 0 where
  pub action : String
  pub operator_id : String
  pub artifact_id : Option String
  pub confirmation : Option String
  pub reason : Option String
  pub payload : Option (Dict (Value Float))

-- a row of `human_override_journal`
pub record OverrideEvent (Float : Type 0) : Type 0 where
  pub override_event_id : String
  pub ts_utc : String
  pub operator_id : String
  pub action : String
  pub artifact_id : Option String
  pub confirmation : Option String
  pub status : String
  pub reason_code : String
  pub payload_json : Dict (Value Float)

-- a row of `risk_events`, whose metadata are the operator and the artifact
pub record OverrideRisk : Type 0 where
  pub risk_event_id : String
  pub ts_utc : String
  pub reason_code : String
  pub severity : String
  pub action : String
  pub metadata_json : String × Option String

pub record OverrideDb (Float : Type 0) : Type 0 where
  pub artifacts : List Artifact
  pub human_override_journal : List (OverrideEvent Float)
  pub risk_events : List OverrideRisk
  pub execution_events : List (ExecutionEvent Float)

-- the columns that `_load_override_journal` reads
pub record OverrideEntry : Type 0 where
  pub override_event_id : String
  pub ts_utc : String
  pub operator_id : String
  pub action : String
  pub artifact_id : Option String
  pub status : String
  pub reason_code : String

pub record HumanOverrideResult : Type 0 where
  pub applied : Bool
  pub override_event_id : String
  pub action : String
  pub reasons : List String
  pub journal : List OverrideEntry

-- the result, or the IntegrityError of an identifier that is in the journal already
pub data Overridden : Type 0 where
  returned : HumanOverrideResult → Overridden
  integrity_error : Overridden
