-- ===== src/Portfolio/Override.antt =====
-- src/engine/portfolio/allocator.py: `apply_human_override` on the tables of the memory database that
-- it changes.
use Prim.Native.Nat.{Ordering}
use Prim.Native.String.{compare}
use proofalpha.Prelude.{
  String, Bool, true, false, not, Option, none, some, List, ◌∷◌, [], ◌++◌, ◌==◌, ◌&&◌, concat,
  if◌then◌else◌, contains, is_empty, when,
}
use proofalpha.Prelude.Int.{pos}
use proofalpha.Prelude.Dict.{insert, get_or}
use proofalpha.Prelude.Rows.{has_key, replace_row}
use proofalpha.Python.Runtime.{Runtime, text}
use proofalpha.Governance.Journal.{Artifact, set_rollout_stage}
use proofalpha.Store.Events.{EventArguments, append_execution_event}
use proofalpha.Store.Rebuild.{has_text, text_or}
use proofalpha.Portfolio.OverrideTables.{
  HumanOverrideRequest, OverrideEvent, OverrideRisk, OverrideDb, OverrideEntry, Overridden,
  returned, integrity_error, override_actions, destructive_overrides, artifact_overrides,
}

abbrev pub expected_confirmation : String → String
expected_confirmation action = concat "CONFIRM:" action

-- `request.confirmation == expected`
abbrev pub is_confirmed : Option String → String → Bool
is_confirmed none expected = false
is_confirmed (some s) expected = s == expected

abbrev head_or : List String → String → String
head_or [] default = default
head_or (s ∷ rest) default = s

module _ (R : Runtime) where
  -- `_override_rejections`
  unfoldable pub override_rejections : HumanOverrideRequest R.Float → List String
  override_rejections r =
      when (not (contains r.action override_actions)) "invalid_override_action"
      ++ (when (r.operator_id == "") "operator_id_required"
          ++ (when (contains r.action artifact_overrides && not (has_text r.artifact_id))
                "artifact_id_required"
              ++ when
                  (contains r.action destructive_overrides
                    && not (is_confirmed r.confirmation (expected_confirmation r.action)))
                  (concat "confirmation_required:" (expected_confirmation r.action))))

  -- `_apply_override_db_effect`
  unfoldable pub override_effect : HumanOverrideRequest R.Float → List Artifact → List Artifact
  override_effect r rows =
      let id = get_or r.artifact_id "" in
      if (r.action == "pause_artifact") && has_text r.artifact_id
      then set_rollout_stage "paused" id rows
      else (if (r.action == "resume_artifact") && has_text r.artifact_id
          then set_rollout_stage "paper" id rows
          else (if (r.action == "rollback_artifact") && has_text r.artifact_id
              then set_rollout_stage "retired" id rows
              else rows))

  -- the row that every request leaves in the journal
  unfoldable pub override_event :
      HumanOverrideRequest R.Float → String → String → List String → OverrideEvent R.Float
  override_event r now event_id reasons = record {
    override_event_id = event_id;
    ts_utc = now;
    operator_id = r.operator_id;
    action = r.action;
    artifact_id = r.artifact_id;
    confirmation = r.confirmation;
    status = if is_empty reasons then "applied" else "rejected";
    reason_code = head_or reasons (concat "human_override_" r.action);
    payload_json = insert "reason" (text (text_or r.reason "")) (get_or r.payload []);
  }

  unfoldable pub override_risk : HumanOverrideRequest R.Float → String → String → OverrideRisk
  override_risk r now event_id = record {
    risk_event_id = concat "risk-" event_id;
    ts_utc = now;
    reason_code = concat "human_override_" r.action;
    severity = if contains r.action destructive_overrides then "critical" else "info";
    action = r.action;
    metadata_json = (r.operator_id, r.artifact_id);
  }

  -- the event of a kill switch
  unfoldable pub kill_switch_event : HumanOverrideRequest R.Float → String → EventArguments R.Float
  kill_switch_event r now = record {
    ts_exchange = now;
    ts_gateway = now;
    ts_engine = now;
    source = "human_override";
    event_type = "KILL_SWITCH_TRIGGER";
    symbol = none;
    side = none;
    order_id_client = none;
    order_id_exchange = none;
    parent_intent_id = none;
    qty = none;
    price = none;
    status = some "applied";
    reason_code = some "human_override_kill_switch";
    metadata = ("operator_id", text r.operator_id) ∷ [];
    schema_version = pos 1;
  }

  abbrev pub entry_of : OverrideEvent R.Float → OverrideEntry
  entry_of e = record {
    override_event_id = e.override_event_id;
    ts_utc = e.ts_utc;
    operator_id = e.operator_id;
    action = e.action;
    artifact_id = e.artifact_id;
    status = e.status;
    reason_code = e.reason_code;
  }

  -- `ORDER BY ts_utc ASC`, with the rows of one time in the order of their insertion
  unfoldable pub by_time : OverrideEntry → List OverrideEntry → List OverrideEntry
  by_time e [] = e ∷ []
  by_time e (f ∷ rest) =
      let later = by_time e rest in
      elim (compare f.ts_utc e.ts_utc) [ Ordering.gt ↦ e ∷ f ∷ rest | _ ↦ f ∷ later ]

  -- `WHERE artifact_id = ?`
  abbrev is_of : Option String → OverrideEvent R.Float → Bool
  is_of none e = true
  is_of (some id) e = if id == "" then true else is_confirmed e.artifact_id id

  -- `_load_override_journal`
  unfoldable pub load_override_journal :
      Option String → List OverrideEntry → List (OverrideEvent R.Float) → List OverrideEntry
  load_override_journal artifact_id read [] = read
  load_override_journal artifact_id read (e ∷ rest) =
      load_override_journal artifact_id
        (if is_of artifact_id e then by_time (entry_of e) read else read) rest

  -- what a request that is not rejected changes
  unfoldable pub overridden :
      HumanOverrideRequest R.Float → String → String → OverrideDb R.Float → OverrideDb R.Float
  overridden r now event_id db = record db {
    artifacts = override_effect r db.artifacts;
    risk_events =
        replace_row (λ (e : OverrideRisk). e.risk_event_id) (override_risk r now event_id)
          db.risk_events;
    execution_events =
        if r.action == "kill_switch"
        then (append_execution_event R (kill_switch_event r now) db.execution_events).0
        else db.execution_events;
  }

  -- `apply_human_override`; `now` is `_now_utc()`, `event_hex` is `uuid4().hex`
  unfoldable pub apply_human_override :
      HumanOverrideRequest R.Float
      → String
      → String
      → OverrideDb R.Float
      → OverrideDb R.Float × Overridden
  apply_human_override r now event_hex db =
      let event_id = concat "override-" event_hex in
      let reasons = override_rejections r in
      let journal = db.human_override_journal ++ (override_event r now event_id reasons ∷ []) in
      let journaled = record db { human_override_journal = journal } in
      if has_key (λ (e : OverrideEvent R.Float). e.override_event_id) event_id
        db.human_override_journal
      then (db, integrity_error)
      else (
        if is_empty reasons then overridden r now event_id journaled else journaled,
        returned (record {
          applied = is_empty reasons;
          override_event_id = event_id;
          action = r.action;
          reasons = reasons;
          journal =
              if r.action == "view_journal"
              then load_override_journal r.artifact_id [] journal
              else [];
        }),
      )
