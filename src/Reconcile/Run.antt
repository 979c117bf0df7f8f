-- ===== src/Reconcile/Run.antt =====
-- src/engine/execution/reconciliation.py: `reconcile_projection_with_gateway`, and the overrides that a
-- blocked reconciliation applies.
use proofalpha.Prelude.{
  String, Option, none, some, List, ◌∷◌, [], ◌==◌, ◌||◌, if◌then◌else◌, is_empty,
}
use proofalpha.Python.Runtime.{Runtime, Value, Items, text, list, item, nothing}
use proofalpha.Portfolio.OverrideTables.{
  HumanOverrideRequest, OverrideDb, HumanOverrideResult, returned, integrity_error,
}
use proofalpha.Portfolio.Override.{apply_human_override, expected_confirmation}
use proofalpha.Reconcile.Ledgers.{Books}
use proofalpha.Reconcile.Phase3.{ReconcileDb, Stamps, rebuild_phase3}
use proofalpha.Reconcile.Local.{load_local_projection}
use proofalpha.Reconcile.Gateway.{GatewayStateSnapshot}
use proofalpha.Reconcile.Blockers.{local_duplicate_fill_count, reconciliation_blockers}

-- an entry of `operator_journal`
pub record OperatorEntry : Type 0 where
  pub override_event_id : String
  pub action : String
  pub status : String
  pub reasons : List String

-- the report, without the digests of the rebuild and the payload of the snapshot
pub record ReconciliationReport : Type 0 where
  pub status : String
  pub blocker_codes : List String
  pub safe_actions : List String
  pub operator_journal : List OperatorEntry

-- `_safe_actions_for_blockers`
unfoldable pub safe_actions_for_blockers : List String → List String
safe_actions_for_blockers blocker_codes =
    if is_empty blocker_codes
    then []
    else ("pause_artifact" ∷ "cancel_all" ∷ "flatten_all" ∷ "force_reconcile" ∷ [])

abbrev pub text_items : {Float : Type 0} → List String → Items Float
text_items [] = nothing
text_items (s ∷ rest) = item (text s) (text_items rest)

-- the request of `_journal_safe_actions` for one action
unfoldable pub safe_request :
    {Float : Type 0} → String → String → List String → String → HumanOverrideRequest Float
safe_request operator_id artifact_id blocker_codes action = record {
  action = action;
  operator_id = operator_id;
  artifact_id =
      if (action == "pause_artifact") || (action == "force_reconcile")
      then some artifact_id
      else none;
  confirmation =
      if (action == "cancel_all") || (action == "flatten_all")
      then some (expected_confirmation action)
      else none;
  reason = some "phase3_reconciliation_blocked";
  payload = some (
      ("blocker_codes", list (text_items blocker_codes))
      ∷ ("source", text "phase3_reconciliation")
      ∷ []);
}

abbrev pub operator_entry : HumanOverrideResult → OperatorEntry
operator_entry r = record {
  override_event_id = r.override_event_id;
  action = r.action;
  status = if r.applied then "applied" else "rejected";
  reasons = r.reasons;
}

module _ (R : Runtime) where
  -- The time and the random identifier of the override of each action.
  abbrev pub Draws : Type 0
  Draws = String → String × String

  -- what follows a call: an exception ends the loop, and what was committed before it stays
  abbrev pub then_entry :
      OverrideDb R.Float × Option (List OperatorEntry)
      → HumanOverrideResult
      → OverrideDb R.Float × Option (List OperatorEntry)
  then_entry (db, none) result = (db, none)
  then_entry (db, some entries) result = (db, some (operator_entry result ∷ entries))

  -- `_journal_safe_actions`; `none` is the IntegrityError of an override
  unfoldable pub journal_safe_actions :
      Draws
      → (String → HumanOverrideRequest R.Float)
      → List String
      → OverrideDb R.Float
      → OverrideDb R.Float × Option (List OperatorEntry)
  journal_safe_actions draws request [] db = (db, some [])
  journal_safe_actions draws request (action ∷ rest) db =
      let call = apply_human_override R (request action) (draws action).0 (draws action).1 db in
      let later = journal_safe_actions draws request rest call.0 in
      elim call.1 [ integrity_error ↦ (call.0, none) | returned result ↦ then_entry later result ]

  abbrev pub reported :
      List String
      → List String
      → OverrideDb R.Float × Option (List OperatorEntry)
      → OverrideDb R.Float × Option ReconciliationReport
  reported codes actions (db, none) = (db, none)
  reported codes actions (db, some entries) = (
    db,
    some (record {
      status = if is_empty codes then "matched" else "blocked";
      blocker_codes = codes;
      safe_actions = actions;
      operator_journal = entries;
    }),
  )

  -- the blockers of a journal and a snapshot, once the books are rebuilt
  unfoldable pub blockers_of :
      (Option (Value R.Float) → Option String)
      → Books R.Float
      → OverrideDb R.Float
      → GatewayStateSnapshot R.Float
      → List String
  blockers_of key books db snapshot =
      reconciliation_blockers R (local_duplicate_fill_count R key db.execution_events)
        (load_local_projection R books) snapshot

  abbrev finished :
      ReconcileDb R.Float
      → OverrideDb R.Float × Option ReconciliationReport
      → ReconcileDb R.Float × Option ReconciliationReport
  finished db outcome = (record db { overrides = outcome.0 }, outcome.1)

  -- `reconcile_projection_with_gateway`; `none` is an exception
  unfoldable pub reconcile_projection_with_gateway :
      (Option (Value R.Float) → Option String)
      → Stamps R.Float
      → Draws
      → GatewayStateSnapshot R.Float
      → String
      → String
      → ReconcileDb R.Float
      → ReconcileDb R.Float × Option ReconciliationReport
  reconcile_projection_with_gateway key stamps draws snapshot operator_id artifact_id db =
      let projection = rebuild_phase3 R stamps db in
      let after = projection.0 in
      let codes = blockers_of key after.books after.overrides snapshot in
      let actions = safe_actions_for_blockers codes in
      if projection.1
      then finished after (
          reported codes actions (
            journal_safe_actions draws (safe_request operator_id artifact_id codes) actions
              after.overrides))
      else (after, none)
