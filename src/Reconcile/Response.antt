-- ===== src/Reconcile/Response.antt =====
-- The response of a reconciliation to what it finds (src/engine/execution/reconciliation.py).
use proofalpha.Prelude.{
  String, true, false, not, Option, none, some, List, ◌∷◌, [], ◌++◌, ◌==◌, ◌≡◌, ◌↔◌, refl, ◌∙◌, map,
  concat, contains, is_empty, All,
}
use proofalpha.Prelude.Rows.{has_key}
use proofalpha.Python.Runtime.{Runtime, Value}
use proofalpha.Governance.Journal.{Artifact, set_rollout_stage}
use proofalpha.Portfolio.OverrideTables.{OverrideEvent, OverrideDb}
use proofalpha.Reconcile.Ledgers.{Books}
use proofalpha.Reconcile.Snapshots.{rebuild_books}
use proofalpha.Reconcile.Phase3.{ReconcileDb, Stamps, KeepsOthers, rebuild_phase3_built}
use proofalpha.Reconcile.Local.{load_local_projection}
use proofalpha.Reconcile.Gateway.{GatewayStateSnapshot}
use proofalpha.Reconcile.Blockers.{local_duplicate_fill_count}
use proofalpha.Reconcile.Matched.{NoRepeats, Agrees, reconciliation_blockers_iff}
use proofalpha.Reconcile.Run.{
  OperatorEntry, ReconciliationReport, Draws, safe_request, safe_actions_for_blockers,
  journal_safe_actions, reported, blockers_of, reconcile_projection_with_gateway,
}
use proofalpha.Reconcile.SafeActions.{
  IsReady, Applied, row_of_action, entry_of_action, effects, risks_after,
  journal_safe_actions-Applied,
}
use proofalpha.Portfolio.Override.{override_effect}

-- The four actions, in their order.
abbrev pub safe_actions : List String
safe_actions = "pause_artifact" ∷ "cancel_all" ∷ "flatten_all" ∷ "force_reconcile" ∷ []

module _ (R : Runtime) (draws : Draws R) (operator_id artifact_id : String) where
  -- The identifiers that are drawn are new to the journal.
  abbrev pub AreNew : OverrideDb R.Float → List String → Type 0
  AreNew db actions =
      All
        (λ id.
          has_key (λ (e : OverrideEvent R.Float). e.override_event_id) id db.human_override_journal
          ≡ false)
        actions

  -- the identifier of the override of an action
  abbrev pub drawn : String → String
  drawn action = concat "override-" (draws action).1

  named : (artifact_id == "") ≡ false → not (artifact_id == "") ≡ true
  named h = rw h refl

  ready :
      (codes : List String) (db : OverrideDb R.Float)
      → (operator_id == "") ≡ false
      → (artifact_id == "") ≡ false
      → AreNew db (map drawn safe_actions)
      → All (IsReady R draws (safe_request operator_id artifact_id codes) db) safe_actions
  unfolding safe_request contains
  ready codes db o a (p, (c, (f, (r, u)))) = (
    ((refl, (o, (λ h. named a, λ h. cc))), refl, p),
    (
      ((refl, (o, (λ h. cc, λ h. refl))), refl, c),
      (
        ((refl, (o, (λ h. cc, λ h. refl))), refl, f),
        (((refl, (o, (λ h. named a, λ h. cc))), refl, r), tt),
      ),
    ),
  )

  -- The overrides of a blocked reconciliation pause the artifact and do nothing else to artifacts.
  effects_pause :
      (codes : List String) (rows : List Artifact)
      → (artifact_id == "") ≡ false
      → effects R draws (safe_request operator_id artifact_id codes) safe_actions rows
        ≡ set_rollout_stage "paused" artifact_id rows
  unfolding safe_request override_effect
  effects_pause codes rows a = rw a refl

  abbrev status_of : Option ReconciliationReport → String
  status_of none = "raised"
  status_of (some report) = report.status

  abbrev journal_of : Option ReconciliationReport → List OperatorEntry
  journal_of none = []
  journal_of (some report) = report.operator_journal

  -- What is promised of an outcome, where the codes are empty exactly when the sides agree.
  abbrev pub Responds :
      Type 0
      → List String
      → OverrideDb R.Float
      → OverrideDb R.Float × Option ReconciliationReport
      → Type 0
  Responds agree codes db r =
      let request = safe_request operator_id artifact_id codes in
      (((status_of r.1 == "matched") ≡ true) ↔ agree)
      × (agree → r.0 ≡ db)
      × (¬ agree
          → ((status_of r.1 == "blocked") ≡ true)
            × (journal_of r.1 ≡ map (entry_of_action R draws request) safe_actions)
            × (r.0.artifacts ≡ set_rollout_stage "paused" artifact_id db.artifacts)
            × (r.0.human_override_journal
                ≡ db.human_override_journal ++ map (row_of_action R draws request) safe_actions)
            × (r.0.risk_events ≡ risks_after R draws request safe_actions db.risk_events)
            × (r.0.execution_events ≡ db.execution_events))

  blocked :
      (agree : Type 0) (c : String) (codes : List String) (db : OverrideDb R.Float)
      → (false ≡ true) ↔ agree
      → (artifact_id == "") ≡ false
      → (p : OverrideDb R.Float × Option (List OperatorEntry))
      → Applied R draws (safe_request operator_id artifact_id (c ∷ codes)) safe_actions db p
      → Responds agree (c ∷ codes) db (reported R (c ∷ codes) safe_actions p)
  blocked agree c codes db iff a (after, none) (e, j, s, x, k) = cc
  blocked agree c codes db iff a (after, some entries) (e, j, s, x, k) = (
    (λ h. cc, λ h. let never = iff.1 h in cc),
    λ h. let never = iff.1 h in cc,
    λ h. (refl, cc, s ∙ effects_pause (c ∷ codes) db.artifacts a, j, k, x),
  )

  respond :
      (agree : Type 0) (codes : List String) (db : OverrideDb R.Float)
      → (is_empty codes ≡ true) ↔ agree
      → (artifact_id == "") ≡ false
      → Applied R draws (safe_request operator_id artifact_id codes) safe_actions db (
          journal_safe_actions R draws (safe_request operator_id artifact_id codes) safe_actions db)
      → Responds agree codes db (
          reported R codes (safe_actions_for_blockers codes) (
            journal_safe_actions R draws
              (safe_request operator_id artifact_id codes)
              (safe_actions_for_blockers codes)
              db))
  unfolding safe_actions_for_blockers journal_safe_actions
  respond agree [] db iff a applied =
      ((λ h. iff.0 refl, λ h. refl), λ h. refl, λ h. absurd (h (iff.0 refl)))
  respond agree (c ∷ codes) db iff a applied = blocked agree c codes db iff a _ applied

  -- A reconciliation of a journal that can be rebuilt, by a named operator for a named artifact, with
  -- identifiers that are new to the override journal and not drawn twice, leaves the projections and
  -- the accounting tables as the journal's books, and every replay checkpoint but the two of the
  -- rebuild as it was. It reports "matched" when the local projection and the gateway agree, and then
  -- changes none of the artifacts, the override journal, the risk events and the execution events.
  -- Otherwise it reports "blocked": the artifact is paused, cancel_all, flatten_all and
  -- force_reconcile are applied with it, each of the four has its row in the override journal and
  -- among the risk events, and no execution event is added.
  pub reconcile_response :
      (key : Option (Value R.Float) → Option String) (stamps : Stamps R.Float)
      (snapshot : GatewayStateSnapshot R.Float) (db : ReconcileDb R.Float) (books : Books R.Float)
      → rebuild_books R db.overrides.execution_events ≡ some books
      → (operator_id == "") ≡ false
      → (artifact_id == "") ≡ false
      → NoRepeats (map drawn safe_actions)
      → AreNew db.overrides (map drawn safe_actions)
      → let r =
          reconcile_projection_with_gateway R key stamps draws snapshot operator_id artifact_id
            db in
        (r.0.books ≡ books)
        × KeepsOthers R stamps db.overrides.execution_events db.replay_checkpoints
            r.0.replay_checkpoints
        × Responds
            (Agrees R
              (local_duplicate_fill_count R key db.overrides.execution_events)
              (load_local_projection R books)
              snapshot)
            (blockers_of R key books db.overrides snapshot)
            db.overrides
            (r.0.overrides, r.1)
  unfolding reconcile_projection_with_gateway blockers_of
  reconcile_response key stamps snapshot db books built o a n f =
      let codes = blockers_of R key books db.overrides snapshot in
      let request = safe_request operator_id artifact_id codes in
      let (returns, same, made, kept) = rebuild_phase3_built R stamps db books built in
      let response =
        respond _ codes db.overrides
          (reconciliation_blockers_iff R
            (local_duplicate_fill_count R key db.overrides.execution_events)
            (load_local_projection R books) snapshot)
          a
          (journal_safe_actions-Applied R draws request safe_actions db.overrides n
            (ready codes db.overrides o a f)) in
      rw (reconcile_projection_with_gateway, returns) (made, kept, rw (same, made) response)
