-- ===== src/Reconcile/SafeActions.antt =====
-- What a reconciliation does to the memory database (src/engine/execution/reconciliation.py with
-- src/engine/portfolio/allocator.py).
use mathlib.Core.List.{append_assoc, append-nil}
use proofalpha.Prelude.{
  String, true, false, Option, some, List, ◌∷◌, [], ◌++◌, ◌==◌, ◌≡◌, refl, sym, ap, ◌∙◌, arith, map,
  concat, contains, is_empty, All,
}
use proofalpha.Prelude.Rows.{has_key, has_key-append, replace_row}
use proofalpha.Python.Runtime.{Runtime}
use proofalpha.Governance.Journal.{Artifact}
use proofalpha.Portfolio.OverrideTables.{
  HumanOverrideRequest, OverrideEvent, OverrideRisk, OverrideDb, HumanOverrideResult, returned,
}
use proofalpha.Portfolio.Override.{
  override_rejections, override_effect, override_event, override_risk, overridden,
  apply_human_override,
}
use proofalpha.Portfolio.OverrideLaws.{IsAllowed, override_rejections_iff}
use proofalpha.Reconcile.Matched.{NoRepeats}
use proofalpha.Reconcile.Run.{OperatorEntry, Draws, operator_entry, journal_safe_actions}

module _ (R : Runtime) (draws : Draws R) (request : String → HumanOverrideRequest R.Float) where
  abbrev pub event_id_of : String → String
  event_id_of action = concat "override-" (draws action).1

  -- The row and the entry of an applied action.
  abbrev pub row_of_action : String → OverrideEvent R.Float
  row_of_action action = override_event R (request action) (draws action).0 (event_id_of action) []

  abbrev pub entry_of_action : String → OperatorEntry
  entry_of_action action = record {
    override_event_id = event_id_of action;
    action = (request action).action;
    status = "applied";
    reasons = [];
  }

  abbrev pub effects : List String → List Artifact → List Artifact
  effects [] rows = rows
  effects (action ∷ rest) rows = effects rest (override_effect R (request action) rows)

  -- The risk events after those of the actions, each in place of one with its identifier.
  abbrev pub risks_after : List String → List OverrideRisk → List OverrideRisk
  risks_after [] rows = rows
  risks_after (action ∷ rest) rows = risks_after rest (
      replace_row (λ (r : OverrideRisk). r.risk_event_id)
        (override_risk R (request action) (draws action).0 (event_id_of action)) rows)

  -- An action that is allowed, is no kill switch, and whose identifier is new to the journal.
  abbrev pub IsReady : OverrideDb R.Float → String → Type 0
  IsReady db action =
      IsAllowed R (request action)
      × (((request action).action == "kill_switch") ≡ false)
      × (has_key (λ (e : OverrideEvent R.Float). e.override_event_id) (event_id_of action)
            db.human_override_journal
          ≡ false)

  empty_is_nil : (l : List String) → is_empty l ≡ true → l ≡ []
  empty_is_nil [] h = refl
  empty_is_nil (s ∷ l) h = cc

  -- One action.
  one_applied :
      (action : String) (db : OverrideDb R.Float)
      → IsReady db action
      → let call = apply_human_override R (request action) (draws action).0 (draws action).1 db in
        (call.0.human_override_journal ≡ db.human_override_journal ++ (row_of_action action ∷ []))
        × (call.0.artifacts ≡ override_effect R (request action) db.artifacts)
        × (call.0.execution_events ≡ db.execution_events)
        × (call.0.risk_events ≡ risks_after (action ∷ []) db.risk_events)
        × ((result : HumanOverrideResult) × (call.1 ≡ returned result)
            × (operator_entry result ≡ entry_of_action action))
  unfolding apply_human_override overridden
  one_applied action db (allowed, other, new) =
      let good = (override_rejections_iff R (request action)).1 allowed in
      let nil = empty_is_nil (override_rejections R (request action)) good in
      rw (new, nil, other) (refl, refl, refl, refl, (_, refl, refl))

  IsReady-after :
      (action : String) (rest : List String) (db db' : OverrideDb R.Float)
      → contains (event_id_of action) (map event_id_of rest) ≡ false
      → db'.human_override_journal ≡ db.human_override_journal ++ (row_of_action action ∷ [])
      → All (IsReady db) rest
      → All (IsReady db') rest
  unfolding contains override_event
  IsReady-after action [] db db' n e h = tt
  IsReady-after action (b ∷ rest) db db' n e ((allowed, other, new), h) =
      let key = λ (r : OverrideEvent R.Float). r.override_event_id in
      let apart : (event_id_of action == event_id_of b) ≡ false = ground (arith, n) in
      let later : contains (event_id_of action) (map event_id_of rest) ≡ false =
        ground (arith, n) in
      let fresh =
        ap (has_key key (event_id_of b)) e
        ∙ has_key-append key (event_id_of b) db.human_override_journal (row_of_action action)
        ∙ rw (new, apart) refl in
      ((allowed, other, fresh), IsReady-after action rest db db' later e h)

  -- What the actions do together, when each is ready and no identifier is drawn twice.
  abbrev pub Applied :
      List String → OverrideDb R.Float → OverrideDb R.Float × Option (List OperatorEntry) → Type 0
  Applied actions db r =
      (r.1 ≡ some (map entry_of_action actions))
      × (r.0.human_override_journal ≡ db.human_override_journal ++ map row_of_action actions)
      × (r.0.artifacts ≡ effects actions db.artifacts)
      × (r.0.execution_events ≡ db.execution_events)
      × (r.0.risk_events ≡ risks_after actions db.risk_events)

  pub journal_safe_actions-Applied :
      (actions : List String) (db : OverrideDb R.Float)
      → NoRepeats (map event_id_of actions)
      → All (IsReady db) actions
      → Applied actions db (journal_safe_actions R draws request actions db)
  unfolding journal_safe_actions
  journal_safe_actions-Applied [] db n h =
      (refl, sym (append-nil db.human_override_journal), refl, refl, refl)
  journal_safe_actions-Applied (action ∷ rest) db (n, ns) (ready, h) =
      let (j, a, x, k, (result, returns, entry)) = one_applied action db ready in
      let call = apply_human_override R (request action) (draws action).0 (draws action).1 db in
      let (es, js, as_, xs, ks) =
        journal_safe_actions-Applied rest call.0 ns (IsReady-after action rest db call.0 n j h) in
      rw (journal_safe_actions, returns, es)
        (
          rw entry refl,
          js
              ∙ ap (λ l. l ++ map row_of_action rest) j
              ∙ append_assoc db.human_override_journal (row_of_action action ∷ []) _,
          as_ ∙ ap (effects rest) a,
          xs ∙ x,
          ks ∙ ap (risks_after rest) k,
        )
