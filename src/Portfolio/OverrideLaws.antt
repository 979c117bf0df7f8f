-- ===== src/Portfolio/OverrideLaws.antt =====
-- What a human override may change (src/engine/portfolio/allocator.py).
use proofalpha.Prelude.{
  String, Bool, true, false, not, ◌∷◌, [], ◌++◌, ◌==◌, ◌&&◌, ◌≡◌, ◌↔◌, inl, inr, refl, arith,
  concat, contains, is_empty, empty_iff_and, empty_when, Bool-cases, if◌then◌else◌,
}
use proofalpha.Prelude.Rows.{has_key}
use proofalpha.Python.Runtime.{Runtime}
use proofalpha.Store.Rebuild.{has_text}
use proofalpha.Store.Chain.{IsChain, append-IsChain}
use proofalpha.Portfolio.OverrideTables.{
  HumanOverrideRequest, OverrideEvent, OverrideDb, Overridden, returned, integrity_error,
  override_actions, destructive_overrides, artifact_overrides,
}
use proofalpha.Portfolio.Override.{
  is_confirmed, expected_confirmation, override_rejections, override_event, overridden,
  apply_human_override, kill_switch_event,
}

required : (b : Bool) → (not b ≡ false) ↔ (b ≡ true)
required b = ground arith

needed : (a b : Bool) → ((a && not b) ≡ false) ↔ (a ≡ true → b ≡ true)
needed true true = (λ h e. refl, λ h. refl)
needed true false = (λ h e. cc, λ h. let c = h refl in cc)
needed false b = (λ h e. cc, λ h. refl)

module _ (R : Runtime) where
  -- What the journal asks of a request: a known action and an operator, an artifact for the actions
  -- on one, and for the destructive actions the confirmation that spells the action.
  abbrev pub IsAllowed : HumanOverrideRequest R.Float → Type 0
  IsAllowed r =
      (contains r.action override_actions ≡ true)
      × (((r.operator_id == "") ≡ false)
          × ((contains r.action artifact_overrides ≡ true → has_text r.artifact_id ≡ true)
              × (contains r.action destructive_overrides ≡ true
                  → is_confirmed r.confirmation (expected_confirmation r.action) ≡ true)))

  pub override_rejections_iff :
      (r : HumanOverrideRequest R.Float) → (is_empty (override_rejections R r) ≡ true) ↔ IsAllowed r
  unfolding override_rejections
  override_rejections_iff r =
      empty_iff_and _ _ (empty_when _ _ (required (contains r.action override_actions))) (
        empty_iff_and _ _ (empty_when {P = (r.operator_id == "") ≡ false} _ _ (λ h. h, λ h. h)) (
          empty_iff_and _ _
            (empty_when _ _
              (needed (contains r.action artifact_overrides) (has_text r.artifact_id)))
            (empty_when _ _ (
              needed (contains r.action destructive_overrides)
                (is_confirmed r.confirmation (expected_confirmation r.action))))))

  -- The outcome of a call.
  abbrev pub is_applied : Overridden → Bool
  is_applied integrity_error = false
  is_applied (returned result) = result.applied

  abbrev pub is_fresh : String → OverrideDb R.Float → Bool
  is_fresh event_hex db = not (
      has_key (λ (e : OverrideEvent R.Float). e.override_event_id) (concat "override-" event_hex)
        db.human_override_journal)

  -- Nothing that trading depends on has changed.
  abbrev pub Unchanged : OverrideDb R.Float → OverrideDb R.Float → Type 0
  Unchanged before after =
      (after.artifacts ≡ before.artifacts)
      × (after.risk_events ≡ before.risk_events)
      × (after.execution_events ≡ before.execution_events)

  -- An override with a new identifier leaves exactly one row in the journal, with its action, its
  -- operator and its status, and it is applied exactly when it is allowed. A call that is not applied
  -- changes nothing else, and neither does one whose identifier was in the journal, which raises. The
  -- journal of execution events stays a chain, and it gets an event only from an applied kill switch.
  pub apply_human_override_audit :
      (r : HumanOverrideRequest R.Float) (now event_hex : String) (db : OverrideDb R.Float)
      → IsChain R db.execution_events
      → let call = apply_human_override R r now event_hex db in
        let reasons = override_rejections R r in
        let row = override_event R r now (concat "override-" event_hex) reasons in
        ((is_applied call.1 ≡ true) ↔ ((is_fresh event_hex db ≡ true) × IsAllowed r))
        × (call.0.human_override_journal ≡ (
            if is_fresh event_hex db
            then db.human_override_journal ++ (row ∷ [])
            else db.human_override_journal))
        × (is_applied call.1 ≡ false → Unchanged db call.0)
        × IsChain R call.0.execution_events
        × ((r.action == "kill_switch") ≡ false → call.0.execution_events ≡ db.execution_events)
        × (is_fresh event_hex db ≡ true
            → (row.action ≡ r.action)
              × (row.operator_id ≡ r.operator_id)
              × (row.status ≡ (if is_applied call.1 then "applied" else "rejected")))
  unfolding apply_human_override overridden override_event
  apply_human_override_audit r now event_hex db chain =
      let event_id = concat "override-" event_hex in
      let iff = override_rejections_iff r in
      let key =
        has_key (λ (e : OverrideEvent R.Float). e.override_event_id) event_id
          db.human_override_journal in
      elim (Bool-cases key) [
        | inl known ↦
            rw known ((λ h. cc, λ h. cc), refl, λ h. (refl, refl, refl), chain, λ h. refl, λ h. cc)
        | inr fresh ↦ elim (Bool-cases (is_empty (override_rejections R r))) [
          | inr bad ↦
              rw (fresh, bad)
                (
                  (λ h. cc, λ h. let c = iff.1 h.1 in cc),
                  refl,
                  λ h. (refl, refl, refl),
                  chain,
                  λ h. refl,
                  λ h. (refl, refl, refl),
                )
          | inl good ↦ elim (Bool-cases (r.action == "kill_switch")) [
            | inl kill ↦
                rw (fresh, good, kill)
                  (
                    (λ h. (refl, iff.0 good), λ h. refl),
                    refl,
                    λ h. cc,
                    append-IsChain R (kill_switch_event R r now) db.execution_events chain,
                    λ h. cc,
                    λ h. (refl, refl, refl),
                  )
            | inr other ↦
                rw (fresh, good, other)
                  (
                    (λ h. (refl, iff.0 good), λ h. refl),
                    refl,
                    λ h. cc,
                    chain,
                    λ h. refl,
                    λ h. (refl, refl, refl),
                  )
          ]
        ]
      ]
