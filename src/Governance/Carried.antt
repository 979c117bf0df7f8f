-- ===== src/Governance/Carried.antt =====
-- When `apply_lifecycle_decision` carries a decision out, and what it then writes to its four tables
-- (src/engine/governance/lifecycle.py).
use proofalpha.Prelude.{
  String, Bool, Option, true, false, some, List, ◌∷◌, [], ◌++◌, ◌==◌, ◌≡◌, ◌↔◌, refl, sym, ◌∙◌,
  concat, if◌then◌else◌, Bool-cases, inl, inr,
}
use proofalpha.Prelude.Dict.{Dict}
use proofalpha.Python.Runtime.{Value}
use proofalpha.Governance.Runbooks.{
  LifecycleState, research_candidate, validated_candidate, paper, pilot_live, scaled_live, paused,
  retired, AlertRunbook, state_text, automation_text, validate_alert_closeout,
}
use proofalpha.Governance.Policy.{LifecycleDecision}
use proofalpha.Governance.Journal.{
  Artifact, Deployment, RiskEvent, LifecycleEvent, MemoryDb, rows_without, has_key,
  set_rollout_stage, moves_artifact, update_artifacts, deployment_row, risk_event_row, journal_row,
  committed, apply_lifecycle_decision,
}
use proofalpha.Governance.Closeout.{IsApplied, IsClosed, validate_iff}

-- The stage of an artifact after a decision on a target state, if it is the decision's own or not.
abbrev pub stage_after : LifecycleState → Bool → Option String → Option String
stage_after paused true stage = some "paused"
stage_after retired true stage = some "retired"
stage_after _ _ stage = stage

-- The rows of `artifacts` after a decision, against those before it: nothing but the stages of the
-- decision's own artifact is changed.
abbrev pub AreMoved : LifecycleState → String → List Artifact → List Artifact → Type 0
AreMoved t id [] [] = Unit
AreMoved t id [] (b ∷ new) = ⊥
AreMoved t id (a ∷ old) [] = ⊥
AreMoved t id (a ∷ old) (b ∷ new) =
    ((b.artifact_id ≡ a.artifact_id)
      × (b.approved ≡ a.approved)
      × (b.rollout_stage ≡ stage_after t (a.artifact_id == id) a.rollout_stage))
    × AreMoved t id old new

unmoved :
    (t : LifecycleState) (id : String) (rows : List Artifact)
    → ((b : Bool) (stage : Option String) → stage_after t b stage ≡ stage)
    → AreMoved t id rows rows
unmoved t id [] h = tt
unmoved t id (a ∷ rows) h =
    ((refl, refl, sym (h (a.artifact_id == id) a.rollout_stage)), unmoved t id rows h)

moved :
    (t : LifecycleState) (text id : String) (rows : List Artifact)
    → ((stage : Option String) → stage_after t true stage ≡ some text)
    → ((stage : Option String) → stage_after t false stage ≡ stage)
    → AreMoved t id rows (set_rollout_stage text id rows)
unfolding set_rollout_stage
moved t text id [] h n = tt
moved t text id (a ∷ rows) h n =
    let rest = moved t text id rows h n in
    elim (Bool-cases (a.artifact_id == id)) [
      | inl e ↦ rw e ((refl, refl, sym (h a.rollout_stage)), rest)
      | inr e ↦ rw e ((refl, refl, sym (n a.rollout_stage)), rest)
    ]

updated :
    (t : LifecycleState) (id : String) (rows : List Artifact)
    → AreMoved t id rows
        (if moves_artifact t then set_rollout_stage (state_text t) id rows else rows)
unfolding state_text
updated paused id rows = moved paused "paused" id rows (λ s. refl) (λ s. refl)
updated retired id rows = moved retired "retired" id rows (λ s. refl) (λ s. refl)
updated research_candidate id rows = unmoved research_candidate id rows (λ b s. refl)
updated validated_candidate id rows = unmoved validated_candidate id rows (λ b s. refl)
updated paper id rows = unmoved paper id rows (λ b s. refl)
updated pilot_live id rows = unmoved pilot_live id rows (λ b s. refl)
updated scaled_live id rows = unmoved scaled_live id rows (λ b s. refl)

module _ {Float : Type 0} where
  -- The row of the decision in the lifecycle journal, in the risk events and in the deployments.
  abbrev pub IsJournaled :
      LifecycleDecision → Dict (Value Float) → String → String → LifecycleEvent Float → Type 0
  IsJournaled d evidence now event_id r =
      (r.lifecycle_event_id ≡ event_id)
      × (r.artifact_id ≡ d.artifact_id)
      × (r.source_state ≡ state_text d.source_state)
      × (r.target_state ≡ state_text d.target_state)
      × (r.revalidation_required ≡ d.revalidation_required)
      × (r.reason_code ≡ d.primary_reason)
      × (r.runbook_code ≡ d.runbook_code)
      × (r.automation ≡ automation_text d.default_automation)
      × (r.severity ≡ d.severity)
      × (r.ts_utc ≡ now)
      × (r.evidence_json ≡ evidence)

  abbrev pub IsRaised :
      LifecycleDecision → Dict (Value Float) → String → String → String → RiskEvent Float → Type 0
  IsRaised d evidence now risk_id event_id r =
      (r.risk_event_id ≡ risk_id)
      × (r.ts_utc ≡ now)
      × (r.reason_code ≡ d.primary_reason)
      × (r.severity ≡ d.severity)
      × (r.action ≡ automation_text d.default_automation)
      × (r.metadata_json ≡ (event_id, evidence))

  abbrev pub IsDeployed : LifecycleDecision → String → Deployment Float → Type 0
  IsDeployed d now r =
      (r.deployment_id ≡ concat "deployment:" (concat d.artifact_id ":lifecycle"))
      × (r.artifact_id ≡ d.artifact_id)
      × (r.rollout_stage ≡ state_text d.target_state)
      × (r.status
          ≡ some (
              if d.revalidation_required
              then "revalidation_required"
              else state_text d.target_state))
      × (r.started_at_utc ≡ some now)

  -- What a decision that is carried out does to the four tables.
  abbrev pub Carries :
      LifecycleDecision
      → Dict (Value Float)
      → String
      → String
      → String
      → MemoryDb Float
      → MemoryDb Float
      → Type 0
  Carries d evidence now event_id risk_id old new =
      AreMoved d.target_state d.artifact_id old.artifacts new.artifacts
      × ((r : LifecycleEvent Float) × (new.lifecycle_journal ≡ old.lifecycle_journal ++ (r ∷ []))
          × IsJournaled d evidence now event_id r)
      × ((r : RiskEvent Float) × (new.risk_events ≡ old.risk_events ++ (r ∷ []))
          × IsRaised d evidence now risk_id event_id r)
      × ((r : Deployment Float) × (new.deployments
            ≡ rows_without (λ (x : Deployment Float). x.deployment_id)
                (concat "deployment:" (concat d.artifact_id ":lifecycle")) old.deployments
              ++ (r ∷ []))
          × IsDeployed d now r)

  committed-Carries :
      (d : LifecycleDecision) (evidence : Dict (Value Float)) (now risk_id event_id : String)
      (db : MemoryDb Float)
      → Carries d evidence now event_id risk_id db (committed d evidence now risk_id event_id db)
  unfolding committed deployment_row risk_event_row journal_row update_artifacts
  committed-Carries d evidence now risk_id event_id db = (
    updated d.target_state d.artifact_id db.artifacts,
    (_, refl, (refl, refl, refl, refl, refl, refl, refl, refl, refl, refl, refl)),
    (_, refl, (refl, refl, refl, refl, refl, refl)),
    (_, refl, (refl, refl, refl, refl, refl)),
  )

  -- A decision is carried out exactly when its runbook is known and has all its evidence, and the
  -- identifiers that were drawn for the risk event and for the journal are new to their tables. If it
  -- is not, the database is unchanged. If it is, its artifact gets the stage "paused" or "retired"
  -- where that is the target, and no other artifact changes; the journal and the risk events are
  -- longer by one row, which says what the decision says; and the deployments are the old ones, but
  -- for the one of this artifact's lifecycle, which is replaced by that of the decision.
  pub apply_lifecycle_decision_cases :
      (d : LifecycleDecision) (evidence : Dict (Value Float)) (runbooks : Dict AlertRunbook)
      (now event_hex risk_hex : String) (db : MemoryDb Float)
      → let reply = apply_lifecycle_decision d evidence runbooks now event_hex risk_hex db in
        let event_id = concat "lifecycle:" (concat d.artifact_id (concat ":" event_hex)) in
        let risk_id = concat "risk:" (concat d.artifact_id (concat ":" risk_hex)) in
        (IsApplied reply.1 ↔ (
          IsClosed d.runbook_code evidence runbooks
          × ((has_key (λ (r : RiskEvent Float). r.risk_event_id) risk_id db.risk_events ≡ false)
              × (has_key
                    (λ (r : LifecycleEvent Float). r.lifecycle_event_id)
                    event_id
                    db.lifecycle_journal
                  ≡ false))))
        × ((¬ IsApplied reply.1) → reply.0 ≡ db)
        × (IsApplied reply.1 → Carries d evidence now event_id risk_id db reply.0)
  unfolding apply_lifecycle_decision
  apply_lifecycle_decision_cases d evidence runbooks now event_hex risk_hex db =
      let event_id = concat "lifecycle:" (concat d.artifact_id (concat ":" event_hex)) in
      let risk_id = concat "risk:" (concat d.artifact_id (concat ":" risk_hex)) in
      let closed = validate_iff d.runbook_code evidence runbooks in
      elim (Bool-cases (validate_alert_closeout d.runbook_code evidence runbooks).passed) [
        | inr e ↦
            let refused : ¬ IsClosed d.runbook_code evidence runbooks =
              λ c. let passed = sym e ∙ closed.1 c in cc in
            rw e ((λ h. cc, λ (c, f). absurd (refused c)), λ h. refl, λ h. cc)
        | inl e ↦
            elim (Bool-cases
              (has_key (λ (r : RiskEvent Float). r.risk_event_id) risk_id db.risk_events)) [
                | inl r ↦ rw (e, r) ((λ h. absurd h, λ (c, f). cc), λ h. refl, λ h. absurd h)
                | inr r ↦
                    elim (Bool-cases (
                      has_key (λ (x : LifecycleEvent Float). x.lifecycle_event_id) event_id
                        db.lifecycle_journal)) [
                          | inl j ↦
                              rw (e, r, j) ((λ h. absurd h, λ (c, f). cc), λ h. refl, λ h. absurd h)
                          | inr j ↦
                              rw (e, r, j)
                                (
                                  (λ h. (closed.0 e, (refl, refl)), λ h. refl),
                                  λ h. absurd (h refl),
                                  λ h. committed-Carries d evidence now risk_id event_id db,
                                )
                        ]
              ]
      ]
