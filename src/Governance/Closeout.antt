-- ===== src/Governance/Closeout.antt =====
-- What `apply_lifecycle_decision` changes, and that `lifecycle_status` reads it back
-- (src/engine/governance/lifecycle.py).
use proofalpha.Prelude.{
  String, true, false, some, List, ◌∷◌, [], ◌≡◌, ◌⊎◌, ◌↔◌, refl, inl, inr, concat, is_empty,
  is_empty-append, is_empty-when, All, Bool-cases, Option-cases, and_iff, not_iff,
}
use proofalpha.Prelude.Dict.{Dict, lookup}
use proofalpha.Python.Runtime.{Value}
use proofalpha.Governance.Runbooks.{
  AlertRunbook, is_missing, missing_evidence, validate_alert_closeout,
}
use proofalpha.Governance.Policy.{LifecycleDecision}
use proofalpha.Governance.Journal.{
  RiskEvent, LifecycleEvent, MemoryDb, Applied, returned, integrity_error, has_key, committed,
  apply_lifecycle_decision,
}

abbrev pub IsApplied : Applied → Type 0
IsApplied (returned r) = r.applied ≡ true
IsApplied integrity_error = ⊥

-- The runbook is in the table, and every piece of its evidence is given.
pub IsClosed : {Float : Type 0} → String → Dict (Value Float) → Dict AlertRunbook → Type 0
IsClosed code evidence runbooks =
    (runbook : AlertRunbook) × (lookup code runbooks ≡ some runbook)
    × All (λ field. is_missing (lookup field evidence) ≡ false) runbook.required_evidence

module _ {Float : Type 0} where
  missing_evidence-All :
      (fields : List String) (evidence : Dict (Value Float))
      → is_empty (missing_evidence fields evidence) ≡ true
      → All (λ field. is_missing (lookup field evidence) ≡ false) fields
  unfolding missing_evidence
  missing_evidence-All [] evidence h = tt
  missing_evidence-All (f ∷ fs) evidence h =
      let parts = (simp (is_empty-append, is_empty-when, and_iff, not_iff) at h) in
      (parts.0, missing_evidence-All fs evidence parts.1)

  validate-IsClosed :
      (code : String) (evidence : Dict (Value Float)) (runbooks : Dict AlertRunbook)
      → (validate_alert_closeout code evidence runbooks).passed ≡ true
      → IsClosed code evidence runbooks
  unfolding validate_alert_closeout IsClosed
  validate-IsClosed code evidence runbooks h = elim (Option-cases (lookup code runbooks)) [
    | inl e ↦ let impossible : false ≡ true = (rw (validate_alert_closeout, e) at h) in cc
    | inr (runbook, e) ↦
        (runbook, e, missing_evidence-All _ evidence (rw (validate_alert_closeout, e) at h))
  ]

  All-missing_evidence :
      (fields : List String) (evidence : Dict (Value Float))
      → All (λ field. is_missing (lookup field evidence) ≡ false) fields
      → is_empty (missing_evidence fields evidence) ≡ true
  unfolding missing_evidence
  All-missing_evidence [] evidence h = refl
  All-missing_evidence (f ∷ fs) evidence (h, hs) = rw h (All-missing_evidence fs evidence hs)

  -- The evidence passes exactly when the runbook is closed.
  pub validate_iff :
      (code : String) (evidence : Dict (Value Float)) (runbooks : Dict AlertRunbook)
      → ((validate_alert_closeout code evidence runbooks).passed ≡ true)
        ↔ IsClosed code evidence runbooks
  unfolding validate_alert_closeout IsClosed
  validate_iff code evidence runbooks = (
    validate-IsClosed code evidence runbooks,
    λ (runbook, e, all).
        rw (validate_alert_closeout, e)
          (All-missing_evidence runbook.required_evidence evidence all),
  )

  -- the value of the call, by the branch taken
  pub apply_branches :
      (d : LifecycleDecision) (evidence : Dict (Value Float)) (runbooks : Dict AlertRunbook)
      (now event_hex risk_hex : String) (db : MemoryDb Float)
      → let reply = apply_lifecycle_decision d evidence runbooks now event_hex risk_hex db in
        let validation = validate_alert_closeout d.runbook_code evidence runbooks in
        ((reply.0 ≡ db) × (¬ IsApplied reply.1))
        ⊎ ((validation.passed ≡ true)
            × IsApplied reply.1
            × ((event_id : String) × (risk_id : String) × (reply.0
                  ≡ committed d evidence now risk_id event_id db)))
  unfolding apply_lifecycle_decision
  apply_branches d evidence runbooks now event_hex risk_hex db =
      let passed = (validate_alert_closeout d.runbook_code evidence runbooks).passed in
      let event_id = concat "lifecycle:" (concat d.artifact_id (concat ":" event_hex)) in
      let risk_id = concat "risk:" (concat d.artifact_id (concat ":" risk_hex)) in
      let seen = has_key (λ (r : RiskEvent Float). r.risk_event_id) risk_id db.risk_events in
      let journaled =
        has_key (λ (r : LifecycleEvent Float). r.lifecycle_event_id) event_id
          db.lifecycle_journal in
      elim (Bool-cases passed) [
        | inr e ↦ rw e (inl (refl, λ h. cc))
        | inl e ↦ elim (Bool-cases seen) [
          | inl r ↦ rw (e, r) (inl (refl, λ h. h))
          | inr r ↦ elim (Bool-cases journaled) [
            | inl j ↦ rw (e, r, j) (inl (refl, λ h. h))
            | inr j ↦ rw (e, r, j) (inr (refl, refl, (event_id, risk_id, refl)))
          ]
        ]
      ]
