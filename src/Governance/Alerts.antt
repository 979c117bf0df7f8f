-- ===== src/Governance/Alerts.antt =====
-- Which runbook and automation `evaluate_lifecycle_policy` decides on
-- (src/engine/governance/lifecycle.py).
use proofalpha.Prelude.{
  String, Bool, true, false, some, List, ◌∷◌, [], ◌++◌, ◌≡◌, refl, when, not, none, All, All-when,
  Option-cases, inl, inr,
}
use proofalpha.Prelude.Int.{pos, ltb_ℤ, leb_ℤ}
use proofalpha.Prelude.Dict.{lookup}
use proofalpha.Python.Runtime.{Runtime}
use proofalpha.Governance.Runbooks.{
  LifecycleState, paused, retired, AlertRunbook, default_alert_runbooks,
}
use proofalpha.Governance.Policy.{
  ArtifactHealthSnapshot, LifecycleDecision, runbook_code_for, decision, retire_reasons,
  pause_reasons, revalidation_reasons, decide, evaluate_lifecycle_policy,
}

-- The code has a runbook, which the table holds under the runbook's own code.
pub HasRunbook : String → Type 0
HasRunbook code = elim (lookup code default_alert_runbooks) [
  | none ↦ ⊥
  | some runbook ↦ runbook.alert_code ≡ code
]

-- The decision is what the runbook for its primary reason says, or the one for a pause if it pauses.
pub FollowsRunbook : LifecycleDecision → Type 0
FollowsRunbook d =
    (runbook : AlertRunbook) × (lookup (runbook_code_for d.target_state d.primary_reason)
        default_alert_runbooks
      ≡ some runbook)
    × (d.runbook_code ≡ runbook_code_for d.target_state d.primary_reason)
    × (d.default_automation ≡ runbook.default_automation)
    × (d.severity ≡ runbook.severity)

reason-HasRunbook :
    (b : Bool) (code : String) (rest : List String)
    → HasRunbook code
    → All HasRunbook rest
    → All HasRunbook (when b code ++ rest)
reason-HasRunbook true code rest h hs = (h, hs)
reason-HasRunbook false code rest h hs = hs

runbook_of :
    (code : String)
    → HasRunbook code
    → (runbook : AlertRunbook) × (lookup code default_alert_runbooks ≡ some runbook)
      × (runbook.alert_code ≡ code)
unfolding HasRunbook
runbook_of code h = elim (Option-cases (lookup code default_alert_runbooks)) [
  | inl e ↦ absurd (rw (HasRunbook, e) at h)
  | inr (runbook, e) ↦ (runbook, e, rw (HasRunbook, e) at h)
]

module _ (R : Runtime) where
  retire_reasons-All : (s : ArtifactHealthSnapshot R.Float) → All HasRunbook (retire_reasons R s)
  unfolding retire_reasons HasRunbook default_alert_runbooks lookup
  retire_reasons-All s =
      reason-HasRunbook (ltb_ℤ (pos 0) s.liquidation_events) "liquidation" _ refl (
        reason-HasRunbook (not s.checksum_valid) "artifact_checksum_mismatch" _ refl (
          reason-HasRunbook (not s.venue_rules_match) "venue_rule_mismatch" _ refl (
            reason-HasRunbook (leb_ℤ (pos 2) s.pause_count_90d) "two_pauses_within_90d" _ refl (
              All-when HasRunbook s.holdout_assumptions_invalidated
                "holdout_assumptions_invalidated" refl))))

  decision-FollowsRunbook :
      (s : ArtifactHealthSnapshot R.Float) (target : LifecycleState) (b : Bool) (primary : String)
      (reasons : List String)
      → HasRunbook (runbook_code_for target primary)
      → FollowsRunbook (decision R s target b primary reasons)
  unfolding decision FollowsRunbook
  decision-FollowsRunbook s target b primary reasons h =
      let (runbook, found, code) = runbook_of (runbook_code_for target primary) h in
      rw found (runbook, refl, code, refl, refl)

  pause_to_paper-HasRunbook : HasRunbook "pause_to_paper"
  unfolding HasRunbook default_alert_runbooks lookup
  pause_to_paper-HasRunbook = refl

  runbook_code_for-HasRunbook :
      (target : LifecycleState) (primary : String)
      → HasRunbook primary
      → HasRunbook (runbook_code_for target primary)
  runbook_code_for-HasRunbook paused primary h = pause_to_paper-HasRunbook
  runbook_code_for-HasRunbook _ primary h = h

  revalidation_required-HasRunbook : HasRunbook "revalidation_required"
  unfolding HasRunbook default_alert_runbooks lookup
  revalidation_required-HasRunbook = refl

  none-HasRunbook : HasRunbook "none"
  unfolding HasRunbook default_alert_runbooks lookup
  none-HasRunbook = refl

  decide-FollowsRunbook :
      (s : ArtifactHealthSnapshot R.Float) (retires pauses revalidations : List String)
      → All HasRunbook retires
      → FollowsRunbook (decide R s retires pauses revalidations)
  unfolding decide
  decide-FollowsRunbook s (r ∷ rs) pauses revalidations h =
      decision-FollowsRunbook s retired false r _ (h.0)
  decide-FollowsRunbook s [] (p ∷ ps) revalidations h =
      decision-FollowsRunbook s paused false p _ pause_to_paper-HasRunbook
  decide-FollowsRunbook s [] [] (v ∷ vs) h =
      decision-FollowsRunbook s s.lifecycle_state true "revalidation_required" _
        (runbook_code_for-HasRunbook s.lifecycle_state _ revalidation_required-HasRunbook)
  decide-FollowsRunbook s [] [] [] h =
      decision-FollowsRunbook s s.lifecycle_state false "none" _
        (runbook_code_for-HasRunbook s.lifecycle_state _ none-HasRunbook)

  -- The default table has a runbook for every decision, under "pause_to_paper" for one that pauses and
  -- under its primary reason for any other; that is the decision's runbook code, and its automation and
  -- severity are the runbook's. So the fallback of `_decision` is not used.
  pub evaluate_lifecycle_policy-FollowsRunbook :
      (s : ArtifactHealthSnapshot R.Float) → FollowsRunbook (evaluate_lifecycle_policy R s)
  unfolding evaluate_lifecycle_policy
  evaluate_lifecycle_policy-FollowsRunbook s =
      decide-FollowsRunbook s _ (pause_reasons R s) (revalidation_reasons R s)
        (retire_reasons-All s)
