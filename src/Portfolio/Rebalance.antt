-- ===== src/Portfolio/Rebalance.antt =====
-- src/engine/portfolio/rebalance_policy.py: when a portfolio is rebalanced.
use proofalpha.Prelude.{
  String, Bool, true, false, not, Option, none, some, List, [], ◌++◌, ◌==◌, ◌≡◌, ◌↔◌, ◌⊎◌, refl,
  arith, is_empty, when, concat,
}
use proofalpha.Prelude.Int.{ℤ, ◌-ℤ◌, ◌≤ℤ◌, leb_ℤ}
use proofalpha.Python.Runtime.{Runtime}
use proofalpha.Python.Convert.{Result, ok, ◌>>=◌}
use proofalpha.Python.Clock.{parse_utc}
use proofalpha.Risk.Guards.{seconds}

pub record RebalancePolicy (Float : Type 0) : Type 0 where
  pub interval_seconds : ℤ
  pub drift_bps : Float
  pub risk_breach : Bool
  pub lifecycle_event : Option String

pub record RebalanceDecision : Type 0 where
  pub should_rebalance : Bool
  pub triggers : List String

-- `if policy.lifecycle_event`
unfoldable pub lifecycle_trigger : Option String → List String
lifecycle_trigger none = []
lifecycle_trigger (some event) = when (not (event == "")) (concat "lifecycle:" event)

module _ (R : Runtime) where
  -- the decision for the time elapsed since the last rebalance
  unfoldable pub rebalance_decision : RebalancePolicy R.Float → ℤ → R.Float → RebalanceDecision
  rebalance_decision policy elapsed drift_threshold_bps =
      let triggers =
        when (leb_ℤ (seconds policy.interval_seconds) elapsed) "scheduled"
        ++ (when (R.le drift_threshold_bps (R.abs policy.drift_bps)) "drift"
            ++ (when policy.risk_breach "risk" ++ lifecycle_trigger policy.lifecycle_event)) in
      record { should_rebalance = not (is_empty triggers); triggers = triggers }

  unfoldable pub evaluate_rebalance_policy :
      RebalancePolicy R.Float → String → String → R.Float → Result RebalanceDecision
  evaluate_rebalance_policy policy last_rebalance_utc now_utc drift_threshold_bps = do
    last ← parse_utc R last_rebalance_utc
    now ← parse_utc R now_utc
    ok (rebalance_decision policy (now -ℤ last) drift_threshold_bps)

  four_iff :
      {P Q : Type 0} (a b c : Bool) (rest : List String) (x y z : String)
      → (a ≡ true) ↔ P
      → (is_empty rest ≡ false) ↔ Q
      → (not (is_empty (when a x ++ (when b y ++ (when c z ++ rest)))) ≡ true)
        ↔ (P ⊎ ((b ≡ true) ⊎ ((c ≡ true) ⊎ Q)))
  four_iff true b c rest x y z p q = ground arith
  four_iff false true c rest x y z p q = ground arith
  four_iff false false c rest x y z p q = ground arith

  lifecycle_iff :
      (o : Option String)
      → (is_empty (lifecycle_trigger o) ≡ false)
        ↔ ((event : String) × (o ≡ some event) × ((event == "") ≡ false))
  unfolding lifecycle_trigger
  lifecycle_iff none = (λ h. cc, λ (s, e, p). cc)
  lifecycle_iff (some event) = (λ h. (event, refl, ground arith), λ (s, e, p). ground arith)

  interval_iff : (n elapsed : ℤ) → (leb_ℤ (seconds n) elapsed ≡ true) ↔ (seconds n ≤ℤ elapsed)
  interval_iff n elapsed = (λ h. ground arith, λ h. ground arith)

  -- If the two times are read, the call returns a decision, and it is to rebalance exactly when the
  -- interval has passed, the drift has reached the threshold, a risk limit is breached, or there is a
  -- life cycle event with a name.
  pub evaluate_rebalance_policy_iff :
      (policy : RebalancePolicy R.Float) (last_at now_at : String) (threshold : R.Float)
      (last now : ℤ)
      → parse_utc R last_at ≡ ok last
      → parse_utc R now_at ≡ ok now
      → (d : RebalanceDecision) × (evaluate_rebalance_policy policy last_at now_at threshold ≡ ok d)
        × ((d.should_rebalance ≡ true) ↔ (
            (seconds policy.interval_seconds ≤ℤ now -ℤ last)
            ⊎ ((R.le threshold (R.abs policy.drift_bps) ≡ true)
                ⊎ ((policy.risk_breach ≡ true)
                    ⊎ ((event : String) × (policy.lifecycle_event ≡ some event)
                        × ((event == "") ≡ false))))))
  unfolding evaluate_rebalance_policy rebalance_decision
  evaluate_rebalance_policy_iff policy last_at now_at threshold last now p q = (
    rebalance_decision policy (now -ℤ last) threshold,
    rw (p, q) refl,
    four_iff (leb_ℤ (seconds policy.interval_seconds) (now -ℤ last))
        (R.le threshold (R.abs policy.drift_bps)) policy.risk_breach
        (lifecycle_trigger policy.lifecycle_event) "scheduled" "drift" "risk"
        (interval_iff policy.interval_seconds (now -ℤ last)) (lifecycle_iff policy.lifecycle_event),
  )
