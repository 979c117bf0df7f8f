-- ===== src/Governance/Targets.antt =====
-- Which state, which runbook and which automation `evaluate_lifecycle_policy` decides on
-- (src/engine/governance/lifecycle.py).
use proofalpha.Prelude.{
  String, Bool, true, false, Option, none, some, List, ◌∷◌, [], ◌++◌, ◌&&◌, ◌≡◌, ◌↔◌, ◌⊎◌, refl,
  arith, is_empty, is_empty-append, is_empty-when, when,
}
use proofalpha.Prelude.Int.{ℤ, pos, leb_ℤ, ◌≤ℤ◌}
use proofalpha.Python.Runtime.{Runtime}
use proofalpha.Governance.Runbooks.{paused, retired}
use proofalpha.Governance.Policy.{
  ArtifactHealthSnapshot, decision, retire_reasons, is_sharpe_low, is_slippage_high, pause_reasons,
  revalidation_reasons, decide, evaluate_lifecycle_policy,
}

six_iff :
    {P Q : Type 0} (a b c d e f : Bool) (u v w x y z : String)
    → (a ≡ true) ↔ P
    → (b ≡ true) ↔ Q
    → (is_empty (when a u ++ (when b v ++ (when c w ++ (when d x ++ (when e y ++ when f z)))))
        ≡ false)
      ↔ (P ⊎ (Q ⊎ ((c ≡ true) ⊎ ((d ≡ true) ⊎ ((e ≡ true) ⊎ (f ≡ true))))))
six_iff true b c d e f u v w x y z h k = ground arith
six_iff false true c d e f u v w x y z h k = ground arith
six_iff false false c d e f u v w x y z h k = ground arith

module _ (R : Runtime) where
  -- what retires an artifact
  pub IsUnfit : ArtifactHealthSnapshot R.Float → Type 0
  IsUnfit s =
      (pos 1 ≤ℤ s.liquidation_events)
      ⊎ ((s.checksum_valid ≡ false)
          ⊎ ((s.venue_rules_match ≡ false)
              ⊎ ((pos 2 ≤ℤ s.pause_count_90d) ⊎ (s.holdout_assumptions_invalidated ≡ true))))

  -- a live Sharpe ratio under the floor on enough samples
  pub HasLowSharpe : ArtifactHealthSnapshot R.Float → Type 0
  HasLowSharpe s =
      (x : R.Float) × (s.trailing_30d_live_sharpe ≡ some x)
      × (R.lt x (R.neg (R.lit 5 1)) ≡ true)
      × (pos 30 ≤ℤ s.live_sample_count)

  pub HasHighSlippage : ArtifactHealthSnapshot R.Float → Type 0
  HasHighSlippage s =
      (x : R.Float) × (s.realized_slippage_over_modeled_5d ≡ some x) × (R.lt (R.lit 20 1) x ≡ true)

  -- what pauses an artifact that nothing retires
  pub IsUnwell : ArtifactHealthSnapshot R.Float → Type 0
  IsUnwell s =
      HasLowSharpe s
      ⊎ (HasHighSlippage s
          ⊎ ((s.fill_rejection_cluster ≡ true)
              ⊎ ((s.drawdown_limit_breached ≡ true)
                  ⊎ ((s.capacity_drift_breached ≡ true) ⊎ (s.data_quality_degraded ≡ true)))))

  pub IsOutdated : ArtifactHealthSnapshot R.Float → Type 0
  IsOutdated s =
      (s.validation_expired ≡ true)
      ⊎ ((s.scenario_pack_changed ≡ true) ⊎ (s.venue_api_rules_changed ≡ true))

  low_sharpe_iff :
      (o : Option R.Float) (n : ℤ)
      → ((is_sharpe_low R o && leb_ℤ (pos 30) n) ≡ true)
        ↔ ((x : R.Float) × (o ≡ some x) × (R.lt x (R.neg (R.lit 5 1)) ≡ true) × (pos 30 ≤ℤ n))
  unfolding is_sharpe_low
  low_sharpe_iff none n = (λ h. cc, λ (x, e, _, _). cc)
  low_sharpe_iff (some y) n =
      (λ h. (y, refl, ground arith, ground arith), λ (x, e, l, m). ground arith)

  high_slippage_iff :
      (o : Option R.Float)
      → (is_slippage_high R o ≡ true)
        ↔ ((x : R.Float) × (o ≡ some x) × (R.lt (R.lit 20 1) x ≡ true))
  unfolding is_slippage_high
  high_slippage_iff none = (λ h. cc, λ (x, e, _). cc)
  high_slippage_iff (some y) = (λ h. (y, refl, h), λ (x, e, l). ground arith)

  IsUnfit-iff :
      (s : ArtifactHealthSnapshot R.Float) → (is_empty (retire_reasons R s) ≡ false) ↔ IsUnfit s
  unfolding retire_reasons IsUnfit
  IsUnfit-iff s = simp (is_empty-append, is_empty-when) (ground arith)

  IsOutdated-iff :
      (s : ArtifactHealthSnapshot R.Float)
      → (is_empty (revalidation_reasons R s) ≡ false) ↔ IsOutdated s
  unfolding revalidation_reasons IsOutdated
  IsOutdated-iff s = simp (is_empty-append, is_empty-when) (ground arith)

  HasLowSharpe-iff :
      (s : ArtifactHealthSnapshot R.Float)
      → ((is_sharpe_low R s.trailing_30d_live_sharpe && leb_ℤ (pos 30) s.live_sample_count) ≡ true)
        ↔ HasLowSharpe s
  unfolding HasLowSharpe
  HasLowSharpe-iff s = low_sharpe_iff s.trailing_30d_live_sharpe s.live_sample_count

  HasHighSlippage-iff :
      (s : ArtifactHealthSnapshot R.Float)
      → (is_slippage_high R s.realized_slippage_over_modeled_5d ≡ true) ↔ HasHighSlippage s
  unfolding HasHighSlippage
  HasHighSlippage-iff s = high_slippage_iff s.realized_slippage_over_modeled_5d

  IsUnwell-iff :
      (s : ArtifactHealthSnapshot R.Float) → (is_empty (pause_reasons R s) ≡ false) ↔ IsUnwell s
  unfolding pause_reasons IsUnwell
  IsUnwell-iff s =
      six_iff _ _ s.fill_rejection_cluster s.drawdown_limit_breached s.capacity_drift_breached
        s.data_quality_degraded _ _ _ _ _ _ (HasLowSharpe-iff s) (HasHighSlippage-iff s)

  -- what each case of `decide` comes to
  decide_iff :
      (s : ArtifactHealthSnapshot R.Float) (retires pauses revalidations : List String)
      → (((decide R s retires pauses revalidations).target_state ≡ retired) ↔ (
          (is_empty retires ≡ false) ⊎ ((is_empty pauses ≡ true) × (s.lifecycle_state ≡ retired))))
        × ((((decide R s retires pauses revalidations).target_state ≡ paused) ↔ (
              (is_empty retires ≡ true)
              × ((is_empty pauses ≡ false) ⊎ (s.lifecycle_state ≡ paused))))
            × (((decide R s retires pauses revalidations).revalidation_required ≡ true) ↔ (
                (is_empty retires ≡ true)
                × (is_empty pauses ≡ true)
                × (is_empty revalidations ≡ false))))
  unfolding decide decision
  decide_iff s (r ∷ rs) pauses revalidations = ground arith
  decide_iff s [] (p ∷ ps) revalidations = ground arith
  decide_iff s [] [] (v ∷ vs) = ground arith
  decide_iff s [] [] [] = ground arith

  -- The decision retires an artifact exactly when it is unfit, or nothing is wrong enough to pause it
  -- and it is retired already; it pauses it exactly when it is not unfit and either unwell or paused
  -- already; and it asks for revalidation exactly when it is neither unfit nor unwell but outdated.
  pub evaluate_lifecycle_policy_iff :
      (s : ArtifactHealthSnapshot R.Float)
      → (((evaluate_lifecycle_policy R s).target_state ≡ retired)
          ↔ (IsUnfit s ⊎ ((¬ IsUnwell s) × (s.lifecycle_state ≡ retired))))
        × ((((evaluate_lifecycle_policy R s).target_state ≡ paused)
              ↔ ((¬ IsUnfit s) × (IsUnwell s ⊎ (s.lifecycle_state ≡ paused))))
            × (((evaluate_lifecycle_policy R s).revalidation_required ≡ true)
                ↔ ((¬ IsUnfit s) × (¬ IsUnwell s) × IsOutdated s)))
  unfolding evaluate_lifecycle_policy
  evaluate_lifecycle_policy_iff s =
      let unfit = IsUnfit-iff s in
      let unwell = IsUnwell-iff s in
      let outdated = IsOutdated-iff s in
      let cases =
        decide_iff s (retire_reasons R s) (pause_reasons R s) (revalidation_reasons R s) in
      ground arith
