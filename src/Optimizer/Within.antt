-- ===== src/Optimizer/Within.antt =====
-- What the budgets of the search guarantee (src/engine/optimizer/experiment_budget.py,
-- overfit_budget.py).
use proofalpha.Prelude.{
  String, Bool, true, false, not, List, ◌∷◌, [], ◌&&◌, ◌≡◌, ◌↔◌, refl, arith, is_empty, All,
  empty_iff_and, empty_when,
}
use proofalpha.Prelude.Int.{ℤ, pos, ltb_ℤ, ◌≤ℤ◌}
use proofalpha.Python.Runtime.{Runtime}
use proofalpha.Optimizer.Budgets.{
  OverfitBudget, OverfitUse, negative_reasons, counts, limits, overfit_reasons, evaluate,
}

at_most_iff : (n bound : ℤ) → (ltb_ℤ bound n ≡ false) ↔ (n ≤ℤ bound)
at_most_iff n bound = (λ h. ground arith, λ h. ground arith)

nonneg_iff :
    (d : List (String × ℤ)) → (is_empty (negative_reasons d) ≡ true) ↔ All (λ e. pos 0 ≤ℤ e.1) d
unfolding negative_reasons
nonneg_iff [] = (λ h. tt, λ h. refl)
nonneg_iff ((name, n) ∷ d) =
    empty_iff_and _ _ (empty_when _ _ (at_most_iff (pos 0) n)) (nonneg_iff d)

required_iff : (b : Bool) → (not b ≡ false) ↔ (b ≡ true)
required_iff b = ground arith

module _ (R : Runtime) where
  -- The use is within the budget, and every number makes sense.
  abbrev pub IsWithin : OverfitBudget R.Float → OverfitUse R.Float → Type 0
  IsWithin b u =
      All (λ e. pos 0 ≤ℤ e.1) (counts R u)
      × ((R.is_finite u.pbo ≡ true)
          × ((R.is_finite b.pbo_ceiling ≡ true)
              × (All (λ e. pos 0 ≤ℤ e.1) (limits R b)
                  × ((u.trials ≤ℤ b.max_trials)
                      × ((u.strategy_variants ≤ℤ b.max_strategy_variants)
                          × ((u.parameter_reuse ≤ℤ b.max_parameter_reuse)
                              × ((u.failed_gate_retries ≤ℤ b.max_failed_gate_retries)
                                  × (R.lt b.pbo_ceiling u.pbo ≡ false))))))))

  -- The overfit budget passes exactly when no count and no limit is negative, the probability of
  -- backtest overfitting and its ceiling are finite, every count is at most its limit, and the
  -- probability is not above the ceiling.
  pub evaluate_overfit_iff :
      (b : OverfitBudget R.Float) (u : OverfitUse R.Float)
      → ((evaluate R b u).passed ≡ true) ↔ IsWithin b u
  unfolding evaluate overfit_reasons
  evaluate_overfit_iff b u =
      let above = R.is_finite u.pbo && (R.is_finite b.pbo_ceiling && R.lt b.pbo_ceiling u.pbo) in
      let full = empty_iff_and _ _ (nonneg_iff (counts R u)) (
        empty_iff_and _ _ (empty_when _ _ (required_iff (R.is_finite u.pbo))) (
          empty_iff_and _ _ (empty_when _ _ (required_iff (R.is_finite b.pbo_ceiling))) (
            empty_iff_and _ _ (nonneg_iff (limits R b)) (
              empty_iff_and _ _ (empty_when _ _ (at_most_iff u.trials b.max_trials)) (
                empty_iff_and _ _
                  (empty_when _ _ (at_most_iff u.strategy_variants b.max_strategy_variants))
                  (empty_iff_and _ _
                    (empty_when _ _ (at_most_iff u.parameter_reuse b.max_parameter_reuse))
                    (empty_iff_and _ _
                      (empty_when _ _ (at_most_iff u.failed_gate_retries b.max_failed_gate_retries))
                      (empty_when {P = above ≡ false} above "pbo_ceiling_exceeded"
                        (λ h. h, λ h. h))))))))) in
      (
        λ h.
            let (a, (p, (c, (l, (t, (v, (r, (g, x)))))))) = full.0 h in
            (a, (p, (c, (l, (t, (v, (r, (g, ground (arith, p, c, x))))))))),
        λ (a, (p, (c, (l, (t, (v, (r, (g, x)))))))).
            full.1 (a, (p, (c, (l, (t, (v, (r, (g, ground (arith, p, c, x))))))))),
      )
