-- ===== src/Portfolio/BudgetPassed.antt =====
-- When the risk budget of a portfolio passes (src/engine/portfolio/risk_budget.py).
use proofalpha.Prelude.{
  String, true, false, none, some, List, ◌≡◌, ◌↔◌, sym, ap, ◌∙◌, is_empty, empty_iff_and,
  empty_when, All,
}
use proofalpha.Prelude.Dict.{lookup}
use proofalpha.Python.Runtime.{Runtime}
use proofalpha.Python.Sets.{sorted_items, sorted_items-All}
use proofalpha.Portfolio.RiskBudget.{
  Weighing, Target, Budget, budget_fields, total_rejections, weighing_of,
  evaluate_portfolio_risk_budget,
}
use proofalpha.Portfolio.RiskLimits.{
  lookup-All, All-lookup, AreFinite, IsTargetWithin, cluster_total, beta_total, weigh_all_iff,
  weigh_all-totals, weigh_all-Unique, cluster_rejections_iff, budget_rejections_iff,
}

module _ (R : Runtime) where
  -- What the totals of a loop's result have to be.
  abbrev pub AreTotalsWithin : Budget R → Weighing R.Float → Type 0
  AreTotalsWithin b w =
      All (λ (e : String × R.Float). R.lt b.max_cluster_weight e.1 ≡ false) w.cluster_weight
      × ((R.lt b.max_btc_beta w.btc_beta ≡ false)
          × ((R.lt b.max_eth_beta w.eth_beta ≡ false)
              × (R.lt b.max_turnover_weight b.turnover_weight ≡ false)))

  total_rejections_iff :
      (b : Budget R) (w : Weighing R.Float)
      → (is_empty (total_rejections R b w) ≡ true) ↔ AreTotalsWithin b w
  total_rejections_iff b w =
      let heavy = cluster_rejections_iff R b.max_cluster_weight (sorted_items w.cluster_weight) in
      let kept =
        sorted_items-All (λ (e : String × R.Float). R.lt b.max_cluster_weight e.1 ≡ false)
          w.cluster_weight in
      empty_iff_and _ _ (λ h. kept.0 (heavy.0 h), λ a. heavy.1 (kept.1 a))
        (empty_iff_and _ _ (empty_when _ _ (λ h. h, λ h. h))
          (empty_iff_and _ _ (empty_when _ _ (λ h. h, λ h. h)) (empty_when _ _ (λ h. h, λ h. h))))

  -- No cluster's gross weight is above the limit.
  abbrev pub AreClustersWithin : Budget R → List (Target R) → Type 0
  AreClustersWithin b targets =
      (cluster : String) (weight : R.Float)
      → cluster_total R b cluster none targets ≡ some weight
      → R.lt b.max_cluster_weight weight ≡ false

  clusters_iff :
      (targets : List (Target R)) (b : Budget R)
      → All (IsTargetWithin R b) targets
      → All
          (λ (e : String × R.Float). R.lt b.max_cluster_weight e.1 ≡ false)
          (weighing_of R targets b).cluster_weight
        ↔ AreClustersWithin b targets
  unfolding lookup
  clusters_iff targets b within =
      let P = λ (e : String × R.Float). R.lt b.max_cluster_weight e.1 ≡ false in
      let d = (weighing_of R targets b).cluster_weight in
      let totals = weigh_all-totals R b targets _ within in
      (
        λ all cluster weight e. lookup-All P cluster weight d all (totals.0 cluster ∙ e),
        λ h.
            All-lookup P d (weigh_all-Unique R b targets _ tt)
              (λ cluster weight e. h cluster weight (sym (totals.0 cluster) ∙ e)),
      )

  -- The budget passes exactly when its seven numbers and those of every target are finite, no target
  -- is above the weight per symbol or the funding cost, the gross weights of no cluster's targets
  -- add up to more than the limit per cluster, the exposures to BTC and to ETH do not add up to more
  -- than theirs, and the turnover is not above its own.
  pub evaluate_portfolio_risk_budget_iff :
      (targets : List (Target R)) (b : Budget R)
      → ((evaluate_portfolio_risk_budget R targets b).passed ≡ true) ↔ (
          AreFinite R (budget_fields R b)
          × All (IsTargetWithin R b) targets
          × AreClustersWithin b targets
          × (R.lt b.max_btc_beta (beta_total R b "BTC" (R.lit 0 0) targets) ≡ false)
          × (R.lt b.max_eth_beta (beta_total R b "ETH" (R.lit 0 0) targets) ≡ false)
          × (R.lt b.max_turnover_weight b.turnover_weight ≡ false))
  unfolding evaluate_portfolio_risk_budget
  evaluate_portfolio_risk_budget_iff targets b =
      let w = weighing_of R targets b in
      let parts =
        empty_iff_and w.rejections (total_rejections R b w) (weigh_all_iff R b targets _)
          (total_rejections_iff b w) in
      let finite = budget_rejections_iff R b in
      (
        λ h.
            let ((clear, within), (clusters, (btc, (eth, turnover)))) = parts.0 h in
            let (same, same_btc, same_eth) = weigh_all-totals R b targets _ within in
            (
              finite.0 clear,
              within,
              (clusters_iff targets b within).0 clusters,
              ap (R.lt b.max_btc_beta) (sym same_btc) ∙ btc,
              ap (R.lt b.max_eth_beta) (sym same_eth) ∙ eth,
              turnover,
            ),
        λ (f, within, clusters, btc, eth, turnover).
            let (same, same_btc, same_eth) = weigh_all-totals R b targets _ within in
            parts.1 (
              (finite.1 f, within),
              (
                (clusters_iff targets b within).1 clusters,
                (
                  ap (R.lt b.max_btc_beta) same_btc ∙ btc,
                  (ap (R.lt b.max_eth_beta) same_eth ∙ eth, turnover),
                ),
              ),
            ),
      )
