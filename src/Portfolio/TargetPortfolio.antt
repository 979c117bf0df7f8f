-- ===== src/Portfolio/TargetPortfolio.antt =====
-- src/engine/portfolio/target_portfolio.py: from the allocations of a plan to targets by symbol.
use proofalpha.Prelude.{String, Bool, true, false, not, List, ◌∷◌, [], ◌++◌, concat, map, slice}
use proofalpha.Prelude.Int.{pos}
use proofalpha.Python.Runtime.{Runtime, Value, float, text, object, fields}
use proofalpha.Python.Convert.{Result, ok, err, value_error, ◌>>=◌}
use proofalpha.Portfolio.Target.{SymbolTarget}
use proofalpha.Portfolio.PlanTables.{PortfolioAllocation}
use proofalpha.Portfolio.Allocate.{symbol_count}
use proofalpha.Portfolio.Plan.{item_list}

module _ (Float : Type 0) where
  -- the arguments that are checked in a loop, by name, and the rest
  pub record TargetSettings : Type 0 where
    pub universe_id : String
    pub artifact_set_id : String
    pub btc_beta_target : Float
    pub eth_beta_target : Float
    pub max_symbol_weight : Float
    pub max_cluster_weight : Float
    pub max_slippage_bps : Float
    pub max_funding_cost_bps : Float
    pub rebalance_reason : String

  pub record TargetPortfolio : Type 0 where
    pub target_portfolio_id : String
    pub universe_id : String
    pub artifact_set_id : String
    pub capital_base : Float
    pub gross_exposure_target : Float
    pub net_exposure_target : Float
    pub btc_beta_target : Float
    pub eth_beta_target : Float
    pub max_symbol_weight : Float
    pub max_cluster_weight : Float
    pub symbol_targets : List (SymbolTarget Float)

-- `if not b: raise ValueError(message)`
abbrev pub require_that : Bool → String → Result {0} Unit
require_that true message = ok tt
require_that false message = err (value_error message)

module _ (R : Runtime) where
  abbrev pub settings_fields : TargetSettings R.Float → List (String × R.Float)
  settings_fields s =
      ("btc_beta_target", s.btc_beta_target)
      ∷ ("eth_beta_target", s.eth_beta_target)
      ∷ ("max_symbol_weight", s.max_symbol_weight)
      ∷ ("max_cluster_weight", s.max_cluster_weight)
      ∷ ("max_slippage_bps", s.max_slippage_bps)
      ∷ ("max_funding_cost_bps", s.max_funding_cost_bps)
      ∷ []

  unfoldable pub require_finite : List (String × R.Float) → Result {0} Unit
  require_finite [] = ok tt
  require_finite ((name, value) ∷ rest) =
      require_that (R.is_finite value) (concat name "_must_be_finite")
      >>= (λ u. require_finite rest)

  -- the checks of an allocation
  unfoldable pub check_allocation : PortfolioAllocation R.Float → Result {0} Unit
  check_allocation a =
      require_that (R.is_finite a.notional) "allocation_notional_must_be_finite" >>= (λ u.
        require_that (not (R.lt a.notional (R.lit 0 0))) "allocation_notional_must_be_non_negative"
        >>= (λ u2.
            require_that (R.is_finite a.max_drawdown) "allocation_max_drawdown_must_be_finite"
            >>= (λ u3.
                require_that (not (R.lt a.max_drawdown (R.lit 0 0)))
                  "allocation_max_drawdown_must_be_non_negative")))

  abbrev pub share_of : PortfolioAllocation R.Float → R.Float
  share_of a = R.div a.notional (R.of_int (pos (symbol_count R a.symbols)))

  abbrev pub target_of :
      TargetSettings R.Float → R.Float → PortfolioAllocation R.Float → String → SymbolTarget R.Float
  target_of s capital a symbol = record {
    symbol = symbol;
    artifact_id = a.artifact_id;
    role = a.portfolio_role;
    target_weight = R.round (R.div (share_of a) capital) 12;
    target_notional = R.round (share_of a) 8;
    max_loss_budget = R.round (R.mul (share_of a) a.max_drawdown) 8;
    max_slippage_bps = s.max_slippage_bps;
    max_funding_cost_bps = s.max_funding_cost_bps;
    rebalance_reason = s.rebalance_reason;
  }

  -- the loop over the allocations, on top of the targets so far
  unfoldable pub symbol_targets_of :
      TargetSettings R.Float
      → R.Float
      → List (SymbolTarget R.Float)
      → List (PortfolioAllocation R.Float)
      → Result (List (SymbolTarget R.Float))
  symbol_targets_of s capital targets [] = ok targets
  symbol_targets_of s capital targets (a ∷ rest) =
      check_allocation a
      >>= (λ u. symbol_targets_of s capital (targets ++ map (target_of s capital a) a.symbols) rest)

  -- `SymbolTarget.to_dict`
  unfoldable pub target_value : SymbolTarget R.Float → Value R.Float
  target_value t = object (
      fields (
        ("symbol", text t.symbol)
        ∷ ("artifact_id", text t.artifact_id)
        ∷ ("role", text t.role)
        ∷ ("target_weight", float t.target_weight)
        ∷ ("target_notional", float t.target_notional)
        ∷ ("max_loss_budget", float t.max_loss_budget)
        ∷ ("max_slippage_bps", float t.max_slippage_bps)
        ∷ ("max_funding_cost_bps", float t.max_funding_cost_bps)
        ∷ ("rebalance_reason", text t.rebalance_reason)
        ∷ []))

  abbrev pub gross_weight : List (SymbolTarget R.Float) → R.Float
  gross_weight targets =
      R.round (R.sum (map (λ (t : SymbolTarget R.Float). R.abs t.target_weight) targets)) 12

  abbrev pub net_weight : List (SymbolTarget R.Float) → R.Float
  net_weight targets =
      R.round (R.sum (map (λ (t : SymbolTarget R.Float). t.target_weight) targets)) 12

  unfoldable pub target_portfolio_id_of :
      TargetSettings R.Float → R.Float → List (SymbolTarget R.Float) → String
  target_portfolio_id_of s capital targets = concat "target-portfolio-" (
      slice
        (R.stable_hash (
          object (
            fields (
              ("universe_id", text s.universe_id)
              ∷ ("artifact_set_id", text s.artifact_set_id)
              ∷ ("capital_base", float capital)
              ∷ ("gross_exposure_target", float (gross_weight targets))
              ∷ ("net_exposure_target", float (net_weight targets))
              ∷ ("btc_beta_target", float s.btc_beta_target)
              ∷ ("eth_beta_target", float s.eth_beta_target)
              ∷ ("max_symbol_weight", float s.max_symbol_weight)
              ∷ ("max_cluster_weight", float s.max_cluster_weight)
              ∷ ("symbol_targets", item_list target_value targets)
              ∷ []))))
        0 16)

  unfoldable pub target_portfolio :
      TargetSettings R.Float → R.Float → List (SymbolTarget R.Float) → TargetPortfolio R.Float
  target_portfolio s capital targets = record {
    target_portfolio_id = target_portfolio_id_of s capital targets;
    universe_id = s.universe_id;
    artifact_set_id = s.artifact_set_id;
    capital_base = capital;
    gross_exposure_target = gross_weight targets;
    net_exposure_target = net_weight targets;
    btc_beta_target = s.btc_beta_target;
    eth_beta_target = s.eth_beta_target;
    max_symbol_weight = s.max_symbol_weight;
    max_cluster_weight = s.max_cluster_weight;
    symbol_targets = targets;
  }

  unfoldable pub build_target_portfolio :
      TargetSettings R.Float
      → R.Float
      → List (PortfolioAllocation R.Float)
      → Result (TargetPortfolio R.Float)
  build_target_portfolio s capital allocations =
      require_that (R.is_finite capital) "capital_base_must_be_finite" >>= (λ u.
        require_that (not (R.le capital (R.lit 0 0))) "capital_base_must_be_positive" >>= (λ u2.
          require_finite (settings_fields s) >>= (λ u3.
            symbol_targets_of s capital [] allocations
            >>= (λ targets. ok (target_portfolio s capital targets)))))
