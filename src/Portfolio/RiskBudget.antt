-- ===== src/Portfolio/RiskBudget.antt =====
-- src/engine/portfolio/risk_budget.py: what the targets of a portfolio may use, together.
use proofalpha.Prelude.{String, Bool, not, List, ◌∷◌, [], ◌++◌, is_empty, when, concat, map}
use proofalpha.Prelude.Dict.{Dict, lookup, insert, get_or}
use proofalpha.Python.Runtime.{Runtime}
use proofalpha.Python.Sets.{sorted_items}
use proofalpha.Portfolio.Target.{SymbolTarget, number_fields}

module _ (Float : Type 0) where
  pub record PortfolioRiskBudget : Type 0 where
    pub max_symbol_weight : Float
    pub max_cluster_weight : Float
    pub max_btc_beta : Float
    pub max_eth_beta : Float
    pub max_funding_cost_bps : Float
    pub max_turnover_weight : Float
    pub cluster_by_symbol : Dict String
    pub beta_by_symbol : Dict (Dict Float)
    pub turnover_weight : Float

  -- What the loop over the targets works on.
  pub record Weighing : Type 0 where
    pub rejections : List String
    pub cluster_weight : Dict Float
    pub btc_beta : Float
    pub eth_beta : Float

  pub record PortfolioRiskBudgetResult : Type 0 where
    pub passed : Bool
    pub rejections : List String
    pub cluster_weight : Dict Float
    pub btc_beta : Float
    pub eth_beta : Float
    pub turnover_weight : Float

module _ (R : Runtime) where
  abbrev pub Target : Type 0
  Target = SymbolTarget R.Float

  abbrev pub Budget : Type 0
  Budget = PortfolioRiskBudget R.Float

  -- the names of the fields that are not finite
  unfoldable pub non_finite_names : List (String × R.Float) → List String
  non_finite_names [] = []
  non_finite_names ((name, value) ∷ rest) =
      when (not (R.is_finite value)) name ++ non_finite_names rest

  abbrev pub budget_fields : Budget → List (String × R.Float)
  budget_fields b =
      ("max_symbol_weight", b.max_symbol_weight)
      ∷ ("max_cluster_weight", b.max_cluster_weight)
      ∷ ("max_btc_beta", b.max_btc_beta)
      ∷ ("max_eth_beta", b.max_eth_beta)
      ∷ ("max_funding_cost_bps", b.max_funding_cost_bps)
      ∷ ("max_turnover_weight", b.max_turnover_weight)
      ∷ ("turnover_weight", b.turnover_weight)
      ∷ []

  abbrev pub budget_rejections : Budget → List String
  budget_rejections b = map (concat "budget_non_finite:") (non_finite_names (budget_fields b))

  -- `_target_non_finite_fields`
  abbrev pub target_non_finite_fields : Target → List String
  target_non_finite_fields t = non_finite_names (number_fields R t)

  abbrev pub cluster_of : Budget → Target → String
  cluster_of b t = get_or (lookup t.symbol b.cluster_by_symbol) "unclustered"

  -- `abs(target_weight * float(betas.get(asset, 0.0)))`
  abbrev pub beta_of : Budget → String → Target → R.Float
  beta_of b asset t = R.abs (
      R.mul t.target_weight
        (get_or (lookup asset (get_or (lookup t.symbol b.beta_by_symbol) [])) (R.lit 0 0)))

  -- the targets's own limits
  abbrev pub cap_rejections : Budget → Target → List String
  cap_rejections b t =
      when (R.lt b.max_symbol_weight (R.abs t.target_weight)) (concat "symbol_cap:" t.symbol)
      ++ when (R.lt b.max_funding_cost_bps t.max_funding_cost_bps)
          (concat "funding_budget:" t.symbol)

  abbrev pub weighed : Budget → Target → Weighing R.Float → List String → Weighing R.Float
  weighed b t w (name ∷ names) = record w {
    rejections =
        w.rejections
        ++ map (λ (n : String). concat "target_non_finite:" (concat t.symbol (concat ":" n)))
            (name ∷ names);
  }
  weighed b t w [] = record {
    rejections = w.rejections ++ cap_rejections b t;
    cluster_weight =
        insert (cluster_of b t)
          (R.add (get_or (lookup (cluster_of b t) w.cluster_weight) (R.lit 0 0))
            (R.abs t.target_weight))
          w.cluster_weight;
    btc_beta = R.add w.btc_beta (beta_of b "BTC" t);
    eth_beta = R.add w.eth_beta (beta_of b "ETH" t);
  }

  -- the loop over the targets
  unfoldable pub weigh_all : Budget → List Target → Weighing R.Float → Weighing R.Float
  weigh_all b [] w = w
  weigh_all b (t ∷ rest) w = weigh_all b rest (weighed b t w (target_non_finite_fields t))

  unfoldable pub cluster_rejections : R.Float → Dict R.Float → List String
  cluster_rejections bound [] = []
  cluster_rejections bound ((cluster, weight) ∷ rest) =
      when (R.lt bound weight) (concat "cluster_cap:" cluster) ++ cluster_rejections bound rest

  -- the checks of the totals
  abbrev pub total_rejections : Budget → Weighing R.Float → List String
  total_rejections b w =
      cluster_rejections b.max_cluster_weight (sorted_items w.cluster_weight)
      ++ (when (R.lt b.max_btc_beta w.btc_beta) "btc_beta_cap"
          ++ (when (R.lt b.max_eth_beta w.eth_beta) "eth_beta_cap"
              ++ when (R.lt b.max_turnover_weight b.turnover_weight) "turnover_budget"))

  abbrev pub weighing_of : List Target → Budget → Weighing R.Float
  weighing_of targets b = weigh_all b targets (record {
    rejections = budget_rejections b;
    cluster_weight = [];
    btc_beta = R.lit 0 0;
    eth_beta = R.lit 0 0;
  })

  -- `evaluate_portfolio_risk_budget`; the result's `metrics` are fields here
  unfoldable pub evaluate_portfolio_risk_budget :
      List Target → Budget → PortfolioRiskBudgetResult R.Float
  evaluate_portfolio_risk_budget targets b =
      let w = weighing_of targets b in
      let rejections = w.rejections ++ total_rejections b w in
      record {
        passed = is_empty rejections;
        rejections = rejections;
        cluster_weight = sorted_items w.cluster_weight;
        btc_beta = R.round w.btc_beta 12;
        eth_beta = R.round w.eth_beta 12;
        turnover_weight = b.turnover_weight;
      }
