-- ===== src/Portfolio/PlanTables.antt =====
-- src/engine/portfolio/allocator.py: the candidates, the constraints and the plan of a portfolio.
use proofalpha.Prelude.{String, Bool, Option, List, ◌∷◌, []}
use proofalpha.Prelude.Dict.{Dict}
use proofalpha.Python.Runtime.{Value}

abbrev pub portfolio_roles : List String
portfolio_roles = "core" ∷ "defensive" ∷ "opportunistic" ∷ "carry" ∷ "crash_hedge" ∷ []

abbrev pub active_artifact_states : List String
active_artifact_states = "paper" ∷ "shadow_live" ∷ "tiny_live" ∷ "pilot_live" ∷ "scaled_live" ∷ []

-- the answer of `paper_authority_decision` (src/engine/strategy/artifacts.py) that the plan reads
pub record PaperAuthority : Type 0 where
  pub allowed : Bool
  pub reasons : List String

pub record PortfolioRejection : Type 0 where
  pub artifact_id : String
  pub reason_code : String
  pub reason : String

module _ (Float : Type 0) where
  pub record PortfolioArtifactCandidate : Type 0 where
    pub artifact_id : String
    pub strategy_id : String
    pub symbol_scope : List String
    pub regime_scope : List String
    pub portfolio_role : String
    pub target_notional : Float
    pub max_notional : Float
    pub expected_return_bps : Float
    pub max_drawdown : Float
    pub artifact_health : String
    pub approved : Bool
    pub paper_live_divergence_bps : Float
    pub stress_loss_by_scenario : Option (Dict Float)
    pub correlation_by_artifact : Option (Dict Float)
    pub artifact_payload : Option (Dict (Value Float))

  pub record PortfolioConstraints : Type 0 where
    pub equity : Float
    pub max_per_symbol_exposure : Float
    pub max_aggregate_leverage : Float
    pub drawdown_budget : Float
    pub max_pairwise_correlation : Float
    pub max_role_fraction : Float

  pub record PortfolioAllocation : Type 0 where
    pub artifact_id : String
    pub strategy_id : String
    pub symbols : List String
    pub portfolio_role : String
    pub notional : Float
    pub expected_return_bps : Float
    pub max_drawdown : Float

  -- What the loop over the candidates works on.
  pub record Draft : Type 0 where
    pub allocations : List PortfolioAllocation
    pub rejections : List PortfolioRejection
    pub exposure_by_symbol : Dict Float
    pub notional_by_symbol : Dict Float
    pub drawdown_usage : Float

  -- The plan; `candidate_payloads` holds the candidates, of which it is the JSON form.
  pub record PortfolioPlan : Type 0 where
    pub portfolio_plan_id : String
    pub accepted : Bool
    pub allocations : List PortfolioAllocation
    pub rejections : List PortfolioRejection
    pub constraints : PortfolioConstraints
    pub active_regimes : Dict String
    pub exposure_by_symbol : Dict Float
    pub notional_by_symbol : Dict Float
    pub aggregate_leverage : Float
    pub drawdown_usage : Float
    pub created_at_utc : String
    pub candidate_payloads : List PortfolioArtifactCandidate
