-- ===== src/Portfolio/PlanTests.antt =====
-- A run of src/engine/portfolio/allocator.py, and the theorem about accepted plans at it.
use proofalpha.Prelude.{ℕ, ◌*◌, String, true, none, List, ◌∷◌, [], ◌≡◌, refl, map, All, contains}
use proofalpha.Prelude.Int.{ℤ, pos, ◌+ℤ◌}
use proofalpha.Prelude.Dict.{Dict, lookup, insert}
use proofalpha.Python.Runtime.{Value}
use proofalpha.Python.Fixed.{fixed}
use proofalpha.Portfolio.PlanTables.{
  PaperAuthority, PortfolioArtifactCandidate, PortfolioConstraints,
}
use proofalpha.Portfolio.Allocate.{
  candidate_rejection, allocation_of, allocate_all, allocate_candidate, scope_rejection,
  any_outside, limit_rejection, is_crowded, any_over, candidate_of, with_exposure, with_notional,
}
use proofalpha.Portfolio.Plan.{
  drafted, without_crowded_roles, role_fraction_rejections, build_portfolio_plan,
}
use proofalpha.Portfolio.PlanLimits.{AllBounded, IsBounded}
use proofalpha.Portfolio.Accepted.{build_portfolio_plan_accepted}

abbrev units : ℕ → ℤ
units n = pos (n * 1000000000)

abbrev candidate : String → String → List String → ℕ → PortfolioArtifactCandidate ℤ
candidate id role symbols notional = record {
  artifact_id = id;
  strategy_id = "momentum";
  symbol_scope = symbols;
  regime_scope = "trend" ∷ [];
  portfolio_role = role;
  target_notional = units notional;
  max_notional = units 500;
  expected_return_bps = units 12;
  max_drawdown = pos 100000000;
  artifact_health = "paper";
  approved = true;
  paper_live_divergence_bps = units 0;
  stress_loss_by_scenario = none;
  correlation_by_artifact = none;
  artifact_payload = none;
}

abbrev candidates : List (PortfolioArtifactCandidate ℤ)
candidates =
    candidate "a1" "core" ("BTCUSDT" ∷ "ETHUSDT" ∷ []) 400
    ∷ candidate "a2" "carry" ("ETHUSDT" ∷ []) 300
    ∷ []

abbrev limits : PortfolioConstraints ℤ
limits = record {
  equity = units 1000;
  max_per_symbol_exposure = units 500;
  max_aggregate_leverage = units 1;
  drawdown_budget = pos 100000000;
  max_pairwise_correlation = pos 800000000;
  max_role_fraction = units 1;
}

abbrev regimes : Dict String
regimes = ("BTCUSDT", "trend") ∷ []

abbrev paper : Dict (Value ℤ) → PaperAuthority
paper payload = record { allowed = true; reasons = [] }

accepted_here : (build_portfolio_plan fixed paper candidates limits regimes "now").accepted ≡ true
unfolding build_portfolio_plan drafted without_crowded_roles role_fraction_rejections allocate_all
    allocate_candidate candidate_rejection scope_rejection contains any_outside lookup
    limit_rejection is_crowded any_over ◌+ℤ◌ candidate_of with_exposure with_notional insert
accepted_here = refl

build_portfolio_plan_accepted_example :
    ((build_portfolio_plan fixed paper candidates limits regimes "now").allocations
      ≡ map (allocation_of fixed) candidates)
    × All
        (λ (c : PortfolioArtifactCandidate ℤ). candidate_rejection fixed paper c regimes ≡ none)
        candidates
    × (role_fraction_rejections fixed (map (allocation_of fixed) candidates) limits ≡ [])
    × AllBounded fixed limits.max_per_symbol_exposure
        (build_portfolio_plan fixed paper candidates limits regimes "now").exposure_by_symbol
    × IsBounded fixed limits.drawdown_budget
        (build_portfolio_plan fixed paper candidates limits regimes "now").drawdown_usage
unfolding contains
build_portfolio_plan_accepted_example =
    build_portfolio_plan_accepted fixed paper candidates limits regimes "now"
      ((refl, (refl, tt)), ((refl, tt), tt)) refl accepted_here

-- a scope that names a symbol twice, 500 against a limit of 300
abbrev repeated : List (PortfolioArtifactCandidate ℤ)
repeated = candidate "a1" "core" ("BTCUSDT" ∷ "BTCUSDT" ∷ []) 500 ∷ []

abbrev tight : PortfolioConstraints ℤ
tight = record limits { max_per_symbol_exposure = units 300 }

repeated_symbol :
    ((build_portfolio_plan fixed paper repeated tight regimes "now").accepted ≡ true)
    × ((build_portfolio_plan fixed paper repeated tight regimes "now").exposure_by_symbol
        ≡ ("BTCUSDT", units 500) ∷ [])
unfolding build_portfolio_plan drafted without_crowded_roles role_fraction_rejections allocate_all
    allocate_candidate candidate_rejection scope_rejection contains any_outside lookup
    limit_rejection is_crowded any_over ◌+ℤ◌ candidate_of with_exposure with_notional insert
repeated_symbol = (refl, refl)
