-- ===== src/Portfolio/Allocate.antt =====
-- src/engine/portfolio/allocator.py: the loop of `build_portfolio_plan` over its candidates.
use proofalpha.Prelude.{
  ℕ, String, Bool, false, not, Option, none, some, List, ◌∷◌, [], ◌++◌, ◌==◌, ◌||◌, if◌then◌else◌,
  contains, is_empty, length, map,
}
use proofalpha.Prelude.Int.{pos}
use proofalpha.Prelude.Dict.{Dict, lookup, insert, get_or}
use proofalpha.Python.Runtime.{Runtime, Value}
use proofalpha.Python.Convert.{min}
use proofalpha.Portfolio.PlanTables.{
  PaperAuthority, PortfolioRejection, PortfolioArtifactCandidate, PortfolioConstraints,
  PortfolioAllocation, Draft, portfolio_roles, active_artifact_states,
}

abbrev pub first_reason : List String → String
first_reason [] = "artifact_not_paper_eligible"
first_reason (s ∷ rest) = s

module _ (R : Runtime) where
  abbrev pub Candidate : Type 0
  Candidate = PortfolioArtifactCandidate R.Float

  abbrev reject : Candidate → String → String → Option PortfolioRejection
  reject c code reason =
      some (record { artifact_id = c.artifact_id; reason_code = code; reason = reason })

  -- `active is not None and active not in candidate.regime_scope`
  abbrev pub is_outside : List String → Option String → Bool
  is_outside regime_scope none = false
  is_outside regime_scope (some active) = not (contains active regime_scope)

  unfoldable pub any_outside : List String → Dict String → List String → Bool
  any_outside regime_scope active_regimes [] = false
  any_outside regime_scope active_regimes (symbol ∷ rest) =
      is_outside regime_scope (lookup symbol active_regimes)
      || any_outside regime_scope active_regimes rest

  -- the checks of `_candidate_rejection` after that of the manifest
  unfoldable pub scope_rejection : Candidate → Dict String → Option PortfolioRejection
  scope_rejection c active_regimes =
      if is_empty c.symbol_scope
      then reject c "missing_symbol_scope" "artifact must declare symbol scope"
      else (if is_empty c.regime_scope
          then reject c "missing_regime_scope" "artifact must declare regime scope"
          else (if not (contains c.portfolio_role portfolio_roles)
              then reject c "invalid_portfolio_role"
                  "artifact must declare a supported portfolio role"
              else (if not (contains c.artifact_health active_artifact_states)
                  then reject c "artifact_not_active" "artifact lifecycle state cannot be allocated"
                  else (if any_outside c.regime_scope active_regimes c.symbol_scope
                      then reject c "regime_scope_mismatch"
                          "active regime is outside artifact regime scope"
                      else none))))

  abbrev pub manifest_rejection :
      Candidate → Dict String → Option String → Option PortfolioRejection
  manifest_rejection c active_regimes (some code) =
      reject c code "artifact manifest does not permit paper allocation"
  manifest_rejection c active_regimes none = scope_rejection c active_regimes

  -- `{item.artifact_id: item for item in candidates}.get(artifact_id)`: the last one
  unfoldable pub candidate_of : String → List Candidate → Option Candidate
  candidate_of id [] = none
  candidate_of id (c ∷ rest) =
      let later = candidate_of id rest in
      elim later [ some d ↦ some d | none ↦ if c.artifact_id == id then some c else none ]

  abbrev correlation : Candidate → String → Option R.Float
  correlation c id = lookup id (get_or c.correlation_by_artifact [])

  abbrev reverse_of : Option Candidate → String → Option R.Float
  reverse_of none id = none
  reverse_of (some c) id = correlation c id

  abbrev first_of : Option R.Float → Option R.Float → Option R.Float
  first_of (some x) later = some x
  first_of none later = later

  abbrev exceeds : R.Float → Option R.Float → Bool
  exceeds bound none = false
  exceeds bound (some x) = R.lt bound (R.abs x)

  -- `_crowding_rejection`: whether it rejects
  unfoldable pub is_crowded :
      Candidate
      → List (PortfolioAllocation R.Float)
      → List Candidate
      → PortfolioConstraints R.Float
      → Bool
  is_crowded c [] candidates k = false
  is_crowded c (a ∷ rest) candidates k =
      exceeds k.max_pairwise_correlation (
        first_of (correlation c a.artifact_id)
          (reverse_of (candidate_of a.artifact_id candidates) c.artifact_id))
      || is_crowded c rest candidates k

  -- `max(1, len(candidate.symbol_scope))`
  abbrev pub symbol_count : List String → ℕ
  symbol_count [] = 1
  symbol_count (s ∷ rest) = length (s ∷ rest)

  abbrev pub notional_of : Candidate → R.Float
  notional_of c = min R c.target_notional c.max_notional

  abbrev pub per_symbol : Candidate → R.Float
  per_symbol c = R.div (notional_of c) (R.of_int (pos (symbol_count c.symbol_scope)))

  abbrev pub exposure_of : Dict R.Float → String → R.Float
  exposure_of d symbol = get_or (lookup symbol d) (R.lit 0 0)

  -- `any(exposure_by_symbol.get(symbol, 0.0) + per_symbol_notional > …)`
  unfoldable pub any_over : Dict R.Float → R.Float → R.Float → List String → Bool
  any_over exposure x bound [] = false
  any_over exposure x bound (symbol ∷ rest) =
      R.lt bound (R.add (exposure_of exposure symbol) x) || any_over exposure x bound rest

  -- `exposure[symbol] = round(exposure.get(symbol, 0.0) + x, 8)` for each symbol
  unfoldable pub with_exposure : R.Float → List String → Dict R.Float → Dict R.Float
  with_exposure x [] d = d
  with_exposure x (symbol ∷ rest) d =
      with_exposure x rest (insert symbol (R.round (R.add (exposure_of d symbol) x) 8) d)

  -- `notional_by_symbol[symbol] = exposure_by_symbol[symbol]` after each of those
  unfoldable pub with_notional : R.Float → List String → Dict R.Float → Dict R.Float → Dict R.Float
  with_notional x [] exposure d = d
  with_notional x (symbol ∷ rest) exposure d =
      let v = R.round (R.add (exposure_of exposure symbol) x) 8 in
      with_notional x rest (insert symbol v exposure) (insert symbol v d)

  -- `sum(allocation.notional for allocation in allocations)`
  abbrev pub gross : List (PortfolioAllocation R.Float) → R.Float
  gross l = R.sum (map (λ (a : PortfolioAllocation R.Float). a.notional) l)

  abbrev pub allocation_of : Candidate → PortfolioAllocation R.Float
  allocation_of c = record {
    artifact_id = c.artifact_id;
    strategy_id = c.strategy_id;
    symbols = c.symbol_scope;
    portfolio_role = c.portfolio_role;
    notional = R.round (notional_of c) 8;
    expected_return_bps = c.expected_return_bps;
    max_drawdown = c.max_drawdown;
  }

  abbrev pub drawdown_after : Candidate → PortfolioConstraints R.Float → R.Float → R.Float
  drawdown_after c k usage = R.add usage (R.mul (R.div (notional_of c) k.equity) c.max_drawdown)

  -- the checks of the loop, in their order
  unfoldable pub limit_rejection :
      Candidate
      → List Candidate
      → PortfolioConstraints R.Float
      → Draft R.Float
      → Option PortfolioRejection
  limit_rejection c candidates k d =
      if is_crowded c d.allocations candidates k
      then reject c "correlation_crowding" "candidate is too correlated with allocated artifact"
      else (if any_over d.exposure_by_symbol (per_symbol c) k.max_per_symbol_exposure c.symbol_scope
          then reject c "per_symbol_exposure_limit" "candidate would breach max per-symbol exposure"
          else (if R.le k.equity (R.lit 0 0)
                || R.lt k.max_aggregate_leverage
                    (R.div (R.add (gross d.allocations) (notional_of c)) k.equity)
              then reject c "aggregate_leverage_limit" "candidate would breach aggregate leverage"
              else (if R.lt k.drawdown_budget (drawdown_after c k d.drawdown_usage)
                  then reject c "drawdown_budget_limit" "candidate would breach drawdown budget"
                  else none)))

  abbrev pub or_else :
      Option PortfolioRejection → Option PortfolioRejection → Option PortfolioRejection
  or_else (some r) later = some r
  or_else none later = later

  -- a candidate that passes
  abbrev pub allocated : Candidate → PortfolioConstraints R.Float → Draft R.Float → Draft R.Float
  allocated c k d = record {
    allocations = d.allocations ++ (allocation_of c ∷ []);
    rejections = d.rejections;
    exposure_by_symbol = with_exposure (per_symbol c) c.symbol_scope d.exposure_by_symbol;
    notional_by_symbol =
        with_notional (per_symbol c) c.symbol_scope d.exposure_by_symbol d.notional_by_symbol;
    drawdown_usage = drawdown_after c k d.drawdown_usage;
  }

  abbrev pub decided :
      Candidate
      → PortfolioConstraints R.Float
      → Draft R.Float
      → Option PortfolioRejection
      → Draft R.Float
  decided c k d (some r) = record d { rejections = d.rejections ++ (r ∷ []) }
  decided c k d none = allocated c k d

module _ (R : Runtime) (authority : Dict (Value R.Float) → PaperAuthority) where
  -- the artifact's manifest does not permit it
  abbrev pub refused_reason : Option (Dict (Value R.Float)) → Option String
  refused_reason none = none
  refused_reason (some payload) =
      let a = authority payload in
      if a.allowed
      then none
      else some (
          if contains "missing_promotion_manifest" a.reasons
          then "missing_promotion_manifest"
          else first_reason a.reasons)

  -- `_candidate_rejection`
  unfoldable pub candidate_rejection : Candidate R → Dict String → Option PortfolioRejection
  candidate_rejection c active_regimes =
      if not c.approved
      then reject R c "artifact_not_approved" "artifact is not approved"
      else manifest_rejection R c active_regimes (refused_reason c.artifact_payload)

  -- one round of the loop
  unfoldable pub allocate_candidate :
      List (Candidate R)
      → PortfolioConstraints R.Float
      → Dict String
      → Candidate R
      → Draft R.Float
      → Draft R.Float
  allocate_candidate candidates k active_regimes c d =
      decided R c k d
        (or_else R (candidate_rejection c active_regimes) (limit_rejection R c candidates k d))

  unfoldable pub allocate_all :
      List (Candidate R)
      → PortfolioConstraints R.Float
      → Dict String
      → List (Candidate R)
      → Draft R.Float
      → Draft R.Float
  allocate_all candidates k active_regimes [] d = d
  allocate_all candidates k active_regimes (c ∷ rest) d =
      allocate_all candidates k active_regimes rest
        (allocate_candidate candidates k active_regimes c d)
