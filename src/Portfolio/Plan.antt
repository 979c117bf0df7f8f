-- ===== src/Portfolio/Plan.antt =====
-- src/engine/portfolio/allocator.py: `build_portfolio_plan`.
use proofalpha.Prelude.{
  String, not, List, ◌∷◌, [], ◌++◌, ◌||◌, ◌&&◌, if◌then◌else◌, contains, is_empty, length, map, ltb,
  concat, slice,
}
use proofalpha.Prelude.Int.{pos}
use proofalpha.Prelude.Dict.{Dict, lookup, insert, get_or}
use proofalpha.Python.Runtime.{
  Runtime, Value, Items, float, text, object, list, item, nothing, fields,
}
use proofalpha.Portfolio.PlanTables.{
  PaperAuthority, PortfolioRejection, PortfolioArtifactCandidate, PortfolioConstraints,
  PortfolioAllocation, Draft, PortfolioPlan,
}
use proofalpha.Portfolio.Allocate.{gross, symbol_count, with_exposure, allocate_all}

abbrev pub item_list : {Float : Type 0} {A : Type 0} → (A → Value Float) → List A → Value Float
item_list {Float} {A} f l = list (go l)
  where
    go : List A → Items Float
    go [] = nothing
    go (a ∷ rest) = item (f a) (go rest)

abbrev pub value_dict :
    {Float : Type 0} {A : Type 0} → (A → Value Float) → Dict A → Dict (Value Float)
value_dict f [] = []
value_dict f ((k, a) ∷ d) = (k, f a) ∷ value_dict f d

module _ (R : Runtime) where
  abbrev pub Allocation : Type 0
  Allocation = PortfolioAllocation R.Float

  -- `by_role.setdefault(role, []).append(allocation)`
  unfoldable pub by_role : Dict (List Allocation) → List Allocation → Dict (List Allocation)
  by_role d [] = d
  by_role d (a ∷ rest) =
      by_role (insert a.portfolio_role (get_or (lookup a.portfolio_role d) [] ++ (a ∷ [])) d) rest

  -- `sorted(rows, key=lambda item: item.notional, reverse=True)`, which keeps the order of equal ones
  unfoldable pub place_descending : Allocation → List Allocation → List Allocation
  place_descending a [] = a ∷ []
  place_descending a (b ∷ rest) =
      let later = place_descending a rest in
      if R.lt b.notional a.notional then a ∷ b ∷ rest else b ∷ later

  unfoldable pub descending : List Allocation → List Allocation → List Allocation
  descending sorted [] = sorted
  descending sorted (a ∷ rest) = descending (place_descending a sorted) rest

  abbrev pub tail_of : List Allocation → List Allocation
  tail_of [] = []
  tail_of (a ∷ rest) = rest

  abbrev pub role_rejection : String → Allocation → PortfolioRejection
  role_rejection role a = record {
    artifact_id = a.artifact_id;
    reason_code = "role_crowding_limit";
    reason = concat "portfolio role " (concat role " exceeds fraction limit");
  }

  -- the loop over the roles
  unfoldable pub crowded_roles :
      PortfolioConstraints R.Float → R.Float → Dict (List Allocation) → List PortfolioRejection
  crowded_roles k total [] = []
  crowded_roles k total ((role, rows) ∷ rest) =
      if R.le (R.div (gross R rows) total) k.max_role_fraction
      then crowded_roles k total rest
      else map (role_rejection role) (tail_of (descending [] rows)) ++ crowded_roles k total rest

  -- `_role_fraction_rejections`
  unfoldable pub role_fraction_rejections :
      List Allocation → PortfolioConstraints R.Float → List PortfolioRejection
  role_fraction_rejections l k =
      if R.le (R.lit 1 0) k.max_role_fraction || ltb (length l) 2
      then []
      else (if R.le (gross R l) (R.lit 0 0) then [] else crowded_roles k (gross R l) (by_role [] l))

  -- `_exposure_from_allocations`
  unfoldable pub exposure_from_allocations : Dict R.Float → List Allocation → Dict R.Float
  exposure_from_allocations d [] = d
  exposure_from_allocations d (a ∷ rest) =
      exposure_from_allocations
        (with_exposure R (R.div a.notional (R.of_int (pos (symbol_count R a.symbols)))) a.symbols d)
        rest

  -- the allocations whose artifact is not rejected
  unfoldable pub kept_allocations : List PortfolioRejection → List Allocation → List Allocation
  kept_allocations rejections [] = []
  kept_allocations rejections (a ∷ rest) =
      if contains a.artifact_id (map (λ (r : PortfolioRejection). r.artifact_id) rejections)
      then kept_allocations rejections rest
      else a ∷ kept_allocations rejections rest

  -- the rejections by role, and what is left after them
  unfoldable pub without_crowded_roles :
      PortfolioConstraints R.Float → Draft R.Float → List PortfolioRejection → Draft R.Float
  without_crowded_roles k d [] = d
  without_crowded_roles k d (r ∷ rejections) =
      let left = kept_allocations (r ∷ rejections) d.allocations in
      record {
        allocations = left;
        rejections = d.rejections ++ (r ∷ rejections);
        exposure_by_symbol = exposure_from_allocations [] left;
        notional_by_symbol = exposure_from_allocations [] left;
        drawdown_usage =
            R.sum (map (λ (a : Allocation). R.mul (R.div a.notional k.equity) a.max_drawdown) left);
      }

  -- `asdict` of an allocation, of a rejection and of the constraints
  unfoldable pub allocation_value : Allocation → Value R.Float
  allocation_value a = object (
      fields (
        ("artifact_id", text a.artifact_id)
        ∷ ("strategy_id", text a.strategy_id)
        ∷ ("symbols", item_list text a.symbols)
        ∷ ("portfolio_role", text a.portfolio_role)
        ∷ ("notional", float a.notional)
        ∷ ("expected_return_bps", float a.expected_return_bps)
        ∷ ("max_drawdown", float a.max_drawdown)
        ∷ []))

  unfoldable pub rejection_value : PortfolioRejection → Value R.Float
  rejection_value r = object (
      fields (
        ("artifact_id", text r.artifact_id)
        ∷ ("reason_code", text r.reason_code)
        ∷ ("reason", text r.reason)
        ∷ []))

  unfoldable pub constraints_value : PortfolioConstraints R.Float → Value R.Float
  constraints_value k = object (
      fields (
        ("equity", float k.equity)
        ∷ ("max_per_symbol_exposure", float k.max_per_symbol_exposure)
        ∷ ("max_aggregate_leverage", float k.max_aggregate_leverage)
        ∷ ("drawdown_budget", float k.drawdown_budget)
        ∷ ("max_pairwise_correlation", float k.max_pairwise_correlation)
        ∷ ("max_role_fraction", float k.max_role_fraction)
        ∷ []))

  -- `plan_id`
  unfoldable pub plan_id_of : PortfolioConstraints R.Float → Dict String → Draft R.Float → String
  plan_id_of k active_regimes d = concat "portfolio-" (
      slice
        (R.stable_hash (
          object (
            fields (
              ("allocations", item_list allocation_value d.allocations)
              ∷ ("rejections", item_list rejection_value d.rejections)
              ∷ ("constraints", constraints_value k)
              ∷ ("active_regimes", object (fields (value_dict text active_regimes)))
              ∷ ("exposure_by_symbol", object (fields (value_dict float d.exposure_by_symbol)))
              ∷ ("drawdown_usage", float (R.round d.drawdown_usage 8))
              ∷ []))))
        0 16)

  abbrev pub empty_draft : Draft R.Float
  empty_draft = record {
    allocations = [];
    rejections = [];
    exposure_by_symbol = [];
    notional_by_symbol = [];
    drawdown_usage = R.lit 0 0;
  }

  -- the allocations and rejections of a plan
  unfoldable pub drafted :
      (Dict (Value R.Float) → PaperAuthority)
      → List (PortfolioArtifactCandidate R.Float)
      → PortfolioConstraints R.Float
      → Dict String
      → Draft R.Float
  drafted authority candidates k active_regimes =
      let d = allocate_all R authority candidates k active_regimes candidates empty_draft in
      without_crowded_roles k d (role_fraction_rejections d.allocations k)

  -- `build_portfolio_plan`; `now` is `now_utc or _now_utc()`
  unfoldable pub build_portfolio_plan :
      (Dict (Value R.Float) → PaperAuthority)
      → List (PortfolioArtifactCandidate R.Float)
      → PortfolioConstraints R.Float
      → Dict String
      → String
      → PortfolioPlan R.Float
  build_portfolio_plan authority candidates k active_regimes now =
      let d = drafted authority candidates k active_regimes in
      record {
        portfolio_plan_id = plan_id_of k active_regimes d;
        accepted = not (is_empty d.allocations) && is_empty d.rejections;
        allocations = d.allocations;
        rejections = d.rejections;
        constraints = k;
        active_regimes = active_regimes;
        exposure_by_symbol = d.exposure_by_symbol;
        notional_by_symbol = d.notional_by_symbol;
        aggregate_leverage =
            R.round
              (if R.le k.equity (R.lit 0 0)
                then R.lit 0 0
                else R.div (gross R d.allocations) k.equity)
              8;
        drawdown_usage = R.round d.drawdown_usage 8;
        created_at_utc = now;
        candidate_payloads = candidates;
      }
