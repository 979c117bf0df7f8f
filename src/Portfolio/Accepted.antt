-- ===== src/Portfolio/Accepted.antt =====
-- What an accepted portfolio plan guarantees (src/engine/portfolio/allocator.py).
use proofalpha.Prelude.{
  String, true, false, none, List, ◌∷◌, [], ◌≡◌, refl, sym, ap, ◌∙◌, arith, is_empty,
  is_empty-append, map, All, subst,
}
use proofalpha.Prelude.Dict.{Dict}
use proofalpha.Python.Runtime.{Runtime, Value}
use proofalpha.Reconcile.Matched.{NoRepeats}
use proofalpha.Portfolio.PlanTables.{
  PaperAuthority, PortfolioRejection, PortfolioConstraints, PortfolioAllocation, Draft,
}
use proofalpha.Portfolio.Allocate.{Candidate, candidate_rejection, allocation_of, allocate_all}
use proofalpha.Portfolio.Plan.{
  empty_draft, drafted, without_crowded_roles, role_fraction_rejections, build_portfolio_plan,
}
use proofalpha.Portfolio.PlanLimits.{
  AllBounded, IsBounded, IsWithin, allocate_all-IsWithin, allocate_all-accepted,
}

module _ (R : Runtime) where
  without_crowded_roles-accepted :
      (k : PortfolioConstraints R.Float) (d : Draft R.Float) (l : List PortfolioRejection)
      → is_empty (without_crowded_roles R k d l).rejections ≡ true
      → (l ≡ []) × (without_crowded_roles R k d l ≡ d)
  unfolding without_crowded_roles
  without_crowded_roles-accepted k d [] h = (refl, refl)
  without_crowded_roles-accepted k d (r ∷ l) h =
      let apart = sym (is_empty-append d.rejections (r ∷ l)) ∙ h in ground (arith, apart)

  module _ (authority : Dict (Value R.Float) → PaperAuthority) where
    drafted-accepted :
        (candidates : List (Candidate R)) (k : PortfolioConstraints R.Float) (regimes : Dict String)
        → is_empty (drafted R authority candidates k regimes).rejections ≡ true
        → (drafted R authority candidates k regimes
            ≡ allocate_all R authority candidates k regimes candidates (empty_draft R))
          × (role_fraction_rejections R (map (allocation_of R) candidates) k ≡ [])
          × ((drafted R authority candidates k regimes).allocations
              ≡ map (allocation_of R) candidates)
          × All (λ (c : Candidate R). candidate_rejection R authority c regimes ≡ none) candidates
    unfolding drafted
    drafted-accepted candidates k regimes h =
        let d = allocate_all R authority candidates k regimes candidates (empty_draft R) in
        let (none_crowded, same) = without_crowded_roles-accepted k d _ h in
        let (all, empty, allocated) =
          allocate_all-accepted R authority candidates k regimes candidates (empty_draft R)
            (ap (λ (x : Draft R.Float). is_empty x.rejections) (sym same) ∙ h) in
        (
          same,
          ap (λ (l : List (PortfolioAllocation R.Float)). role_fraction_rejections R l k)
                (sym allocated)
              ∙ none_crowded,
          ap (λ (x : Draft R.Float). x.allocations) same ∙ allocated,
          all,
        )

    -- A plan that is accepted, with candidates that name no symbol twice and a drawdown budget that
    -- is not below zero, allocates every candidate in order; none of them is rejected on its own and
    -- no role is crowded; each exposure by symbol is the rounding of an amount not above the limit
    -- per symbol, and the drawdown usage the rounding of an amount not above the budget.
    pub build_portfolio_plan_accepted :
        (candidates : List (Candidate R)) (k : PortfolioConstraints R.Float) (regimes : Dict String)
        (now : String)
        → All (λ (c : Candidate R). NoRepeats c.symbol_scope) candidates
        → R.lt k.drawdown_budget (R.lit 0 0) ≡ false
        → (build_portfolio_plan R authority candidates k regimes now).accepted ≡ true
        → ((build_portfolio_plan R authority candidates k regimes now).allocations
            ≡ map (allocation_of R) candidates)
          × All (λ (c : Candidate R). candidate_rejection R authority c regimes ≡ none) candidates
          × (role_fraction_rejections R (map (allocation_of R) candidates) k ≡ [])
          × AllBounded R k.max_per_symbol_exposure
              (build_portfolio_plan R authority candidates k regimes now).exposure_by_symbol
          × IsBounded R k.drawdown_budget
              (build_portfolio_plan R authority candidates k regimes now).drawdown_usage
    unfolding build_portfolio_plan
    build_portfolio_plan_accepted candidates k regimes now n b h =
        let d = drafted R authority candidates k regimes in
        let clear : is_empty d.rejections ≡ true = ground (arith, h) in
        let (same, roles, allocated, all) = drafted-accepted candidates k regimes clear in
        let (bounded, drawn) = subst (IsWithin R k) (sym same) (
          allocate_all-IsWithin R authority candidates k regimes candidates (empty_draft R) n
            (tt, b)) in
        (allocated, all, roles, bounded, (d.drawdown_usage, refl, drawn))
