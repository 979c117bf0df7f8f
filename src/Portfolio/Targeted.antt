-- ===== src/Portfolio/Targeted.antt =====
-- When a plan's allocations make a target portfolio, and which targets it then holds
-- (src/engine/portfolio/target_portfolio.py).
use mathlib.Core.List.{append_assoc, append-nil}
use proofalpha.Prelude.{
  String, Bool, true, false, not, List, ◌∷◌, [], ◌++◌, ◌≡◌, ◌↔◌, refl, ap, sym, ◌∙◌, arith, map,
  All, Bool-cases, inl, inr,
}
use proofalpha.Python.Runtime.{Runtime}
use proofalpha.Python.Convert.{Result, ok, err, ◌>>=◌}
use proofalpha.Portfolio.Target.{SymbolTarget}
use proofalpha.Portfolio.PlanTables.{PortfolioAllocation}
use proofalpha.Portfolio.RiskLimits.{AreFinite}
use proofalpha.Portfolio.TargetPortfolio.{
  TargetSettings, TargetPortfolio, require_that, settings_fields, require_finite, check_allocation,
  target_of, symbol_targets_of, target_portfolio, build_target_portfolio,
}

require_that_iff :
    {B : Type 0} (b : Bool) (message : String) (rest : Unit → Result B) (x : B)
    → ((require_that b message >>= rest) ≡ ok x) ↔ ((b ≡ true) × (rest tt ≡ ok x))
require_that_iff true message rest x = (λ h. (refl, h), λ (e, h). h)
require_that_iff false message rest x = (λ h. cc, λ (e, h). cc)

then_assoc :
    {A B C : Type 0} (m : Result A) (f : A → Result B) (k : B → Result C)
    → ((m >>= f) >>= k) ≡ (m >>= (λ a. f a >>= k))
then_assoc (ok a) f k = refl
then_assoc (err e) f k = refl

ok_injective : {A : Type 0} {a b : A} → ok a ≡ ok b → a ≡ b
ok_injective h = cc

checks_iff :
    {B : Type 0} (a b c d : Bool) (m n o p : String) (rest : Unit → Result B) (x : B)
    → (((require_that a m >>= (λ u.
            require_that (not b) n >>= (λ u2. require_that c o >>= (λ u3. require_that (not d) p))))
          >>= rest)
        ≡ ok x)
      ↔ (((a ≡ true) × (b ≡ false) × (c ≡ true) × (d ≡ false)) × (rest tt ≡ ok x))
checks_iff true false true false m n o p rest x = (λ h. ((refl, refl, refl, refl), h), λ (e, h). h)
checks_iff false b c d m n o p rest x = (λ h. cc, λ ((e, e2, e3, e4), h). cc)
checks_iff true true c d m n o p rest x = (λ h. cc, λ ((e, e2, e3, e4), h). cc)
checks_iff true false false d m n o p rest x = (λ h. cc, λ ((e, e2, e3, e4), h). cc)
checks_iff true false true true m n o p rest x = (λ h. cc, λ ((e, e2, e3, e4), h). cc)

module _ (R : Runtime) where
  -- Finite and not below zero.
  abbrev pub IsAllocatable : PortfolioAllocation R.Float → Type 0
  IsAllocatable a =
      (R.is_finite a.notional ≡ true)
      × (R.lt a.notional (R.lit 0 0) ≡ false)
      × (R.is_finite a.max_drawdown ≡ true)
      × (R.lt a.max_drawdown (R.lit 0 0) ≡ false)

  -- One target for each symbol of each allocation, in order.
  unfoldable pub all_targets :
      TargetSettings R.Float
      → R.Float
      → List (PortfolioAllocation R.Float)
      → List (SymbolTarget R.Float)
  all_targets s capital [] = []
  all_targets s capital (a ∷ rest) =
      map (target_of R s capital a) a.symbols ++ all_targets s capital rest

  check_allocation_iff :
      {B : Type 0} (a : PortfolioAllocation R.Float) (rest : Unit → Result B) (x : B)
      → ((check_allocation R a >>= rest) ≡ ok x) ↔ (IsAllocatable a × (rest tt ≡ ok x))
  unfolding check_allocation
  check_allocation_iff a rest x = checks_iff _ _ _ _ _ _ _ _ rest x

  require_finite_iff :
      {B : Type 0} (d : List (String × R.Float)) (rest : Unit → Result B) (x : B)
      → ((require_finite R d >>= rest) ≡ ok x) ↔ (AreFinite R d × (rest tt ≡ ok x))
  unfolding require_finite
  require_finite_iff [] rest x = (λ h. (tt, h), λ (u, h). h)
  require_finite_iff ((name, v) ∷ d) rest x =
      let later = require_finite_iff d rest x in
      elim (Bool-cases (R.is_finite v)) [
        | inl e ↦
            rw e (λ h. let (u, r) = later.0 h in ((refl, u), r), λ ((e2, u), r). later.1 (u, r))
        | inr e ↦ rw e (λ h. cc, λ ((e2, u), r). cc)
      ]

  symbol_targets_of_iff :
      (s : TargetSettings R.Float) (capital : R.Float) (targets : List (SymbolTarget R.Float))
      (l : List (PortfolioAllocation R.Float)) (x : TargetPortfolio R.Float)
      → ((symbol_targets_of R s capital targets l >>= (λ m. ok (target_portfolio R s capital m)))
          ≡ ok x)
        ↔ (All IsAllocatable l
            × (target_portfolio R s capital (targets ++ all_targets s capital l) ≡ x))
  unfolding symbol_targets_of all_targets
  symbol_targets_of_iff s capital targets [] x =
      let same = ap (target_portfolio R s capital) (append-nil targets) in
      (λ h. (tt, same ∙ ok_injective h), λ (u, h). ap ok (sym same ∙ h))
  symbol_targets_of_iff s capital targets (a ∷ rest) x =
      let more = targets ++ map (target_of R s capital a) a.symbols in
      let finish : List (SymbolTarget R.Float) → Result (TargetPortfolio R.Float) =
        λ m. ok (target_portfolio R s capital m) in
      let later = symbol_targets_of_iff s capital more rest x in
      let here =
        check_allocation_iff a (λ u. symbol_targets_of R s capital more rest >>= finish) x in
      let assoc =
        then_assoc (check_allocation R a) (λ u. symbol_targets_of R s capital more rest) finish in
      let same = ap (target_portfolio R s capital) (
        append_assoc targets (map (target_of R s capital a) a.symbols)
          (all_targets s capital rest)) in
      (
        λ h.
            let (good, h2) = here.0 (sym assoc ∙ h) in
            let (all, e) = later.0 h2 in ((good, all), sym same ∙ e),
        λ ((good, all), e). assoc ∙ here.1 (good, later.1 (all, same ∙ e)),
      )

  -- A target portfolio is built exactly when the capital is finite and above zero, the six numbers of
  -- the settings are finite, and the notional and the drawdown of every allocation are finite and not
  -- below zero; it is then the portfolio of one target for each symbol of each allocation, in order.
  pub build_target_portfolio_iff :
      (s : TargetSettings R.Float) (capital : R.Float) (l : List (PortfolioAllocation R.Float))
      (x : TargetPortfolio R.Float)
      → (build_target_portfolio R s capital l ≡ ok x) ↔ (
          (R.is_finite capital ≡ true)
          × (R.le capital (R.lit 0 0) ≡ false)
          × AreFinite R (settings_fields R s)
          × All IsAllocatable l
          × (target_portfolio R s capital (all_targets s capital l) ≡ x))
  unfolding build_target_portfolio
  build_target_portfolio_iff s capital l x =
      let targets = symbol_targets_of_iff s capital [] l x in
      let finite = require_finite_iff (settings_fields R s) _ x in
      let positive = require_that_iff (not (R.le capital (R.lit 0 0))) _ _ x in
      let first = require_that_iff (R.is_finite capital) _ _ x in
      (
        λ h.
            let (a, h2) = first.0 h in
            let (b, h3) = positive.0 h2 in
            let (c, h4) = finite.0 h3 in
            let (d, e) = targets.0 h4 in (a, ground (arith, b), c, d, e),
        λ (a, b, c, d, e).
            first.1 (a, positive.1 (ground (arith, b), finite.1 (c, targets.1 (d, e)))),
      )
