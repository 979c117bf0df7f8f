-- ===== src/Portfolio/Target.antt =====
-- src/engine/portfolio/symbol_target.py: the target of a symbol and its validation.
use proofalpha.Prelude.{
  String, Bool, true, false, not, List, ◌∷◌, [], ◌++◌, ◌==◌, ◌≡◌, ◌≢◌, ◌↔◌, refl, arith,
  if◌then◌else◌, is_empty, empty_iff_and, empty_when, when, concat, All, eq_iff,
}
use proofalpha.Python.Runtime.{Runtime}

pub record SymbolTarget (Float : Type 0) : Type 0 where
  pub symbol : String
  pub artifact_id : String
  pub role : String
  pub target_weight : Float
  pub target_notional : Float
  pub max_loss_budget : Float
  pub max_slippage_bps : Float
  pub max_funding_cost_bps : Float
  pub rebalance_reason : String

pub record SymbolTargetValidation : Type 0 where
  pub passed : Bool
  pub issues : List String

given_iff : (s : String) → ((s == "") ≡ false) ↔ (s ≢ "")
given_iff s = let e = eq_iff s "" in ground arith

module _ (R : Runtime) where
  -- the fields that the loop reads, by name
  unfoldable pub number_fields : SymbolTarget R.Float → List (String × R.Float)
  number_fields t =
      ("target_weight", t.target_weight)
      ∷ ("target_notional", t.target_notional)
      ∷ ("max_loss_budget", t.max_loss_budget)
      ∷ ("max_slippage_bps", t.max_slippage_bps)
      ∷ ("max_funding_cost_bps", t.max_funding_cost_bps)
      ∷ []

  unfoldable pub number_issue : String → R.Float → List String
  number_issue name value =
      if not (R.is_finite value)
      then concat "non_finite_" name ∷ []
      else when (R.lt value (R.lit 0 0)) (concat "negative_" name)

  unfoldable pub number_issues : List (String × R.Float) → List String
  number_issues [] = []
  number_issues ((name, value) ∷ rest) = number_issue name value ++ number_issues rest

  unfoldable pub target_issues : SymbolTarget R.Float → List String
  target_issues t =
      when (t.symbol == "") "missing_symbol"
      ++ (when (t.artifact_id == "") "missing_artifact_id"
          ++ (when (t.role == "") "missing_role"
              ++ (number_issues (number_fields t)
                  ++ when (t.rebalance_reason == "") "missing_rebalance_reason")))

  unfoldable pub validate_symbol_target : SymbolTarget R.Float → SymbolTargetValidation
  validate_symbol_target t = record {
    passed = is_empty (target_issues t);
    issues = target_issues t;
  }

  -- finite and not negative
  abbrev pub IsAmount : R.Float → Type 0
  IsAmount x = (R.is_finite x ≡ true) × (R.lt x (R.lit 0 0) ≡ false)

  number_issue_iff :
      (name : String) (x : R.Float) → (is_empty (number_issue name x) ≡ true) ↔ IsAmount x
  unfolding number_issue
  number_issue_iff name x = ground arith

  number_issues_iff :
      (d : List (String × R.Float))
      → (is_empty (number_issues d) ≡ true) ↔ All (λ e. IsAmount e.1) d
  unfolding number_issues
  number_issues_iff [] = (λ h. tt, λ h. refl)
  number_issues_iff ((name, x) ∷ d) =
      empty_iff_and _ _ (number_issue_iff name x) (number_issues_iff d)

  -- A target is valid exactly when its symbol, artifact, role and reason are not empty and its five
  -- numbers are finite and not negative: in particular a target is never short.
  pub validate_symbol_target_iff :
      (t : SymbolTarget R.Float)
      → ((validate_symbol_target t).passed ≡ true) ↔ (
          (t.symbol ≢ "")
          × ((t.artifact_id ≢ "")
              × ((t.role ≢ "")
                  × (All (λ e. IsAmount e.1) (number_fields t) × (t.rebalance_reason ≢ "")))))
  unfolding validate_symbol_target target_issues
  validate_symbol_target_iff t = empty_iff_and _ _ (empty_when _ _ (given_iff t.symbol)) (
      empty_iff_and _ _ (empty_when _ _ (given_iff t.artifact_id)) (
        empty_iff_and _ _ (empty_when _ _ (given_iff t.role)) (
          empty_iff_and _ _ (number_issues_iff (number_fields t))
            (empty_when _ _ (given_iff t.rebalance_reason)))))
