-- ===== src/Portfolio/States.antt =====
-- src/engine/portfolio/portfolio_state_machine.py: what a portfolio state allows, against what the
-- executor's risk state of the same name allows (src/engine/execution/risk_state.py).
use proofalpha.Prelude.{
  String, Bool, true, false, List, ◌∷◌, [], ◌==◌, ◌≡◌, ◌≢◌, ◌↔◌, refl, arith, contains, eq_iff,
}
use proofalpha.Risk.State.{RiskState, allowed_actions_for_state}

pub data PortfolioState : Type 0 where
  normal caution defensive reduce_only lockdown halt : PortfolioState

-- `ALLOWED_ACTIONS`
unfoldable pub allowed_actions : PortfolioState → List String
allowed_actions normal = "open" ∷ "increase" ∷ "reduce" ∷ "close" ∷ []
allowed_actions caution = "open" ∷ "increase" ∷ "reduce" ∷ "close" ∷ []
allowed_actions defensive = "reduce" ∷ "close" ∷ []
allowed_actions reduce_only = "reduce" ∷ "close" ∷ []
allowed_actions lockdown = "close" ∷ []
allowed_actions halt = []

unfoldable pub allowed_portfolio_action : PortfolioState → String → Bool
allowed_portfolio_action state action = contains action (allowed_actions state)

-- the risk state of the same text
abbrev pub risk_state_of : PortfolioState → RiskState
risk_state_of normal = RiskState.normal
risk_state_of caution = RiskState.caution
risk_state_of defensive = RiskState.defensive
risk_state_of reduce_only = RiskState.reduce_only
risk_state_of lockdown = RiskState.lockdown
risk_state_of halt = RiskState.halt

differ : (s t : String) → (s == t) ≡ false → s ≢ t
differ s t h e = let c : (s == t) ≡ true = (eq_iff s t).1 e in cc

-- In every state the portfolio allows exactly the actions that the executor's risk state of the same
-- name allows, but for "cancel" and "reconcile", which only the executor knows.
pub allowed_portfolio_action_iff :
    (state : PortfolioState) (action : String)
    → (allowed_portfolio_action state action ≡ true) ↔ (
        (contains action (allowed_actions_for_state (risk_state_of state)) ≡ true)
        × ((action ≢ "cancel") × (action ≢ "reconcile")))
unfolding allowed_portfolio_action allowed_actions allowed_actions_for_state contains
allowed_portfolio_action_iff halt action = ground arith
allowed_portfolio_action_iff lockdown action = ground (
  arith,
  eq_iff action "close",
  eq_iff action "cancel",
  eq_iff action "reconcile",
  differ "close" "cancel" refl,
  differ "close" "reconcile" refl,
)
allowed_portfolio_action_iff _ action = ground (
  arith,
  eq_iff action "open",
  eq_iff action "increase",
  eq_iff action "reduce",
  eq_iff action "close",
  differ "open" "cancel" refl,
  differ "open" "reconcile" refl,
  differ "increase" "cancel" refl,
  differ "increase" "reconcile" refl,
  differ "reduce" "cancel" refl,
  differ "reduce" "reconcile" refl,
  differ "close" "cancel" refl,
  differ "close" "reconcile" refl,
)
