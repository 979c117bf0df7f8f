-- ===== src/Risk/State.antt =====
-- src/engine/execution/risk_state.py
use proofalpha.Prelude.{String, List, ◌∷◌, []}

pub data RiskState : Type 0 where
  normal caution defensive reduce_only lockdown halt : RiskState

-- the set of actions, as a list
unfoldable pub allowed_actions_for_state : RiskState → List String
allowed_actions_for_state normal = "open" ∷ "increase" ∷ "reduce" ∷ "close" ∷ []
allowed_actions_for_state caution = "open" ∷ "increase" ∷ "reduce" ∷ "close" ∷ []
allowed_actions_for_state defensive = "reduce" ∷ "close" ∷ []
allowed_actions_for_state reduce_only = "reduce" ∷ "close" ∷ []
allowed_actions_for_state lockdown = "cancel" ∷ "reconcile" ∷ "close" ∷ []
allowed_actions_for_state halt = []
