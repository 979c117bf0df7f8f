-- ===== src/Risk/Executor.antt =====
-- src/engine/execution/executor_risk_manager.py, execution_tactics.py and
-- executor_strategy_manager.py: whether an action may go ahead, and by which tactic.
use proofalpha.Prelude.{
  String, Bool, true, false, not, List, ◌∷◌, [], ◌==◌, ◌&&◌, ◌||◌, if◌then◌else◌, is_empty,
  contains, concat,
}
use proofalpha.Prelude.Int.{ℤ, pos, ltb_ℤ}
use proofalpha.Python.Runtime.{Runtime}
use proofalpha.Risk.State.{
  RiskState, normal, caution, defensive, reduce_only, lockdown, halt, allowed_actions_for_state,
}

pub record ExecutorRiskDecision : Type 0 where
  pub decision : String
  pub approved : Bool
  pub reasons : List String

abbrev pub refuse : String → List String → ExecutorRiskDecision
refuse decision reasons = record { decision = decision; approved = false; reasons = reasons }

-- the end of `evaluate`, when the risk state does not stop the action
unfoldable pub decide_by_reasons : List String → ExecutorRiskDecision
decide_by_reasons reasons =
    if is_empty reasons
    then record { decision = "approved"; approved = true; reasons = [] }
    else refuse "rejected" reasons

-- `ExecutorRiskManager.evaluate`; `reasons` is `list(pretrade_rejections or [])`.
unfoldable pub evaluate : String → RiskState → List String → ExecutorRiskDecision
unfolding decide_by_reasons
evaluate action halt reasons = refuse "halt" ("risk_state_halt" ∷ reasons)
evaluate action lockdown reasons =
    if not (contains action (allowed_actions_for_state lockdown))
    then refuse "lockdown" ("risk_state_lockdown" ∷ reasons)
    else decide_by_reasons reasons
evaluate action reduce_only reasons =
    if not (contains action (allowed_actions_for_state reduce_only))
    then refuse "reduce_only" ("risk_state_reduce_only" ∷ reasons)
    else decide_by_reasons reasons
evaluate action defensive reasons =
    if not (contains action (allowed_actions_for_state defensive))
    then refuse "rejected" ("risk_state_defensive_no_new_exposure" ∷ reasons)
    else decide_by_reasons reasons
evaluate action normal reasons = decide_by_reasons reasons
evaluate action caution reasons = decide_by_reasons reasons

pub data ExecutionTactic : Type 0 where
  passive_limit post_only_gtx aggressive_limit ioc split_passive split_aggressive : ExecutionTactic
  delay skip reduce_only_order close : ExecutionTactic

pub record TacticInput (Float : Type 0) : Type 0 where
  pub side : String
  pub action : String
  pub spread_bps : Float
  pub depth_notional : Float
  pub volatility_bps : Float
  pub order_flow_imbalance : Float
  pub funding_seconds : ℤ
  pub mark_index_divergence_bps : Float
  pub target_drift_bps : Float
  pub risk_state : RiskState
  pub fill_probability : Float
  pub adverse_selection_bps : Float
  pub open_order_count : ℤ

pub record TacticDecision : Type 0 where
  pub tactic : ExecutionTactic
  pub side : String
  pub reasons : List String
  pub creates_alpha : Bool

abbrev pub decided : ExecutionTactic → String → String → TacticDecision
decided tactic side reason = record {
  tactic = tactic;
  side = side;
  reasons = reason ∷ [];
  creates_alpha = false;
}

module _ (R : Runtime) where
  -- the tests of `choose_tactic` below those on the risk state
  unfoldable pub market_tactic : TacticInput R.Float → TacticDecision
  market_tactic i =
      if R.le i.spread_bps (R.lit 2 0)
        && (R.le (R.lit 7 1) i.fill_probability && R.le i.adverse_selection_bps (R.lit 2 0))
      then decided post_only_gtx i.side "cheap_passive_path"
      else if R.lt (R.lit 100 0) i.target_drift_bps || R.lt i.fill_probability (R.lit 3 1)
      then decided ioc i.side "urgent_or_low_fill_probability"
      else if ltb_ℤ (pos 3) i.open_order_count
      then decided delay i.side "open_order_pressure"
      else decided aggressive_limit i.side "default_executor_tactic"

  abbrev reducing_tactic : String → ExecutionTactic
  reducing_tactic action = if action == "close" then close else reduce_only_order

  abbrev pub tactic_for : RiskState → TacticInput R.Float → TacticDecision
  tactic_for halt i = decided skip i.side "risk_state_halt"
  tactic_for reduce_only i =
      decided (reducing_tactic i.action) i.side (concat "risk_state:" "REDUCE_ONLY")
  tactic_for lockdown i =
      decided (reducing_tactic i.action) i.side (concat "risk_state:" "LOCKDOWN")
  tactic_for _ i = market_tactic i

  -- `ExecutorStrategyManager.choose_tactic`
  unfoldable pub choose_tactic : TacticInput R.Float → TacticDecision
  unfolding market_tactic
  choose_tactic i = tactic_for i.risk_state i
