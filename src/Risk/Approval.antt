-- ===== src/Risk/Approval.antt =====
-- What an approval by the executor's risk manager guarantees, alone and with the tactic chosen
-- next (src/engine/execution/executor_risk_manager.py, executor_strategy_manager.py).
use proofalpha.Prelude.{
  String, Bool, true, false, List, ◌∷◌, [], ◌++◌, not, ◌≡◌, ◌↔◌, ◌⊎◌, inl, inr, refl, arith,
  if◌then◌else◌, contains,
}
use proofalpha.Python.Runtime.{Runtime}
use proofalpha.Risk.State.{
  RiskState, normal, caution, defensive, reduce_only, lockdown, halt, allowed_actions_for_state,
}
use proofalpha.Risk.Executor.{
  refuse, evaluate, decide_by_reasons, ExecutionTactic, skip, reduce_only_order, close, TacticInput,
  market_tactic, tactic_for, choose_tactic,
}

-- The states in which the action itself is not looked at.
abbrev pub is_open_state : RiskState → Bool
is_open_state normal = true
is_open_state caution = true
is_open_state _ = false

decide_by_reasons_iff :
    (reasons : List String) → ((decide_by_reasons reasons).approved ≡ true) ↔ (reasons ≡ [])
unfolding decide_by_reasons
decide_by_reasons_iff [] = ground arith
decide_by_reasons_iff (r ∷ rs) = ground arith

decide_keeps : (reasons : List String) → (decide_by_reasons reasons).reasons ≡ reasons
unfolding decide_by_reasons
decide_keeps [] = refl
decide_keeps (x ∷ xs) = refl

approved_iff :
    (action : String) (s : RiskState) (reasons : List String)
    → ((evaluate action s reasons).approved ≡ true) ↔ (
        (reasons ≡ [])
        × ((is_open_state s ≡ true) ⊎ (contains action (allowed_actions_for_state s) ≡ true)))
unfolding evaluate contains allowed_actions_for_state
approved_iff action normal reasons = let d = decide_by_reasons_iff reasons in ground arith
approved_iff action caution reasons = let d = decide_by_reasons_iff reasons in ground arith
approved_iff action defensive reasons = let d = decide_by_reasons_iff reasons in ground arith
approved_iff action reduce_only reasons = let d = decide_by_reasons_iff reasons in ground arith
approved_iff action lockdown reasons = let d = decide_by_reasons_iff reasons in ground arith
approved_iff action halt reasons = ground arith

kept_or_refused :
    (allowed : Bool) (decision own : String) (reasons : List String)
    → (own_reasons : List String) × ((if not allowed
          then refuse decision (own ∷ reasons)
          else decide_by_reasons reasons).reasons
        ≡ own_reasons ++ reasons)
kept_or_refused true decision own reasons = ([], decide_keeps reasons)
kept_or_refused false decision own reasons = (own ∷ [], refl)

evaluate_keeps :
    (action : String) (s : RiskState) (reasons : List String)
    → (own : List String) × ((evaluate action s reasons).reasons ≡ own ++ reasons)
unfolding evaluate
evaluate_keeps action normal reasons = ([], decide_keeps reasons)
evaluate_keeps action caution reasons = ([], decide_keeps reasons)
evaluate_keeps action defensive reasons =
    kept_or_refused (contains action (allowed_actions_for_state defensive)) "rejected"
      "risk_state_defensive_no_new_exposure" reasons
evaluate_keeps action reduce_only reasons =
    kept_or_refused (contains action (allowed_actions_for_state reduce_only)) "reduce_only"
      "risk_state_reduce_only" reasons
evaluate_keeps action lockdown reasons =
    kept_or_refused (contains action (allowed_actions_for_state lockdown)) "lockdown"
      "risk_state_lockdown" reasons
evaluate_keeps action halt reasons = ("risk_state_halt" ∷ [], refl)

-- An action is approved exactly when no check before the trade failed and the risk state is NORMAL
-- or CAUTION, or the action is in the state's set of allowed actions; HALT approves nothing. And
-- whatever the decision, its reasons end with all the reasons that the checks gave.
pub evaluate_iff :
    (action : String) (s : RiskState) (reasons : List String)
    → (((evaluate action s reasons).approved ≡ true) ↔ (
        (reasons ≡ [])
        × ((is_open_state s ≡ true) ⊎ (contains action (allowed_actions_for_state s) ≡ true))))
      × ((own : List String) × ((evaluate action s reasons).reasons ≡ own ++ reasons))
evaluate_iff action s reasons = (approved_iff action s reasons, evaluate_keeps action s reasons)

-- The tactics that do not add to a position on the market's terms.
abbrev pub is_held_back : ExecutionTactic → Bool
is_held_back skip = true
is_held_back reduce_only_order = true
is_held_back close = true
is_held_back _ = false

market_tactic_free :
    (R : Runtime) (i : TacticInput R.Float) → is_held_back (market_tactic R i).tactic ≡ false
unfolding market_tactic
market_tactic_free R i = ground arith

tactic_for_open :
    (R : Runtime) (s : RiskState) (i : TacticInput R.Float)
    → is_open_state s ≡ true
    → is_held_back (tactic_for R s i).tactic ≡ false
tactic_for_open R normal i h = market_tactic_free R i
tactic_for_open R caution i h = market_tactic_free R i
tactic_for_open R defensive i h = cc
tactic_for_open R reduce_only i h = cc
tactic_for_open R lockdown i h = cc
tactic_for_open R halt i h = cc

opening_open :
    (s : RiskState) → contains "open" (allowed_actions_for_state s) ≡ true → is_open_state s ≡ true
unfolding contains allowed_actions_for_state
opening_open normal h = refl
opening_open caution h = refl
opening_open _ h = cc

opening_increase :
    (s : RiskState)
    → contains "increase" (allowed_actions_for_state s) ≡ true
    → is_open_state s ≡ true
unfolding contains allowed_actions_for_state
opening_increase normal h = refl
opening_increase caution h = refl
opening_increase _ h = cc

opening_not_allowed :
    (s : RiskState) (action : String)
    → (action ≡ "open") ⊎ (action ≡ "increase")
    → contains action (allowed_actions_for_state s) ≡ true
    → is_open_state s ≡ true
opening_not_allowed s action (inl o) h = opening_open s (rw o at h)
opening_not_allowed s action (inr o) h = opening_increase s (rw o at h)

-- An approved action that opens or increases a position means a NORMAL or CAUTION risk state, no
-- failed check, and a tactic that is neither SKIP nor REDUCE_ONLY nor CLOSE: the approval and the
-- tactic chosen for the same state never contradict each other.
pub new_exposure_needs_open_state :
    (R : Runtime) (i : TacticInput R.Float) (reasons : List String)
    → (i.action ≡ "open") ⊎ (i.action ≡ "increase")
    → (evaluate i.action i.risk_state reasons).approved ≡ true
    → (is_open_state i.risk_state ≡ true)
      × (reasons ≡ [])
      × (is_held_back (choose_tactic R i).tactic ≡ false)
unfolding choose_tactic
new_exposure_needs_open_state R i reasons a h =
    let (none_failed, allowed) = (approved_iff i.action i.risk_state reasons).0 h in
    let open_state : is_open_state i.risk_state ≡ true = elim allowed [
      | inl o ↦ o
      | inr c ↦ opening_not_allowed i.risk_state i.action a c
    ] in
    (open_state, none_failed, tactic_for_open R i.risk_state i open_state)
