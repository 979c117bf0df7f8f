-- ===== src/Orders/State.antt =====
-- src/engine/execution/order_state.py: the life cycle of one order.
use proofalpha.Prelude.{String, Bool, true, false, Option, some, List, ◌∷◌, [], ◌++◌, if◌then◌else◌}

pub data OrderLifecycleState : Type 0 where
  created risk_approved translated submitted acked partially_filled filled : OrderLifecycleState
  cancel_requested canceled expired rejected orphaned reconciled : OrderLifecycleState

pub OrderLifecycleState-discrete : Discrete OrderLifecycleState
OrderLifecycleState-discrete = hlevel

-- `state in TERMINAL_STATES`
unfoldable pub is_terminal : OrderLifecycleState → Bool
is_terminal filled = true
is_terminal canceled = true
is_terminal expired = true
is_terminal rejected = true
is_terminal reconciled = true
is_terminal _ = false

-- `to in ALLOWED_TRANSITIONS.get(from, set())`; a state with no entry allows nothing.
unfoldable pub is_allowed : OrderLifecycleState → OrderLifecycleState → Bool
is_allowed created risk_approved = true
is_allowed created rejected = true
is_allowed created expired = true
is_allowed risk_approved translated = true
is_allowed risk_approved rejected = true
is_allowed translated submitted = true
is_allowed translated rejected = true
is_allowed submitted acked = true
is_allowed submitted rejected = true
is_allowed submitted orphaned = true
is_allowed submitted cancel_requested = true
is_allowed acked partially_filled = true
is_allowed acked filled = true
is_allowed acked cancel_requested = true
is_allowed acked expired = true
is_allowed acked orphaned = true
is_allowed partially_filled filled = true
is_allowed partially_filled cancel_requested = true
is_allowed partially_filled expired = true
is_allowed partially_filled orphaned = true
is_allowed cancel_requested canceled = true
is_allowed cancel_requested filled = true
is_allowed cancel_requested orphaned = true
is_allowed orphaned reconciled = true
is_allowed orphaned rejected = true
is_allowed _ _ = false

pub record OrderStateEvent : Type 0 where
  pub order_id : String
  pub from_state : Option OrderLifecycleState
  pub to_state : OrderLifecycleState
  pub reason : String

pub record OrderRecord : Type 0 where
  pub order_id : String
  pub intent_id : String
  pub lifecycle_state : OrderLifecycleState
  pub events : List OrderStateEvent

-- What `apply_transition` raises: an InvalidOrderTransitionError with one of its two messages.
pub data TransitionError : Type 0 where
  terminal_order_state : OrderLifecycleState → TransitionError
  invalid_order_transition : OrderLifecycleState → OrderLifecycleState → TransitionError

pub data Outcome : Type 0 where
  updated : OrderRecord → Outcome
  raised : TransitionError → Outcome

unfoldable pub apply_transition : OrderRecord → OrderLifecycleState → String → Outcome
unfolding is_terminal is_allowed
apply_transition r to reason =
    if is_terminal r.lifecycle_state
    then raised (terminal_order_state r.lifecycle_state)
    else if is_allowed r.lifecycle_state to
    then updated (record {
      order_id = r.order_id;
      intent_id = r.intent_id;
      lifecycle_state = to;
      events =
          r.events
          ++ record {
            order_id = r.order_id;
            from_state = some r.lifecycle_state;
            to_state = to;
            reason = reason;
          }
            ∷ [];
    })
    else raised (invalid_order_transition r.lifecycle_state to)
