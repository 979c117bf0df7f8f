-- ===== src/Orders/Manager.antt =====
-- src/engine/execution/order_manager.py and the IdempotencyManager of
-- src/engine/execution/idempotency.py. A method returns its result, or what it raises, beside the
-- new state.
use proofalpha.Prelude.{
  String, Bool, true, false, Option, none, some, List, ◌∷◌, [], if◌then◌else◌, contains, concat,
  slice,
}
use proofalpha.Prelude.Dict.{Dict, lookup, insert}
use proofalpha.Python.Runtime.{Runtime, text, object, fields}
use proofalpha.Orders.State.{
  OrderLifecycleState, created, OrderRecord, TransitionError, Outcome, updated, raised,
  apply_transition,
}
use proofalpha.Orders.Intent.{
  InternalOrderIntent, validate_internal_order_intent, deterministic_client_order_id,
}

pub record OrderManager : Type 0 where
  pub venue : String
  -- the set `_idempotency._client_order_ids`
  pub client_order_ids : List String
  pub orders : Dict OrderRecord
  pub order_by_intent : Dict String

-- `OrderManager(venue=…)`
abbrev pub new_manager : String → OrderManager
new_manager venue = record {
  venue = venue;
  client_order_ids = [];
  orders = [];
  order_by_intent = [];
}

pub data OrderError : Type 0 where
  -- `ValueError(",".join(issues))`
  invalid_intent : List String → OrderError
  -- `DuplicateIntentError`
  duplicate_intent : String → OrderError
  -- `KeyError`
  unknown_order : String → OrderError
  -- `InvalidOrderTransitionError`
  bad_transition : TransitionError → OrderError

pub data Reply : Type 0 where
  done : OrderRecord → Reply
  failed : OrderError → Reply

-- `order_id` of `create_order`
unfoldable pub order_id_for : (R : Runtime) → String → String → String
order_id_for R venue intent_id = concat "order-" (
    slice
      (R.stable_hash (object (fields (("venue", text venue) ∷ ("intent_id", text intent_id) ∷ []))))
      0 24)

-- `IdempotencyManager.register`, on the set of ids: whether the id was new, and the set after it.
unfoldable pub register : String → List String → Bool × List String
register client_id ids = if contains client_id ids then (false, ids) else (true, client_id ∷ ids)

-- the record that `create_order` stores
abbrev pub created_record : String → String → OrderRecord
created_record order_id intent_id = record {
  order_id = order_id;
  intent_id = intent_id;
  lifecycle_state = created;
  events =
      record {
        order_id = order_id;
        from_state = none;
        to_state = created;
        reason = "intent_created";
      }
      ∷ [];
}

module _ (R : Runtime) where
  unfoldable pub create_order : InternalOrderIntent R.Float → OrderManager → Reply × OrderManager
  unfolding register
  create_order intent m =
      let validation = validate_internal_order_intent R intent in
      let (fresh, ids) =
        register (deterministic_client_order_id R intent m.venue) m.client_order_ids in
      let order_id = order_id_for R m.venue intent.intent_id in
      let r = created_record order_id intent.intent_id in
      if validation.passed
      then (if fresh
          then (
            done r,
            record m {
              client_order_ids = ids;
              orders = insert order_id r m.orders;
              order_by_intent = insert intent.intent_id order_id m.order_by_intent;
            },
          )
          else (failed (duplicate_intent intent.intent_id), m))
      else (failed (invalid_intent validation.issues), m)

-- the end of `transition`, once the record has been found
abbrev pub store_transition : String → Outcome → OrderManager → Reply × OrderManager
store_transition order_id (updated r) m = (done r, record m { orders = insert order_id r m.orders })
store_transition order_id (raised e) m = (failed (bad_transition e), m)

abbrev pub transition_found :
    String → OrderLifecycleState → String → Option OrderRecord → OrderManager → Reply × OrderManager
transition_found order_id to reason none m = (failed (unknown_order order_id), m)
transition_found order_id to reason (some r) m =
    store_transition order_id (apply_transition r to reason) m

unfoldable pub transition :
    String → OrderLifecycleState → String → OrderManager → Reply × OrderManager
transition order_id to reason m = transition_found order_id to reason (lookup order_id m.orders) m

-- `OrderManager.get`
unfoldable pub get : String → OrderManager → Reply
get order_id m = elim (lookup order_id m.orders) [
  | none ↦ failed (unknown_order order_id)
  | some r ↦ done r
]
