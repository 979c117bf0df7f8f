-- ===== src/Orders/Calls.antt =====
-- The calls that change an OrderManager, and what each does to its tables
-- (src/engine/execution/order_manager.py).
use proofalpha.Prelude.{
  String, true, false, some, List, ◌∷◌, [], ◌≡◌, ◌⊎◌, refl, ◌∙◌, inl, inr, arith, contains,
  Option-cases,
}
use proofalpha.Prelude.Dict.{lookup, insert}
use proofalpha.Python.Runtime.{Runtime}
use proofalpha.Orders.State.{
  OrderLifecycleState, OrderRecord, TransitionError, Outcome, updated, raised, apply_transition,
}
use proofalpha.Orders.Intent.{InternalOrderIntent, deterministic_client_order_id}
use proofalpha.Orders.Manager.{OrderManager, order_id_for, created_record, create_order, transition}

module _ (R : Runtime) where
  -- the calls that change a manager
  pub data Call : Type 0 where
    create : InternalOrderIntent R.Float → Call
    move : String → OrderLifecycleState → String → Call

  abbrev pub client_id : InternalOrderIntent R.Float → OrderManager → String
  client_id i m = deterministic_client_order_id R i m.venue

  abbrev pub order_id : InternalOrderIntent R.Float → OrderManager → String
  order_id i m = order_id_for R m.venue i.intent_id

  unfoldable pub exec : Call → OrderManager → OrderManager
  exec (create i) m = (create_order R i m).1
  exec (move id to reason) m = (transition id to reason m).1

  unfoldable pub run : List Call → OrderManager → OrderManager
  unfolding exec
  run [] m = m
  run (c ∷ cs) m = run cs (exec c m)

  -- the state in which a successful `create_order` leaves the manager
  abbrev pub stored : InternalOrderIntent R.Float → OrderManager → OrderManager
  stored i m = record m {
    client_order_ids = client_id i m ∷ m.client_order_ids;
    orders = insert (order_id i m) (created_record (order_id i m) i.intent_id) m.orders;
    order_by_intent = insert i.intent_id (order_id i m) m.order_by_intent;
  }

  pub create_order_cases :
      (i : InternalOrderIntent R.Float) (m : OrderManager)
      → ((create_order R i m).1 ≡ m)
        ⊎ ((contains (client_id i m) m.client_order_ids ≡ false)
            × ((create_order R i m).1 ≡ stored i m))
  unfolding create_order
  create_order_cases i m = ground arith

  Outcome-cases :
      (o : Outcome)
      → ((e : TransitionError) × (o ≡ raised e)) ⊎ ((r : OrderRecord) × (o ≡ updated r))
  Outcome-cases (updated r) = inr (r, refl)
  Outcome-cases (raised e) = inl (e, refl)

  pub transition_cases :
      (id : String) (to : OrderLifecycleState) (reason : String) (m : OrderManager)
      → ((transition id to reason m).1 ≡ m)
        ⊎ ((r : OrderRecord) × (r' : OrderRecord) × (lookup id m.orders ≡ some r)
            × (apply_transition r to reason ≡ updated r')
            × ((transition id to reason m).1 ≡ record m { orders = insert id r' m.orders }))
  unfolding transition
  transition_cases id to reason m = elim (Option-cases (lookup id m.orders)) [
    | inl missing ↦ inl (rw missing)
    | inr (r, found) ↦ elim (Outcome-cases (apply_transition r to reason)) [
      | inl (e, bad) ↦ inl (rw (found, bad))
      | inr (r', good) ↦ inr (r, r', found, good, rw (found, good))
    ]
  ]

  -- what a call never loses
  pub exec-keeps :
      (c : Call) (m : OrderManager)
      → ((exec c m).venue ≡ m.venue)
        × ((id : String)
            → contains id m.client_order_ids ≡ true
            → contains id (exec c m).client_order_ids ≡ true)
  unfolding exec contains
  exec-keeps (create i) m = elim (create_order_cases i m) [
    | inl same ↦ rw same (refl, λ id h. h)
    | inr (fresh, new) ↦ rw new (refl, λ id h. ground arith)
  ]
  exec-keeps (move id to reason) m = elim (transition_cases id to reason m) [
    | inl same ↦ rw same (refl, λ id h. h)
    | inr (r, r', found, good, new) ↦ rw new (refl, λ id h. h)
  ]

  pub run-keeps :
      (cs : List Call) (m : OrderManager)
      → ((run cs m).venue ≡ m.venue)
        × ((id : String)
            → contains id m.client_order_ids ≡ true
            → contains id (run cs m).client_order_ids ≡ true)
  unfolding run
  run-keeps [] m = (refl, λ id h. h)
  run-keeps (c ∷ cs) m =
      let (v, k) = exec-keeps c m in
      let (v', k') = run-keeps cs (exec c m) in (v' ∙ v, λ id h. k' id (k id h))
