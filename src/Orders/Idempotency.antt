-- ===== src/Orders/Idempotency.antt =====
-- An intent makes at most one order, and an order only goes forward
-- (src/engine/execution/order_manager.py, src/engine/execution/idempotency.py).
use proofalpha.Prelude.{
  String, true, some, List, ◌∷◌, [], ◌≡◌, ◌==◌, inl, inr, arith, contains, eq_iff, eq_refl, All,
  Bool-cases,
}
use proofalpha.Prelude.Dict.{lookup, lookup-insert}
use proofalpha.Python.Runtime.{Runtime}
use proofalpha.Orders.State.{OrderRecord}
use proofalpha.Orders.Intent.{InternalOrderIntent, validate_internal_order_intent}
use proofalpha.Orders.Lifecycle.{
  Reachable, here, next, transition as by_transition, Reachable-trans,
}
use proofalpha.Orders.Manager.{
  OrderManager, duplicate_intent, done, failed, created_record, create_order,
}
use proofalpha.Orders.Calls.{
  Call, create, move, client_id, order_id, exec, run, create_order_cases, transition_cases,
  exec-keeps, run-keeps,
}

module _ (R : Runtime) where
  success_registers :
      (i : InternalOrderIntent R.Float) (m : OrderManager) (r : OrderRecord)
      → (create_order R i m).0 ≡ done r
      → ((validate_internal_order_intent R i).passed ≡ true)
        × (contains (client_id R i m) (create_order R i m).1.client_order_ids ≡ true)
        × ((create_order R i m).1.venue ≡ m.venue)
  unfolding create_order contains
  success_registers i m r h = ground (arith, eq_refl (client_id R i m))

  registered_refused :
      (i : InternalOrderIntent R.Float) (m : OrderManager)
      → (validate_internal_order_intent R i).passed ≡ true
      → contains (client_id R i m) m.client_order_ids ≡ true
      → create_order R i m ≡ (failed (duplicate_intent i.intent_id), m)
  unfolding create_order
  registered_refused i m p c = ground arith

  -- Once `create_order` has accepted an intent, it refuses the same intent as a duplicate after
  -- any further calls, and the refusal changes nothing: an intent makes at most one order.
  pub create_order_once :
      (i : InternalOrderIntent R.Float) (m : OrderManager) (r : OrderRecord) (cs : List (Call R))
      → (create_order R i m).0 ≡ done r
      → let m' = run R cs (create_order R i m).1 in
        create_order R i m' ≡ (failed (duplicate_intent i.intent_id), m')
  create_order_once i m r cs h =
      let (p, c, v) = success_registers i m r h in
      let (v', k) = run-keeps R cs (create_order R i m).1 in
      registered_refused i (run R cs (create_order R i m).1) p (rw (v', v) (k (client_id R i m) c))

  -- A call that could touch the order under `k` creates an intent that is registered already, or
  -- is no creation.
  abbrev pub Spares : String → OrderManager → Call R → Type 0
  Spares k m (create i) = order_id R i m ≡ k → contains (client_id R i m) m.client_order_ids ≡ true
  Spares k m (move id to reason) = Unit

  Spares-exec :
      (k : String) (m : OrderManager) (c d : Call R) → Spares k m d → Spares k (exec R c m) d
  Spares-exec k m c (create i) s =
      let (v, keep) = exec-keeps R c m in rw v (λ e. keep (client_id R i m) (s e))
  Spares-exec k m c (move id to reason) s = tt

  All-Spares :
      (k : String) (m : OrderManager) (c : Call R) (cs : List (Call R))
      → All (Spares k m) cs
      → All (Spares k (exec R c m)) cs
  All-Spares k m c [] h = tt
  All-Spares k m c (d ∷ cs) h = (Spares-exec k m c d h.0, All-Spares k m c cs h.1)

  exec-advances :
      (k : String) (m : OrderManager) (c : Call R) (r : OrderRecord)
      → lookup k m.orders ≡ some r
      → Spares k m c
      → (r' : OrderRecord) × (lookup k (exec R c m).orders ≡ some r') × Reachable r r'
  unfolding exec
  exec-advances k m (create i) r h s = elim (create_order_cases R i m) [
    | inl same ↦ (r, rw same h, here)
    | inr (fresh, new) ↦ (
      r,
      rw new (
          ground (
            arith,
            lookup-insert (order_id R i m) k (created_record (order_id R i m) i.intent_id) m.orders,
            eq_iff (order_id R i m) k,
          )),
      here,
    )
  ]
  exec-advances k m (move id to reason) r h s = elim (transition_cases R id to reason m) [
    | inl same ↦ (r, rw same h, here)
    | inr (q, q', found, good, new) ↦ elim (Bool-cases (id == k)) [
      | inl e ↦ (
        q',
        rw (new, lookup-insert, e),
        next here (by_transition to reason (ground (arith, eq_iff id k))),
      )
      | inr ne ↦ (r, rw (new, lookup-insert, ne) h, here)
    ]
  ]

  -- Over any calls, a stored order stays stored and its record only goes forward by allowed
  -- transitions, provided that each created intent which maps to the same order id is one that
  -- the manager had registered: no call rewinds, replaces or drops the order.
  pub orders_only_advance :
      (k : String) (m : OrderManager) (cs : List (Call R)) (r : OrderRecord)
      → lookup k m.orders ≡ some r
      → All (Spares k m) cs
      → (r' : OrderRecord) × (lookup k (run R cs m).orders ≡ some r') × Reachable r r'
  unfolding run
  orders_only_advance k m [] r h s = (r, h, here)
  orders_only_advance k m (c ∷ cs) r h s =
      let (q, l, p) = exec-advances k m c r h s.0 in
      let (t, l', p') = orders_only_advance k (exec R c m) cs q l (All-Spares k m c cs s.1) in
      (t, l', Reachable-trans p p')
