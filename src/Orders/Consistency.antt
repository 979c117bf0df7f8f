-- ===== src/Orders/Consistency.antt =====
-- What holds of the tables of an OrderManager after any calls
-- (src/engine/execution/order_manager.py).
use proofalpha.Prelude.{
  String, some, List, ◌∷◌, [], ◌≡◌, ◌≢◌, ◌⊎◌, refl, ◌∙◌, ap, inl, inr, arith, eq_iff,
}
use proofalpha.Prelude.Dict.{lookup, insert, lookup-insert, lookup-insert_self}
use proofalpha.Python.Runtime.{Runtime}
use proofalpha.Orders.State.{OrderLifecycleState, OrderRecord, updated, apply_transition}
use proofalpha.Orders.Intent.{InternalOrderIntent}
use proofalpha.Orders.Lifecycle.{IsHistory, apply_transition-IsHistory}
use proofalpha.Orders.Manager.{OrderManager, order_id_for, created_record}
use proofalpha.Orders.Calls.{
  Call, create, move, order_id, exec, run, stored, create_order_cases, transition_cases,
}

module _ (R : Runtime) where
  -- Every stored order stands under its own id, which is the id derived from its intent, has a
  -- well-formed history, and is found from its intent.
  pub record IsConsistent (m : OrderManager) : Type 0 where
    pub keyed : (k : String) (r : OrderRecord) → lookup k m.orders ≡ some r → r.order_id ≡ k
    pub derived :
        (k : String) (r : OrderRecord)
        → lookup k m.orders ≡ some r
        → order_id_for R m.venue r.intent_id ≡ k
    pub traced : (k : String) (r : OrderRecord) → lookup k m.orders ≡ some r → IsHistory r
    pub indexed :
        (k : String) (r : OrderRecord)
        → lookup k m.orders ≡ some r
        → lookup r.intent_id m.order_by_intent ≡ some k

  stored-lookup :
      (i : InternalOrderIntent R.Float) (m : OrderManager) (k : String) (r : OrderRecord)
      → lookup k (stored R i m).orders ≡ some r
      → ((order_id R i m ≡ k) × (r ≡ created_record (order_id R i m) i.intent_id))
        ⊎ ((order_id R i m ≢ k) × (lookup k m.orders ≡ some r))
  stored-lookup i m k r h = ground (
    arith,
    lookup-insert (order_id R i m) k (created_record (order_id R i m) i.intent_id) m.orders,
    eq_iff (order_id R i m) k,
  )

  stored-indexed :
      (i : InternalOrderIntent R.Float) (m : OrderManager) (k : String) (r : OrderRecord)
      → order_id_for R m.venue r.intent_id ≡ k
      → lookup r.intent_id m.order_by_intent ≡ some k
      → lookup r.intent_id (stored R i m).order_by_intent ≡ some k
  stored-indexed i m k r d h = ground (
    arith,
    lookup-insert i.intent_id r.intent_id (order_id R i m) m.order_by_intent,
    eq_iff i.intent_id r.intent_id,
  )

  stored-IsConsistent :
      (i : InternalOrderIntent R.Float) (m : OrderManager)
      → IsConsistent m
      → IsConsistent (stored R i m)
  stored-IsConsistent i m c = record {
    keyed = λ k r h. ground (arith, stored-lookup i m k r h, c.keyed k r);
    derived = λ k r h. ground (arith, stored-lookup i m k r h, c.derived k r);
    traced = λ k r h. elim (stored-lookup i m k r h) [
      | inl (e, new) ↦ rw new (refl, refl, refl, refl)
      | inr (ne, old) ↦ c.traced k r old
    ];
    indexed = λ k r h. elim (stored-lookup i m k r h) [
      | inl (e, new) ↦ rw (new, lookup-insert_self) (ap some e)
      | inr (ne, old) ↦ stored-indexed i m k r (c.derived k r old) (c.indexed k r old)
    ];
  }

  moved-lookup :
      (id : String) (m : OrderManager) (r : OrderRecord) (k : String) (q : OrderRecord)
      → lookup k (insert id r m.orders) ≡ some q
      → ((id ≡ k) × (q ≡ r)) ⊎ ((id ≢ k) × (lookup k m.orders ≡ some q))
  moved-lookup id m r k q h = ground (arith, lookup-insert id k r m.orders, eq_iff id k)

  moved-IsConsistent :
      (id : String) (to : OrderLifecycleState) (reason : String) (m : OrderManager)
      (r r' : OrderRecord)
      → lookup id m.orders ≡ some r
      → apply_transition r to reason ≡ updated r'
      → IsConsistent m
      → IsConsistent (record m { orders = insert id r' m.orders })
  moved-IsConsistent id to reason m r r' found good c =
      let (h, same_id, same_intent) =
        apply_transition-IsHistory r r' to reason (c.traced id r found) good in
      record {
        keyed = λ k q l. elim (moved-lookup id m r' k q l) [
          | inl (e, new) ↦ rw new (same_id ∙ c.keyed id r found ∙ e)
          | inr (ne, old) ↦ c.keyed k q old
        ];
        derived = λ k q l. elim (moved-lookup id m r' k q l) [
          | inl (e, new) ↦ rw (new, same_intent) (c.derived id r found ∙ e)
          | inr (ne, old) ↦ c.derived k q old
        ];
        traced = λ k q l. elim (moved-lookup id m r' k q l) [
          | inl (e, new) ↦ rw new h
          | inr (ne, old) ↦ c.traced k q old
        ];
        indexed = λ k q l. elim (moved-lookup id m r' k q l) [
          | inl (e, new) ↦ rw (new, same_intent) (c.indexed id r found ∙ ap some e)
          | inr (ne, old) ↦ c.indexed k q old
        ];
      }

  exec-IsConsistent : (c : Call R) (m : OrderManager) → IsConsistent m → IsConsistent (exec R c m)
  unfolding exec
  exec-IsConsistent (create i) m h = elim (create_order_cases R i m) [
    | inl same ↦ rw same h
    | inr (fresh, new) ↦ rw new (stored-IsConsistent i m h)
  ]
  exec-IsConsistent (move id to reason) m h = elim (transition_cases R id to reason m) [
    | inl same ↦ rw same h
    | inr (r, r', found, good, new) ↦ rw new (moved-IsConsistent id to reason m r r' found good h)
  ]

  -- Any sequence of calls keeps the manager consistent: each stored order stands under its own
  -- id, that id is the one derived from its intent, its intent leads back to it, and its history
  -- is a creation event followed by allowed transitions up to its state.
  pub run-IsConsistent :
      (cs : List (Call R)) (m : OrderManager) → IsConsistent m → IsConsistent (run R cs m)
  unfolding run
  run-IsConsistent [] m h = h
  run-IsConsistent (c ∷ cs) m h = run-IsConsistent cs (exec R c m) (exec-IsConsistent c m h)
