-- ===== src/Orders/Lifecycle.antt =====
-- What `apply_transition` keeps true of an order's history (src/engine/execution/order_state.py).
use proofalpha.Prelude.{
  ℕ, ◌+◌, ◌≤◌, ◌<◌, String, true, none, some, List, ◌∷◌, [], ◌++◌, ◌≡◌, refl, arith, length, ◌↔◌,
  ◌⊎◌, ◌≢◌, ◌∙◌, inl, inr,
}
use proofalpha.Orders.State.{
  OrderLifecycleState, created, is_terminal, is_allowed, OrderStateEvent, OrderRecord, updated,
  apply_transition,
}

-- One step of the diagram, for one order: the event that `apply_transition` appends.
infix 40 ◌⟶◌
pub data ◌⟶◌ (r : OrderRecord) (r' : OrderRecord) : Type 0 where
  transition :
      (to : OrderLifecycleState) (reason : String)
      → apply_transition r to reason ≡ updated r'
      → r ⟶ r'

pub data Reachable (r : OrderRecord) : OrderRecord → Type 0 where
  here : Reachable r r
  next : {s t : OrderRecord} → Reachable r s → s ⟶ t → Reachable r t

pub Reachable-trans : {r s t : OrderRecord} → Reachable r s → Reachable s t → Reachable r t
Reachable-trans p here = p
Reachable-trans p (next q st) = next (Reachable-trans p q) st

-- How many transitions at most lead from `created` to a state.
abbrev depth : OrderLifecycleState → ℕ
depth OrderLifecycleState.created = 0
depth OrderLifecycleState.risk_approved = 1
depth OrderLifecycleState.translated = 2
depth OrderLifecycleState.submitted = 3
depth OrderLifecycleState.acked = 4
depth OrderLifecycleState.partially_filled = 5
depth OrderLifecycleState.cancel_requested = 6
depth OrderLifecycleState.orphaned = 7
depth _ = 8

-- The last state of a history that starts at `s` and is a chain of allowed transitions of the
-- order `id`; `none` for a history that is no such chain.
abbrev pub Chain :
    String → OrderLifecycleState → List OrderStateEvent → OrderLifecycleState → Type 0
Chain id s [] t = s ≡ t
Chain id s (e ∷ es) t =
    (e.order_id ≡ id)
    × (e.from_state ≡ some s)
    × (is_allowed s e.to_state ≡ true)
    × Chain id e.to_state es t

-- The history of an order: the creation event, then a chain of allowed transitions that ends in
-- the order's present state.
abbrev pub History : String → List OrderStateEvent → OrderLifecycleState → Type 0
History id [] t = ⊥
History id (e ∷ es) t =
    (e.order_id ≡ id) × (e.from_state ≡ none) × (e.to_state ≡ created) × Chain id created es t

abbrev pub IsHistory : OrderRecord → Type 0
IsHistory r = History r.order_id r.events r.lifecycle_state

depth-is_allowed : (s t : OrderLifecycleState) → is_allowed s t ≡ true → depth s < depth t
unfolding is_allowed
depth-is_allowed s t h = ground arith

depth-le : (s : OrderLifecycleState) → depth s ≤ 8
depth-le s = ground arith

depth-Chain :
    (id : String) (s t : OrderLifecycleState) (es : List OrderStateEvent)
    → Chain id s es t
    → depth s + length es ≤ depth t
depth-Chain id s t [] h = ground arith
depth-Chain id s t (e ∷ es) h =
    omega (arith, depth-is_allowed s e.to_state h.2, depth-Chain id e.to_state t es h.3)

Chain-snoc :
    (id : String) (s t u : OrderLifecycleState) (es : List OrderStateEvent) (reason : String)
    → Chain id s es t
    → is_allowed t u ≡ true
    → Chain id s
        (es ++ record { order_id = id; from_state = some t; to_state = u; reason = reason } ∷ [])
        u
Chain-snoc id s t u [] reason h a = ground arith
Chain-snoc id s t u (e ∷ es) reason h a =
    (h.0, h.1, h.2, Chain-snoc id e.to_state t u es reason h.3 a)

pub terminal_stops : (s t : OrderLifecycleState) → is_terminal s ≡ true → is_allowed s t ≡ true → ⊥
unfolding is_terminal is_allowed
terminal_stops s t h a = ground arith

-- Some state that each state may move to.
abbrev successor : OrderLifecycleState → OrderLifecycleState
successor OrderLifecycleState.created = OrderLifecycleState.rejected
successor OrderLifecycleState.risk_approved = OrderLifecycleState.rejected
successor OrderLifecycleState.translated = OrderLifecycleState.rejected
successor OrderLifecycleState.submitted = OrderLifecycleState.rejected
successor OrderLifecycleState.acked = OrderLifecycleState.filled
successor OrderLifecycleState.partially_filled = OrderLifecycleState.filled
successor OrderLifecycleState.cancel_requested = OrderLifecycleState.canceled
successor OrderLifecycleState.orphaned = OrderLifecycleState.reconciled
successor s = s

successor_lem :
    (s : OrderLifecycleState)
    → (is_terminal s ≡ true)
      ⊎ ((is_allowed s (successor s) ≡ true) × (is_terminal (successor s) ≡ true))
unfolding is_terminal is_allowed
successor_lem s = ground arith

stuck_terminal :
    (s : OrderLifecycleState)
    → ((t : OrderLifecycleState) → ¬ (is_allowed s t ≡ true))
    → is_terminal s ≡ true
stuck_terminal s stuck = elim (successor_lem s) [
  | inl t ↦ t
  | inr (a, _) ↦ absurd (stuck (successor s) a)
]

-- What a successful transition returns.
abbrev after : OrderRecord → OrderLifecycleState → String → OrderRecord
after r to reason = record r {
  lifecycle_state = to;
  events =
      r.events
      ++ record {
        order_id = r.order_id;
        from_state = some r.lifecycle_state;
        to_state = to;
        reason = reason;
      }
        ∷ [];
}

updated_inversion :
    (r r' : OrderRecord) (to : OrderLifecycleState) (reason : String)
    → apply_transition r to reason ≡ updated r'
    → (is_allowed r.lifecycle_state to ≡ true) × (r' ≡ after r to reason)
unfolding apply_transition
updated_inversion r r' to reason h = ground arith

allowed_updates :
    (r : OrderRecord) (to : OrderLifecycleState) (reason : String)
    → is_allowed r.lifecycle_state to ≡ true
    → apply_transition r to reason ≡ updated (after r to reason)
unfolding apply_transition
allowed_updates r to reason a = ground (arith, terminal_stops r.lifecycle_state to)

History-snoc :
    (id : String) (t u : OrderLifecycleState) (es : List OrderStateEvent) (reason : String)
    → History id es t
    → is_allowed t u ≡ true
    → History id
        (es ++ record { order_id = id; from_state = some t; to_state = u; reason = reason } ∷ [])
        u
History-snoc id t u [] reason h a = elim h [ ]
History-snoc id t u (e ∷ es) reason h a = (h.0, h.1, h.2, Chain-snoc id created t u es reason h.3 a)

-- A transition keeps a well-formed history well formed, and leaves the order's two ids alone.
pub apply_transition-IsHistory :
    (r r' : OrderRecord) (to : OrderLifecycleState) (reason : String)
    → IsHistory r
    → apply_transition r to reason ≡ updated r'
    → IsHistory r' × (r'.order_id ≡ r.order_id) × (r'.intent_id ≡ r.intent_id)
apply_transition-IsHistory r r' to reason h e =
    let (a, same) = updated_inversion r r' to reason e in
    rw same (History-snoc r.order_id r.lifecycle_state to r.events reason h a, refl, refl)

Reachable-IsHistory :
    {r s : OrderRecord}
    → IsHistory r
    → Reachable r s
    → IsHistory s × (s.order_id ≡ r.order_id) × (s.intent_id ≡ r.intent_id)
Reachable-IsHistory h here = (h, refl, refl)
Reachable-IsHistory h (next {s = s} {t = t} p (transition to reason e)) =
    let (hs, o, i) = Reachable-IsHistory h p in
    let (ht, o', i') = apply_transition-IsHistory s t to reason hs e in (ht, o' ∙ o, i' ∙ i)

length-History :
    (id : String) (t : OrderLifecycleState) (es : List OrderStateEvent)
    → History id es t
    → length es ≤ 9
length-History id t [] h = elim h [ ]
length-History id t (e ∷ es) h = omega (arith, depth-Chain id created t es h.3, depth-le t)

-- Whatever transitions an order with a well-formed history goes through, its history stays a
-- creation event followed by allowed transitions that end in its state, under the same order id
-- and intent id, and it never holds more than nine events: no run of an order is endless.
pub nine_events_at_most :
    (r s : OrderRecord)
    → IsHistory r
    → Reachable r s
    → IsHistory s × (s.order_id ≡ r.order_id) × (s.intent_id ≡ r.intent_id) × (length s.events ≤ 9)
nine_events_at_most r s h p =
    let (hs, o, i) = Reachable-IsHistory h p in
    (hs, o, i, length-History s.order_id s.lifecycle_state s.events hs)

-- A state is terminal exactly when `apply_transition` refuses every target state from it, for
-- every reason text: the table leaves no dead end outside the terminal states.
pub terminal_iff_stuck :
    (r : OrderRecord)
    → (is_terminal r.lifecycle_state ≡ true) ↔ (
        (to : OrderLifecycleState) (reason : String) (r' : OrderRecord)
        → apply_transition r to reason ≢ updated r')
terminal_iff_stuck r = (
  λ t to reason r' e. terminal_stops _ to t (updated_inversion r r' to reason e).0,
  λ stuck.
      stuck_terminal r.lifecycle_state
        (λ to a. stuck to "" (after r to "") (allowed_updates r to "" a)),
)

-- Every order is in a terminal state, or one call of `apply_transition` brings it to one.
pub terminal_within_one :
    (r : OrderRecord)
    → (is_terminal r.lifecycle_state ≡ true)
      ⊎ ((to : OrderLifecycleState) × (reason : String) × (r' : OrderRecord) × (apply_transition r
              to reason
            ≡ updated r')
          × (is_terminal r'.lifecycle_state ≡ true))
terminal_within_one r = elim (successor_lem r.lifecycle_state) [
  | inl t ↦ inl t
  | inr (a, t) ↦ inr (
    successor r.lifecycle_state,
    "",
    after r (successor r.lifecycle_state) "",
    allowed_updates r _ "" a,
    t,
  )
]
