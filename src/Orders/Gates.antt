-- ===== src/Orders/Gates.antt =====
-- The gates that an order passes before the venue sees it (src/engine/execution/order_state.py).
use proofalpha.Prelude.{String, Bool, true, false, List, ◌∷◌, [], ◌≡◌, arith}
use proofalpha.Orders.State.{
  OrderLifecycleState, created, is_terminal, is_allowed, OrderStateEvent, OrderRecord,
}
use proofalpha.Orders.Lifecycle.{Chain, History, IsHistory, terminal_stops}

-- The states in which the venue has, or may have, seen the order.
abbrev pub reached_venue : OrderLifecycleState → Bool
reached_venue OrderLifecycleState.submitted = true
reached_venue OrderLifecycleState.acked = true
reached_venue OrderLifecycleState.partially_filled = true
reached_venue OrderLifecycleState.filled = true
reached_venue OrderLifecycleState.cancel_requested = true
reached_venue OrderLifecycleState.canceled = true
reached_venue OrderLifecycleState.orphaned = true
reached_venue OrderLifecycleState.reconciled = true
reached_venue _ = false

-- The three events after the creation event are the risk approval, the translation and the
-- submission.
abbrev pub PassedGates : List OrderStateEvent → Type 0
PassedGates (c ∷ a ∷ t ∷ s ∷ es) =
    (a.to_state ≡ OrderLifecycleState.risk_approved)
    × (t.to_state ≡ OrderLifecycleState.translated)
    × (s.to_state ≡ OrderLifecycleState.submitted)
PassedGates _ = ⊥

-- A chain out of a terminal state is empty.
Chain-from_terminal :
    (id : String) (s t : OrderLifecycleState) (es : List OrderStateEvent)
    → is_terminal s ≡ true
    → Chain id s es t
    → s ≡ t
Chain-from_terminal id s t [] h c = c
Chain-from_terminal id s t (e ∷ es) h c = absurd (terminal_stops s e.to_state h c.2)

to_submitted :
    (id : String) (t : OrderLifecycleState) (es : List OrderStateEvent) (c a b : OrderStateEvent)
    → Chain id OrderLifecycleState.translated es t
    → a.to_state ≡ OrderLifecycleState.risk_approved
    → b.to_state ≡ OrderLifecycleState.translated
    → reached_venue t ≡ true
    → PassedGates (c ∷ a ∷ b ∷ es)
unfolding is_allowed is_terminal
to_submitted id t [] c a b h ha hb v = ground arith
to_submitted id t (e ∷ es) c a b h ha hb v = ground (arith, Chain-from_terminal id e.to_state t es)

to_translated :
    (id : String) (t : OrderLifecycleState) (es : List OrderStateEvent) (c a : OrderStateEvent)
    → Chain id OrderLifecycleState.risk_approved es t
    → a.to_state ≡ OrderLifecycleState.risk_approved
    → reached_venue t ≡ true
    → PassedGates (c ∷ a ∷ es)
unfolding is_allowed is_terminal
to_translated id t [] c a h ha v = ground arith
to_translated id t (e ∷ es) c a h ha v =
    ground (arith, Chain-from_terminal id e.to_state t es, to_submitted id t es c a e)

to_approved :
    (id : String) (t : OrderLifecycleState) (es : List OrderStateEvent) (c : OrderStateEvent)
    → Chain id created es t
    → reached_venue t ≡ true
    → PassedGates (c ∷ es)
unfolding is_allowed is_terminal
to_approved id t [] c h v = ground arith
to_approved id t (e ∷ es) c h v =
    ground (arith, Chain-from_terminal id e.to_state t es, to_translated id t es c e)

by_events :
    (id : String) (t : OrderLifecycleState) (es : List OrderStateEvent)
    → History id es t
    → reached_venue t ≡ true
    → PassedGates es
by_events id t [] h v = elim h [ ]
by_events id t (e ∷ es) h v = to_approved id t es e h.3 v

-- An order with a well-formed history whose state says that the venue has or may have seen it
-- (submitted, acked, filled, canceled and so on) has first been approved by risk, then
-- translated, then submitted, as the first three events after its creation: no path skips a gate.
pub venue_needs_gates :
    (r : OrderRecord) → IsHistory r → reached_venue r.lifecycle_state ≡ true → PassedGates r.events
venue_needs_gates r h v = by_events r.order_id r.lifecycle_state r.events h v
