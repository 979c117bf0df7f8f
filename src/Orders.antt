-- ===== src/Orders.antt =====
-- The order side of the execution layer: src/engine/execution/order_state.py, order_intent.py,
-- idempotency.py and order_manager.py.
pub mod State
pub mod Lifecycle
pub mod Gates
pub mod Intent
pub mod IntentLaws
pub mod Manager
pub mod Calls
pub mod Consistency
pub mod Idempotency
mod Tests
