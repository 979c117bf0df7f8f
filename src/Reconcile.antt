-- ===== src/Reconcile.antt =====
-- Reconciliation with the gateway (src/engine/execution/reconciliation.py).
pub mod Ledgers
pub mod Accounting
pub mod Snapshots
pub mod Phase3
pub mod Poison
pub mod Local
pub mod Gateway
pub mod Blockers
pub mod Matched
pub mod Run
pub mod SafeActions
pub mod Response
pub mod Payload
mod Tests
