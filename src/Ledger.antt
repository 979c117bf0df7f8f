-- ===== src/Ledger.antt =====
-- The execution ledger: its events, the projection rebuilt from them, and the plan that repairs
-- differences with the gateway.
pub mod Event
pub mod Projection
pub mod Replay
pub mod Redelivery
pub mod Repair
pub mod Duplicates
pub mod Plan
pub mod Coverage
mod Tests
