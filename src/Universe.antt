-- ===== src/Universe.antt =====
-- The universe of symbols: the manifest with the state of each symbol, what the executor may trade,
-- and the decisions that admit, demote and quarantine a symbol (src/engine/universe).
pub mod Manifest
pub mod Decisions
pub mod History
pub mod Safety
mod Tests
