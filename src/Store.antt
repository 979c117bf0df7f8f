-- ===== src/Store.antt =====
-- The execution journal of src/engine/memory/store.py, and what is rebuilt from it.
pub mod Events
pub mod Chain
pub mod Commitment
pub mod Tables
pub mod Rebuild
pub mod Fills
pub mod Positions
pub mod Replayed
mod Tests
