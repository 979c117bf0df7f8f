-- ===== src/Risk.antt =====
-- The risk side of the execution layer: what may be sent in which risk state, the checks before a
-- trade, the guards, and the budget of amendments.
pub mod State
pub mod Pretrade
pub mod Clearance
pub mod Executor
pub mod Approval
pub mod Guards
pub mod GuardLaws
pub mod CancelReplace
pub mod Budget
mod Tests
