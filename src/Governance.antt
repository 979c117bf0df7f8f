-- ===== src/Governance.antt =====
-- The governance of a deployed artifact: when it must be revalidated, what state its health asks
-- for, and the journal of the decisions (src/engine/governance/lifecycle.py).
pub mod Runbooks
pub mod Revalidation
pub mod Policy
pub mod Targets
pub mod Alerts
pub mod Journal
pub mod Status
pub mod Closeout
pub mod Carried
pub mod Newest
pub mod ReadBack
mod Tests
