-- ===== src/Portfolio.antt =====
-- The portfolio side: the target of a symbol, when to rebalance and what a portfolio state allows;
-- the plan that allocates artifacts, its target portfolio, risk budget and delta orders; and what an
-- operator may override (src/engine/portfolio).
pub mod Target
pub mod Rebalance
pub mod States
pub mod OverrideTables
pub mod Override
pub mod OverrideLaws
pub mod PlanTables
pub mod Allocate
pub mod Plan
pub mod PlanLimits
pub mod Accepted
pub mod Delta
pub mod DeltaLaws
pub mod Reached
pub mod TargetPortfolio
pub mod Targeted
pub mod RiskBudget
pub mod RiskLimits
pub mod BudgetPassed
mod PlanTests
mod BudgetTests
mod DeltaTests
mod TargetedTests
mod OverrideTests
mod Tests
