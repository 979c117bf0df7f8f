-- ===== src/Optimizer.antt =====
-- The search of src/engine/optimizer: its budgets, the ranges and the grid of its parameters.
pub mod Budgets
pub mod Within
pub mod Ranges
pub mod Ticks
pub mod Grid
pub mod Combinations
pub mod Models
pub mod Phases
pub mod Pipeline
pub mod Growth
pub mod Best
mod Tests
mod SearchTests
