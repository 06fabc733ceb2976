-- ===== src/Strategies.antt =====
-- The strategies module, backend/app/strategies: indicators, the condition engine, the formula
-- language, the exits of a position, the safety monitor and the runner.
pub mod Indicators
pub mod Conditions
pub mod Models
pub mod Formulas
pub mod Exits
pub mod SafetyMonitor
pub mod Runner
