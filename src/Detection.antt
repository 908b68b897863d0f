-- ===== src/Detection.antt =====
-- The package src/sentinel/detection: rules as data, their evaluator, and the stateful engine.
pub mod Value
pub mod Schema
pub mod Evaluator
pub mod Actions
pub mod Engine
pub mod Checks
pub mod Loader
