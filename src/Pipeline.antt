-- ===== src/Pipeline.antt =====
-- The package src/sentinel/pipeline: bounded queue, dedup window and the single consumer.
pub mod Dedup
pub mod Queue
pub mod Runner
