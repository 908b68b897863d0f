-- ===== src/Runtime.antt =====
-- src/sentinel/runtime.py: the write-behind buffer with its flusher, retention, the events of the
-- pipeline on their way through the engine and the alert manager, and the check of watched paths.
pub mod Buffer
pub mod Flusher
pub mod Retention
pub mod Paths
pub mod Consume
