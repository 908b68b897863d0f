-- ===== src/Tests.antt =====
-- Tests and witnesses.
mod Detection
mod Pipeline
mod Alerting
mod Runtime
mod Api
mod Normalizer
mod Collectors
mod Processes
mod Sockets
mod Integrity
mod AuthLog
mod Webhook
mod Library
