-- ===== src/Alerting.antt =====
-- src/sentinel/alerting/: the alert, the manager with its gates, and the delivery lanes.
pub mod Model
pub mod Lanes
pub mod Manager
pub mod Webhook
