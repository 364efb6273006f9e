-- ===== src/Alerting.antt =====
-- internal/alerting: the evaluation of the alert rules.
pub mod DeliveryError
pub mod Senders
pub mod Defs
pub mod Sends
pub mod Rows
pub mod Quiet
pub mod Once
pub mod Shown
pub mod Lock
