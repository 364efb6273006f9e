-- ===== src/Tests.antt =====
-- The theorems at concrete inputs, and the code on them.
mod Data
mod Delivery
mod Inbound
mod Alerts
mod Console
mod Sessions
mod Settings
mod Secrets
mod Simulated
mod Rounds
