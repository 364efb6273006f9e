-- ===== src/Playground.antt =====
-- internal/playground: simulated webhooks, and the live views of a playground session.
pub mod Hub
pub mod Simulate
