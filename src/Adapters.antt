-- ===== src/Adapters.antt =====
-- internal/adapters: the verification of inbound webhooks.
pub mod Defs
pub mod Signatures
