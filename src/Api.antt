-- ===== src/Api.antt =====
-- internal/api: the handlers.
pub mod Ingest
pub mod Sink
pub mod Streams
pub mod Guards
pub mod Http
pub mod Answers
pub mod Auth
pub mod Rules
pub mod Admin
pub mod Console
pub mod Issues
pub mod Buckets
pub mod Playground
