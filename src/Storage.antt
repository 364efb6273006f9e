-- ===== src/Storage.antt =====
-- internal/storage: the rows, the statements, and the operations of Store.
pub mod Rows
pub mod Db
pub mod Env
pub mod Connections
pub mod Events
pub mod Issues
pub mod AlertRules
pub mod IssueLaws
pub mod Stats
pub mod EventCrypto
pub mod RuleLimit
pub mod Accounts
pub mod SavedSettings
pub mod Listings
pub mod Retention
pub mod Playground
