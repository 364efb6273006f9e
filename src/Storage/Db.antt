-- ===== src/Storage/Db.antt =====
-- SQL statements as actions on the tables, and the invariants that actions keep.
mod Action
mod Rules
mod Inversion
mod Totality
mod Unchanged
pub use Action.{Err, db_error, no_rows, alert_rule_not_found, too_many_alert_rules, crypto_error}
pub use Action.{
  failed_with, Res, ok, err, Outcome, fine, refused, reply_lost, World, Post, Start, Notice, Db,
}
unfoldable pub use Action.{
  pure, fail, continue, ◌>>=◌, ◌>>◌, attempt, lose, run_statement, statement, remote, or_error,
  require, constraint_error, ignore_error, get_now, fresh_id, sleep, send_post, start_workflow,
}
pub use Rules.*
pub use Inversion.*
pub use Totality.*
pub use Unchanged.*
