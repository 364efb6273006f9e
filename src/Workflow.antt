-- ===== src/Workflow.antt =====
-- internal/workflow/delivery.go: the delivery workflow and its activities.
pub mod Defs
pub mod Attempts
pub mod Returns
pub mod Settles
pub use Defs.{Meta, HttpResult, transport_error, responded, bad_request, Destination, DeliverResult}
unfoldable pub use Defs.{
  second, event_not_found, connection_not_found, load_event_meta, note_open_issue, note_unless,
  is_success, deliver_activity, record_delivered, record_issue_activity, backoff, duration, settle,
  send, pause, run_attempts, delivery_workflow,
}
pub mod Slots
