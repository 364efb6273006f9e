-- ===== src/Notification.antt =====
-- internal/notification: templates, the email service, Slack direct messages.
pub mod Template
pub mod Mail
pub mod Headers
pub mod Settings
