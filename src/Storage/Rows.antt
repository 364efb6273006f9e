-- ===== src/Storage/Rows.antt =====
-- The rows of internal/storage: one record for each struct of store.go and playground.go.
-- Identifiers (UUIDs), times and durations (in nanoseconds) are numbers.
use koto7_tuma.Prelude.{ℕ, ℤ, Text, Bool, Option, List}
use koto7_tuma.Float.{Float64}

pub record Connection : Type 0 where
  pub id : ℕ
  pub name : Text
  pub source_type : Text
  pub inbound_path : Text
  pub destination_url : Text
  pub signing_secret_enc : Text
  pub retry_attempts : ℤ
  pub retry_first_delay_s : ℤ
  pub retry_backoff_factor : Float64
  pub retention_days : ℤ
  pub is_playground : Bool
  pub created_at : ℕ

-- `payload_encrypted` is the column that migration 5 adds; `raw_headers` and `raw_payload` hold
-- what the row holds, sealed or not.
pub record Event : Type 0 where
  pub id : ℕ
  pub connection_id : ℕ
  pub provider_event_id : Text
  pub raw_headers : Text
  pub raw_payload : Text
  pub payload_encrypted : Bool
  pub received_at : ℕ
  pub workflow_id : Option Text

-- The values that the columns' CHECK constraints allow and the code writes.
pub data DeliveryStatus : Type 0 where
  delivered failed : DeliveryStatus

pub record Delivery : Type 0 where
  pub id : ℕ
  pub event_id : ℕ
  pub attempt_number : ℕ
  pub status : DeliveryStatus
  pub response_code : Option ℕ
  pub latency_ms : Option ℕ
  pub attempted_at : ℕ

pub data IssueStatus : Type 0 where
  opened resolved : IssueStatus

pub record Issue : Type 0 where
  pub id : ℕ
  pub event_id : ℕ
  pub connection_id : ℕ
  pub reason : Text
  pub attempts_exhausted : ℕ
  pub first_failed_at : ℕ
  pub status : IssueStatus
  pub resolved_at : Option ℕ
  pub resolved_by : Option ℕ

pub record User : Type 0 where
  pub id : ℕ
  pub email : Text
  pub password_hash : Text
  pub created_at : ℕ

pub record Session : Type 0 where
  pub id : ℕ
  pub user_id : ℕ
  pub created_at : ℕ
  pub expires_at : ℕ

pub record AlertRule : Type 0 where
  pub id : ℕ
  pub name : Text
  pub rule_type : Text
  pub threshold : Float64
  pub unit : Text
  pub active : Bool
  pub notification_type : Text
  pub notification_dest : Text
  pub subject_template : Option Text
  pub body_template : Option Text
  pub firing_threshold : Option Float64
  pub delivery_error : Option Text
  pub created_at : ℕ
  pub updated_at : ℕ

pub record AlertNotification : Type 0 where
  pub id : ℕ
  pub alert_rule_id : ℕ
  pub rule_name : Text
  pub rule_type : Text
  pub threshold : Float64
  pub current_value : Float64
  pub fired_at : ℕ

pub record PlaygroundSession : Type 0 where
  pub id : ℕ
  pub connection_id : ℕ
  pub fail_destination : Bool
  pub created_at : ℕ
  pub last_seen_at : ℕ

-- An encrypted field is empty when the console has not saved a secret.
pub record NotificationSettings : Type 0 where
  pub smtp_host : Text
  pub smtp_port : ℤ
  pub smtp_username : Text
  pub smtp_password_enc : Text
  pub smtp_from : Text
  pub slack_bot_token_enc : Text

-- The database: one list of rows for each table, the newest row last.
pub record Tables : Type 0 where
  pub connections : List Connection
  pub events : List Event
  pub deliveries : List Delivery
  pub issues : List Issue
  pub users : List User
  pub sessions : List Session
  pub alert_rules : List AlertRule
  pub alert_notifications : List AlertNotification
  pub playground_sessions : List PlaygroundSession
  pub notification_settings : Option NotificationSettings
