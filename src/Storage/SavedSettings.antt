-- ===== src/Storage/SavedSettings.antt =====
-- internal/storage/notification_settings.go: the single row of the settings that the console saves.
use koto7_tuma.Prelude.{Option, none, some, [], pos}
use koto7_tuma.Storage.Rows.{NotificationSettings}
use koto7_tuma.Storage.Db.{Db, ok, statement}

-- NotificationSettings{}
abbrev pub no_settings : NotificationSettings
no_settings = record {
  smtp_host = [];
  smtp_port = pos 0;
  smtp_username = [];
  smtp_password_enc = [];
  smtp_from = [];
  slack_bot_token_enc = [];
}

abbrev pub settings_or_empty : Option NotificationSettings → NotificationSettings
settings_or_empty none = no_settings
settings_or_empty (some row) = row

unfoldable pub get_notification_settings : Db NotificationSettings
get_notification_settings =
    statement (λ w. (ok (settings_or_empty w.tables.notification_settings), w))

-- INSERT … ON CONFLICT (id) DO UPDATE, of the row with the identifier 1
unfoldable pub save_notification_settings : NotificationSettings → Db Unit
save_notification_settings row =
    statement
      λ w. (ok tt, record w { tables = record w.tables { notification_settings = some row } })
