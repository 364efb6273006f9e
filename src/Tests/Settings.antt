-- ===== src/Tests/Settings.antt =====
-- The console saves settings and an alert rule.
use koto7_tuma.Prelude.{
  ◌≡◌, refl, pos, str, text_eq, trim_space, contains, true, false, none, some, [], ◌∷◌, arith,
}
use koto7_tuma.Storage.Db.{World, ◌>>=◌, attempt, statement}
use koto7_tuma.Storage.Rows.{AlertRule, NotificationSettings}
use koto7_tuma.Storage.SavedSettings.{get_notification_settings, save_notification_settings}
use koto7_tuma.Storage.EventCrypto.{IsSound, HasSize}
use koto7_tuma.Notification.Settings.{Effective, View, load, decrypt, secret, merge}
use koto7_tuma.Crypto.{encrypt_bytes, decrypt_bytes, opened}
use koto7_tuma.Api.Http.{call_or}
use koto7_tuma.Api.Answers.{Succeeds}
use koto7_tuma.Api.Rules.{
  RuleRequest, requested_rule, validate_alert_rule, validate_unit, valid_unit_for_type,
  valid_destination, valid_email, notification_settings,
}
use koto7_tuma.Api.Rules.Laws.{KeepsBounds, Fits, validate_alert_rule-Fits}
use koto7_tuma.Api.Admin.{
  SettingsUpdate, SecretNonces, trimmed, put_settings, put_trimmed, update_settings, next_settings,
  sealed_secret, save_next,
}
use koto7_tuma.Api.Admin.Laws.{IsUpdate, put_settings-IsUpdate}
use koto7_tuma.Tests.Data.{console, plain_cipher, pg, world}

bounds : KeepsBounds console pg 5 5
bounds = record { zero = λ h. refl; hundred = λ h. refl }

valid :
    validate_alert_rule console
      (str "OPEN_ISSUES")
      (str "COUNT")
      5
      (str "email")
      (str "me@shop.test")
    ≡ true
unfolding validate_alert_rule validate_unit valid_unit_for_type valid_destination valid_email str
    text_eq
valid = refl

validate_alert_rule-Fits_example : Fits pg (str "OPEN_ISSUES") (str "COUNT") (str "email") 5
validate_alert_rule-Fits_example =
    validate_alert_rule-Fits console pg (str "OPEN_ISSUES") (str "COUNT") 5 5 (str "email")
      (str "me@shop.test") bounds valid

abbrev request : RuleRequest
request = record {
  name = str "many issues";
  rule_type = str "OPEN_ISSUES";
  threshold = 5;
  unit = str "COUNT";
  notification_type = str "email";
  notification_dest = str "me@shop.test";
  subject_template = none;
  body_template = none;
}

abbrev in_effect : Effective
in_effect =
    merge
      (record {
        smtp = record { host = []; port = pos 0; username = []; password = []; from = [] };
        slack_token = [];
      })
      console.config

abbrev stored : AlertRule
stored = record (requested_rule request) { id = 50; created_at = 1000; updated_at = 1000 }

abbrev update : SettingsUpdate
update = record {
  smtp_host = str " mail.shop.test";
  smtp_port = pos 587;
  smtp_username = [];
  smtp_from = [];
  smtp_password = str "pw";
  clear_smtp_password = false;
  slack_bot_token = [];
  clear_slack_token = true;
}

abbrev nonces : SecretNonces
nonces = record { for_password = some (1 ∷ 2 ∷ []); for_token = none }

abbrev row : NotificationSettings
row = record {
  smtp_host = str "mail.shop.test";
  smtp_port = pos 587;
  smtp_username = [];
  smtp_password_enc = 1 ∷ 2 ∷ str "pw";
  smtp_from = [];
  slack_bot_token_enc = [];
}

abbrev updated : World
updated = record world { tables = record world.tables { notification_settings = some row } }

abbrev view : View
view =
    (merge
      (record {
        smtp = record {
          host = str "mail.shop.test";
          port = pos 587;
          username = [];
          password = str "pw";
          from = [];
        };
        slack_token = [];
      })
      console.config).view

saves : Succeeds (put_settings console nonces (some update)) world 200 view updated
unfolding put_settings put_trimmed update_settings next_settings sealed_secret trimmed save_next
    call_or notification_settings get_notification_settings save_notification_settings load decrypt
    secret encrypt_bytes decrypt_bytes opened statement ◌>>=◌ attempt str trim_space contains
saves = refl

sound : IsSound plain_cipher
sound = record { opens = λ nonce text h. refl }

password_size : HasSize plain_cipher (some (1 ∷ 2 ∷ []))
password_size = record { at = λ n e. ground (arith, e) }

token_size : HasSize plain_cipher none
token_size = record { at = λ n e. absurd (ground (arith, e)) }

put_settings-IsUpdate_example : IsUpdate console update world updated
put_settings-IsUpdate_example =
    put_settings-IsUpdate console nonces update world updated sound (omega arith) password_size
      token_size saves
