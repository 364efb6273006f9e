-- ===== src/Api/Admin.antt =====
-- internal/api/admin_settings.go: the settings of the alert channels.
pub mod Laws
use koto7_tuma.Prelude.{
  ℕ, ℤ, pos, ltb_ℤ, Text, str, is_empty, contains, trim_space, Bool, ◌||◌, Option, none, some, [],
  ◌∷◌, if◌then◌else◌,
}
use koto7_tuma.Crypto.{Gcm, encrypt_bytes}
use koto7_tuma.Storage.Rows.{NotificationSettings}
use koto7_tuma.Storage.SavedSettings.{get_notification_settings, save_notification_settings}
use koto7_tuma.Storage.Events.{lift}
use koto7_tuma.Storage.Db.{Db, Res, ok, err, pure, ◌>>=◌}
use koto7_tuma.Notification.Settings.{Effective, View}
use koto7_tuma.Api.Rules.{notification_settings}
use koto7_tuma.Api.Http.{Answer, success, refusal, ConsoleEnv, unless_none, call_or}

-- notificationSettingsUpdate
pub record SettingsUpdate : Type 0 where
  pub smtp_host : Text
  pub smtp_port : ℤ
  pub smtp_username : Text
  pub smtp_from : Text
  pub smtp_password : Text
  pub clear_smtp_password : Bool
  pub slack_bot_token : Text
  pub clear_slack_token : Bool

-- The reads of crypto/rand that encrypting the two secrets makes.
pub record SecretNonces : Type 0 where
  pub for_password : Option Text
  pub for_token : Option Text

unfoldable pub trimmed : SettingsUpdate → SettingsUpdate
trimmed req = record req {
  smtp_host = trim_space req.smtp_host;
  smtp_username = trim_space req.smtp_username;
  smtp_from = trim_space req.smtp_from;
  slack_bot_token = trim_space req.slack_bot_token;
}

-- The value of an encrypted column: kept, cleared or new.
unfoldable pub sealed_secret : Gcm → Option Text → Text → Bool → Text → Res Text
sealed_secret g nonce current clear new =
    if is_empty new then ok (if clear then [] else current) else encrypt_bytes g nonce new

abbrev pub with_secrets : SettingsUpdate → Res Text → Res Text → Res NotificationSettings
with_secrets req (err e) token = err e
with_secrets req (ok password) (err e) = err e
with_secrets req (ok password) (ok token) = ok (record {
  smtp_host = req.smtp_host;
  smtp_port = req.smtp_port;
  smtp_username = req.smtp_username;
  smtp_password_enc = password;
  smtp_from = req.smtp_from;
  slack_bot_token_enc = token;
})

unfoldable pub next_settings :
    Gcm → SecretNonces → SettingsUpdate → NotificationSettings → Res NotificationSettings
unfolding sealed_secret
next_settings g nonces req current =
    with_secrets req
      (sealed_secret g nonces.for_password current.smtp_password_enc req.clear_smtp_password
        req.smtp_password)
      (sealed_secret g nonces.for_token current.slack_bot_token_enc req.clear_slack_token
        req.slack_bot_token)

abbrev pub answer_view : Effective → Db (Answer View)
answer_view eff = pure (success 200 eff.view)

unfoldable pub get_settings : ConsoleEnv → Db (Answer View)
get_settings env = call_or 500 (notification_settings env) answer_view

unfoldable pub save_next : ConsoleEnv → NotificationSettings → Db (Answer View)
save_next env next =
    call_or 500 (save_notification_settings next)
      (λ _. call_or 500 (notification_settings env) answer_view)

unfoldable pub update_settings :
    ConsoleEnv → SecretNonces → SettingsUpdate → NotificationSettings → Db (Answer View)
update_settings env nonces req current =
    call_or 500 (lift (next_settings env.server.encryptor nonces req current)) (save_next env)

abbrev pub is_webhook : Text → Bool
is_webhook token = contains token (str "hooks.slack.com") || contains token (10 ∷ [])

unfoldable pub put_trimmed : ConsoleEnv → SecretNonces → SettingsUpdate → Db (Answer View)
put_trimmed env nonces req =
    if ltb_ℤ req.smtp_port (pos 0) || ltb_ℤ (pos 65535) req.smtp_port
    then pure (refusal 400)
    else if is_webhook req.slack_bot_token
    then pure (refusal 400)
    else call_or 500 get_notification_settings (update_settings env nonces req)

abbrev pub put_with : ConsoleEnv → SecretNonces → SettingsUpdate → Db (Answer View)
put_with env nonces req = put_trimmed env nonces (trimmed req)

unfoldable pub put_settings : ConsoleEnv → SecretNonces → Option SettingsUpdate → Db (Answer View)
put_settings env nonces body = unless_none 400 (put_with env nonces) body
