-- ===== src/Notification/Settings.antt =====
-- internal/notifysettings/settings.go: the settings saved in the console over the environment's.
use koto7_tuma.Prelude.{
  ◌≡◌, refl, ℤ, pos, negsuc, ltb_ℤ, eq_ℤ, Text, is_empty, Bool, not, Option, none, some, [], ◌∷◌,
  arith, if◌then◌else◌,
}
use koto7_tuma.Crypto.{Gcm, decrypt_bytes}
use koto7_tuma.Storage.Rows.{NotificationSettings}
use koto7_tuma.Storage.Db.{Res, ok, err}

pub record SmtpConfig : Type 0 where
  pub host : Text
  pub port : ℤ
  pub username : Text
  pub password : Text
  pub from : Text

-- The fields of config.Config that are read here.
pub record Config : Type 0 where
  pub smtp : SmtpConfig
  pub slack_bot_token : Text

pub record Console : Type 0 where
  pub smtp : SmtpConfig
  pub slack_token : Text

pub record View : Type 0 where
  pub smtp_host : Text
  pub smtp_port : ℤ
  pub smtp_username : Text
  pub smtp_from : Text
  pub smtp_password_saved : Bool
  pub smtp_password_in_env : Bool
  pub env_smtp_host : Text
  pub env_smtp_port : ℤ
  pub env_smtp_from : Text
  pub slack_token_saved : Bool
  pub slack_token_in_env : Bool
  pub email_enabled : Bool
  pub slack_enabled : Bool

pub record Effective : Type 0 where
  pub view : View
  pub smtp : SmtpConfig
  pub slack_token : Text

unfoldable pub first : Text → Text → Text
first console env = if is_empty console then env else console

unfoldable pub effective_port : ℤ → ℤ → ℤ
effective_port console env =
    let port = if ltb_ℤ (pos 0) console then console else env in
    if eq_ℤ port (pos 0) then pos 587 else port

unfoldable pub merge : Console → Config → Effective
unfolding first effective_port
merge console cfg =
    let env = cfg.smtp in
    let smtp : SmtpConfig = record {
      host = first console.smtp.host env.host;
      port = effective_port console.smtp.port env.port;
      username = first console.smtp.username env.username;
      password = first console.smtp.password env.password;
      from = first console.smtp.from env.from;
    } in
    let token = first console.slack_token cfg.slack_bot_token in
    let env_configured = not (is_empty env.host) in
    record {
      view = record {
        smtp_host = console.smtp.host;
        smtp_port = console.smtp.port;
        smtp_username = console.smtp.username;
        smtp_from = console.smtp.from;
        smtp_password_saved = not (is_empty console.smtp.password);
        smtp_password_in_env = not (is_empty env.password);
        env_smtp_host = if env_configured then env.host else [];
        env_smtp_port = if env_configured then env.port else pos 0;
        env_smtp_from = if env_configured then env.from else [];
        slack_token_saved = not (is_empty console.slack_token);
        slack_token_in_env = not (is_empty cfg.slack_bot_token);
        email_enabled = not (is_empty smtp.host);
        slack_enabled = not (is_empty token);
      };
      smtp = smtp;
      slack_token = token;
    }

-- secret: nothing saved, or no key to read it with, is the empty text.
unfoldable pub secret : Option Gcm → Text → Res Text
secret none sealed = ok []
secret (some g) sealed = if is_empty sealed then ok [] else decrypt_bytes g sealed

abbrev console_of : NotificationSettings → Res Text → Res Text → Res Console
console_of row (err e) token = err e
console_of row (ok password) (err e) = err e
console_of row (ok password) (ok token) = ok (record {
  smtp = record {
    host = row.smtp_host;
    port = row.smtp_port;
    username = row.smtp_username;
    password = password;
    from = row.smtp_from;
  };
  slack_token = token;
})

unfoldable pub decrypt : Option Gcm → NotificationSettings → Res Console
unfolding secret
decrypt enc row =
    console_of row (secret enc row.smtp_password_enc) (secret enc row.slack_bot_token_enc)

-- Load, of the row that was read.
abbrev merged_with : Config → Res Console → Res Effective
merged_with cfg (err e) = err e
merged_with cfg (ok console) = ok (merge console cfg)

unfoldable pub load : Option Gcm → Config → Res NotificationSettings → Res Effective
unfolding decrypt
load enc cfg (err e) = err e
load enc cfg (ok row) = merged_with cfg (decrypt enc row)

first-first : (a b : Text) → first (first a b) b ≡ first a b
unfolding first
first-first [] [] = refl
first-first [] (c ∷ b) = refl
first-first (c ∷ a) b = refl

port_port : (a b : ℤ) → effective_port (effective_port a b) b ≡ effective_port a b
unfolding effective_port
port_port (pos a) (pos b) = ground arith
port_port (pos a) (negsuc b) = ground arith
port_port (negsuc a) (pos b) = ground arith
port_port (negsuc a) (negsuc b) = ground arith

-- Saving in the console the settings that are in effect changes neither the SMTP settings nor the
-- Slack token that are in effect.
pub merge-again :
    (console : Console) (cfg : Config)
    → let e = merge console cfg in
      let again = merge (record { smtp = e.smtp; slack_token = e.slack_token }) cfg in
      (again.smtp ≡ e.smtp) × (again.slack_token ≡ e.slack_token)
unfolding merge
merge-again console cfg = (
  simp
      (
        first-first console.smtp.host cfg.smtp.host,
        port_port console.smtp.port cfg.smtp.port,
        first-first console.smtp.username cfg.smtp.username,
        first-first console.smtp.password cfg.smtp.password,
        first-first console.smtp.from cfg.smtp.from,
      )
      refl,
  first-first console.slack_token cfg.slack_bot_token,
)
