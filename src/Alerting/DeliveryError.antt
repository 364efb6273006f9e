-- ===== src/Alerting/DeliveryError.antt =====
-- internal/alerting/delivery_error.go: what the console shows after a failed send.
use koto7_tuma.Prelude.{
  ℕ, Text, str, text_eq, contains, is_empty, trim_space, Bool, false, ◌||◌, List, [], ◌∷◌, ◌++◌,
  leb, length, take, if◌then◌else◌,
}

abbrev pub ellipsis : Text
ellipsis = 0xe2 ∷ 0x80 ∷ 0xa6 ∷ []

unfoldable pub clip : Text → ℕ → Text
clip s n = let t = trim_space s in if leb (length t) n then t else take n t ++ ellipsis

-- Whether `raw` contains one of the texts.
unfoldable pub contains_any : Text → List Text → Bool
contains_any raw [] = false
contains_any raw (t ∷ ts) = contains raw t || contains_any raw ts

abbrev pub slack_unset : Text
slack_unset = str "Set SLACK_BOT_TOKEN on the Tuma server to send Slack DMs."

abbrev pub slack_rejected : Text
slack_rejected =
    str
      "Slack rejected the bot token. Check SLACK_BOT_TOKEN and reinstall the app if it was revoked."

abbrev pub slack_scope : Text
slack_scope =
    str "The Slack app is missing chat:write or im:write. Add those scopes and reinstall the app."

abbrev pub slack_unknown : Text
slack_unknown = str "Slack could not find that member. Check the member ID."

abbrev pub slack_blocked : Text
slack_blocked =
    str
      "Slack blocked this DM. Allow messages from the Tuma bot for that member, or confirm the member ID."

abbrev pub smtp_unset : Text
smtp_unset =
    str
      "Set SMTP_HOST, SMTP_PORT, SMTP_USERNAME, SMTP_PASSWORD, and SMTP_FROM on the Tuma server to send email."

abbrev pub smtp_login : Text
smtp_login = str "SMTP login failed. Check SMTP_USERNAME and SMTP_PASSWORD."

abbrev pub smtp_tls : Text
smtp_tls = str "The SMTP server refused TLS. Check SMTP_HOST and SMTP_PORT."

abbrev pub told : Text → Text → Text
told prefix raw = if is_empty raw then prefix ++ str "." else prefix ++ str ": " ++ clip raw 180

unfoldable pub slack_delivery_error : Text → Text
unfolding clip contains_any
slack_delivery_error raw =
    if contains raw (str "not configured")
    then slack_unset
    else if contains_any raw
        (str "invalid_auth" ∷ str "token_revoked" ∷ str "not_authed" ∷ str "account_inactive" ∷ [])
    then slack_rejected
    else if contains raw (str "missing_scope")
    then slack_scope
    else if contains_any raw
        (str "channel_not_found" ∷ str "user_not_found" ∷ str "invalid slack member" ∷ [])
    then slack_unknown
    else if contains_any raw (
        str "messages_tab_disabled"
        ∷ str "cannot_dm_bot"
        ∷ str "ekm_access_denied"
        ∷ str "access_denied"
        ∷ str "restricted_action"
        ∷ [])
    then slack_blocked
    else told (str "Slack DM failed") raw

unfoldable pub email_delivery_error : Text → Text
unfolding clip contains_any
email_delivery_error raw =
    if contains raw (str "smtp host is not configured")
    then smtp_unset
    else if contains raw (str "smtp auth")
    then smtp_login
    else if contains_any raw (str "STARTTLS" ∷ str "starttls" ∷ [])
    then smtp_tls
    else told (str "Email failed") raw

-- The first argument is rule.NotificationType.
unfoldable pub delivery_error_text : Text → Text → Text
delivery_error_text channel raw =
    if text_eq channel (str "slack_dm")
    then slack_delivery_error raw
    else if text_eq channel (str "email")
    then email_delivery_error raw
    else clip raw 200
