-- ===== src/Api/Admin/Laws.antt =====
-- What the console's settings are after internal/api/admin_settings.go has saved them.
use koto7_tuma.Prelude.{
  ℕ, ◌<◌, ◌≡◌, refl, sym, ap, ◌∙◌, ltb_ℤ, pos, Text, is_empty, trim_space, Bool, true, false, ◌||◌,
  Option, none, some, [], ◌∷◌, ◌++◌, length, arith, if◌then◌else◌,
}
use koto7_tuma.Crypto.{Gcm, encrypt_bytes}
use koto7_tuma.Storage.Rows.{NotificationSettings, Tables}
use koto7_tuma.Storage.EventCrypto.{IsSound, HasSize, ok-inj, decrypted}
use koto7_tuma.Storage.SavedSettings.{
  settings_or_empty, get_notification_settings, save_notification_settings,
}
use koto7_tuma.Storage.Events.{lift}
use koto7_tuma.Storage.Db.{
  World, Res, ok, err, attempt, statement-ok, Leaves, Leaves-bind, Leaves-attempt, Leaves-statement,
  Leaves-reading,
}
use koto7_tuma.Notification.Settings.{View, load, secret}
use koto7_tuma.Api.Rules.{notification_settings}
use koto7_tuma.Api.Http.{ConsoleEnv, call_or}
use koto7_tuma.Api.Answers.{Succeeds, call_or-success, else-success}
use koto7_tuma.Api.Admin.{
  SettingsUpdate, SecretNonces, trimmed, sealed_secret, with_secrets, next_settings, answer_view,
  save_next, update_settings, is_webhook, put_trimmed, put_settings,
}

-- A secret after an update: the new one, nothing if it is cleared, the old one otherwise.
abbrev pub updated_secret : Gcm → Text → Bool → Text → Res Text
updated_secret g current clear new =
    if is_empty new then (if clear then ok [] else secret (some g) current) else ok new

nonce_filled : (n s : Text) → 0 < length n → is_empty (n ++ s) ≡ false
nonce_filled [] s h = absurd (omega (arith, h))
nonce_filled (c ∷ n) s h = refl

read_back :
    (g : Gcm) (random : Option Text) (new sealed : Text)
    → IsSound g
    → HasSize g random
    → 0 < g.nonce_size
    → encrypt_bytes g random new ≡ ok sealed
    → secret (some g) sealed ≡ ok new
unfolding secret encrypt_bytes
read_back g none new sealed sound size large h = absurd (ground arith)
read_back g (some n) new sealed sound size large h =
    let e : n ++ g.seal n new ≡ sealed = ground (arith, h) in
    let filled : is_empty sealed ≡ false =
      ap is_empty (sym e) ∙ nonce_filled n (g.seal n new) (omega (arith, size.at n refl, large)) in
    rw filled (decrypted g (some n) new sealed sound size h)

sealed_secret-read :
    (g : Gcm) (random : Option Text) (current new sealed : Text) (clear : Bool)
    → IsSound g
    → HasSize g random
    → 0 < g.nonce_size
    → sealed_secret g random current clear new ≡ ok sealed
    → secret (some g) sealed ≡ updated_secret g current clear new
unfolding sealed_secret secret
sealed_secret-read g random current [] sealed true sound size large h =
    let e : [] ≡ sealed = ground (arith, h) in rw (← e) refl
sealed_secret-read g random current [] sealed false sound size large h =
    let e : current ≡ sealed = ground (arith, h) in rw (← e) refl
sealed_secret-read g random current (c ∷ new) sealed clear sound size large h =
    read_back g random (c ∷ new) sealed sound size large h

settings-Leaves : (env : ConsoleEnv) → Leaves (λ w. w.tables) (notification_settings env)
unfolding notification_settings get_notification_settings
settings-Leaves env =
    Leaves-bind (attempt get_notification_settings) _
      (Leaves-attempt get_notification_settings
        (Leaves-statement (λ w o. refl) _ (Leaves-reading _)))
      (λ row. Leaves-reading (λ w. load (some env.server.encryptor) env.config row))

saving :
    (row : NotificationSettings) (w : World) {w' : World}
    → save_notification_settings row w ≡ (ok tt, w')
    → w'.tables.notification_settings ≡ some row
unfolding save_notification_settings
saving row w h = let (o, e) = statement-ok _ w h in ground (arith, e)

saved :
    (env : ConsoleEnv) (row : NotificationSettings) (w w' : World) {code : ℕ} {view : View}
    → Succeeds (save_next env row) w code view w'
    → w'.tables.notification_settings ≡ some row
unfolding save_next
saved env row w w' h =
    let save = save_notification_settings row in
    let (u, e, k) =
      call_or-success 500 save (λ _. call_or 500 (notification_settings env) answer_view) w h in
    let (eff, read, shown) =
      call_or-success 500 (notification_settings env) answer_view (save w).1 k in
    let same : (notification_settings env (save w).1).1 ≡ w' = ground (arith, shown) in
    ap (λ (v : World). v.tables.notification_settings) (sym same)
    ∙ ap (λ (t : Tables). t.notification_settings) ((settings-Leaves env).at (save w).1)
    ∙ saving row w e

-- What an update that is answered with success leaves in the table.
pub record IsUpdate (env : ConsoleEnv) (req : SettingsUpdate) (w w' : World) : Type 0 where
  pub row : NotificationSettings
  pub stored : w'.tables.notification_settings ≡ some row
  pub host : row.smtp_host ≡ trim_space req.smtp_host
  pub port : row.smtp_port ≡ req.smtp_port
  pub username : row.smtp_username ≡ trim_space req.smtp_username
  pub from : row.smtp_from ≡ trim_space req.smtp_from
  pub password :
      secret (some env.server.encryptor) row.smtp_password_enc
      ≡ updated_secret env.server.encryptor
          (settings_or_empty w.tables.notification_settings).smtp_password_enc
          req.clear_smtp_password
          req.smtp_password
  pub token :
      secret (some env.server.encryptor) row.slack_bot_token_enc
      ≡ updated_secret env.server.encryptor
          (settings_or_empty w.tables.notification_settings).slack_bot_token_enc
          req.clear_slack_token
          (trim_space req.slack_bot_token)
  pub allowed : (ltb_ℤ req.smtp_port (pos 0) || ltb_ℤ (pos 65535) req.smtp_port) ≡ false

secrets_ok :
    (req : SettingsUpdate) (password token : Res Text) (row : NotificationSettings)
    → with_secrets req password token ≡ ok row
    → (password ≡ ok row.smtp_password_enc)
      × (token ≡ ok row.slack_bot_token_enc)
      × (row.smtp_host ≡ req.smtp_host)
      × (row.smtp_port ≡ req.smtp_port)
      × (row.smtp_username ≡ req.smtp_username)
      × (row.smtp_from ≡ req.smtp_from)
secrets_ok req (err e) token row h = absurd (ground arith)
secrets_ok req (ok password) (err e) row h = absurd (ground arith)
secrets_ok req (ok password) (ok token) row h =
    let e : (record {
      smtp_host = req.smtp_host;
      smtp_port = req.smtp_port;
      smtp_username = req.smtp_username;
      smtp_password_enc = password;
      smtp_from = req.smtp_from;
      slack_bot_token_enc = token;
    })
        ≡ row =
      ok-inj h in
    (
      ap (λ (r : NotificationSettings). ok r.smtp_password_enc) e,
      ap (λ (r : NotificationSettings). ok r.slack_bot_token_enc) e,
      ap (λ (r : NotificationSettings). r.smtp_host) (sym e),
      ap (λ (r : NotificationSettings). r.smtp_port) (sym e),
      ap (λ (r : NotificationSettings). r.smtp_username) (sym e),
      ap (λ (r : NotificationSettings). r.smtp_from) (sym e),
    )

reading :
    (w : World) {row : NotificationSettings} {w' : World}
    → get_notification_settings w ≡ (ok row, w')
    → row ≡ settings_or_empty w.tables.notification_settings
unfolding get_notification_settings
reading w h = let (o, e) = statement-ok _ w h in ground (arith, e)

-- An update of the settings that is answered with success has a port between 0 and 65535 and is the
-- row of the table, its texts trimmed. With a sound cipher, each secret is then read as the new one
-- if there is one, as nothing if it was to be cleared, and as it was read before otherwise.
pub put_settings-IsUpdate :
    (env : ConsoleEnv) (nonces : SecretNonces) (req : SettingsUpdate) (w w' : World) {code : ℕ}
    {view : View}
    → IsSound env.server.encryptor
    → 0 < env.server.encryptor.nonce_size
    → HasSize env.server.encryptor nonces.for_password
    → HasSize env.server.encryptor nonces.for_token
    → Succeeds (put_settings env nonces (some req)) w code view w'
    → IsUpdate env req w w'
unfolding put_settings put_trimmed update_settings next_settings trimmed
put_settings-IsUpdate env nonces req w w' sound large pn tn h =
    let g = env.server.encryptor in
    let t = trimmed req in
    let get = get_notification_settings in
    let (allowed, h1) =
      else-success 400 (ltb_ℤ req.smtp_port (pos 0) || ltb_ℤ (pos 65535) req.smtp_port) _ w h in
    let (_, h2) = else-success 400 (is_webhook (trim_space req.slack_bot_token)) _ w h1 in
    let (current, e, h3) = call_or-success 500 get (update_settings env nonces t) w h2 in
    let (row, sealed, h4) =
      call_or-success 500 (lift (next_settings g nonces t current)) (save_next env) (get w).1 h3 in
    let made : next_settings g nonces t current ≡ ok row =
      ap (λ (p : Res NotificationSettings × World). p.0) sealed in
    let (password, token, host, port, username, from) = secrets_ok t _ _ row made in
    let old = reading w e in
    record {
      row = row;
      stored = saved env row (get w).1 w' h4;
      host = host;
      port = port;
      username = username;
      from = from;
      password =
          sealed_secret-read g nonces.for_password current.smtp_password_enc req.smtp_password
            row.smtp_password_enc req.clear_smtp_password sound pn large password
          ∙ ap
              (λ (r : NotificationSettings).
                updated_secret g r.smtp_password_enc req.clear_smtp_password req.smtp_password)
              old;
      token =
          sealed_secret-read g nonces.for_token current.slack_bot_token_enc
            (trim_space req.slack_bot_token) row.slack_bot_token_enc req.clear_slack_token sound tn
            large token
          ∙ ap
              (λ (r : NotificationSettings).
                updated_secret g r.slack_bot_token_enc req.clear_slack_token
                  (trim_space req.slack_bot_token))
              old;
      allowed = allowed;
    }
