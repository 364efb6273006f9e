-- ===== src/Commands.antt =====
-- cmd/tuma/main.go: the first user, the connection to Temporal and the retention loop's one round.
pub mod Admin
use koto7_tuma.Prelude.{
  ℕ, zero, suc, ◌+◌, ◌*◌, Text, str, is_empty, hex_encode, Bool, Option, none, some, [], ◌∷◌, ltb,
  if◌then◌else◌,
}
use koto7_tuma.Workflow.{second}
use koto7_tuma.Storage.Rows.{User}
use koto7_tuma.Storage.Accounts.{count_users, create_user}
use koto7_tuma.Storage.Retention.{purge_expired_events}
use koto7_tuma.Storage.Db.{
  Db, Res, ok, err, crypto_error, pure, fail, ◌>>=◌, ◌>>◌, attempt, ignore_error, get_now, sleep,
}
use koto7_tuma.Config.{Environment, env_or}

-- What bootstrapAdmin uses: the environment, bcrypt.GenerateFromPassword, and 24 bytes of
-- crypto/rand; `none` is an error.
pub record BootEnv : Type 0 where
  pub environ : Environment
  pub hash_password : Text → Option Text
  pub random_bytes : Option Text

abbrev pub hex_of : Option Text → Option Text
hex_of none = none
hex_of (some bytes) = some (hex_encode bytes)

-- The password of the environment, or a generated one.
unfoldable pub admin_password : BootEnv → Option Text
admin_password env =
    let pass = env.environ (str "TUMA_ADMIN_PASSWORD") in
    if is_empty pass then hex_of env.random_bytes else some pass

unfoldable pub admin_email : BootEnv → Text
admin_email env = env_or env.environ (str "TUMA_ADMIN_EMAIL") (str "admin@localhost")

abbrev pub new_user : Text → Text → User
new_user email hash = record { id = 0; email = email; password_hash = hash; created_at = 0 }

abbrev pub create_hashed : BootEnv → Option Text → Db Unit
create_hashed env none = fail crypto_error
create_hashed env (some hash) = do user ← create_user (new_user (admin_email env) hash); pure tt

abbrev pub create_admin : BootEnv → Option Text → Db Unit
create_admin env none = fail crypto_error
create_admin env (some pass) = create_hashed env (env.hash_password pass)

unfoldable pub bootstrap_with : BootEnv → ℕ → Db Unit
bootstrap_with env zero = create_admin env (admin_password env)
bootstrap_with env (suc n) = pure tt

unfoldable pub bootstrap_admin : BootEnv → Db Unit
bootstrap_admin env = do n ← count_users; bootstrap_with env n

-- One round of the retention loop; an error is logged.
unfoldable pub retention_round : Db Unit
retention_round = do ignore_error purge_expired_events; pure tt
