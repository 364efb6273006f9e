-- ===== src/Api/Auth.antt =====
-- The sessions of the console, in internal/api/handlers.go: login, logout and auth.
pub mod Laws
use koto7_tuma.Prelude.{
  ℕ, ◌+◌, ℤ, pos, negsuc, Text, str, has_prefix, Bool, Option, none, some, [], if◌then◌else◌,
}
use koto7_tuma.Storage.Rows.{User, Session}
use koto7_tuma.Storage.Accounts.{get_user_by_email, create_session, get_session, delete_session}
use koto7_tuma.Storage.Db.{Db, pure, ◌>>=◌, ◌>>◌, ignore_error, get_now}
use koto7_tuma.Api.Http.{Answer, success, refusal, ConsoleEnv, unless_none, call_or, find_or}

pub record LoginRequest : Type 0 where
  pub email : Text
  pub password : Text

-- The fields of http.Cookie that differ; Path is `/`, HttpOnly is set and SameSite is Lax.
pub record Cookie : Type 0 where
  pub name : Text
  pub value : Text
  pub expires : ℕ
  pub max_age : ℤ
  pub secure : Bool

unfoldable pub session_cookie : ConsoleEnv → Text → ℕ → Cookie
session_cookie env value expires = record {
  name = env.session_cookie_name;
  value = value;
  expires = expires;
  max_age = pos 0;
  secure = has_prefix env.public_base_url (str "https://");
}

-- The cookie and the email address of a reply.
pub record LoginReply : Type 0 where
  pub cookie : Cookie
  pub email : Text

abbrev pub new_session : ℕ → ℕ → Session
new_session user_id expires_at = record {
  id = 0;
  user_id = user_id;
  created_at = 0;
  expires_at = expires_at;
}

abbrev pub logged_in : ConsoleEnv → User → Session → Db (Answer LoginReply)
logged_in env user sess = pure (
    success 200 (record {
      cookie = session_cookie env (env.server.uuid_text sess.id) sess.expires_at;
      email = user.email;
    }))

unfoldable pub open_session : ConsoleEnv → User → Db (Answer LoginReply)
open_session env user = do
  now ← get_now
  call_or 500 (create_session (new_session user.id (now + env.session_ttl))) (logged_in env user)

unfoldable pub check_password : ConsoleEnv → Text → User → Db (Answer LoginReply)
check_password env password user =
    if env.password_matches user.password_hash password
    then open_session env user
    else pure (refusal 401)

unfoldable pub login_with : ConsoleEnv → LoginRequest → Db (Answer LoginReply)
login_with env req = find_or 401 (get_user_by_email req.email) (check_password env req.password)

unfoldable pub login : ConsoleEnv → Option LoginRequest → Db (Answer LoginReply)
login env body = unless_none 400 (login_with env) body

-- What the cookie of a request says, `none` where it is missing or no identifier.
abbrev pub session_id_of : ConsoleEnv → Option Text → Option ℕ
session_id_of env none = none
session_id_of env (some value) = env.parse_uuid value

abbrev pub delete_named : Option ℕ → Db Unit
delete_named none = pure tt
delete_named (some id) = ignore_error (delete_session id)

unfoldable pub logout : ConsoleEnv → Option Text → Db (Answer Cookie)
logout env cookie = do
  delete_named (session_id_of env cookie)
  pure (success 204 (record (session_cookie env [] 0) { max_age = negsuc 0 }))

-- The handler `next` runs only for a session that has not expired.
unfoldable pub admit : {A : Type 0} → Db (Answer A) → ℕ → Db (Answer A)
admit next id = find_or 401 (get_session id) (λ _. next)

unfoldable pub auth : {A : Type 0} → ConsoleEnv → Db (Answer A) → Option Text → Db (Answer A)
auth env next cookie = unless_none 401 (admit next) (session_id_of env cookie)
