-- ===== src/Tests/Sessions.antt =====
-- A user logs in, is admitted, and logs out.
use koto7_tuma.Prelude.{true, none, ◌≡◌, refl, ℕ, str, text_eq, some, [], ◌∷◌, find, arith}
use koto7_tuma.Storage.Rows.{User, Session}
use koto7_tuma.Storage.AlertRules.{delete_alert_rule, delete_rule_row, has_rule_id}
use koto7_tuma.Storage.Accounts.{
  get_session, is_live, has_session_id, get_user_by_email, has_email, has_user_id, create_session,
  insert_session,
}
use koto7_tuma.Storage.Db.{World, Db, ok, pure, ◌>>=◌, attempt, statement, get_now}
use koto7_tuma.Api.Http.{Answer, success, refusal, call_or, find_or}
use koto7_tuma.Api.Answers.{Succeeds}
use koto7_tuma.Api.Auth.{
  LoginRequest, LoginReply, login, login_with, check_password, open_session, session_cookie, logout,
  auth, admit,
}
use koto7_tuma.Api.Rules.{deletion, rule_call, delete_rule}
use koto7_tuma.Api.Rules.Refused.{rule_call-refused}
use koto7_tuma.Api.Auth.Laws.{IsLogin, login-IsLogin, login-auth, auth-logout}
use koto7_tuma.Commands.{BootEnv, admin_password, admin_email, bootstrap_admin}
use koto7_tuma.Commands.Admin.{bootstrap_admin-login}
use koto7_tuma.Tests.Data.{console, world}

abbrev alice : User
alice = record { id = 9; email = str "a@shop.test"; password_hash = str "pw"; created_at = 0 }

abbrev door : World
door = record world { tables = record world.tables { users = alice ∷ [] } }

abbrev credentials : LoginRequest
credentials = record { email = str "a@shop.test"; password = str "pw" }

abbrev opened : Session
opened = record { id = 50; user_id = 9; created_at = 1000; expires_at = 1500 }

abbrev inside : World
inside = record door { tables = record door.tables { sessions = opened ∷ [] }; next_id = 51 }

abbrev reply : LoginReply
reply = record { cookie = session_cookie console (50 ∷ []) 1500; email = str "a@shop.test" }

logged_in : Succeeds (login console (some credentials)) door 200 reply inside
unfolding login login_with find_or call_or check_password open_session get_user_by_email has_email
    has_user_id create_session insert_session statement ◌>>=◌ attempt get_now find str text_eq
logged_in = refl

login-IsLogin_example : IsLogin console credentials reply door inside
login-IsLogin_example = login-IsLogin console credentials door inside logged_in

abbrev page : Db (Answer ℕ)
page = pure (success 200 7)

abbrev later : World
later = record inside { now = 1400; outcomes = [] }

login-auth_example : auth console page (some reply.cookie.value) later ≡ page later
login-auth_example =
    login-auth console credentials door inside page 1400 logged_in (λ id. refl) (omega arith)

auth-logout_example :
    (auth console page (some (50 ∷ [])) (logout console (some (50 ∷ [])) inside).1).0
    ≡ ok (refusal 401)
auth-logout_example = auth-logout console (some (50 ∷ [])) page inside refl

missing : (rule_call console (some (50 ∷ [])) (deletion (7 ∷ [])) inside).0 ≡ ok 404
unfolding rule_call auth admit find_or get_session is_live has_session_id delete_rule
    delete_alert_rule delete_rule_row has_rule_id statement ◌>>=◌ attempt find
missing = refl

rule_call-refused_example :
    (rule_call console (some (50 ∷ [])) (deletion (7 ∷ [])) inside).1.tables ≡ inside.tables
rule_call-refused_example =
    rule_call-refused console (some (50 ∷ [])) (deletion (7 ∷ [])) inside 404 missing (omega arith)
      (omega arith)

-- The first start, with a password in the environment
abbrev boot : BootEnv
boot = record { environ = λ name. str "pw"; hash_password = some; random_bytes = none }

abbrev empty : World
empty = record world { tables = record world.tables { users = [] } }

chosen : admin_password boot ≡ some (str "pw")
unfolding admin_password str
chosen = refl

same_password : console.password_matches (str "pw") (str "pw") ≡ true
unfolding text_eq str
same_password = refl

bootstrap_admin-login_example :
    ((bootstrap_admin boot empty).0 ≡ ok tt)
    × ((r : LoginReply) × ((login console
            (some (record { email = admin_email boot; password = str "pw" }))
            (bootstrap_admin boot empty).1).0
          ≡ ok (success 200 r)))
bootstrap_admin-login_example =
    bootstrap_admin-login boot console empty (str "pw") (str "pw") refl refl chosen refl
      same_password
