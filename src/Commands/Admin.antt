-- ===== src/Commands/Admin.antt =====
-- The user that cmd/tuma/main.go makes at the first start logs in.
use koto7_tuma.Prelude.{◌+◌, ◌≡◌, refl, Text, text_eq_self, ==_self, true, some, [], find}
use koto7_tuma.Storage.Accounts.{
  count_users, create_user, insert_user, has_email, has_user_id, get_user_by_email, create_session,
  insert_session,
}
use koto7_tuma.Storage.Db.{World, ok, ◌>>=◌, attempt, statement, get_now}
use koto7_tuma.Api.Http.{success, ConsoleEnv, call_or, find_or}
use koto7_tuma.Api.Auth.{
  LoginReply, login, login_with, check_password, open_session, session_cookie,
}
use koto7_tuma.Commands.{BootEnv, admin_password, admin_email, bootstrap_with, bootstrap_admin}

-- At a first start whose calls go well, the administrator's password and its hash can be made. Then
-- bootstrapAdmin succeeds, and a login with the administrator's address and password is answered
-- with 200, where bcrypt accepts the password that it hashed.
pub bootstrap_admin-login :
    (boot : BootEnv) (env : ConsoleEnv) (w : World) (pass hash : Text)
    → w.outcomes ≡ []
    → w.tables.users ≡ []
    → admin_password boot ≡ some pass
    → boot.hash_password pass ≡ some hash
    → env.password_matches hash pass ≡ true
    → let (started, w') = bootstrap_admin boot w in
      (started ≡ ok tt)
      × ((reply : LoginReply) × ((login env
              (some (record { email = admin_email boot; password = pass }))
              w').0
            ≡ ok (success 200 reply)))
unfolding bootstrap_admin bootstrap_with count_users create_user insert_user has_email login
    login_with find_or call_or check_password open_session get_user_by_email create_session
    insert_session has_user_id find statement ◌>>=◌ attempt get_now
bootstrap_admin-login boot env w pass hash calm empty chosen hashed accepted =
    let reply : LoginReply = record {
      cookie = session_cookie env (env.server.uuid_text (w.next_id + 1)) (w.now + env.session_ttl);
      email = admin_email boot;
    } in
    rw (calm, empty, chosen, hashed, text_eq_self (admin_email boot), accepted, ==_self w.next_id)
      (refl, (reply, refl))
