-- ===== src/Api/Auth/Laws.antt =====
-- The life of a session of internal/api/handlers.go: from login to logout.
use koto7_tuma.Prelude.{
  ℕ, negsuc, ◌+◌, ◌<◌, ◌≡◌, refl, sym, ap, ◌∙◌, Text, true, not, Option, none, some, List, [], ◌∷◌,
  ◌++◌, find, find-passes, keep_if, arith, Bool-cases, inl, inr,
}
use koto7_tuma.Storage.Rows.{User, Session, Tables}
use koto7_tuma.Storage.Accounts.{
  get_user_by_email, has_email, insert_session, create_session, has_session_id, is_live,
  get_session, delete_session,
}
use koto7_tuma.Storage.Db.{
  World, Db, ok, pure, ◌>>=◌, ◌>>◌, attempt, statement, ignore_error, get_now, statement-ok,
}
use koto7_tuma.Api.Http.{Answer, success, refusal, ConsoleEnv, unless_none, find_or}
use koto7_tuma.Api.Answers.{Succeeds, call_or-success, find_or-success, then-success}
use koto7_tuma.Api.Auth.{
  LoginRequest, LoginReply, Cookie, login, login_with, check_password, open_session, new_session,
  logged_in, session_cookie, session_id_of, logout, delete_named, admit, auth,
}

-- A session that is gone from the table is not found, at any time.
not_live :
    (now id : ℕ) (ss : List Session)
    → find (is_live now id) (keep_if (λ s. not (has_session_id id s)) ss) ≡ none
unfolding find keep_if is_live
not_live now id [] = refl
not_live now id (s ∷ ss) = ground (arith, not_live now id ss)

refused :
    {A : Type 0} (next : Db (Answer A)) (id : Option ℕ) (w : World)
    → w.outcomes ≡ []
    → (unless_none 401 (admit next) id (delete_named id w).1).0 ≡ ok (refusal 401)
unfolding admit find_or ignore_error delete_session get_session statement ◌>>=◌ attempt
refused next none w calm = refl
refused next (some id) w calm = rw (calm, not_live w.now id w.tables.sessions) refl

-- Where all calls go well, a request with the cookie of a session that was just logged out is
-- refused with 401, whatever handler the session would have let it reach.
pub auth-logout :
    {A : Type 0} (env : ConsoleEnv) (cookie : Option Text) (next : Db (Answer A)) (w : World)
    → w.outcomes ≡ []
    → (auth env next cookie (logout env cookie w).1).0 ≡ ok (refusal 401)
unfolding auth logout ◌>>=◌ ignore_error
auth-logout env cookie next w calm =
    by_id (success 204 (record (session_cookie env [] 0) { max_age = negsuc 0 }))
      (session_id_of env cookie)
  where
    by_id :
        (a : Answer Cookie) (id : Option ℕ)
        → (unless_none 401 (admit next) id ((delete_named id >> pure a) w).1).0 ≡ ok (refusal 401)
    by_id a none = refused next none w calm
    by_id a (some id) = refused next (some id) w calm

-- What a login of `req` that is answered with `reply` has done to the database.
pub record IsLogin (env : ConsoleEnv) (req : LoginRequest) (reply : LoginReply) (w w' : World)
    : Type 0 where
  pub user : User
  pub known : has_email req.email user ≡ true
  pub matches : env.password_matches user.password_hash req.password ≡ true
  pub session : Session
  pub owner : session.user_id ≡ user.id
  pub expiry : session.expires_at ≡ w.now + env.session_ttl
  pub stored : w'.tables.sessions ≡ w.tables.sessions ++ session ∷ []
  pub cookie :
      reply.cookie ≡ session_cookie env (env.server.uuid_text session.id) session.expires_at

inserted :
    (s s' : Session) (w w' : World)
    → insert_session s w ≡ (ok s', w')
    → (s'.user_id ≡ s.user_id)
      × (s'.expires_at ≡ s.expires_at)
      × (w'.tables.sessions ≡ w.tables.sessions ++ s' ∷ [])
unfolding insert_session
inserted s s' w w' h = ground (arith, h)

find_user :
    (email : Text) (w : World) {u : User} {w' : World}
    → get_user_by_email email w ≡ (ok (some u), w')
    → (has_email email u ≡ true) × (w'.tables ≡ w.tables) × (w'.now ≡ w.now)
unfolding get_user_by_email
find_user email w {u} {w'} h =
    let (o, e) = statement-ok (λ v. (ok (find (has_email email) v.tables.users), v)) w h in
    let found : find (has_email email) w.tables.users ≡ some u = ground (arith, e) in
    let same : record w { outcomes = o } ≡ w' = ground (arith, e) in
    (
      find-passes (has_email email) w.tables.users found,
      ap (λ (v : World). v.tables) (sym same),
      ap (λ (v : World). v.now) (sym same),
    )

opened_by :
    (env : ConsoleEnv) (req : LoginRequest) (user : User) (w w' : World) {code : ℕ}
    {reply : LoginReply}
    → has_email req.email user ≡ true
    → Succeeds (check_password env req.password user) w code reply w'
    → IsLogin env req reply w w'
unfolding check_password open_session create_session ◌>>=◌ get_now
opened_by env req user w w' {code} {reply} known h =
    let (right, opening) =
      then-success 401 (env.password_matches user.password_hash req.password)
        (open_session env user) w h in
    let made = new_session user.id (w.now + env.session_ttl) in
    let (sess, e, answered) =
      call_or-success 500 (statement (insert_session made)) (logged_in env user) w opening in
    let (o, run) = statement-ok (insert_session made) w e in
    let (owner, expiry, stored) = inserted made sess (record w { outcomes = o }) _ run in
    let same : (statement (insert_session made) w).1 ≡ w' = ground (arith, answered) in
    let shown : record {
      cookie = session_cookie env (env.server.uuid_text sess.id) sess.expires_at;
      email = user.email;
    }
        ≡ reply =
      ground (arith, answered) in
    record {
      user = user;
      known = known;
      matches = right;
      session = sess;
      owner = owner;
      expiry = expiry;
      stored = ap (λ (v : World). v.tables.sessions) (sym same) ∙ stored;
      cookie = ap (λ (r : LoginReply). r.cookie) (sym shown);
    }

-- A login that is answered with success has the email address of a user whose password hash
-- matches the password. It has added one session of that user, which expires a session's lifetime
-- after the login, and the cookie of the reply carries its identifier.
pub login-IsLogin :
    (env : ConsoleEnv) (req : LoginRequest) (w w' : World) {code : ℕ} {reply : LoginReply}
    → Succeeds (login env (some req)) w code reply w'
    → IsLogin env req reply w w'
unfolding login login_with
login-IsLogin env req w w' h =
    let get = get_user_by_email req.email in
    let (user, e, checked) = find_or-success 401 get (check_password env req.password) w h in
    let (known, tables, now) = find_user req.email w e in
    let l = opened_by env req user (get w).1 w' known checked in
    record {
      user = l.user;
      known = l.known;
      matches = l.matches;
      session = l.session;
      owner = l.owner;
      expiry = l.expiry ∙ ap (λ n. n + env.session_ttl) now;
      stored = l.stored ∙ ap (λ (t : Tables). t.sessions ++ l.session ∷ []) tables;
      cookie = l.cookie;
    }

live_last :
    (now : ℕ) (ss : List Session) (s : Session)
    → now < s.expires_at
    → (found : Session) × (find (is_live now s.id) (ss ++ s ∷ []) ≡ some found)
unfolding find is_live has_session_id
live_last now [] s h = (s, ground (arith, h))
live_last now (t ∷ ss) s h =
    let (rest, e) = live_last now ss s h in
    elim (Bool-cases (is_live now s.id t)) [
      | inl live ↦ (t, ground (arith, live))
      | inr other ↦ (rest, ground (arith, e, other))
    ]

admitted :
    {A : Type 0} (next : Db (Answer A)) (id : ℕ) (w : World) {s : Session}
    → w.outcomes ≡ []
    → find (is_live w.now id) w.tables.sessions ≡ some s
    → admit next id w ≡ next w
unfolding admit find_or get_session statement ◌>>=◌ attempt
admitted next id w calm found = rw (calm, found) refl

-- After a login that is answered with success, a request with its cookie reaches its handler at any
-- time before the session's lifetime is over, where its calls go well and uuid.Parse reads what
-- UUID.String prints.
pub login-auth :
    {A : Type 0} (env : ConsoleEnv) (req : LoginRequest) (w w' : World) {code : ℕ}
    {reply : LoginReply} (next : Db (Answer A)) (t : ℕ)
    → Succeeds (login env (some req)) w code reply w'
    → ((id : ℕ) → env.parse_uuid (env.server.uuid_text id) ≡ some id)
    → t < w.now + env.session_ttl
    → let later = record w' { now = t; outcomes = [] } in
      auth env next (some reply.cookie.value) later ≡ next later
unfolding auth session_cookie
login-auth env req w w' {reply = reply} next t h parses early =
    let l = login-IsLogin env req w w' h in
    let later = record w' { now = t; outcomes = [] } in
    let (s, found) = live_last t w.tables.sessions l.session (omega (arith, l.expiry, early)) in
    let value : env.parse_uuid reply.cookie.value ≡ some l.session.id =
      ap (λ (c : Cookie). env.parse_uuid c.value) l.cookie ∙ parses l.session.id in
    rw (value) (
      admitted next l.session.id later refl
        (ap (λ ss. find (is_live t l.session.id) ss) l.stored ∙ found))
