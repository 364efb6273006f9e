-- ===== src/Storage/Accounts.antt =====
-- The users and the sessions of internal/storage/store.go, with the constraints of
-- migrations/000001 that their statements can break.
use koto7_tuma.Prelude.{
  ℕ, ◌+◌, Text, text_eq, Bool, not, ◌&&◌, Option, [], ◌∷◌, ◌++◌, ltb, ◌==◌, length, find, is_none,
  keep_if, if◌then◌else◌,
}
use koto7_tuma.Storage.Rows.{User, Session}
use koto7_tuma.Storage.Db.{Db, ok, constraint_error, statement}

unfoldable pub has_email : Text → User → Bool
has_email email u = text_eq u.email email

unfoldable pub has_user_id : ℕ → User → Bool
has_user_id id u = u.id == id

-- No two users share an email address.
unfoldable pub insert_user : User → Db User
unfolding has_email
insert_user u w =
    let made = record u { id = w.next_id; created_at = w.now } in
    if is_none (find (has_email u.email) w.tables.users)
    then (
      ok made,
      record w {
        tables = record w.tables { users = w.tables.users ++ made ∷ [] };
        next_id = w.next_id + 1;
      },
    )
    else constraint_error w

unfoldable pub create_user : User → Db User
create_user u = statement (insert_user u)

unfoldable pub get_user_by_email : Text → Db (Option User)
get_user_by_email email = statement (λ w. (ok (find (has_email email) w.tables.users), w))

-- The user of a session must exist.
unfoldable pub insert_session : Session → Db Session
unfolding has_user_id
insert_session s w =
    let made = record s { id = w.next_id; created_at = w.now } in
    if is_none (find (has_user_id s.user_id) w.tables.users) then constraint_error w else (
      ok made,
      record w {
        tables = record w.tables { sessions = w.tables.sessions ++ made ∷ [] };
        next_id = w.next_id + 1;
      },
    )

unfoldable pub create_session : Session → Db Session
create_session s = statement (insert_session s)

unfoldable pub has_session_id : ℕ → Session → Bool
has_session_id id s = s.id == id

-- WHERE id=$1 AND expires_at > NOW()
unfoldable pub is_live : ℕ → ℕ → Session → Bool
unfolding has_session_id
is_live now id s = has_session_id id s && ltb now s.expires_at

unfoldable pub get_session : ℕ → Db (Option Session)
get_session id = statement (λ w. (ok (find (is_live w.now id) w.tables.sessions), w))

unfoldable pub delete_session : ℕ → Db Unit
unfolding has_session_id
delete_session id = statement λ w. (
  ok tt,
  record w {
    tables = record w.tables {
      sessions = keep_if (λ s. not (has_session_id id s)) w.tables.sessions;
    };
  },
)

unfoldable pub count_users : Db ℕ
count_users = statement (λ w. (ok (length w.tables.users), w))
