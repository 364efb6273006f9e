-- ===== src/Storage/Playground.antt =====
-- The sessions of internal/storage/playground.go, with the constraints of migrations/000003 that
-- their statements can break.
use koto7_tuma.Prelude.{
  ℕ, Text, str, pos, Bool, true, false, not, ◌||◌, Option, List, [], ◌∷◌, ◌++◌, ltb, ◌==◌, length,
  take, find, is_none, keep_if, count_where, update_where, sort_by, if◌then◌else◌,
}
use koto7_tuma.Float.{Float64}
use koto7_tuma.Storage.Env.{Pg}
use koto7_tuma.Storage.Rows.{Connection, PlaygroundSession}
use koto7_tuma.Storage.Connections.{insert_checked}
use koto7_tuma.Storage.Db.{World, Db, Res, ok, err, constraint_error, statement}

unfoldable pub has_playground_id : ℕ → PlaygroundSession → Bool
has_playground_id id ps = ps.id == id

unfoldable pub get_playground_session : ℕ → Db (Option PlaygroundSession)
unfolding has_playground_id
get_playground_session id =
    statement (λ w. (ok (find (has_playground_id id) w.tables.playground_sessions), w))

-- An UPDATE of one session
unfoldable pub change_session : ℕ → (PlaygroundSession → PlaygroundSession) → World → World
unfolding has_playground_id
change_session id f w = record w {
  tables = record w.tables {
    playground_sessions = update_where (has_playground_id id) f w.tables.playground_sessions;
  };
}

unfoldable pub touch_playground_session : ℕ → Db Unit
unfolding change_session
touch_playground_session id =
    statement (λ w. (ok tt, change_session id (λ ps. record ps { last_seen_at = w.now }) w))

unfoldable pub set_playground_fail_destination : ℕ → Bool → Db Unit
unfolding change_session
set_playground_fail_destination id fail = statement λ w.
    (ok tt, change_session id (λ ps. record ps { fail_destination = fail; last_seen_at = w.now }) w)

-- The connection of a new session; `factor` is the float64 2.0.
abbrev pub playground_connection : Float64 → Text → Text → Text → Connection
playground_connection factor path secret_enc dest_url = record {
  id = 0;
  name = str "Playground";
  source_type = str "stripe";
  inbound_path = path;
  destination_url = dest_url;
  signing_secret_enc = secret_enc;
  retry_attempts = pos 3;
  retry_first_delay_s = pos 5;
  retry_backoff_factor = factor;
  retention_days = pos 1;
  is_playground = true;
  created_at = 0;
}

unfoldable pub is_session_of : ℕ → ℕ → PlaygroundSession → Bool
is_session_of id connection ps = ps.id == id || ps.connection_id == connection

-- The second INSERT: neither the identifier nor the connection may have a session. A failure takes
-- the first INSERT back, to the state `before`.
unfoldable pub insert_session_of : World → ℕ → Connection → Db (PlaygroundSession × Connection)
unfolding is_session_of
insert_session_of before id conn w =
    let ps : PlaygroundSession = record {
      id = id;
      connection_id = conn.id;
      fail_destination = false;
      created_at = w.now;
      last_seen_at = w.now;
    } in
    if is_none (find (is_session_of id conn.id) w.tables.playground_sessions)
    then (
      ok (ps, conn),
      record w {
        tables = record w.tables { playground_sessions = w.tables.playground_sessions ++ ps ∷ [] };
      },
    )
    else constraint_error before

abbrev pub session_for :
    World → ℕ → Res Connection × World → Res (PlaygroundSession × Connection) × World
session_for before id (err e, w) = (err e, before)
session_for before id (ok conn, w) = insert_session_of before id conn w

-- Begin, both INSERTs and Commit: nothing is kept unless all of them are.
unfoldable pub create_playground_session :
    Pg → Float64 → ℕ → Text → Text → Text → Db (PlaygroundSession × Connection)
create_playground_session pg two id path secret_enc dest_url = statement λ w.
    session_for w id (
      insert_checked pg (pg.numeric_4_2 two) (playground_connection two path secret_enc dest_url) w)

unfoldable pub count_playground_sessions : Db ℕ
count_playground_sessions = statement (λ w. (ok (length w.tables.playground_sessions), w))

unfoldable pub delete_playground_sessions_older_than : ℕ → Db ℕ
delete_playground_sessions_older_than cutoff = statement λ w. (
  ok (count_where (λ ps. ltb ps.last_seen_at cutoff) w.tables.playground_sessions),
  record w {
    tables = record w.tables {
      playground_sessions =
          keep_if (λ ps. not (ltb ps.last_seen_at cutoff)) w.tables.playground_sessions;
    };
  },
)

-- WHERE id IN (SELECT id … ORDER BY last_seen_at ASC LIMIT n)
unfoldable pub is_among : List PlaygroundSession → PlaygroundSession → Bool
is_among chosen ps = not (is_none (find (λ c. c.id == ps.id) chosen))

unfoldable pub oldest_sessions : ℕ → List PlaygroundSession → List PlaygroundSession
unfolding sort_by
oldest_sessions n sessions = take n (sort_by (λ ps. ps.last_seen_at) sessions)

unfoldable pub evict_oldest_playground_sessions : ℕ → Db ℕ
unfolding is_among oldest_sessions
evict_oldest_playground_sessions n = statement λ w.
    let chosen = oldest_sessions n w.tables.playground_sessions in
    (
      ok (count_where (is_among chosen) w.tables.playground_sessions),
      record w {
        tables = record w.tables {
          playground_sessions =
              keep_if (λ ps. not (is_among chosen ps)) w.tables.playground_sessions;
        };
      },
    )
