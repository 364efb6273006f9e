-- ===== src/Storage/Connections.antt =====
-- The connections of internal/storage/store.go, with the constraints of migrations/000001 and
-- 000002 that its statements can break.
use koto7_tuma.Prelude.{
  ℕ, is_none, or_keep, ◌+◌, Text, ℤ, pos_part, str, text_eq, Bool, not, ◌&&◌, ◌||◌, Option, none,
  some, List, [], ◌∷◌, ◌++◌, ltb, ◌==◌, find, keep_if, update_where, reverse, if◌then◌else◌,
}
use koto7_tuma.Float.{Float64}
use koto7_tuma.Storage.Env.{Pg}
use koto7_tuma.Storage.Rows.{Connection}
use koto7_tuma.Storage.Db.{Db, ok, err, no_rows, pure, constraint_error, ◌>>=◌, ◌>>◌, statement}

unfoldable pub is_source_type : Text → Bool
is_source_type t =
    text_eq t (str "stripe")
    || text_eq t (str "github")
    || text_eq t (str "easypost")
    || text_eq t (str "generic_hmac")
    || text_eq t (str "internal")

unfoldable pub has_connection_id : ℕ → Connection → Bool
has_connection_id id c = c.id == id

unfoldable pub has_inbound_path : Text → Connection → Bool
has_inbound_path path c = text_eq c.inbound_path path

-- The CHECK constraints on the columns that an UPDATE of UpdateConnection writes.
unfoldable pub passes_checks : Pg → Connection → Bool
passes_checks pg c =
    ltb 0 (pos_part c.retry_attempts)
    && ltb 0 (pos_part c.retry_first_delay_s)
    && pg.at_least_one c.retry_backoff_factor
    && ltb 0 (pos_part c.retention_days)

-- The row of an INSERT, if no constraint is broken. The column keeps the rounded factor, and `c`
-- the factor that it came with.
unfoldable pub insert_checked : Pg → Option Float64 → Connection → Db Connection
unfolding is_source_type passes_checks has_inbound_path
insert_checked pg none c w = constraint_error w
insert_checked pg (some factor) c w =
    let made = record c { id = w.next_id; created_at = w.now } in
    let row = record made { retry_backoff_factor = factor } in
    if is_none (find (has_inbound_path c.inbound_path) w.tables.connections)
      && is_source_type c.source_type
      && passes_checks pg row
    then (
      ok made,
      record w {
        tables = record w.tables { connections = w.tables.connections ++ row ∷ [] };
        next_id = w.next_id + 1;
      },
    )
    else constraint_error w

-- `c` comes back with the identifier and the time that the row got.
unfoldable pub create_connection : Pg → Connection → Db Connection
unfolding insert_checked
create_connection pg c = statement (insert_checked pg (pg.numeric_4_2 c.retry_backoff_factor) c)

-- ORDER BY created_at DESC: the newest row first.
unfoldable pub list_connections : Db (List Connection)
list_connections =
    statement (λ w. (ok (reverse (keep_if (λ c. not c.is_playground) w.tables.connections)), w))

unfoldable pub get_connection : ℕ → Db (Option Connection)
unfolding has_connection_id
get_connection id = statement (λ w. (ok (find (has_connection_id id) w.tables.connections), w))

unfoldable pub get_connection_by_inbound_path : Text → Db (Option Connection)
unfolding has_inbound_path
get_connection_by_inbound_path path =
    statement (λ w. (ok (find (has_inbound_path path) w.tables.connections), w))

-- The columns that the UPDATE of UpdateConnection sets.
abbrev pub set_settings : Connection → Float64 → Connection → Connection
set_settings c factor row = record row {
  name = c.name;
  destination_url = c.destination_url;
  retry_attempts = c.retry_attempts;
  retry_first_delay_s = c.retry_first_delay_s;
  retry_backoff_factor = factor;
  retention_days = c.retention_days;
}

unfoldable pub write_settings : Pg → Option Float64 → ℕ → Connection → Db Unit
unfolding passes_checks has_connection_id
write_settings pg none id c w = constraint_error w
write_settings pg (some factor) id c w =
    if passes_checks pg (record c { retry_backoff_factor = factor })
    then (
      ok tt,
      record w {
        tables = record w.tables {
          connections =
              update_where (has_connection_id id) (set_settings c factor) w.tables.connections;
        };
      },
    )
    else constraint_error w

-- The fields of a PATCH; `none` is a nil pointer.
pub record ConnectionPatch : Type 0 where
  pub name : Option Text
  pub destination_url : Option Text
  pub retry_attempts : Option ℤ
  pub retry_first_delay_s : Option ℤ
  pub retry_backoff_factor : Option Float64
  pub retention_days : Option ℤ

abbrev pub patched : ConnectionPatch → Connection → Connection
patched p c = record c {
  name = or_keep p.name c.name;
  destination_url = or_keep p.destination_url c.destination_url;
  retry_attempts = or_keep p.retry_attempts c.retry_attempts;
  retry_first_delay_s = or_keep p.retry_first_delay_s c.retry_first_delay_s;
  retry_backoff_factor = or_keep p.retry_backoff_factor c.retry_backoff_factor;
  retention_days = or_keep p.retention_days c.retention_days;
}

unfoldable pub update_found : Pg → ℕ → ConnectionPatch → Option Connection → Db (Option Connection)
unfolding write_settings
update_found pg id p none = pure none
update_found pg id p (some c) = do
  let c' = patched p c
  statement (write_settings pg (pg.numeric_4_2 c'.retry_backoff_factor) id c')
  pure (some c')

unfoldable pub update_connection : Pg → ℕ → ConnectionPatch → Db (Option Connection)
unfolding update_found
update_connection pg id p = do c ← get_connection id; update_found pg id p c

unfoldable pub write_secret : ℕ → Text → Option Connection → Db Unit
unfolding has_connection_id
write_secret id enc none w = (err no_rows, w)
write_secret id enc (some _) w = (
  ok tt,
  record w {
    tables = record w.tables {
      connections =
          update_where (has_connection_id id) (λ c. record c { signing_secret_enc = enc })
            w.tables.connections;
    };
  },
)

-- An UPDATE that affects no row is ErrNoRows.
unfoldable pub update_connection_secret : ℕ → Text → Db Unit
unfolding write_secret has_connection_id
update_connection_secret id enc =
    statement (λ w. write_secret id enc (find (has_connection_id id) w.tables.connections) w)

-- storage/playground.go
unfoldable pub write_source_type : ℕ → Text → Db Unit
unfolding is_source_type has_connection_id
write_source_type id source_type w =
    if is_source_type source_type
    then (
      ok tt,
      record w {
        tables = record w.tables {
          connections =
              update_where (has_connection_id id) (λ c. record c { source_type = source_type })
                w.tables.connections;
        };
      },
    )
    else constraint_error w

unfoldable pub update_connection_source_type : ℕ → Text → Db Unit
unfolding write_source_type
update_connection_source_type id source_type = statement (write_source_type id source_type)
