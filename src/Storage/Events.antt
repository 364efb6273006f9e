-- ===== src/Storage/Events.antt =====
-- The events of internal/storage/store.go and their sealed fields, of event_crypto.go.
use koto7_tuma.Prelude.{
  ℕ, ◌+◌, Text, text_eq, Bool, true, false, ◌&&◌, Option, none, some, [], ◌∷◌, ◌++◌, ◌==◌, find,
  is_none, update_where, if◌then◌else◌,
}
use koto7_tuma.Crypto.{Gcm, encrypt_bytes, decrypt_bytes}
use koto7_tuma.Storage.Env.{StoreEnv}
use koto7_tuma.Storage.Rows.{Event}
use koto7_tuma.Storage.Connections.{has_connection_id}
use koto7_tuma.Storage.Db.{Db, Res, ok, err, pure, constraint_error, ◌>>=◌, statement}

abbrev pub lift : {A : Type 0} → Res A → Db A
lift r w = (r, w)

-- The two reads of crypto/rand that sealing the fields of an event makes.
pub record Nonces : Type 0 where
  pub for_headers : Option Text
  pub for_payload : Option Text

-- What sealEventFields returns, and openEventFields.
abbrev pub Fields : Type 0
Fields = record { headers : Text; payload : Text }

unfoldable pub both : Res Text → Res Text → Res Fields
both (err e) p = err e
both (ok h) (err e) = err e
both (ok h) (ok p) = ok (record { headers = h; payload = p })

unfoldable pub seal_event_fields : Option Gcm → Nonces → Text → Text → Res Fields
unfolding both
seal_event_fields none n headers payload = ok (record { headers = headers; payload = payload })
seal_event_fields (some g) n headers payload =
    both (encrypt_bytes g n.for_headers headers) (encrypt_bytes g n.for_payload payload)

unfoldable pub open_event_fields : Option Gcm → Text → Text → Bool → Res Fields
unfolding both
open_event_fields none headers payload encrypted =
    ok (record { headers = headers; payload = payload })
open_event_fields (some g) headers payload false =
    ok (record { headers = headers; payload = payload })
open_event_fields (some g) headers payload true =
    both (decrypt_bytes g headers) (decrypt_bytes g payload)

unfoldable pub has_event_id : ℕ → Event → Bool
has_event_id id e = e.id == id

unfoldable pub has_provider_id : ℕ → Text → Event → Bool
has_provider_id conn provider e = e.connection_id == conn && text_eq e.provider_event_id provider

abbrev pub with_fields : Event → Res Fields → Res (Option Event)
with_fields e (err x) = err x
with_fields e (ok f) = ok (some (record e { raw_headers = f.headers; raw_payload = f.payload }))

-- scanEvent, of the row that the query found.
unfoldable pub scan_event : StoreEnv → Option Event → Res (Option Event)
scan_event env none = ok none
scan_event env (some e) =
    with_fields e
      (open_event_fields env.payload_enc e.raw_headers e.raw_payload e.payload_encrypted)

unfoldable pub get_event_by_provider_id : StoreEnv → ℕ → Text → Db (Option Event)
get_event_by_provider_id env conn provider = do
  row ← statement (λ w. (ok (find (has_provider_id conn provider) w.tables.events), w))
  lift (scan_event env row)

unfoldable pub get_event : StoreEnv → ℕ → Db (Option Event)
get_event env id = do
  row ← statement (λ w. (ok (find (has_event_id id) w.tables.events), w))
  lift (scan_event env row)

-- `event` is nil where a conflicting row went away before it could be read.
pub record InsertEventResult : Type 0 where
  pub event : Option Event
  pub inserted : Bool

-- INSERT … ON CONFLICT DO NOTHING RETURNING id, received_at: `none` is no row. The event's
-- connection must exist.
unfoldable pub insert_event_row : Event → Fields → Db (Option Event)
unfolding has_provider_id has_connection_id
insert_event_row e sealed w =
    let made = record e { id = w.next_id; received_at = w.now } in
    let row = record made {
      raw_headers = sealed.headers;
      raw_payload = sealed.payload;
      payload_encrypted = true;
    } in
    if is_none (find (has_connection_id e.connection_id) w.tables.connections)
    then constraint_error w
    else if is_none (find (has_provider_id e.connection_id e.provider_event_id) w.tables.events)
    then (
      ok (some made),
      record w {
        tables = record w.tables { events = w.tables.events ++ row ∷ [] };
        next_id = w.next_id + 1;
      },
    )
    else (ok none, w)

unfoldable pub insert_outcome : StoreEnv → Event → Option Event → Db InsertEventResult
insert_outcome env e (some made) = pure (record { event = some made; inserted = true })
insert_outcome env e none = do
  existing ← get_event_by_provider_id env e.connection_id e.provider_event_id
  pure (record { event = existing; inserted = false })

unfoldable pub insert_event : StoreEnv → Nonces → Event → Db InsertEventResult
insert_event env nonces e = do
  sealed ← lift (seal_event_fields env.payload_enc nonces e.raw_headers e.raw_payload)
  made ← statement (insert_event_row e sealed)
  insert_outcome env e made

unfoldable pub set_event_workflow_id : ℕ → Text → Db Unit
unfolding has_event_id
set_event_workflow_id id workflow_id = statement λ w. (
  ok tt,
  record w {
    tables = record w.tables {
      events =
          update_where (has_event_id id) (λ e. record e { workflow_id = some workflow_id })
            w.tables.events;
    };
  },
)
