-- ===== src/Storage/Retention.antt =====
-- internal/storage/event_crypto.go: the backfill of the encryption, and the purge of events whose
-- retention is over.
pub mod Backfill
pub mod Purge
use koto7_tuma.Prelude.{
  ℕ, ◌+◌, ◌-◌, ◌*◌, Text, Bool, true, false, not, ◌&&◌, Option, none, some, List, [], ◌∷◌, pos_part,
  neg_part, ltb, length, count_where, find, is_none, keep_if, update_where, if◌then◌else◌,
}
use koto7_tuma.Crypto.{Gcm}
use koto7_tuma.Storage.Env.{StoreEnv}
use koto7_tuma.Storage.Rows.{Connection, Event, Delivery, Issue, Tables}
use koto7_tuma.Storage.Connections.{has_connection_id}
use koto7_tuma.Storage.Events.{Nonces, Fields, seal_event_fields, has_event_id, lift}
use koto7_tuma.Storage.Db.{World, Db, ok, pure, ◌>>=◌, ◌>>◌, statement}

abbrev pub day : ℕ
day = 24 * 3600 * 1000000000

-- e.received_at < NOW() - (c.retention_days * INTERVAL '1 day')
unfoldable pub is_past : ℕ → Event → Option Connection → Bool
is_past now e none = false
is_past now e (some c) =
    ltb (e.received_at + pos_part c.retention_days * day) (now + neg_part c.retention_days * day)

unfoldable pub is_expired : World → Event → Bool
unfolding is_past has_connection_id
is_expired w e = is_past w.now e (find (has_connection_id e.connection_id) w.tables.connections)

unfoldable pub is_expired_id : World → ℕ → Bool
unfolding has_event_id
is_expired_id w id = not (is_none (find (λ e. has_event_id id e && is_expired w e) w.tables.events))

-- The deliveries and the issues of a deleted event go with it (ON DELETE CASCADE).
unfoldable pub purged : World → Tables
purged w = record w.tables {
  events = keep_if (λ e. not (is_expired w e)) w.tables.events;
  deliveries = keep_if (λ d. not (is_expired_id w d.event_id)) w.tables.deliveries;
  issues = keep_if (λ i. not (is_expired_id w i.event_id)) w.tables.issues;
}

unfoldable pub purge_expired_events : Db ℕ
unfolding purged
purge_expired_events =
    statement
      (λ w. (ok (count_where (is_expired w) w.tables.events), record w { tables = purged w }))

abbrev pub set_sealed : Fields → Event → Event
set_sealed f e = record e {
  raw_headers = f.headers;
  raw_payload = f.payload;
  payload_encrypted = true;
}

-- The UPDATE of one row gives the number of rows that it affects.
unfoldable pub write_sealed : ℕ → Fields → Db ℕ
unfolding has_event_id
write_sealed id f = statement λ w. (
  ok (count_where (has_event_id id) w.tables.events),
  record w {
    tables = record w.tables {
      events = update_where (has_event_id id) (set_sealed f) w.tables.events;
    };
  },
)

-- The loop over the rows; `nonces` gives the random bytes that are read for an event.
unfoldable pub seal_rows : StoreEnv → (ℕ → Nonces) → ℕ → List Event → Db ℕ
seal_rows env nonces count [] = pure count
seal_rows env nonces count (e ∷ es) = do
  f ← lift (seal_event_fields env.payload_enc (nonces e.id) e.raw_headers e.raw_payload)
  n ← write_sealed e.id f
  seal_rows env nonces (count + n) es

unfoldable pub backfill_with : StoreEnv → (ℕ → Nonces) → Option Gcm → Db ℕ
backfill_with env nonces none = pure 0
backfill_with env nonces (some _) = do
  rows ← statement (λ w. (ok (keep_if (λ e. not e.payload_encrypted) w.tables.events), w))
  seal_rows env nonces 0 rows

-- The count that comes with an error is only logged, and is left out.
unfoldable pub backfill_payload_encryption : StoreEnv → (ℕ → Nonces) → Db ℕ
backfill_payload_encryption env nonces = backfill_with env nonces env.payload_enc
