-- ===== src/Api/Ingest.antt =====
-- The inbound path of internal/api/server.go: getCachedConnection and ingest, and startReplay. The
-- counters of Prometheus and the log are left out: nothing reads them.
pub mod Lookups
pub mod Cached
pub mod Acked
pub mod Again
use koto7_tuma.Prelude.{
  ℕ, ◌+◌, ◌*◌, Text, str, text_eq, Bool, true, false, not, Option, none, some, List, [], ◌∷◌, ◌++◌,
  ltb, length, find, keep_if, if◌then◌else◌,
}
use koto7_tuma.Crypto.{Gcm, decrypt_bytes}
use koto7_tuma.Storage.Env.{StoreEnv}
use koto7_tuma.Storage.Rows.{Connection, Event}
use koto7_tuma.Storage.Db.{
  World, Db, Res, ok, err, Err, pure, fail, ◌>>=◌, ◌>>◌, attempt, ignore_error, get_now, remote,
  start_workflow, Start,
}
use koto7_tuma.Storage.Connections.{get_connection_by_inbound_path}
use koto7_tuma.Storage.Events.{Nonces, InsertEventResult, insert_event, set_event_workflow_id, lift}
use koto7_tuma.Workflow.{second}
use koto7_tuma.Adapters.Defs.{Digests, Headers, Adapter, get_adapter, verify, extract_event_id}

-- connCache: the newest entry of a path is the first one.
pub record CachedConnection : Type 0 where
  pub path : Text
  pub conn : Connection
  pub secret : Text
  pub expires_at : ℕ

abbrev pub Cache : Type 0
Cache = List CachedConnection

unfoldable pub is_entry_of : Text → CachedConnection → Bool
is_entry_of path c = text_eq c.path path

unfoldable pub cache_load : Text → Cache → Option CachedConnection
unfolding is_entry_of
cache_load path cache = find (is_entry_of path) cache

unfoldable pub cache_delete : Text → Cache → Cache
unfolding is_entry_of
cache_delete path cache = keep_if (λ c. not (is_entry_of path c)) cache

unfoldable pub cache_store : CachedConnection → Cache → Cache
unfolding cache_delete
cache_store c cache = c ∷ cache_delete c.path cache

-- The fields of Server that the handlers use. `uuid_text` prints an identifier, `header_json` is
-- json.Marshal of the request's headers, and the limit is cfg.MaxBodyBytes.
pub record ServerEnv : Type 0 where
  pub store : StoreEnv
  pub encryptor : Gcm
  pub digests : Digests
  pub uuid_text : ℕ → Text
  pub max_body_bytes : ℕ

pub record Request : Type 0 where
  pub path : Text
  pub headers : Headers
  pub header_json : Text
  pub body : Text
  pub nonces : Nonces

-- A connection with its decrypted secret, and the cache after the lookup.
pub record Lookup : Type 0 where
  pub found : Option (Connection × Text)
  pub cache : Cache

unfoldable pub load_connection : ServerEnv → Cache → Text → Option Connection → Db Lookup
load_connection env cache path none = pure (record { found = none; cache = cache })
load_connection env cache path (some conn) = do
  secret ← lift (decrypt_bytes env.encryptor conn.signing_secret_enc)
  now ← get_now
  pure (record {
    found = some (conn, secret);
    cache =
        cache_store
          (record { path = path; conn = conn; secret = secret; expires_at = now + 30 * second })
          cache;
  })

unfoldable pub query_connection : ServerEnv → Cache → Text → Db Lookup
query_connection env cache path = do
  conn ← get_connection_by_inbound_path path
  load_connection env cache path conn

unfoldable pub from_cache : ServerEnv → Cache → Text → ℕ → Option CachedConnection → Db Lookup
from_cache env cache path now none = query_connection env cache path
from_cache env cache path now (some c) =
    if ltb now c.expires_at
    then pure (record { found = some (c.conn, c.secret); cache = cache })
    else query_connection env cache path

unfoldable pub get_cached_connection : ServerEnv → Cache → Text → Db Lookup
get_cached_connection env cache path = do
  now ← get_now
  from_cache env cache path now (cache_load path cache)

-- The status of the response and the cache after the request.
pub record Reply : Type 0 where
  pub status : ℕ
  pub cache : Cache

-- WorkflowID
unfoldable pub workflow_id : ServerEnv → ℕ → Text
workflow_id env event_id = str "delivery-" ++ env.uuid_text event_id

unfoldable pub after_start : ServerEnv → ℕ → Res (Unit {0}) → Db Unit
after_start env event_id (err _) = pure tt
after_start env event_id (ok _) =
    ignore_error (set_event_workflow_id event_id (workflow_id env event_id))

-- What follows the acknowledgement of a new event.
unfoldable pub start_delivery : ServerEnv → Event → Db Unit
start_delivery env e = do
  started ←
      attempt
        (remote (start_workflow (record { workflow_id = workflow_id env e.id; event_id = e.id })))
  after_start env e.id started

unfoldable pub deliver_if_new : ServerEnv → Bool → Option Event → Db Unit
deliver_if_new env false e = pure tt
deliver_if_new env true none = pure tt
deliver_if_new env true (some e) = start_delivery env e

unfoldable pub after_insert : ServerEnv → Cache → Res InsertEventResult → Db Reply
after_insert env cache (err _) = pure (record { status = 500; cache = cache })
after_insert env cache (ok r) = do
  deliver_if_new env r.inserted r.event
  pure (record { status = 200; cache = cache })

abbrev pub new_event : ServerEnv → Connection → Adapter → Request → Event
new_event env conn a req = record {
  id = 0;
  connection_id = conn.id;
  provider_event_id = extract_event_id env.digests a req.headers req.body;
  raw_headers = req.header_json;
  raw_payload = req.body;
  payload_encrypted = false;
  received_at = 0;
  workflow_id = none;
}

unfoldable pub accept : ServerEnv → Cache → Connection → Adapter → Request → Db Reply
accept env cache conn a req = do
  r ← attempt (insert_event env.store req.nonces (new_event env conn a req))
  after_insert env cache r

unfoldable pub with_adapter :
    ServerEnv → Cache → Connection → Text → Request → Option Adapter → Db Reply
with_adapter env cache conn secret req none = pure (record { status = 500; cache = cache })
with_adapter env cache conn secret req (some a) = do
  now ← get_now
  if verify env.digests now a req.headers req.body secret
      then accept env cache conn a req
      else pure (record { status = 401; cache = cache })

unfoldable pub with_found : ServerEnv → Cache → Request → Option (Connection × Text) → Db Reply
with_found env cache req none = pure (record { status = 404; cache = cache })
with_found env cache req (some (conn, secret)) =
    with_adapter env cache conn secret req (get_adapter conn.source_type)

-- The cache stays as it was where the lookup fails.
unfoldable pub with_connection : ServerEnv → Cache → Request → Res Lookup → Db Reply
with_connection env cache req (err _) = pure (record { status = 404; cache = cache })
with_connection env cache req (ok l) = with_found env l.cache req l.found

unfoldable pub ingest : ServerEnv → Cache → Request → Db Reply
ingest env cache req =
    if ltb env.max_body_bytes (length req.body)
    then pure (record { status = 413; cache = cache })
    else (do
      l ← attempt (get_cached_connection env cache req.path)
      with_connection env cache req l)

-- startReplay: ReplayWorkflowID names the workflow after the event and the time.
unfoldable pub start_replay : (ℕ → ℕ → Text) → ℕ → Db Unit
start_replay replay_workflow_id event_id = do
  now ← get_now
  remote (
      start_workflow
        (record { workflow_id = replay_workflow_id event_id now; event_id = event_id }))
