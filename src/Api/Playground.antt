-- ===== src/Api/Playground.antt =====
-- internal/api/playground.go: the handlers of the public playground, and the collection of idle
-- sessions. Writing the event stream is input and output.
pub mod Status
pub mod Controls
pub mod Garbage
use koto7_tuma.Prelude.{
  ℕ, suc, ◌+◌, ◌-◌, ◌/◌, ℤ, pos, Text, str, text_eq, is_empty, has_prefix, decimal, Bool, true,
  false, not, ◌&&◌, Option, none, some, List, [], ◌∷◌, ◌++◌, ltb, leb, ◌==◌, length, if◌then◌else◌,
}
use koto7_tuma.Float.{Float64, FloatOps}
use koto7_tuma.Crypto.{encrypt_bytes, decrypt_bytes}
use koto7_tuma.Workflow.{second}
use koto7_tuma.Storage.Rows.{Connection, Delivery, Issue, PlaygroundSession}
use koto7_tuma.Storage.Connections.{get_connection, update_connection_source_type}
use koto7_tuma.Storage.Playground.{
  get_playground_session, touch_playground_session, set_playground_fail_destination,
  create_playground_session, count_playground_sessions, delete_playground_sessions_older_than,
  evict_oldest_playground_sessions,
}
use koto7_tuma.Storage.Listings.{
  inbound_url, list_deliveries_for_connection, get_latest_open_issue_for_connection,
  open_issues_count_for_connection, delivered_count_24h_for_connection,
}
use koto7_tuma.Storage.Stats.{ConnectionStats, get_connection_stats}
use koto7_tuma.Storage.Events.{lift}
use koto7_tuma.Storage.Db.{
  Db, Res, ok, err, no_rows, pure, fail, ◌>>=◌, ◌>>◌, attempt, ignore_error, get_now, fresh_id,
  or_error, require,
}
use koto7_tuma.Playground.Hub.{LogEvent, SessionHub, publish}
use koto7_tuma.Playground.Simulate.{
  Payloads, Client, SimulateRequest, SimulateResult, send_events, trim_slash, body_preview,
}
use koto7_tuma.Api.Ingest.{Cache, cache_delete, start_replay}
use koto7_tuma.Api.Buckets.{Buckets, allow}
use koto7_tuma.Api.Auth.{Cookie}
use koto7_tuma.Api.Console.{Random, random_secret, generate_inbound_path}
use koto7_tuma.Api.Http.{Answer, success, refusal, ConsoleEnv}

-- What these handlers use besides the console's: the configuration, the payloads and the HTTP
-- client of the simulation, float64 and the durations in seconds.
pub record PlayEnv : Type 0 where
  pub console : ConsoleEnv
  pub internal_base : Text
  pub session_ttl : ℕ
  pub max_sessions : ℕ
  pub payloads : Payloads
  pub client : Client
  pub floats : FloatOps
  pub seconds : ℕ → Float64
  pub percentile : List ℕ → Option Float64

-- The state that the handlers share: the cache of connections, the live views of each session
-- and the token buckets.
pub record PlayState : Type 0 where
  pub cache : Cache
  pub hubs : ℕ → SessionHub
  pub buckets : Buckets

abbrev pub Play : Type 0 → Type 0
Play A = Db (Answer A × PlayState)

abbrev pub refuse : {A : Type 0} → ℕ → PlayState → Play A
refuse status st = pure (refusal status, st)

module _ {A B : Type 0} where
  -- `if err != nil { … status }`
  abbrev pub go_on : ℕ → PlayState → (A → Play B) → Res A → Play B
  go_on status st next (err _) = refuse status st
  go_on status st next (ok a) = next a

  unfoldable pub call_else : ℕ → PlayState → Db A → (A → Play B) → Play B
  call_else status st m next = do r ← attempt m; go_on status st next r

-- playgroundRL.allow, or 429
unfoldable pub when_allowed :
    {A : Type 0} → PlayEnv → PlayState → Text → ℕ → ℕ → (PlayState → Play A) → Play A
when_allowed env st key per_hour burst next = do
  now ← get_now
  let answer = allow env.floats env.seconds now key per_hour burst st.buckets
  let st' = record st { buckets = answer.1 }
  if answer.0 then next st' else refuse 429 st'

-- PublishSim, and PublishDest with a delivery and a body
unfoldable pub publish_sim : ℕ → Text → PlayState → PlayState
publish_sim id line st = record st {
  hubs = λ k.
      if k == id
      then publish true (record { line = line; delivery_id = []; body_preview = [] }) (st.hubs k)
      else st.hubs k;
}

unfoldable pub publish_dest : ℕ → LogEvent → PlayState → PlayState
publish_dest id ev st = record st {
  hubs = λ k. if k == id then publish false ev (st.hubs k) else st.hubs k;
}

abbrev pub parsed : PlayEnv → Option Text → Option ℕ
parsed env none = none
parsed env (some value) = env.console.parse_uuid value

abbrev pub session_of_id : Option ℕ → Db PlaygroundSession
session_of_id none = fail no_rows
session_of_id (some id) = require no_rows (get_playground_session id)

unfoldable pub session_from_request : PlayEnv → Option Text → Db PlaygroundSession
session_from_request env cookie = session_of_id (parsed env cookie)

unfoldable pub playground_cookie : PlayEnv → ℕ → Cookie
playground_cookie env id = record {
  name = str "tuma_playground";
  value = env.console.server.uuid_text id;
  expires = 0;
  max_age = pos (env.session_ttl / second);
  secure = has_prefix env.console.public_base_url (str "https://");
}

pub record Summary : Type 0 where
  pub cookie : Cookie
  pub session_id : Text
  pub connection_id : Text
  pub inbound_url : Text
  pub inbound_path : Text
  pub source_type : Text
  pub destination_fail : Bool

unfoldable pub playground_summary : PlayEnv → PlaygroundSession → Connection → Summary
unfolding playground_cookie inbound_url
playground_summary env ps conn = record {
  cookie = playground_cookie env ps.id;
  session_id = env.console.server.uuid_text ps.id;
  connection_id = env.console.server.uuid_text conn.id;
  inbound_url = inbound_url env.console.public_base_url conn.inbound_path;
  inbound_path = conn.inbound_path;
  source_type = conn.source_type;
  destination_fail = ps.fail_destination;
}

abbrev pub with_conn :
    PlaygroundSession → Res (Option Connection) → Option (PlaygroundSession × Connection)
with_conn ps (err _) = none
with_conn ps (ok none) = none
with_conn ps (ok (some conn)) = some (ps, conn)

-- The session of the request, with its connection, if it has both.
unfoldable pub resume : Res PlaygroundSession → Db (Option (PlaygroundSession × Connection))
resume (err _) = pure none
resume (ok ps) = do
  ignore_error (touch_playground_session ps.id)
  conn ← attempt (get_connection ps.connection_id)
  pure (with_conn ps conn)

abbrev pub evict_if_full : ℕ → Res ℕ → Db Unit
evict_if_full limit (err _) = pure tt
evict_if_full limit (ok n) =
    if leb limit n then ignore_error (evict_oldest_playground_sessions 1) else pure tt

abbrev pub answer_new : PlayEnv → PlayState → PlaygroundSession × Connection → Play Summary
answer_new env st p = pure (success 200 (playground_summary env p.0 p.1), st)

unfoldable pub store_session : PlayEnv → PlayState → ℕ → Text → Play Summary
store_session env st id enc = do
  path ← generate_inbound_path env.console
  call_else 500 st
      (create_playground_session env.console.server.store.pg env.console.float_2 id path enc (
        trim_slash env.internal_base
        ++ str "/playground/r/"
        ++ env.console.server.uuid_text id
        ++ str "/hook"))
      (answer_new env st)

unfoldable pub new_playground : PlayEnv → PlayState → Random → Play Summary
new_playground env st r = do
  count ← attempt count_playground_sessions
  evict_if_full env.max_sessions count
  id ← fresh_id
  call_else 500 st
      (lift
        (encrypt_bytes env.console.server.encryptor r.seal_nonce (random_secret r.secret_bytes)))
      (store_session env st id)

unfoldable pub resumed_or_new :
    PlayEnv → PlayState → Random → Option (PlaygroundSession × Connection) → Play Summary
resumed_or_new env st r (some p) = answer_new env st p
resumed_or_new env st r none = new_playground env st r

abbrev pub bootstrap_allowed : PlayEnv → Option Text → Random → PlayState → Play Summary
bootstrap_allowed env cookie r st = do
  ps ← attempt (session_from_request env cookie)
  found ← resume ps
  resumed_or_new env st r found

unfoldable pub bootstrap : PlayEnv → PlayState → Text → Option Text → Random → Play Summary
bootstrap env st ip cookie r =
    when_allowed env st (str "bootstrap:" ++ ip) 10 3 (bootstrap_allowed env cookie r)
